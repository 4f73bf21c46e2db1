-- ===== src/Demo/Browser.antt =====
-- wasm-client/src/lib.rs: the demo's client in a browser. Its statics CONTROL and PEER_ID are a state.
-- A `JsValue` is the text that it holds. The console's log is not modelled, and neither is a lock
-- that is poisoned: nothing panics while it holds one.
pub mod Connecting
pub mod PingPong
use ping_pong_libp2p.Base.{
  Bool, true, false, Option, none, some, List, [], ◌∷◌, ◌++◌, length, if◌then◌else◌,
}
use ping_pong_libp2p.Base.Iterators.{find_map}
use ping_pong_libp2p.Io.{Result, ok, err, Io, lift, pure, ◌>>=◌, ◌>>◌}
use ping_pong_libp2p.Text.{Text, text}
use ping_pong_libp2p.Deps.Json.{Json}
use ping_pong_libp2p.Deps.Libp2p.{Libp2p}
use ping_pong_libp2p.Deps.WasmSwarm.{WasmSwarm}
use ping_pong_libp2p.Frame.{u32, to_be_bytes, from_be_bytes}
use ping_pong_libp2p.Demo.{PingMessage, PongMessage}

-- `map_err(|e| JsValue::from_str(&format!("<reason>{}", e)))`
abbrev pub map_err : {A : Type 0} → Text → Result A Text → Result A Text
map_err reason (ok a) = ok a
map_err reason (err e) = err (reason ++ e)

abbrev pub blame : {W A : Type 0} → Text → Io W Text A → Io W Text A
blame reason m w = (map_err reason (m w).0, (m w).1)

-- `ok_or_else(|| JsValue::from_str("<reason>"))`
abbrev pub ok_or : {A : Type 0} → Text → Option A → Result A Text
ok_or reason none = err reason
ok_or reason (some a) = ok a

-- `libp2p::swarm::SwarmEvent`, as the wait for the connection tells them apart.
pub data SwarmEvent (n : Libp2p) : Type 0 where
  connection_established : n.PeerId → SwarmEvent n
  outgoing_connection_error : Text → SwarmEvent n
  other : SwarmEvent n

-- The statics CONTROL and PEER_ID, and the network, with all swarms.
pub record Page (n : Libp2p) (Control : Type 0) : Type 0 where
  pub control : Option Control
  pub peer_id : Option n.PeerId
  pub net : n.World

-- What a call of `connect_to_server` comes to: it still waits, it panicked, or it returned.
pub data Outcome : Type 0 where
  waiting : Outcome
  panicked : Outcome
  returned : Result (Unit {0}) Text → Outcome

module _ (n : Libp2p) where
  unfoldable pub extract_peer_id : n.Multiaddr → Option n.PeerId
  unfolding find_map
  extract_peer_id addr = find_map n.p2p (n.iter addr)

  -- The loop that waits for the connection, over the events of the swarm.
  unfoldable pub await_connection : n.PeerId → List (SwarmEvent n) → Outcome
  await_connection remote [] = waiting
  await_connection remote (connection_established peer ∷ es) =
      let rest = await_connection remote es in
      if n.peer_eq.beq peer remote then returned (ok tt) else rest
  await_connection remote (outgoing_connection_error error ∷ es) =
      returned (err (text "Connection failed: " ++ error))
  await_connection remote (other ∷ es) = await_connection remote es

  -- What follows the wait.
  unfoldable pub store :
      {Control : Type 0} → n.PeerId → Control → Outcome → Page n Control → Outcome × Page n Control
  store remote control waiting page = (waiting, page)
  store remote control panicked page = (panicked, page)
  store remote control (returned (err e)) page = (returned (err e), page)
  store remote control (returned (ok _)) page =
      (returned (ok tt), record page { peer_id = some remote; control = some control })

-- `stream_behaviour` is `stream::Behaviour::new()`.
module _ (n : Libp2p) {PublicKey RelayClient Behaviour : Type 0}
    (x : WasmSwarm n PublicKey RelayClient Behaviour) (stream_behaviour : Behaviour) where
  unfoldable pub build_swarm : x.Keypair → x.Noise → n.World → x.Swarm × n.World
  build_swarm id_keys config =
      x.new_swarm (x.secured x.websocket_websys config) stream_behaviour
        (x.peer_id_from (x.public id_keys))

  -- From the dial on.
  unfoldable pub dial_server :
      x.Swarm
      → n.Multiaddr
      → n.PeerId
      → List (SwarmEvent n)
      → Page n x.Control
      → Outcome × Page n x.Control
  unfolding await_connection store
  dial_server swarm addr remote events page =
      let (dialled, w) = x.dial swarm addr page.net in
      let page' : Page n x.Control = record page { net = w } in
      elim dialled [
        | err e ↦ (returned (err (text "Dial error: " ++ e)), page')
        | ok _ ↦ store n remote (x.new_control swarm) (await_connection n remote events) page'
      ]

  -- With `id_keys` the identity that is generated, and `events` those of the swarm after the dial.
  unfoldable pub connect_to_server :
      Text → x.Keypair → List (SwarmEvent n) → Page n x.Control → Outcome × Page n x.Control
  unfolding extract_peer_id build_swarm dial_server
  connect_to_server server_addr id_keys events page = elim (n.parse server_addr) [
    | err e ↦ (returned (err (text "Invalid address: " ++ e)), page)
    | ok addr ↦ elim (extract_peer_id n addr) [
      | none ↦ (returned (err (text "No peer ID in address")), page)
      | some remote ↦ elim (x.noise_config id_keys) [
        | err _ ↦ (panicked, page)
        | ok config ↦
            (let (swarm, w) = build_swarm id_keys config page.net in
              dial_server swarm addr remote events (record page { net = w }))
      ]
    ]
  ]

module _ (n : Libp2p) {PublicKey RelayClient Behaviour : Type 0}
    (x : WasmSwarm n PublicKey RelayClient Behaviour) (pings : Json PingMessage)
    (pongs : Json PongMessage) where
  unfoldable pub exchange : Page n x.Control → Text → Io n.World Text Text
  exchange page message = do
    peer ← lift (ok_or (text "Not connected") page.peer_id)
    control ← lift (ok_or (text "No control handle") page.control)
    stream ← blame (text "Stream error: ") (x.open_stream control peer)
    let ping : PingMessage = record { message = message }
    request_data ← lift (map_err (text "Serialize error: ") (pings.to_vec ping))
    blame (text "Write error: ") (n.write_all stream (to_be_bytes (u32 (length request_data))))
    blame (text "Write error: ") (n.write_all stream request_data)
    len_bytes ← blame (text "Read error: ") (n.read_exact stream 4)
    buf ← blame (text "Read error: ") (n.read_exact stream (from_be_bytes len_bytes))
    pong ← lift (map_err (text "Deserialize error: ") (pongs.from_slice buf))
    λ w. (ok pong.message, (n.close stream w).1)

  unfoldable pub send_ping : Text → Page n x.Control → Result Text Text × Page n x.Control
  unfolding exchange
  send_ping message page =
      let (answer, w) = exchange page message page.net in (answer, record page { net = w })
