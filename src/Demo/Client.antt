-- ===== src/Demo/Client.antt =====
-- client/src/main.rs: the native client, which pings its server until the server does not speak the
-- protocol. The swarm's task and the log are not modelled.
use ping_pong_libp2p.Base.{
  Bool, true, false, ℕ, zero, suc, ◌+◌, ◌%◌, ◌^◌, Option, none, some, List, [], ◌∷◌, ◌++◌, length,
}
use ping_pong_libp2p.Base.Iterators.{last}
use ping_pong_libp2p.Io.{Result, ok, err, and_then, Io, lift, ◌>>=◌, ◌>>◌}
use ping_pong_libp2p.Text.{Text, text}
use ping_pong_libp2p.Text.Decimal.{decimal}
use ping_pong_libp2p.Deps.Json.{Json}
use ping_pong_libp2p.Deps.Libp2p.{Libp2p}
use ping_pong_libp2p.Deps.Streams.{Streams}
use ping_pong_libp2p.Deps.SwarmBuilder.{SwarmBuilder, noise}
use ping_pong_libp2p.Frame.{u32, to_be_bytes, from_be_bytes}
use ping_pong_libp2p.Demo.{PingMessage, PongMessage}
pub mod Rounds
pub mod Answered
pub mod Main
pub mod Served

-- `libp2p_stream::OpenStreamError`, as the client tells them apart.
pub data OpenStreamError : Type 0 where
  unsupported_protocol : OpenStreamError
  other : Text → OpenStreamError

-- The peer that `main` takes from the address it is given.
unfoldable pub server_peer : (n : Libp2p) → n.Multiaddr → Result n.PeerId Text
unfolding last
server_peer n address =
    let refused : Result n.PeerId Text = err (text "Address must end with /p2p/<peer-id>") in
    elim (last (n.iter address)) [
      | none ↦ refused
      | some protocol ↦ elim (n.p2p protocol) [ none ↦ refused | some peer ↦ ok peer ]
    ]

-- `format!("Hello from Meerkat client (ping #{})", counter)`
unfoldable pub ping_for : ℕ → PingMessage
unfolding decimal
ping_for counter = record {
  message = text "Hello from Meerkat client (ping #" ++ decimal counter ++ text ")";
}

module _ (s : Streams) (pings : Json PingMessage) (pongs : Json PongMessage) where
  unfoldable pub send_ping : s.Stream → ℕ → Io s.World Text (Unit {0})
  unfolding ping_for
  send_ping stream counter = do
    request_data ← lift (pings.to_vec (ping_for counter))
    s.write_all stream (to_be_bytes (u32 (length request_data)))
    s.write_all stream request_data
    len_bytes ← s.read_exact stream 4
    buf ← s.read_exact stream (from_be_bytes len_bytes)
    _ ← lift (pongs.from_slice buf)
    s.close stream

-- `sleep` is what happens in the two seconds that `tokio::time::sleep` waits, `open_stream` is
-- `control.open_stream(peer, PING_PROTOCOL)`.
module _ (s : Streams) (pings : Json PingMessage) (pongs : Json PongMessage)
    (sleep : s.World → s.World) (open_stream : Io s.World OpenStreamError s.Stream) where
  -- A round whose counter is given: `none` where the client returns, and otherwise whether the
  -- ping was completed.
  unfoldable pub round : ℕ → s.World → Option Bool × s.World
  unfolding send_ping
  round counter w =
      let (opened, v) = open_stream (sleep w) in
      elim opened [
        | err unsupported_protocol ↦ (none, v)
        | err (other _) ↦ (some false, v)
        | ok stream ↦
            (let (sent, v') = send_ping s pings pongs stream counter v in
              elim sent [ err _ ↦ (some false, v') | ok _ ↦ (some true, v') ])
      ]

  -- The loop, with fuel for its rounds. `completed` are the pings logged as complete.
  unfoldable pub send_pings : ℕ → ℕ → List ℕ → s.World → Option (List ℕ × s.World)
  unfolding round
  send_pings zero counter completed w = none
  send_pings (suc fuel) counter completed w =
      let next : ℕ = (counter + 1) % 2 ^ 64 in
      let (outcome, v) = round next w in
      elim outcome [
        | none ↦ some (completed, v)
        | some false ↦ send_pings fuel next completed v
        | some true ↦ send_pings fuel next (completed ++ (next ∷ [])) v
      ]

-- `Ok(())` of `main`, with the pings that were logged.
abbrev pub returned : {W : Type 0} → Option (List ℕ × W) → Option (Result (List ℕ × W) Text)
returned none = none
returned (some (completed, w)) = some (ok (completed, w))

-- The address that the first argument of the program gives, and the peer at its end.
unfoldable pub read_address : (n : Libp2p) → Option Text → Result (n.Multiaddr × n.PeerId) Text
unfolding server_peer
read_address n none = err (text "Usage: meerkat-client <server-multiaddr>")
read_address n (some arg) =
    and_then (n.parse arg) λ address. and_then (server_peer n address) λ peer. ok (address, peer)

-- `stream_behaviour` is `stream::Behaviour::new()`, `filter` what reading the log's filter from the
-- environment gives.
module _ (n : Libp2p) {PublicKey RelayClient Behaviour : Type 0}
    (b : SwarmBuilder n PublicKey RelayClient Behaviour) (stream_behaviour : Behaviour) where
  unfoldable pub build_swarm : Result n.World Text
  build_swarm = and_then (b.with_tcp noise b.with_new_identity) λ tcp.
      and_then (b.with_behaviour (λ _. stream_behaviour) tcp)
        λ built. ok (b.build (b.with_idle_connection_timeout 60 built)).0

  -- What `main` does before its first ping.
  unfoldable pub start : Result (Unit {0}) Text → Option Text → Result (n.PeerId × n.World) Text
  unfolding read_address build_swarm
  start filter arg = and_then filter λ _. and_then (read_address n arg) λ parsed.
      and_then build_swarm
        λ swarm. let (dialled, v) = n.dial parsed.0 swarm in and_then dialled λ _. ok (parsed.1, v)

module _ (n : Libp2p) {PublicKey RelayClient Behaviour : Type 0}
    (b : SwarmBuilder n PublicKey RelayClient Behaviour) (stream_behaviour : Behaviour)
    (pings : Json PingMessage) (pongs : Json PongMessage) (sleep : n.World → n.World)
    (open_stream : n.PeerId → Io n.World OpenStreamError n.Stream) where
  -- On the filter and the first argument of the program.
  unfoldable pub main :
      Result (Unit {0}) Text → Option Text → ℕ → Option (Result (List ℕ × n.World) Text)
  unfolding start send_pings
  main filter arg fuel = elim (start n b stream_behaviour filter arg) [
    | err e ↦ some (err e)
    | ok (peer, v) ↦
        returned (send_pings n.streams pings pongs sleep (open_stream peer) fuel 0 [] v)
  ]
