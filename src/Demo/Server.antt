-- ===== src/Demo/Server.antt =====
-- server/src/main.rs. The buffers that `handle_ping` allocates, what is printed, and that `accept`
-- would refuse a protocol a second time are not modelled; the log is kept as far as it tells how
-- tasks ended.
pub mod Answers
pub mod Tasks
pub mod Isolation
pub mod Beside
pub mod Stages
pub mod Progress
pub mod Runs
pub mod Main
pub mod Rejects
use ping_pong_libp2p.Base.{ℕ, Option, none, some, List, [], ◌∷◌, ◌++◌, length}
use ping_pong_libp2p.Base.Indices.{get_elem?, set}
use ping_pong_libp2p.Io.{Result, ok, err, and_then, Io, lift, pure, ◌>>=◌, ◌>>◌}
use ping_pong_libp2p.Text.{Text, text}
use ping_pong_libp2p.Deps.Streams.{Streams}
use ping_pong_libp2p.Deps.Json.{Json}
use ping_pong_libp2p.Deps.Libp2p.{Libp2p}
use ping_pong_libp2p.Deps.SwarmBuilder.{SwarmBuilder, noise, tls_and_noise}
use ping_pong_libp2p.Frame.{u32, to_be_bytes, from_be_bytes}
use ping_pong_libp2p.Demo.{PingMessage, PongMessage}

-- `PongMessage { message: format!("Pong! You said: {}", ping.message) }`
unfoldable pub pong_for : PingMessage → PongMessage
pong_for ping = record { message = text "Pong! You said: " ++ ping.message }

module _ (s : Streams) (pings : Json PingMessage) (pongs : Json PongMessage) where
  unfoldable pub handle_ping : s.Stream → Io s.World Text (Unit {0})
  unfolding pong_for
  handle_ping stream = do
    len_bytes ← s.read_exact stream 4
    buf ← s.read_exact stream (from_be_bytes len_bytes)
    ping ← lift (pings.from_slice buf)
    let pong = pong_for ping
    response_data ← lift (pongs.to_vec pong)
    s.write_all stream (to_be_bytes (u32 (length response_data)))
    s.write_all stream response_data
    pure tt

-- A task that handles a stream, by the `await` of `handle_ping` that it waits at, with what it goes
-- on with: the two reads, the two writes, and the value it ends with.
pub data Task : Type 0 where
  reading_length : Task
  reading_body : ℕ → Task
  writing_length : List ℕ → Task
  writing_body : List ℕ → Task
  finished : Result (Unit {0}) Text → Task

-- A task goes on with the value of its `await`, or ends with the error of it.
abbrev pub awaited : {A : Type 0} → Result A Text → (A → Task) → Task
awaited (ok a) next = next a
awaited (err e) next = finished (err e)

module _ (s : Streams) (pings : Json PingMessage) (pongs : Json PongMessage) where
  -- What `handle_ping` does between its reads and its writes.
  unfoldable pub respond : List ℕ → Task
  unfolding pong_for
  respond buf =
      awaited (pings.from_slice buf) λ ping. awaited (pongs.to_vec (pong_for ping)) writing_length

  -- The call that the task waits for completes, and the task runs to its next `await`.
  unfoldable pub resume : s.Stream → Task → s.World → Task × s.World
  unfolding respond
  resume stream reading_length w =
      let (r, v) = s.read_exact stream 4 w in
      (awaited r (λ len_bytes. reading_body (from_be_bytes len_bytes)), v)
  resume stream (reading_body len) w =
      let (r, v) = s.read_exact stream len w in (awaited r respond, v)
  resume stream (writing_length response_data) w =
      let (r, v) = s.write_all stream (to_be_bytes (u32 (length response_data))) w in
      (awaited r (λ _. writing_body response_data), v)
  resume stream (writing_body response_data) w =
      let (r, v) = s.write_all stream response_data w in (awaited r (λ _. finished (ok tt)), v)
  resume stream (finished r) w = (finished r, w)

-- A stream that was accepted and the task that was spawned for it.
pub record Spawned (n : Libp2p) : Type 0 where
  pub peer : n.PeerId
  pub stream : n.Stream
  pub task : Task

-- What wakes the server: a stream that was accepted, the completion of the call that the task of
-- this number waits for, or an event of the swarm.
pub data Wake (n : Libp2p) : Type 0 where
  incoming : n.PeerId → n.Stream → Wake n
  turn : ℕ → Wake n
  new_listen_addr : n.Multiaddr → Wake n
  connection_established : n.PeerId → Wake n
  other : Wake n

-- The network, the spawned tasks, numbered from 0, and how they ended, the oldest first: the line
-- "Pong sent", or the error of the line "Error".
pub record Server (n : Libp2p) : Type 0 where
  pub net : n.World
  pub tasks : List (Spawned n)
  pub log : List (n.PeerId × Result (Unit {0}) Text)

-- What a task logs that came from one `await` to another.
unfoldable pub ended : {P : Type 0} → P → Task → Task → List (P × Result (Unit {0}) Text)
ended peer (finished _) next = []
ended peer _ (finished r) = (peer, r) ∷ []
ended peer _ _ = []

module _ (n : Libp2p) where
  unfoldable pub listen_on : Text → Io n.World Text (Unit {0})
  listen_on address = do multiaddr ← lift (n.parse address); n.listen_on multiaddr

  -- The two addresses.
  unfoldable pub listen : Io n.World Text (Unit {0})
  unfolding listen_on
  listen = do
    listen_on (text "/ip4/127.0.0.1/tcp/9000")
    listen_on (text "/ip4/127.0.0.1/tcp/9001/ws")

-- `with_p2p` is `Multiaddr::with_p2p`, which refuses an address that ends with another peer.
module _ (n : Libp2p) (pings : Json PingMessage) (pongs : Json PongMessage)
    (with_p2p : n.Multiaddr → n.PeerId → Result n.Multiaddr n.Multiaddr)
    (local_peer_id : n.PeerId) where
  -- The task of this number goes on.
  unfoldable pub run : ℕ → Server n → Server n
  unfolding resume ended
  run k s = elim (get_elem? s.tasks k) [
    | none ↦ s
    | some spawned ↦
        (let (next, v) = resume n.streams pings pongs spawned.stream spawned.task s.net in
          record {
            net = v;
            tasks =
                set s.tasks k
                  (record { peer = spawned.peer; stream = spawned.stream; task = next });
            log = s.log ++ ended spawned.peer spawned.task next;
          })
  ]

  -- One turn; `none` is the panic of `unwrap`.
  unfoldable pub step : Wake n → Server n → Option (Server n)
  unfolding run
  step (incoming peer stream) s = some (record {
    net = s.net;
    tasks = s.tasks ++ (record { peer = peer; stream = stream; task = reading_length } ∷ []);
    log = s.log;
  })
  step (turn k) s = some (run k s)
  step (new_listen_addr address) s = elim (with_p2p address local_peer_id) [
    | ok _ ↦ some s
    | err _ ↦ none
  ]
  step (connection_established peer) s = some s
  step other s = some s

  unfoldable pub serve : List (Wake n) → Server n → Option (Server n)
  unfolding step
  serve [] s = some s
  serve (w ∷ ws) s = elim (step w s) [ none ↦ none | some s' ↦ serve ws s' ]

-- `stream_behaviour` is `stream::Behaviour::new()`.
unfoldable pub build_swarm :
    (n : Libp2p) {PublicKey RelayClient Behaviour : Type 0}
    → SwarmBuilder n PublicKey RelayClient Behaviour
    → Behaviour
    → Result (n.World × n.PeerId) Text
build_swarm n b stream_behaviour = and_then (b.with_tcp noise b.with_new_identity) λ tcp.
    and_then (b.with_websocket tls_and_noise tcp) λ websocket.
      and_then (b.with_behaviour (λ _. stream_behaviour) websocket)
        λ built. ok (b.build (b.with_idle_connection_timeout 60 built))

module _ (n : Libp2p) {PublicKey RelayClient Behaviour : Type 0}
    (b : SwarmBuilder n PublicKey RelayClient Behaviour) (stream_behaviour : Behaviour)
    (pings : Json PingMessage) (pongs : Json PongMessage)
    (with_p2p : n.Multiaddr → n.PeerId → Result n.Multiaddr n.Multiaddr) where
  -- On what reading the log's filter from the environment gives, over what wakes the server once
  -- it listens.
  unfoldable pub main : Result (Unit {0}) Text → List (Wake n) → Result (Option (Server n)) Text
  unfolding build_swarm listen serve
  main filter ws = and_then filter λ _. and_then (build_swarm n b stream_behaviour) λ swarm.
      let (listening, v) = listen n swarm.0 in
      and_then listening
        λ _. ok (serve n pings pongs with_p2p swarm.1 ws (record { net = v; tasks = []; log = [] }))
