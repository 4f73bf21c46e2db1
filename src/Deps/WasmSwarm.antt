-- ===== src/Deps/WasmSwarm.antt =====
-- How a swarm is put together in a browser, where `libp2p::SwarmBuilder` is not used: the identity,
-- the transport, and the calls that say which swarm is meant. The other calls are in Deps/Libp2p.
use ping_pong_libp2p.Io.{Result, Io}
use ping_pong_libp2p.Text.{Text}
use ping_pong_libp2p.Deps.Libp2p.{Libp2p}

pub record WasmSwarm (n : Libp2p) (PublicKey RelayClient Behaviour : Type 0) : Type 1 where
  pub Keypair : Type 0
  pub Noise : Type 0
  pub Transport : Type 0
  pub Swarm : Type 0
  pub Control : Type 0
  pub public : Keypair → PublicKey
  -- `PeerId::from`
  pub peer_id_from : PublicKey → n.PeerId
  -- `noise::Config::new`
  pub noise_config : Keypair → Result Noise Text
  -- `websocket_websys::Transport::default()`, `or_transport`, `relay::client::new`
  pub websocket_websys : Transport
  pub or_transport : Transport → Transport → Transport
  pub relay_client : n.PeerId → Transport × RelayClient
  -- `upgrade(Version::V1)`, `authenticate`, `multiplex` with yamux, `boxed`
  pub secured : Transport → Noise → Transport
  -- `Swarm::new`, with `Config::with_wasm_executor()`
  pub new_swarm : Transport → Behaviour → n.PeerId → n.World → Swarm × n.World
  pub dial : Swarm → n.Multiaddr → Io n.World Text (Unit {0})
  pub new_control : Swarm → Control
  pub open_stream : Control → n.PeerId → Io n.World Text n.Stream
