-- ===== src/Deps/SwarmBuilder.antt =====
-- `libp2p::SwarmBuilder`, from a new identity to the swarm. A configuration that is the crate's own
-- default is not listed; `with_websocket` and `with_relay_client` take how a stream is secured.
use ping_pong_libp2p.Base.{ℕ}
use ping_pong_libp2p.Io.{Result}
use ping_pong_libp2p.Text.{Text}
use ping_pong_libp2p.Deps.Libp2p.{Libp2p}

-- `noise::Config::new`, or that and `tls::Config::new`.
pub data Security : Type 0 where
  noise : Security
  tls_and_noise : Security

pub record SwarmBuilder (n : Libp2p) (PublicKey RelayClient Behaviour : Type 0) : Type 1 where
  pub Builder : Type 0
  pub to_peer_id : PublicKey → n.PeerId
  pub with_new_identity : Builder
  pub with_tcp : Security → Builder → Result Builder Text
  pub with_websocket : Security → Builder → Result Builder Text
  pub with_relay_client : Security → Builder → Result Builder Text
  -- The behaviour is made from the public key of the identity.
  pub with_behaviour : (PublicKey → Behaviour) → Builder → Result Builder Text
  -- The same after `with_relay_client`, where it is made from the relay client too.
  pub with_relay_behaviour : (PublicKey → RelayClient → Behaviour) → Builder → Result Builder Text
  -- In seconds.
  pub with_idle_connection_timeout : ℕ → Builder → Builder
  -- The swarm, with its `local_peer_id`.
  pub build : Builder → n.World × n.PeerId
