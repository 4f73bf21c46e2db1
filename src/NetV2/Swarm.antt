-- ===== src/NetV2/Swarm.antt =====
-- `MeerkatBehaviour` and `build_swarm` of meerkat-net-v2/src/actor.rs, in its two versions: with
-- `libp2p::SwarmBuilder`, and in a browser.
use ping_pong_libp2p.Base.{ℕ}
use ping_pong_libp2p.Io.{Result, ok, and_then}
use ping_pong_libp2p.Text.{Text, text}
use ping_pong_libp2p.Deps.Libp2p.{Libp2p}
use ping_pong_libp2p.Deps.SwarmBuilder.{SwarmBuilder, noise}
use ping_pong_libp2p.Deps.WasmSwarm.{WasmSwarm}

-- The limits of `relay::Config` that are set; the others are the crate's own.
pub record RelayConfig : Type 0 where
  pub max_reservations : ℕ
  pub max_circuits : ℕ
  pub max_circuits_per_peer : ℕ

-- A behaviour of libp2p is what its `new` is given: `relay::Behaviour` the peer and the limits,
-- `identify::Behaviour` the version and the key. Of `stream::Behaviour` there is one.
pub record MeerkatBehaviour (n : Libp2p) (PublicKey RelayClient : Type 0) : Type 0 where
  pub relay : n.PeerId × RelayConfig
  pub relay_client : RelayClient
  pub identify : Text × PublicKey

unfoldable pub relay_config : RelayConfig
relay_config = record { max_reservations = 1000; max_circuits = 1000; max_circuits_per_peer = 100 }

unfoldable pub meerkat_behaviour :
    (n : Libp2p) {PublicKey RelayClient : Type 0}
    → n.PeerId
    → PublicKey
    → RelayClient
    → MeerkatBehaviour n PublicKey RelayClient
unfolding relay_config
meerkat_behaviour n peer key relay_client = record {
  relay = (peer, relay_config);
  relay_client = relay_client;
  identify = (text "/meerkat/1.0.0", key);
}

module _ {n : Libp2p} {PublicKey RelayClient : Type 0} where
  unfoldable pub build_swarm :
      SwarmBuilder n PublicKey RelayClient (MeerkatBehaviour n PublicKey RelayClient)
      → Result (n.World × n.PeerId) Text
  unfolding meerkat_behaviour
  build_swarm b = and_then (b.with_tcp noise b.with_new_identity) λ tcp.
      and_then (b.with_websocket noise tcp) λ websocket.
        and_then (b.with_relay_client noise websocket) λ relay.
          and_then
            (b.with_relay_behaviour
              (λ key relay_client. meerkat_behaviour n (b.to_peer_id key) key relay_client) relay)
            λ built. ok (b.build (b.with_idle_connection_timeout 60 built))

  -- In a browser, with `id_keys` the identity that is generated, and in the network `w`.
  unfoldable pub build_swarm_wasm :
      (x : WasmSwarm n PublicKey RelayClient (MeerkatBehaviour n PublicKey RelayClient))
      → x.Keypair
      → n.World
      → Result ((x.Swarm × n.World) × n.PeerId) Text
  unfolding meerkat_behaviour
  build_swarm_wasm x id_keys w =
      let key : PublicKey = x.public id_keys in
      let local_peer_id : n.PeerId = x.peer_id_from key in
      let (relay_transport, relay_client) = x.relay_client local_peer_id in
      and_then (x.noise_config id_keys) λ config.
        let transport : x.Transport =
          x.secured (x.or_transport x.websocket_websys relay_transport) config in
        ok (
          x.new_swarm transport (meerkat_behaviour n local_peer_id key relay_client) local_peer_id
              w,
          local_peer_id,
        )
