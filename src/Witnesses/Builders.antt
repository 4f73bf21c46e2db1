-- ===== src/Witnesses/Builders.antt =====
-- A builder of swarms that notes what was asked of it, and gives a network and a peer that are
-- given; and swarms in a browser that are all one network.
use ping_pong_libp2p.Base.{List, [], ◌∷◌, ◌++◌, ◌≡◌, refl}
use ping_pong_libp2p.Io.{ok, err}
use ping_pong_libp2p.Text.{Text, text}
use ping_pong_libp2p.Deps.Libp2p.{Libp2p}
use ping_pong_libp2p.Deps.SwarmBuilder.{SwarmBuilder}
use ping_pong_libp2p.Deps.WasmSwarm.{WasmSwarm}
use ping_pong_libp2p.NetV2.Swarm.{MeerkatBehaviour, build_swarm}

abbrev pub noted :
    (n : Libp2p) → n.World → n.PeerId → SwarmBuilder n (Unit {0}) (Unit {0}) (Unit {0})
noted n w me = record {
  Builder = List Text;
  to_peer_id = λ _. me;
  with_new_identity = [];
  with_tcp = λ _ b. ok (text "tcp" ∷ b);
  with_websocket = λ _ b. ok (text "websocket" ∷ b);
  with_relay_client = λ _ b. ok (text "relay" ∷ b);
  with_relay_behaviour = λ _ b. ok (text "behaviour" ∷ b);
  with_behaviour = λ _ b. ok (text "behaviour" ∷ b);
  with_idle_connection_timeout = λ _ b. text "timeout" ∷ b;
  build = λ _. (w, me);
}

abbrev pub shared : (n : Libp2p) → n.PeerId → WasmSwarm n (Unit {0}) (Unit {0}) (Unit {0})
shared n me = record {
  Keypair = Unit {0};
  Noise = Unit {0};
  Transport = List Text;
  Swarm = n.PeerId;
  Control = n.PeerId;
  public = λ _. tt;
  peer_id_from = λ _. me;
  noise_config = λ _. ok tt;
  websocket_websys = text "websocket" ∷ [];
  or_transport = λ t u. t ++ u;
  relay_client = λ _. (text "relay" ∷ [], tt);
  secured = λ t _. text "secured" ∷ t;
  new_swarm = λ _ _ peer w. (peer, w);
  dial = λ _. n.dial;
  new_control = λ peer. peer;
  open_stream = λ _. n.open_stream;
}

-- A builder that finds no websocket, and a node that is built with it.
abbrev no_websocket :
    (n : Libp2p)
    → n.World
    → n.PeerId
    → SwarmBuilder n (Unit {0}) (Unit {0}) (MeerkatBehaviour n (Unit {0}) (Unit {0}))
no_websocket n w me = record {
  Builder = Unit {0};
  to_peer_id = λ _. me;
  with_new_identity = tt;
  with_tcp = λ _ b. ok b;
  with_websocket = λ _ b. err (text "no websocket");
  with_relay_client = λ _ b. ok b;
  with_relay_behaviour = λ _ b. ok b;
  with_behaviour = λ _ b. ok b;
  with_idle_connection_timeout = λ _ b. b;
  build = λ _. (w, me);
}

build_swarm-no_websocket :
    (n : Libp2p) (w : n.World) (me : n.PeerId)
    → build_swarm (no_websocket n w me) ≡ err (text "no websocket")
unfolding build_swarm
build_swarm-no_websocket n w me = refl
