-- ===== src/Deps/Libp2p.antt =====
-- `libp2p`: addresses, peers, the swarm and its streams. Errors are the texts that the program
-- renders them to. The swarm, its `Control` and all streams live in the one `World` of the streams.
use ping_pong_libp2p.Base.{◌≡◌, Bool, true, Option, none, List, [], ◌∷◌, ◌++◌, Eq}
use ping_pong_libp2p.Io.{Result, err, Io}
use ping_pong_libp2p.Text.{Text, text, contains}
use ping_pong_libp2p.Deps.Streams.{Streams}

pub record Libp2p : Type 1 where
  pub streams : Streams
  pub open streams use *
  pub Multiaddr : Type 0
  pub PeerId : Type 0
  pub Protocol : Type 0
  pub peer_eq : Eq PeerId
  -- `to_string`
  pub show_peer : PeerId → Text
  pub show_addr : Multiaddr → Text
  -- `parse::<Multiaddr>()`
  pub parse : Text → Result Multiaddr Text
  -- `iter()`, `with(…)`
  pub iter : Multiaddr → List Protocol
  pub with_protocol : Multiaddr → Protocol → Multiaddr
  -- The peer of a `Protocol::P2p`, and `Protocol::P2pCircuit`.
  pub p2p : Protocol → Option PeerId
  pub p2p_circuit : Protocol
  -- Methods of `Swarm` and `Control`.
  pub is_connected : World → PeerId → Bool
  pub dial : Multiaddr → Io World Text (Unit {0})
  pub listen_on : Multiaddr → Io World Text (Unit {0})
  pub add_external_address : World → Multiaddr → World
  pub open_stream : PeerId → Io World Text Stream

-- What the crate documents of addresses.
pub record AddressLaws (n : Libp2p) : Type 0 where
  pub iter-with_protocol :
      (m : n.Multiaddr) (p : n.Protocol) → n.iter (n.with_protocol m p) ≡ n.iter m ++ (p ∷ [])
  pub p2p-p2p_circuit : n.p2p n.p2p_circuit ≡ none
  -- A protocol name follows each slash: after a `p2p-circuit` hop no empty component is accepted.
  pub parse_empty_component :
      (s : Text) → contains s (text "/p2p-circuit//") ≡ true → (e : Text) × (n.parse s ≡ err e)
