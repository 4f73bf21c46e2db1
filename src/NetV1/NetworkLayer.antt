-- ===== src/NetV1/NetworkLayer.antt =====
-- The trait `NetworkLayer` of meerkat-net/src/interface.rs, and what a manager may rely on with
-- either implementation.
pub mod Ids
use ping_pong_libp2p.Base.{ℕ, ◌+◌, ◌%◌, ◌^◌, ◌≡◌, List, ◌++◌}
use ping_pong_libp2p.Io.{Result}
use ping_pong_libp2p.Text.{Text}
use ping_pong_libp2p.NetV1.Types.{MessageId, GlobalAddress, MeerkatMessage, NetworkError}

-- `Shared` is what a node shares with other tasks, which may change it between two calls; `World` is
-- what an implementation waits for in `listen`.
pub record NetworkLayer : Type 1 where
  pub Self : Type 0
  pub Shared : Type 0
  pub World : Type 0
  pub send : GlobalAddress → MeerkatMessage → Self → Shared → MessageId × Self × Shared
  pub listen :
      World → GlobalAddress → Self → Shared → Result (Unit {0}) NetworkError × Self × Shared
  pub local_addresses : Self → Shared → List GlobalAddress
  pub local_peer_id : Self → Text

-- What every implementation promises, where `next_id` reads the next message id off a node: a send
-- is answered with the next message id and `listen` gives none out; a send leaves the local
-- addresses, and a `listen` removes none; and the node keeps its name.
pub record Contract (n : NetworkLayer) (next_id : n.Self → ℕ) : Type 0 where
  pub id-send :
      (addr : GlobalAddress) (msg : MeerkatMessage) (s : n.Self) (h : n.Shared)
      → (n.send addr msg s h).0 ≡ next_id s
  pub next_id-send :
      (addr : GlobalAddress) (msg : MeerkatMessage) (s : n.Self) (h : n.Shared)
      → next_id (n.send addr msg s h).1 ≡ (next_id s + 1) % 2 ^ 64
  pub next_id-listen :
      (w : n.World) (addr : GlobalAddress) (s : n.Self) (h : n.Shared)
      → next_id (n.listen w addr s h).1 ≡ next_id s
  pub local_addresses-send :
      (addr : GlobalAddress) (msg : MeerkatMessage) (s : n.Self) (h : n.Shared)
      → let (_, s', h') = n.send addr msg s h in n.local_addresses s' h' ≡ n.local_addresses s h
  pub local_addresses-listen :
      (w : n.World) (addr : GlobalAddress) (s : n.Self) (h : n.Shared)
      → let (_, s', h') = n.listen w addr s h in
        (es : List GlobalAddress) × (n.local_addresses s' h' ≡ n.local_addresses s h ++ es)
  pub local_peer_id-send :
      (addr : GlobalAddress) (msg : MeerkatMessage) (s : n.Self) (h : n.Shared)
      → n.local_peer_id (n.send addr msg s h).1 ≡ n.local_peer_id s
  pub local_peer_id-listen :
      (w : n.World) (addr : GlobalAddress) (s : n.Self) (h : n.Shared)
      → n.local_peer_id (n.listen w addr s h).1 ≡ n.local_peer_id s
