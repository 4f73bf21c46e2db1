-- ===== src/NetV2/Address.antt =====
-- The addresses of meerkat-net-v2/src/actor.rs: which one is dialled for a canonical address, and
-- which peer an address leads to.
pub mod Translation
pub mod Destination
use ping_pong_libp2p.Base.{◌&&◌, ◌||◌, Option, none, some, List, [], ◌∷◌, ◌++◌, map, if◌then◌else◌}
use ping_pong_libp2p.Io.{Result, ok, err}
use ping_pong_libp2p.Text.{Text, text, starts_with, contains}
use ping_pong_libp2p.Deps.Libp2p.{Libp2p}
use ping_pong_libp2p.NetV2.Types.{Address, NodeType, server, browser_client}

-- `NetworkActor::translate_address`; of the actor it reads `node_type` alone.
unfoldable pub translate_address : NodeType → Address → Result Address Text
translate_address server canonical = ok canonical
translate_address (browser_client relay_server) canonical =
    if starts_with canonical relay_server && contains canonical (text "/p2p-circuit")
    then ok canonical
    else if starts_with canonical (text "/ip4/") || starts_with canonical (text "/ip6/")
    then ok (relay_server ++ (text "/p2p-circuit/" ++ canonical))
    else ok canonical

-- `NetworkActor::translate_address_pub`; `none` is the panic of `unwrap`.
unfoldable pub translate_address_pub : NodeType → Address → Option Address
unfolding translate_address
translate_address_pub t canonical = elim (translate_address t canonical) [
  | ok addr ↦ some addr
  | err _ ↦ none
]

-- `iter.filter_map(f).collect()`
unfoldable pub filter_map {ℓ κ} : {A : Type ℓ} {B : Type κ} → (A → Option B) → List A → List B
filter_map f [] = []
filter_map f (x ∷ xs) = let rest = filter_map f xs in elim (f x) [ none ↦ rest | some y ↦ y ∷ rest ]

-- `Vec::pop`, of which the result alone is used.
unfoldable pub pop {ℓ} : {A : Type ℓ} → List A → Option A
pop [] = none
pop (x ∷ []) = some x
pop (x ∷ y ∷ xs) = pop (y ∷ xs)

module _ (n : Libp2p) where
  -- `NetworkActor::extract_peer_id`
  unfoldable pub extract_peer_id : n.Multiaddr → Option n.PeerId
  unfolding filter_map pop
  extract_peer_id addr = let peer_ids = filter_map n.p2p (n.iter addr) in pop peer_ids
