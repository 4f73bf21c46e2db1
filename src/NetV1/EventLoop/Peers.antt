-- ===== src/NetV1/EventLoop/Peers.antt =====
-- The peer that an address leads to, in the two versions of the crate.
use ping_pong_libp2p.Base.Iterators.{find_map}
use ping_pong_libp2p.Base.{
  ◌≤◌, ◌≡◌, refl, ap, ◌∙◌, Option, none, some, List, [], ◌∷◌, ◌++◌, arith, length, All,
  append_assoc,
}
use ping_pong_libp2p.Deps.Libp2p.{Libp2p}
use ping_pong_libp2p.NetV1.EventLoop.{extract_peer_id}
use ping_pong_libp2p.NetV2.Address.{filter_map, pop}
use ping_pong_libp2p.NetV2.Address as Second
use ping_pong_libp2p.NetV2.Address.Destination.{extract_peer_id-last}

abbrev first {ℓ} : {B : Type ℓ} → List B → Option B
first [] = none
first (y ∷ ys) = some y

-- `find_map` finds the first of what `filter_map` keeps.
find_map-filter_map {ℓ κ} :
    {A : Type ℓ} {B : Type κ} (f : A → Option B) (xs : List A)
    → find_map f xs ≡ first (filter_map f xs)
unfolding find_map filter_map
find_map-filter_map f [] = refl
find_map-filter_map f (x ∷ xs) = ground (arith, find_map-filter_map f xs)

first-pop {ℓ} : {B : Type ℓ} (ys : List B) → length ys ≤ 1 → first ys ≡ pop ys
unfolding pop
first-pop [] h = refl
first-pop (y ∷ []) h = refl
first-pop (y ∷ z ∷ ys) h = absurd (omega arith)

find_map-append {ℓ κ} :
    {A : Type ℓ} {B : Type κ} (f : A → Option B) (before : List A) (x : A) (rest : List A) (y : B)
    → All (λ a. f a ≡ none) before
    → f x ≡ some y
    → find_map f (before ++ (x ∷ rest)) ≡ some y
unfolding find_map
find_map-append f [] x rest y h e = ground (arith, e)
find_map-append f (a ∷ before) x rest y h e =
    ground (arith, find_map-append f before x rest y h.1 e)

module _ (n : Libp2p) where
  -- Where an address has at most one `/p2p/` component, the two versions agree on the peer that it
  -- leads to, and on there being none.
  pub extract_peer_id-agree :
      (m : n.Multiaddr)
      → length (filter_map n.p2p (n.iter m)) ≤ 1
      → extract_peer_id n m ≡ Second.extract_peer_id n m
  unfolding extract_peer_id Second.extract_peer_id
  extract_peer_id-agree m h =
      find_map-filter_map n.p2p (n.iter m) ∙ first-pop (filter_map n.p2p (n.iter m)) h

  -- On an address over a circuit the versions differ: the first version takes the peer of the
  -- first `/p2p/` component, which is the relay, the second that of the last, the destination.
  pub extract_peer_id-circuit_first :
      (m : n.Multiaddr) (before middle after : List n.Protocol) (p q : n.Protocol)
      (relay destination : n.PeerId)
      → n.iter m ≡ (before ++ (p ∷ middle)) ++ (q ∷ after)
      → All (λ a. n.p2p a ≡ none) before
      → n.p2p p ≡ some relay
      → n.p2p q ≡ some destination
      → All (λ a. n.p2p a ≡ none) after
      → (extract_peer_id n m ≡ some relay) × (Second.extract_peer_id n m ≡ some destination)
  unfolding extract_peer_id
  extract_peer_id-circuit_first m before middle after p q relay destination e h is_relay is_dest k =
      (
        ap (find_map n.p2p) (e ∙ append_assoc before (p ∷ middle) (q ∷ after))
            ∙ find_map-append n.p2p before p (middle ++ (q ∷ after)) relay h is_relay,
        extract_peer_id-last n m (before ++ (p ∷ middle)) after q destination e is_dest k,
      )
