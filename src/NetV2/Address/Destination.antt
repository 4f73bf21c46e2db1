-- ===== src/NetV2/Address/Destination.antt =====
-- Which peer an address leads to.
use ping_pong_libp2p.Base.{
  ◌≡◌, refl, ap, ◌∙◌, Option, none, some, List, [], ◌∷◌, ◌++◌, arith, All, append-nil,
}
use ping_pong_libp2p.Deps.Libp2p.{Libp2p, AddressLaws}
use ping_pong_libp2p.NetV2.Address.{filter_map, pop, extract_peer_id}

module _ {ℓ κ} {A : Type ℓ} {B : Type κ} where
  filter_map-append :
      (f : A → Option B) (xs ys : List A)
      → filter_map f (xs ++ ys) ≡ filter_map f xs ++ filter_map f ys
  unfolding filter_map
  filter_map-append f [] ys = refl
  filter_map-append f (x ∷ xs) ys = ground (arith, filter_map-append f xs ys)

  -- Nothing is kept where nothing maps to a value.
  filter_map-none :
      (f : A → Option B) (xs : List A) → All (λ x. f x ≡ none) xs → filter_map f xs ≡ []
  unfolding filter_map
  filter_map-none f [] h = refl
  filter_map-none f (x ∷ xs) h = ground (arith, filter_map-none f xs)

module _ {ℓ} {A : Type ℓ} where
  pop-append : (xs : List A) (y : A) → pop (xs ++ (y ∷ [])) ≡ some y
  unfolding pop
  pop-append [] y = refl
  pop-append (x ∷ []) y = refl
  pop-append (x ∷ x' ∷ xs) y = pop-append (x' ∷ xs) y

module _ (n : Libp2p) where
  last_kept :
      (p : n.Protocol) (peer : n.PeerId) (after : List n.Protocol)
      → n.p2p p ≡ some peer
      → All (λ q. n.p2p q ≡ none) after
      → filter_map n.p2p (p ∷ after) ≡ peer ∷ []
  unfolding filter_map
  last_kept p peer after e h = ground (arith, filter_map-none n.p2p after h)

  -- An address leads to the peer of its last `/p2p/` component, whatever relays stand before it.
  pub extract_peer_id-last :
      (m : n.Multiaddr) (before after : List n.Protocol) (p : n.Protocol) (peer : n.PeerId)
      → n.iter m ≡ before ++ (p ∷ after)
      → n.p2p p ≡ some peer
      → All (λ q. n.p2p q ≡ none) after
      → extract_peer_id n m ≡ some peer
  unfolding extract_peer_id
  extract_peer_id-last m before after p peer e is h =
      ap (λ l. pop (filter_map n.p2p l)) e
      ∙ ap pop (filter_map-append n.p2p before (p ∷ after))
      ∙ ap (λ l. pop (filter_map n.p2p before ++ l)) (last_kept p peer after is h)
      ∙ pop-append (filter_map n.p2p before) peer

  -- An address with no such component leads nowhere.
  extract_peer_id-none :
      (m : n.Multiaddr) → All (λ q. n.p2p q ≡ none) (n.iter m) → extract_peer_id n m ≡ none
  unfolding extract_peer_id
  extract_peer_id-none m h = ap pop (filter_map-none n.p2p (n.iter m) h)

  -- Listening on a relay's address over a circuit leads to the relay's own peer.
  extract_peer_id-circuit :
      (laws : AddressLaws n) (m : n.Multiaddr)
      → extract_peer_id n (n.with_protocol m n.p2p_circuit) ≡ extract_peer_id n m
  unfolding extract_peer_id
  extract_peer_id-circuit laws m =
      ap (λ l. pop (filter_map n.p2p l)) (laws.iter-with_protocol m n.p2p_circuit)
      ∙ ap pop (filter_map-append n.p2p (n.iter m) (n.p2p_circuit ∷ []))
      ∙ ap (λ l. pop (filter_map n.p2p (n.iter m) ++ l))
          (filter_map-none n.p2p (n.p2p_circuit ∷ []) (laws.p2p-p2p_circuit, tt))
      ∙ ap pop (append-nil (filter_map n.p2p (n.iter m)))
