-- ===== src/Demo/Peers.antt =====
-- The peer of an address as the four programs read it: both versions of the crate, the client in the
-- browser and the native client.
use ping_pong_libp2p.Base.Iterators.{last}
use ping_pong_libp2p.Base.{
  ◌≤◌, ◌≡◌, ap, Option, some, List, [], ◌∷◌, ◌++◌, length, Option-cases, inl, inr, arith,
}
use ping_pong_libp2p.Io.{Result, ok, err}
use ping_pong_libp2p.Text.{Text}
use ping_pong_libp2p.Deps.Libp2p.{Libp2p}
use ping_pong_libp2p.NetV1.EventLoop as First
use ping_pong_libp2p.NetV1.EventLoop.Peers.{extract_peer_id-agree}
use ping_pong_libp2p.NetV2.Address.{filter_map, extract_peer_id}
use ping_pong_libp2p.NetV2.Address.Destination.{extract_peer_id-last}
use ping_pong_libp2p.Demo.Browser as Browser
use ping_pong_libp2p.Demo.Client.{server_peer}

-- A peer that the native client takes is the one that is given.
abbrev pub IsTaken {ℓ} : {P : Type ℓ} → Result P Text → Option P → Type ℓ
IsTaken (ok peer) p = p ≡ some peer
IsTaken (err e) p = Unit

last-split {ℓ} :
    {A : Type ℓ} (xs : List A) (x : A)
    → last xs ≡ some x
    → (before : List A) × (xs ≡ before ++ (x ∷ []))
unfolding last
last-split [] x h = absurd (ground (arith, h))
last-split (y ∷ []) x h = ([], ap (λ z. z ∷ []) (cc h))
last-split (y ∷ z ∷ xs) x h =
    let (before, e) = last-split (z ∷ xs) x h in (y ∷ before, ap (λ l. y ∷ l) e)

module _ (n : Libp2p) where
  server_peer-IsTaken : (m : n.Multiaddr) → IsTaken (server_peer n m) (extract_peer_id n m)
  unfolding server_peer
  server_peer-IsTaken m = elim (Option-cases (last (n.iter m))) [
    | inl e ↦ rw (e, server_peer) tt
    | inr (q, e) ↦ elim (Option-cases (n.p2p q)) [
      | inl none_there ↦ rw (e, server_peer, none_there) tt
      | inr (peer, there) ↦
          (let (before, split) = last-split (n.iter m) q e in
            rw (e, server_peer, there) (extract_peer_id-last n m before [] q peer split there tt))
    ]
  ]

  -- Where an address has at most one `/p2p/` component, the two versions of the crate and the
  -- client in the browser agree on the peer that it leads to, and on there being none; and if the
  -- native client accepts such an address, it takes the same peer.
  pub peers-agree :
      (m : n.Multiaddr)
      → length (filter_map n.p2p (n.iter m)) ≤ 1
      → (First.extract_peer_id n m ≡ extract_peer_id n m)
        × (Browser.extract_peer_id n m ≡ extract_peer_id n m)
        × IsTaken (server_peer n m) (extract_peer_id n m)
  unfolding Browser.extract_peer_id First.extract_peer_id
  peers-agree m h =
      (extract_peer_id-agree n m h, extract_peer_id-agree n m h, server_peer-IsTaken m)
