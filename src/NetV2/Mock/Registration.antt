-- ===== src/NetV2/Mock/Registration.antt =====
-- Making mock nodes on one registry.
use ping_pong_libp2p.Base.{
  ℕ, suc, ◌^◌, ◌<◌, ◌≡◌, ◌≢◌, refl, ap, ◌∙◌, Bool, true, false, some, [], arith, nat_beq,
  nat_beq_iff, if◌then◌else◌, beq_refl, beq_ne, ◌==◌, Bool-cases, inl, inr,
}
use ping_pong_libp2p.Base.Assoc.{get, get-insert}
use ping_pong_libp2p.Text.{Text, text_eq, slash}
use ping_pong_libp2p.Text.Segments.{Lacks}
use ping_pong_libp2p.Deps.Channel.{Channel, ChannelLaws}
use ping_pong_libp2p.NetV2.Messages.{NetworkEvent}
use ping_pong_libp2p.NetV2.Mock.{Registry, new_with_registry}
use ping_pong_libp2p.NetV2.Mock.PeerName.{mock_peer, mock_peer-injective, mock_peer-Lacks}
use ping_pong_libp2p.NetV2.Mock.Delivery.{IsAttached, events}

same_name : (s t : ℕ) → s < 2 ^ 32 → t < 2 ^ 32 → (mock_peer t == mock_peer s) ≡ nat_beq s t
same_name s t hs ht = elim (Bool-cases (nat_beq s t)) [
  | inl same ↦
      rw same
        (ap (λ k. mock_peer t == mock_peer k) ((nat_beq_iff s t).0 same) ∙ beq_refl (mock_peer t))
  | inr other ↦ rw other (
      beq_ne (mock_peer t) (mock_peer s)
        λ e. absurd (ground (arith, mock_peer-injective t s ht hs e)))
]

some-if : (b : Bool) (x y : ℕ) → (if b then some x else some y) ≡ some (if b then x else y)
some-if true x y = refl
some-if false x y = refl

module _ {c : Channel NetworkEvent} where
  get-new_with_registry :
      (nanos : ℕ) (r : Registry c) (peer : Text)
      → get (new_with_registry nanos r).1.senders peer
        ≡ (if mock_peer nanos == peer then some r.next_channel else get r.senders peer)
  unfolding new_with_registry
  get-new_with_registry nanos r peer = get-insert r.senders (mock_peer nanos) peer r.next_channel

  attached :
      (nanos : ℕ) (r : Registry c)
      → get (new_with_registry nanos r).1.senders (mock_peer nanos) ≡ some r.next_channel
  attached nanos r =
      get-new_with_registry nanos r (mock_peer nanos)
      ∙ ap (λ b. if b then some r.next_channel else get r.senders (mock_peer nanos))
          (beq_refl (mock_peer nanos))

  -- Two nodes made on one registry at clock readings `s` and `t` have channels of their own. The
  -- first stays reachable under its name exactly if the readings differ; made at the same
  -- reading, the second takes its name over, and what is sent there arrives at the second.
  pub new_with_registry_twice :
      (s t : ℕ) (r : Registry c)
      → s < 2 ^ 32
      → t < 2 ^ 32
      → let (first, r1) = new_with_registry s r in
        let (second, r2) = new_with_registry t r1 in
        (first.event_rx ≢ second.event_rx)
        × IsAttached second r2
        × (get r2.senders first.peer_id
            ≡ some (if nat_beq s t then second.event_rx else first.event_rx))
  new_with_registry_twice s t r hs ht = (
    unfold new_with_registry in λ e. absurd (omega (arith, e)),
    unfold new_with_registry in attached t (new_with_registry s r).1,
    unfold new_with_registry in
        (get-new_with_registry t (new_with_registry s r).1 (mock_peer s)
          ∙ ap (λ o. if mock_peer t == mock_peer s then some (suc r.next_channel) else o)
              (attached s r)
          ∙ ap (λ b. if b then some (suc r.next_channel) else some r.next_channel)
              (same_name s t hs ht)
          ∙ some-if (nat_beq s t) (suc r.next_channel) r.next_channel),
  )

module _ {c : Channel NetworkEvent} (laws : ChannelLaws c) where
  -- A new node is attached under a name of one component, and nothing waits for it.
  new_with_registry-IsAttached :
      (nanos : ℕ) (r : Registry c)
      → let (node, r') = new_with_registry nanos r in
        IsAttached node r' × Lacks slash node.peer_id × (events laws r' node.event_rx ≡ [])
  unfolding new_with_registry
  new_with_registry-IsAttached nanos r = (
    attached nanos r,
    mock_peer-Lacks nanos,
    ap laws.contents (ground arith) ∙ laws.contents-unbounded_channel,
  )
