-- ===== src/NetV2/EventLoop/Pending.antt =====
-- What happens to the messages that wait for a connection.
use ping_pong_libp2p.Base.{
  ◌≡◌, refl, ap, ◌∙◌, inl, inr, Bool, true, false, some, [], ◌∷◌, ◌++◌, arith, if◌then◌else◌,
  Bool-cases,
}
use ping_pong_libp2p.Base.Assoc.{get-insert, get-remove}
use ping_pong_libp2p.Io.{ok, err}
use ping_pong_libp2p.Deps.Json.{Json}
use ping_pong_libp2p.Deps.Libp2p.{Libp2p}
use ping_pong_libp2p.NetV2.Types.{MessageId, Address, MeerkatMessage}
use ping_pong_libp2p.NetV2.Address.{extract_peer_id}
use ping_pong_libp2p.NetV2.EventLoop.{
  Loop, entry, push, forget, send_to_peer, dial_for, send_known, do_send,
}
use ping_pong_libp2p.NetV2.EventLoop.Events.{send_to_peer-SameBooks}

-- The equality test on peers.
abbrev pub same_peer : (n : Libp2p) → n.PeerId → n.PeerId → Bool
same_peer n = (n.peer_eq).beq

module _ {n : Libp2p} where
  entry-push :
      (l : Loop n) (peer q : n.PeerId) (m : MessageId × MeerkatMessage)
      → entry (push l peer m) q
        ≡ (if same_peer n peer q then entry l peer ++ (m ∷ []) else entry l q)
  unfolding push
  entry-push l peer q m =
      ground
        (arith, get-insert ⦃test = n.peer_eq⦄ l.pending_sends peer q (entry l peer ++ (m ∷ [])))

  pub entry-forget :
      (l : Loop n) (peer q : n.PeerId)
      → entry (forget l peer) q ≡ (if same_peer n peer q then [] else entry l q)
  unfolding forget entry
  entry-forget l peer q = ground (arith, get-remove ⦃test = n.peer_eq⦄ l.pending_sends peer q)

module _ {n : Libp2p} (j : Json MeerkatMessage) where
  entry-send_to_peer :
      (peer q : n.PeerId) (id : MessageId) (msg : MeerkatMessage) (l : Loop n)
      → entry (send_to_peer n j peer id msg l) q ≡ entry l q
  unfolding entry
  entry-send_to_peer peer q id msg l =
      ap (λ b. entry (record l { pending_sends = b }) q)
        (send_to_peer-SameBooks j peer id msg l).sends

  entry-dial_for :
      (addr : n.Multiaddr) (peer q : n.PeerId) (id : MessageId) (l : Loop n)
      → entry (dial_for n j addr peer id l) q ≡ elim (n.dial addr l.net).0 [
        | ok _ ↦ entry l q
        | err _ ↦ (if same_peer n peer q then [] else entry l q)
      ]
  unfolding dial_for entry
  entry-dial_for addr peer q id l =
      ground (arith, get-remove ⦃test = n.peer_eq⦄ l.pending_sends peer q)

  pub send_known-down :
      (addr : n.Multiaddr) (peer : n.PeerId) (id : MessageId) (msg : MeerkatMessage) (l : Loop n)
      → n.is_connected l.net peer ≡ false
      → send_known n j addr peer id msg l ≡ dial_for n j addr peer id (push l peer (id, msg))
  unfolding send_known
  send_known-down addr peer id msg l down = rw down

  pub send_known-up :
      (addr : n.Multiaddr) (peer : n.PeerId) (id : MessageId) (msg : MeerkatMessage) (l : Loop n)
      → n.is_connected l.net peer ≡ true
      → send_known n j addr peer id msg l ≡ send_to_peer n j peer id msg l
  unfolding send_known
  send_known-up addr peer id msg l up = rw up

  pub do_send-known :
      (id : MessageId) (addr : Address) (msg : MeerkatMessage) (l : Loop n) (m : n.Multiaddr)
      (peer : n.PeerId)
      → n.parse addr ≡ ok m
      → extract_peer_id n m ≡ some peer
      → do_send n j id addr msg l ≡ send_known n j m peer id msg l
  unfolding do_send
  do_send-known id addr msg l m peer p e = rw (p, do_send, e)

  net-push :
      (l : Loop n) (peer : n.PeerId) (m : MessageId × MeerkatMessage) → (push l peer m).net ≡ l.net
  unfolding push
  net-push l peer m = refl

  entry-send_known :
      (addr : n.Multiaddr) (peer q : n.PeerId) (id : MessageId) (msg : MeerkatMessage) (l : Loop n)
      → entry (send_known n j addr peer id msg l) q ≡ (
          if n.is_connected l.net peer
          then entry l q
          else if same_peer n peer q
          then elim (n.dial addr l.net).0 [ ok _ ↦ entry l q ++ ((id, msg) ∷ []) | err _ ↦ [] ]
          else entry l q)
  entry-send_known addr peer q id msg l = elim (Bool-cases (n.is_connected l.net peer)) [
    | inl up ↦ rw up (
        ap (λ (k : Loop n). entry k q) (send_known-up addr peer id msg l up)
        ∙ entry-send_to_peer peer q id msg l)
    | inr down ↦ rw down (
        ap (λ (k : Loop n). entry k q) (send_known-down addr peer id msg l down)
        ∙ entry-dial_for addr peer q id (push l peer (id, msg))
        ∙ rw net-push (ground (arith, entry-push l peer q (id, msg), (n.peer_eq).beq_iff peer q)))
  ]

  -- What a `Send` command leaves waiting. For an unconnected peer the message joins the peer's
  -- queue at its end if the dial starts; if the dial fails at once, the peer's whole queue is
  -- dropped, the messages of earlier sends with it. The queues of all other peers, and all queues if
  -- the peer is connected, stay as they are.
  pub entry-do_send :
      (id : MessageId) (addr : Address) (msg : MeerkatMessage) (l : Loop n) (q : n.PeerId)
      (m : n.Multiaddr) (peer : n.PeerId)
      → n.parse addr ≡ ok m
      → extract_peer_id n m ≡ some peer
      → entry (do_send n j id addr msg l) q ≡ (
          if n.is_connected l.net peer
          then entry l q
          else if same_peer n peer q
          then elim (n.dial m l.net).0 [ ok _ ↦ entry l q ++ ((id, msg) ∷ []) | err _ ↦ [] ]
          else entry l q)
  entry-do_send id addr msg l q m peer p e =
      ap (λ (k : Loop n). entry k q) (do_send-known id addr msg l m peer p e)
      ∙ entry-send_known m peer q id msg l
