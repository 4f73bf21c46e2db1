-- ===== src/NetV1/EventLoop/Sends.antt =====
-- What the first version's loop does with a message to send.
use ping_pong_libp2p.Base.Iterators.{find_map}
use ping_pong_libp2p.Base.{
  ◌≡◌, subst, inl, inr, none, some, List, [], ◌∷◌, ◌++◌, arith, append-nil, if◌then◌else◌,
  Bool-cases, Option-cases,
}
use ping_pong_libp2p.Base.Assoc.{get-insert, get-remove, insert}
use ping_pong_libp2p.Io.{ok, err, Result-cases}
use ping_pong_libp2p.Text.{text}
use ping_pong_libp2p.Deps.Json.{Json}
use ping_pong_libp2p.Deps.Libp2p.{Libp2p}
use ping_pong_libp2p.NetV1.Types.{MessageId, GlobalAddress, MeerkatMessage, protocol_error}
use ping_pong_libp2p.NetV1.EventLoop.{
  Loop, call, entry, push, forget, extract_peer_id, send_to_peer, dial_for, send_known, handle_send,
}
use ping_pong_libp2p.NetV1.EventLoop.Outcome.{
  report, SameBooks, Outcome, failed, lost_queue, waits, sent, failure, queue_after, stream_failure,
  outcome,
}

module _ {n : Libp2p} (j : Json MeerkatMessage) where
  pub send_to_peer-SameBooks :
      (peer : n.PeerId) (id : MessageId) (msg : MeerkatMessage) (l : Loop n)
      → SameBooks l (send_to_peer n j peer id msg l)
  unfolding send_to_peer
  send_to_peer-SameBooks peer id msg l = ground arith

  pub calls-send_to_peer :
      (peer : n.PeerId) (id : MessageId) (msg : MeerkatMessage) (l : Loop n)
      → (send_to_peer n j peer id msg l).calls
        ≡ l.calls ++ report id (stream_failure n j peer msg l.net)
  unfolding send_to_peer
  calls-send_to_peer peer id msg l = ground (arith, append-nil l.calls)

  -- What a `Send` command of the outcome `o` has done to `l`.
  abbrev Done : MessageId → MeerkatMessage → n.PeerId → Outcome n → Loop n → Loop n → Type 0
  Done id msg q o l l' =
      (l'.calls ≡ l.calls ++ report id (failure n o))
      × (entry l' q ≡ queue_after n o (id, msg) q (entry l q))
      × (l'.pending_listen ≡ l.pending_listen)
      × (l'.local_addrs ≡ l.local_addrs)
      × (l'.responses ≡ l.responses)

  pub entry-SameBooks : (l l' : Loop n) (q : n.PeerId) → SameBooks l l' → entry l' q ≡ entry l q
  unfolding entry
  entry-SameBooks l l' q h = rw h.sends

  Done-send_to_peer :
      (peer : n.PeerId) (id : MessageId) (msg : MeerkatMessage) (l : Loop n) (q : n.PeerId)
      → Done id msg q
          (elim (stream_failure n j peer msg l.net) [ none ↦ sent | some e ↦ failed e ])
          l
          (send_to_peer n j peer id msg l)
  Done-send_to_peer peer id msg l q =
      let books : SameBooks l (send_to_peer n j peer id msg l) =
        send_to_peer-SameBooks peer id msg l in
      let same : entry (send_to_peer n j peer id msg l) q ≡ entry l q =
        entry-SameBooks l _ q books in
      elim (Option-cases (stream_failure n j peer msg l.net)) [
        | inl e ↦ ground (
          arith,
          calls-send_to_peer peer id msg l,
          same,
          books.listens,
          books.addrs,
          books.answers,
        )
        | inr (x, e) ↦ ground (
          arith,
          calls-send_to_peer peer id msg l,
          same,
          books.listens,
          books.addrs,
          books.answers,
        )
      ]

  Done-dial_for :
      (addr : n.Multiaddr) (peer : n.PeerId) (id : MessageId) (msg : MeerkatMessage) (l : Loop n)
      (q : n.PeerId)
      → Done id msg q
          (elim (n.dial addr l.net).0 [
            | ok _ ↦ waits peer
            | err e ↦ lost_queue peer (protocol_error (text "Dial failed: " ++ e))
          ])
          l
          (dial_for n j addr peer id (push l peer (id, msg)))
  unfolding dial_for push forget call entry
  Done-dial_for addr peer id msg l q =
      let queue : List (MessageId × MeerkatMessage) = entry l peer ++ ((id, msg) ∷ []) in
      let pushed = get-insert ⦃test = n.peer_eq⦄ l.pending_sends peer q queue in
      let removed =
        get-remove ⦃test = n.peer_eq⦄ (insert ⦃test = n.peer_eq⦄ l.pending_sends peer queue) peer
          q in
      let same = (n.peer_eq).beq_iff peer q in
      elim (Result-cases (n.dial addr l.net).0) [
        | inl (u, p) ↦ ground (arith, p, pushed, same, append-nil l.calls)
        | inr (e, p) ↦ ground (arith, p, pushed, removed, same)
      ]

  Done-send_known :
      (addr : n.Multiaddr) (peer : n.PeerId) (id : MessageId) (msg : MeerkatMessage) (l : Loop n)
      (q : n.PeerId)
      → Done id msg q
          (if n.is_connected l.net peer
            then elim (stream_failure n j peer msg l.net) [ none ↦ sent | some e ↦ failed e ]
            else elim (n.dial addr l.net).0 [
              | ok _ ↦ waits peer
              | err e ↦ lost_queue peer (protocol_error (text "Dial failed: " ++ e))
            ])
          l
          (send_known n j addr peer id msg l)
  unfolding send_known
  Done-send_known addr peer id msg l q = elim (Bool-cases (n.is_connected l.net peer)) [
    | inl up ↦ rw (up, send_known) (Done-send_to_peer peer id msg l q)
    | inr down ↦ rw (down, send_known) (Done-dial_for addr peer id msg l q)
  ]

  outcome-found :
      (addr : GlobalAddress) (msg : MeerkatMessage) (w : n.World) (m : n.Multiaddr)
      (peer : n.PeerId)
      → n.parse addr ≡ ok m
      → find_map n.p2p (n.iter m) ≡ some peer
      → (if n.is_connected w peer
          then elim (stream_failure n j peer msg w) [ none ↦ sent | some e ↦ failed e ]
          else elim (n.dial m w).0 [
            | ok _ ↦ waits peer
            | err e ↦ lost_queue peer (protocol_error (text "Dial failed: " ++ e))
          ])
        ≡ outcome n j addr msg w
  outcome-found addr msg w m peer p found = ground (arith, p, found)

  -- A `Send` command makes exactly the call of `on_send_error` that its outcome names, under the
  -- message's own id, or none; of all queues it changes at most the one of the peer it leads to,
  -- where the message then waits last, or, after a dial that fails at once, nothing waits any
  -- more; and it leaves the listening alone.
  pub handle_send_lem :
      (id : MessageId) (addr : GlobalAddress) (msg : MeerkatMessage) (l : Loop n) (q : n.PeerId)
      → let l' = handle_send n j id addr msg l in
        let o = outcome n j addr msg l.net in
        (l'.calls ≡ l.calls ++ report id (failure n o))
        × (entry l' q ≡ queue_after n o (id, msg) q (entry l q))
        × (l'.pending_listen ≡ l.pending_listen)
        × (l'.local_addrs ≡ l.local_addrs)
        × (l'.responses ≡ l.responses)
  unfolding handle_send extract_peer_id
  handle_send_lem id addr msg l q = elim (Result-cases (n.parse addr)) [
    | inr (e, p) ↦ unfold call entry in ground (arith, p)
    | inl (m, p) ↦ elim (Option-cases (find_map n.p2p (n.iter m))) [
      | inl lost ↦ unfold call entry in ground (arith, p, lost)
      | inr (peer, found) ↦
          subst (λ o. Done id msg q o l (handle_send n j id addr msg l))
            (outcome-found addr msg l.net m peer p found)
            (rw (p, handle_send, found) (Done-send_known m peer id msg l q))
    ]
  ]
