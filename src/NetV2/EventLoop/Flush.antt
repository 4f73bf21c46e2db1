-- ===== src/NetV2/EventLoop/Flush.antt =====
-- What an established connection does to the messages that waited for it.
use ping_pong_libp2p.Base.{
  ◌≡◌, refl, sym, ap, ◌∙◌, Option, none, some, List, [], ◌∷◌, ◌++◌, arith, append-nil, append_assoc,
  if◌then◌else◌,
}
use ping_pong_libp2p.Base.Assoc.{remove, remove_missing}
use ping_pong_libp2p.Deps.Json.{Json}
use ping_pong_libp2p.Deps.Libp2p.{Libp2p}
use ping_pong_libp2p.NetV2.Types.{MessageId, MeerkatMessage, SendError}
use ping_pong_libp2p.NetV2.Messages.{NetworkEvent, send_failed, peer_connected}
use ping_pong_libp2p.NetV2.EventLoop.{
  Loop, emit, entry, forget, send_to_peer, send_messages, listen_on_relay, flush_pending,
  handle_swarm_event,
}
use ping_pong_libp2p.NetV2.EventLoop.Signals.{connection_established}
use ping_pong_libp2p.NetV2.EventLoop.Events.{
  SameBooks, send_to_peer-SameBooks, report, stream_failure, event_tx-send_to_peer,
}
use ping_pong_libp2p.NetV2.EventLoop.Pending.{same_peer, entry-forget}

-- The failures `es` reported of the messages `ms`: at most one of each message, under its own id,
-- in the order of the messages.
pub data Reports : List (MessageId × MeerkatMessage) → List NetworkEvent → Type 0 where
  done : Reports [] []
  sent :
      {ms : List (MessageId × MeerkatMessage)} {es : List NetworkEvent} (id : MessageId)
      (msg : MeerkatMessage)
      → Reports ms es
      → Reports ((id, msg) ∷ ms) es
  failed :
      {ms : List (MessageId × MeerkatMessage)} {es : List NetworkEvent} (id : MessageId)
      (msg : MeerkatMessage) (e : SendError)
      → Reports ms es
      → Reports ((id, msg) ∷ ms) (send_failed id e ∷ es)

Reports-cons :
    {ms : List (MessageId × MeerkatMessage)} {es : List NetworkEvent} (id : MessageId)
    (msg : MeerkatMessage) (failure : Option SendError)
    → Reports ms es
    → Reports ((id, msg) ∷ ms) (report id failure ++ es)
Reports-cons id msg none h = sent id msg h
Reports-cons id msg (some e) h = failed id msg e h

module _ {n : Libp2p} where
  SameBooks-refl : (l : Loop n) → SameBooks l l
  SameBooks-refl l = record { sends = refl; listens = refl; relays = refl; answers = refl }

  SameBooks-trans : (a b c : Loop n) → SameBooks a b → SameBooks b c → SameBooks a c
  SameBooks-trans a b c h k = record {
    sends = k.sends ∙ h.sends;
    listens = k.listens ∙ h.listens;
    relays = k.relays ∙ h.relays;
    answers = k.answers ∙ h.answers;
  }

  entry-SameBooks : (l l' : Loop n) (q : n.PeerId) → SameBooks l l' → entry l' q ≡ entry l q
  unfolding entry
  entry-SameBooks l l' q h = rw h.sends

  entry-emit : (l : Loop n) (q : n.PeerId) (e : NetworkEvent) → entry (emit l e) q ≡ entry l q
  unfolding entry emit
  entry-emit l q e = refl

module _ {n : Libp2p} (j : Json MeerkatMessage) where
  send_messages-SameBooks :
      (peer : n.PeerId) (ms : List (MessageId × MeerkatMessage)) (l : Loop n)
      → SameBooks l (send_messages n j peer ms l)
  unfolding send_messages
  send_messages-SameBooks peer [] l = SameBooks-refl l
  send_messages-SameBooks peer ((id, msg) ∷ ms) l =
      let l' : Loop n = send_to_peer n j peer id msg l in
      SameBooks-trans l l' (send_messages n j peer ms l') (send_to_peer-SameBooks j peer id msg l)
        (send_messages-SameBooks peer ms l')

  send_messages-Reports :
      (peer : n.PeerId) (ms : List (MessageId × MeerkatMessage)) (l : Loop n)
      → (es : List NetworkEvent) × ((send_messages n j peer ms l).event_tx ≡ l.event_tx ++ es)
        × Reports ms es
  unfolding send_messages
  send_messages-Reports peer [] l = ([], sym (append-nil l.event_tx), done)
  send_messages-Reports peer ((id, msg) ∷ ms) l =
      let l' : Loop n = send_to_peer n j peer id msg l in
      let failure : Option SendError = stream_failure n j peer msg l.net in
      let (es, e, h) = send_messages-Reports peer ms l' in
      (
        report id failure ++ es,
        e
            ∙ ap (λ t. t ++ es) (event_tx-send_to_peer j peer id msg l)
            ∙ append_assoc l.event_tx (report id failure) es,
        Reports-cons id msg failure h,
      )

  listen_on_relay-books :
      (peer : n.PeerId) (l : Loop n)
      → SameBooks l (listen_on_relay n j peer l)
        × ((listen_on_relay n j peer l).event_tx ≡ l.event_tx)
  unfolding listen_on_relay
  listen_on_relay-books peer l = (ground arith, ground arith)

  -- With no message waiting, the flush is the one of an empty queue.
  flush_pending-eq :
      (peer : n.PeerId) (l : Loop n)
      → flush_pending n j peer l ≡ send_messages n j peer (entry l peer) (forget l peer)
  unfolding flush_pending entry
  flush_pending-eq peer l = ground (arith, remove_missing ⦃test = n.peer_eq⦄ l.pending_sends peer)

  -- The state in which the messages of a new connection are sent.
  abbrev pub connected : n.PeerId → Loop n → Loop n
  connected peer l =
      forget (listen_on_relay n j peer (emit l (peer_connected (n.show_peer peer)))) peer

  pub connected-books :
      (peer q : n.PeerId) (l : Loop n)
      → ((connected peer l).event_tx ≡ l.event_tx ++ (peer_connected (n.show_peer peer) ∷ []))
        × (entry (connected peer l) q ≡ (if same_peer n peer q then [] else entry l q))
        × ((connected peer l).replies ≡ l.replies)
  unfolding forget emit
  connected-books peer q l =
      let up : Loop n = emit l (peer_connected (n.show_peer peer)) in
      let (books, events) = listen_on_relay-books peer up in
      (
        events,
        entry-forget (listen_on_relay n j peer up) peer q
            ∙ ap (λ ms. if same_peer n peer q then [] else ms)
                (entry-SameBooks up (listen_on_relay n j peer up) q books ∙ entry-emit l q _),
        books.answers,
      )

  pub connected-pending :
      (peer : n.PeerId) (l : Loop n)
      → (connected peer l).pending_sends ≡ remove ⦃test = n.peer_eq⦄ l.pending_sends peer
  unfolding forget emit
  connected-pending peer l =
      let up : Loop n = emit l (peer_connected (n.show_peer peer)) in
      ap (λ m. remove ⦃test = n.peer_eq⦄ m peer) (listen_on_relay-books peer up).0.sends

  -- When a connection is established, the messages that wait for the peer are sent on it in the
  -- order of their `Send` commands.
  pub connection_established-sends :
      (peer : n.PeerId) (l : Loop n)
      → handle_swarm_event n j (connection_established peer) l
        ≡ send_messages n j peer (entry l peer) (connected peer l)
  unfolding handle_swarm_event
  connection_established-sends peer l =
      let up : Loop n = emit l (peer_connected (n.show_peer peer)) in
      flush_pending-eq peer (listen_on_relay n j peer up)
      ∙ ap (λ ms. send_messages n j peer ms (connected peer l))
          (entry-SameBooks up (listen_on_relay n j peer up) peer (listen_on_relay-books peer up).0
            ∙ entry-emit l peer _)

  -- A new connection is announced first; then come the failures of the messages that waited for
  -- the peer, at most one of each and in their order. Afterwards nothing waits for that peer, and
  -- for every other peer the same messages as before.
  pub connection_established-flushes :
      (peer q : n.PeerId) (l : Loop n)
      → let l' = handle_swarm_event n j (connection_established peer) l in
        ((es : List NetworkEvent) × (l'.event_tx
            ≡ l.event_tx ++ (peer_connected (n.show_peer peer) ∷ es))
          × Reports (entry l peer) es)
        × (entry l' q ≡ (if same_peer n peer q then [] else entry l q))
        × (l'.replies ≡ l.replies)
  connection_established-flushes peer q l =
      let (events, waiting, answers) = connected-books peer q l in
      let (es, e, h) = send_messages-Reports peer (entry l peer) (connected peer l) in
      let books : SameBooks (connected peer l)
          (send_messages n j peer (entry l peer) (connected peer l)) =
        send_messages-SameBooks peer (entry l peer) (connected peer l) in
      rw connection_established-sends (
        (
          es,
          e
              ∙ ap (λ t. t ++ es) events
              ∙ append_assoc l.event_tx (peer_connected (n.show_peer peer) ∷ []) es,
          h,
        ),
        entry-SameBooks (connected peer l) _ q books ∙ waiting,
        books.answers ∙ answers,
      )

  -- The requests to listen are left alone by a new connection.
  pub connection_established-books :
      (peer : n.PeerId) (l : Loop n)
      → let l' = handle_swarm_event n j (connection_established peer) l in
        (l'.pending_listen ≡ l.pending_listen)
        × (l'.pending_relay ≡ l.pending_relay)
        × (l'.replies ≡ l.replies)
  connection_established-books peer l =
      let up : Loop n = emit l (peer_connected (n.show_peer peer)) in
      let first : SameBooks up (listen_on_relay n j peer up) = (listen_on_relay-books peer up).0 in
      let rest : SameBooks (connected peer l)
          (send_messages n j peer (entry l peer) (connected peer l)) =
        send_messages-SameBooks peer (entry l peer) (connected peer l) in
      rw connection_established-sends (
        unfold forget emit in
        (rest.listens ∙ first.listens, rest.relays ∙ first.relays, rest.answers ∙ first.answers))
