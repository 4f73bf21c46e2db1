-- ===== src/NetV2/EventLoop/AtMostOnce.antt =====
-- No message is reported as failed more often than it was sent.
use ping_pong_libp2p.Base.{
  ◌+◌, ◌≤◌, ◌≡◌, ap, ◌∙◌, inl, inr, Option, List, [], ◌∷◌, ◌++◌, arith, Bool-cases, Option-cases,
}
use ping_pong_libp2p.Io.{Result-cases}
use ping_pong_libp2p.Text.{text}
use ping_pong_libp2p.Queues.{hit, queued, waiting}
use ping_pong_libp2p.Deps.Json.{Json}
use ping_pong_libp2p.Deps.Libp2p.{Libp2p}
use ping_pong_libp2p.NetV2.Types.{
  MessageId, Address, MeerkatMessage, SendError, unreachable_address, protocol_error,
}
use ping_pong_libp2p.NetV2.Messages.{message_received, send_failed, peer_disconnected}
use ping_pong_libp2p.NetV2.Protocol
use ping_pong_libp2p.NetV2.Address.{extract_peer_id}
use ping_pong_libp2p.NetV2.EventLoop.{
  Loop, entry, push, forget, emit, send_to_peer, dial_for, send_known, do_send, do_listen,
  do_listen_via_relay, handle_incoming, on_new_listen_addr, send_messages, handle_swarm_event, step,
  event_loop, start,
}
use ping_pong_libp2p.NetV2.EventLoop.Signals.{
  ReplyTx, SwarmCommand, SwarmEvent, Wake, command, incoming, swarm_event, new_listen_addr,
  connection_established, connection_closed, relay_client, relay, identify_received, identify_other,
  other,
}
use ping_pong_libp2p.NetV2.EventLoop.Events.{
  report, stream_failure, send_to_peer-SameBooks, event_tx-send_to_peer,
}
use ping_pong_libp2p.NetV2.EventLoop.Pending.{send_known-down, send_known-up, do_send-known}
use ping_pong_libp2p.NetV2.EventLoop.Flush.{connected, connection_established-sends}
use ping_pong_libp2p.NetV2.EventLoop.Cost.{
  cost-emit, cost-connected, cost, failures-append, failures-report, failures, waiting-push,
  waiting-forget-push, sent,
}

module _ (x : MessageId) {n : Libp2p} (j : Json MeerkatMessage) where
  cost-send_to_peer :
      (peer : n.PeerId) (id : MessageId) (msg : MeerkatMessage) (l : Loop n)
      → cost x (send_to_peer n j peer id msg l) ≤ cost x l + hit x id
  cost-send_to_peer peer id msg l =
      let failure : Option SendError = stream_failure n j peer msg l.net in
      let events : failures x (send_to_peer n j peer id msg l).event_tx
          ≡ failures x l.event_tx + failures x (report id failure) =
        ap (failures x) (event_tx-send_to_peer j peer id msg l)
        ∙ failures-append x l.event_tx (report id failure) in
      let sends : waiting x (send_to_peer n j peer id msg l).pending_sends
          ≡ waiting x l.pending_sends =
        ap (waiting x) (send_to_peer-SameBooks j peer id msg l).sends in
      omega (arith, events, sends, failures-report x id failure)

  cost-send_messages :
      (peer : n.PeerId) (ms : List (MessageId × MeerkatMessage)) (l : Loop n)
      → cost x (send_messages n j peer ms l) ≤ cost x l + queued x ms
  unfolding send_messages
  cost-send_messages peer [] l = omega arith
  cost-send_messages peer ((id, msg) ∷ ms) l = omega (
    arith,
    cost-send_messages peer ms (send_to_peer n j peer id msg l),
    cost-send_to_peer peer id msg l,
  )

  cost-dial_for :
      (addr : n.Multiaddr) (peer : n.PeerId) (id : MessageId) (msg : MeerkatMessage) (l : Loop n)
      → cost x (dial_for n j addr peer id (push l peer (id, msg))) ≤ cost x l + hit x id
  unfolding dial_for push forget emit
  cost-dial_for addr peer id msg l = elim (Result-cases (n.dial addr l.net).0) [
    | inl (u, p) ↦ ground (arith, p, waiting-push x l peer id msg)
    | inr (e, p) ↦ ground (
      arith,
      p,
      waiting-forget-push x l peer id msg,
      failures-append x l.event_tx
          (send_failed id (protocol_error (text "Dial failed: " ++ e)) ∷ []),
    )
  ]

  cost-send_known :
      (addr : n.Multiaddr) (peer : n.PeerId) (id : MessageId) (msg : MeerkatMessage) (l : Loop n)
      → cost x (send_known n j addr peer id msg l) ≤ cost x l + hit x id
  cost-send_known addr peer id msg l = elim (Bool-cases (n.is_connected l.net peer)) [
    | inl up ↦ rw (send_known-up j addr peer id msg l up) (cost-send_to_peer peer id msg l)
    | inr down ↦ rw (send_known-down j addr peer id msg l down) (cost-dial_for addr peer id msg l)
  ]

  cost-do_send :
      (id : MessageId) (addr : Address) (msg : MeerkatMessage) (l : Loop n)
      → cost x (do_send n j id addr msg l) ≤ cost x l + hit x id
  unfolding do_send
  cost-do_send id addr msg l = elim (Result-cases (n.parse addr)) [
    | inr (e, p) ↦
        rw (p, do_send) (omega (arith, cost-emit x l (send_failed id (unreachable_address addr))))
    | inl (m, p) ↦ elim (Option-cases (extract_peer_id n m)) [
      | inl lost ↦
          rw (p, do_send, lost)
            (omega (
              arith,
              cost-emit x l (send_failed id (protocol_error (text "No peer ID in address"))),
            ))
      | inr (peer, found) ↦
          rw (do_send-known j id addr msg l m peer p found) (cost-send_known m peer id msg l)
    ]
  ]

  cost-do_listen :
      (addr : Address) (tx : ReplyTx) (l : Loop n) → cost x (do_listen n j addr tx l) ≡ cost x l
  unfolding do_listen
  cost-do_listen addr tx l = ground arith

  cost-do_listen_via_relay :
      (addr : Address) (tx : ReplyTx) (l : Loop n)
      → cost x (do_listen_via_relay n j addr tx l) ≡ cost x l
  unfolding do_listen_via_relay
  cost-do_listen_via_relay addr tx l = ground arith

  cost-on_new_listen_addr :
      (address : n.Multiaddr) (l : Loop n) → cost x (on_new_listen_addr n j address l) ≡ cost x l
  unfolding on_new_listen_addr
  cost-on_new_listen_addr address l = ground arith

  cost-handle_incoming :
      (peer : n.PeerId) (stream : n.Stream) (l : Loop n)
      → cost x (handle_incoming n j peer stream l) ≡ cost x l
  unfolding handle_incoming
  cost-handle_incoming peer stream l =
      elim (Result-cases (Protocol.recv_message n.streams j stream l.net).0) [
        | inr (e, p) ↦ ground (arith, p)
        | inl (msg, p) ↦
            ground (
              arith,
              p,
              failures-append x l.event_tx (message_received (n.show_peer peer) msg ∷ []),
            )
      ]

  cost-handle_swarm_event :
      (e : SwarmEvent n) (l : Loop n) → cost x (handle_swarm_event n j e l) ≤ cost x l
  cost-handle_swarm_event (connection_established peer) l = rw connection_established-sends (
      omega (
        arith,
        cost-send_messages peer (entry l peer) (connected j peer l),
        cost-connected x j peer l,
      ))
  cost-handle_swarm_event (new_listen_addr address) l =
      unfold handle_swarm_event in omega (arith, cost-on_new_listen_addr address l)
  cost-handle_swarm_event (connection_closed peer) l =
      unfold handle_swarm_event in
      omega (arith, cost-emit x l (peer_disconnected (n.show_peer peer)))
  cost-handle_swarm_event relay_client l = unfold handle_swarm_event in omega arith
  cost-handle_swarm_event relay l = unfold handle_swarm_event in omega arith
  cost-handle_swarm_event (identify_received a) l = unfold handle_swarm_event in omega arith
  cost-handle_swarm_event identify_other l = unfold handle_swarm_event in omega arith
  cost-handle_swarm_event other l = unfold handle_swarm_event in omega arith

  cost-step : (w : Wake n) (l : Loop n) → cost x (step n j w l) ≤ cost x l + sent x (w ∷ [])
  unfolding step
  cost-step (command (SwarmCommand.send id addr msg)) l = omega (arith, cost-do_send id addr msg l)
  cost-step (command (SwarmCommand.listen addr tx)) l = omega (arith, cost-do_listen addr tx l)
  cost-step (command (SwarmCommand.listen_via_relay addr tx)) l =
      omega (arith, cost-do_listen_via_relay addr tx l)
  cost-step (incoming peer stream) l = omega (arith, cost-handle_incoming peer stream l)
  cost-step (swarm_event e) l = omega (arith, cost-handle_swarm_event e l)

  sent-cons : (w : Wake n) (ws : List (Wake n)) → sent x (w ∷ ws) ≡ sent x (w ∷ []) + sent x ws
  sent-cons (command (SwarmCommand.send id addr msg)) ws = omega arith
  sent-cons (command (SwarmCommand.listen addr tx)) ws = omega arith
  sent-cons (command (SwarmCommand.listen_via_relay addr tx)) ws = omega arith
  sent-cons (incoming peer stream) ws = omega arith
  sent-cons (swarm_event e) ws = omega arith

  cost-event_loop :
      (ws : List (Wake n)) (l : Loop n) → cost x (event_loop n j ws l) ≤ cost x l + sent x ws
  unfolding event_loop
  cost-event_loop [] l = omega arith
  cost-event_loop (w ∷ ws) l =
      omega (arith, cost-event_loop ws (step n j w l), cost-step w l, sent-cons w ws)

  -- In every run of the loop from its start, the failures reported of a message id and the sends
  -- of it that still wait are together at most as many as its `Send` commands: of a message that
  -- was sent once, at most one failure is reported, and none while it still waits.
  pub event_loop-at_most_once :
      (ws : List (Wake n)) (w : n.World)
      → let l = event_loop n j ws (start n j w) in
        failures x l.event_tx + waiting x l.pending_sends ≤ sent x ws
  event_loop-at_most_once ws w = omega (arith, cost-event_loop ws (start n j w))
