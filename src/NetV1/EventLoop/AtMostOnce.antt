-- ===== src/NetV1/EventLoop/AtMostOnce.antt =====
-- The manager's `on_send_error` is not called more often for a message than the message was sent.
use ping_pong_libp2p.Base.Iterators.{find_map}
use ping_pong_libp2p.Base.{
  ◌+◌, ◌≤◌, ◌≡◌, ap, ◌∙◌, inl, inr, Option, List, [], ◌∷◌, ◌++◌, arith, Bool-cases, Option-cases,
}
use ping_pong_libp2p.Queues.{hit, queued, waiting}
use ping_pong_libp2p.Io.{Result-cases}
use ping_pong_libp2p.Text.{text}
use ping_pong_libp2p.Deps.Json.{Json}
use ping_pong_libp2p.Deps.Libp2p.{Libp2p}
use ping_pong_libp2p.NetV1.Types.{
  MessageId, GlobalAddress, MeerkatMessage, SendError, unreachable_address, protocol_error,
  NetworkCallbacks, Call, on_message, on_send_error,
}
use ping_pong_libp2p.NetV1.Protocol
use ping_pong_libp2p.NetV1.EventLoop.{
  ResponseTx, NetworkCommand, SwarmEvent, new_listen_addr, connection_established,
  connection_closed, other, Wake, command, incoming, swarm_event, Loop, call, entry, push, forget,
  extract_peer_id, send_to_peer, dial_for, send_known, handle_send, do_listen, handle_command,
  handle_incoming_stream, on_new_listen_addr, send_messages, handle_swarm_event, step, event_loop,
  start,
}
use ping_pong_libp2p.NetV1.EventLoop.Outcome.{report, stream_failure}
use ping_pong_libp2p.NetV1.EventLoop.Sends.{send_to_peer-SameBooks, calls-send_to_peer}
use ping_pong_libp2p.NetV1.EventLoop.Waiting.{connected, connection_established-sends}
use ping_pong_libp2p.NetV1.EventLoop.Cost.{
  failures, named, cost, cost-call, cost-connected, failures-append, failures-report, waiting-push,
  waiting-forget-push, named-append,
}

-- The commands among what wakes the loop.
abbrev pub taken : {n : Libp2p} → List (Wake n) → List NetworkCommand
taken [] = []
taken (command cmd ∷ ws) = cmd ∷ taken ws
taken (incoming peer stream ∷ ws) = taken ws
taken (swarm_event event ∷ ws) = taken ws

module _ (x : MessageId) {n : Libp2p} (j : Json MeerkatMessage) where
  cost-send_to_peer :
      (peer : n.PeerId) (id : MessageId) (msg : MeerkatMessage) (l : Loop n)
      → cost x (send_to_peer n j peer id msg l) ≤ cost x l + hit x id
  cost-send_to_peer peer id msg l =
      let failure : Option SendError = stream_failure n j peer msg l.net in
      let calls : failures x (send_to_peer n j peer id msg l).calls
          ≡ failures x l.calls + failures x (report id failure) =
        ap (failures x) (calls-send_to_peer j peer id msg l)
        ∙ failures-append x l.calls (report id failure) in
      let sends : waiting x (send_to_peer n j peer id msg l).pending_sends
          ≡ waiting x l.pending_sends =
        ap (waiting x) (send_to_peer-SameBooks j peer id msg l).sends in
      omega (arith, calls, sends, failures-report x id failure)

  cost-send_messages :
      (peer : n.PeerId) (ms : List (MessageId × MeerkatMessage)) (l : Loop n)
      → cost x (send_messages n j peer ms l) ≤ cost x l + queued x ms
  unfolding send_messages
  cost-send_messages peer [] l = omega arith
  cost-send_messages peer ((id, msg) ∷ ms) l = omega (
    arith,
    cost-send_messages peer ms (send_to_peer n j peer id msg l),
    cost-send_to_peer peer id msg l,
  )

  cost-dial_for :
      (addr : n.Multiaddr) (peer : n.PeerId) (id : MessageId) (msg : MeerkatMessage) (l : Loop n)
      → cost x (dial_for n j addr peer id (push l peer (id, msg))) ≤ cost x l + hit x id
  unfolding dial_for push forget call
  cost-dial_for addr peer id msg l = elim (Result-cases (n.dial addr l.net).0) [
    | inl (u, p) ↦ ground (arith, p, waiting-push x l peer id msg)
    | inr (e, p) ↦ ground (
      arith,
      p,
      waiting-forget-push x l peer id msg,
      failures-append x l.calls
          (on_send_error id (protocol_error (text "Dial failed: " ++ e)) ∷ []),
    )
  ]

  cost-send_known :
      (addr : n.Multiaddr) (peer : n.PeerId) (id : MessageId) (msg : MeerkatMessage) (l : Loop n)
      → cost x (send_known n j addr peer id msg l) ≤ cost x l + hit x id
  unfolding send_known
  cost-send_known addr peer id msg l = elim (Bool-cases (n.is_connected l.net peer)) [
    | inl up ↦ rw (up, send_known) (cost-send_to_peer peer id msg l)
    | inr down ↦ rw (down, send_known) (cost-dial_for addr peer id msg l)
  ]

  cost-handle_send :
      (id : MessageId) (addr : GlobalAddress) (msg : MeerkatMessage) (l : Loop n)
      → cost x (handle_send n j id addr msg l) ≤ cost x l + hit x id
  unfolding handle_send extract_peer_id
  cost-handle_send id addr msg l = elim (Result-cases (n.parse addr)) [
    | inr (e, p) ↦
        rw (p, handle_send)
          (omega (arith, cost-call x l (on_send_error id (unreachable_address addr))))
    | inl (m, p) ↦ elim (Option-cases (find_map n.p2p (n.iter m))) [
      | inl lost ↦
          rw (p, handle_send, lost)
            (omega (
              arith,
              cost-call x l (on_send_error id (protocol_error (text "No peer ID in address"))),
            ))
      | inr (peer, found) ↦ rw (p, handle_send, found) (cost-send_known m peer id msg l)
    ]
  ]

  cost-do_listen :
      (addr : GlobalAddress) (tx : ResponseTx) (l : Loop n)
      → cost x (do_listen n j addr tx l) ≡ cost x l
  unfolding do_listen
  cost-do_listen addr tx l = ground arith

  cost-on_new_listen_addr :
      (address : n.Multiaddr) (l : Loop n) → cost x (on_new_listen_addr n j address l) ≡ cost x l
  unfolding on_new_listen_addr
  cost-on_new_listen_addr address l = ground arith

  cost-handle_incoming_stream :
      (peer : n.PeerId) (stream : n.Stream) (l : Loop n)
      → cost x (handle_incoming_stream n j peer stream l) ≡ cost x l
  unfolding handle_incoming_stream call
  cost-handle_incoming_stream peer stream l =
      elim (Result-cases (Protocol.recv_message n.streams j stream l.net).0) [
        | inr (e, p) ↦ ground (arith, p)
        | inl (msg, p) ↦
            ground (arith, p, failures-append x l.calls (on_message (n.show_peer peer) msg ∷ []))
      ]

  cost-handle_swarm_event :
      (e : SwarmEvent n) (l : Loop n) → cost x (handle_swarm_event n j e l) ≤ cost x l
  cost-handle_swarm_event (connection_established peer) l =
      rw (connection_established-sends j peer l) (
        omega (
          arith,
          cost-send_messages peer (entry l peer) (connected j peer l),
          cost-connected x j peer l,
        ))
  cost-handle_swarm_event (new_listen_addr address) l =
      unfold handle_swarm_event in omega (arith, cost-on_new_listen_addr address l)
  cost-handle_swarm_event (connection_closed peer) l =
      unfold handle_swarm_event in
      ground (arith, cost-call x l (Call.on_peer_disconnected (n.show_peer peer)))
  cost-handle_swarm_event other l = unfold handle_swarm_event in omega arith

  cost-step :
      (w : Wake n) (l : Loop n) → cost x (step n j w l) ≤ cost x l + named x (taken (w ∷ []))
  unfolding step handle_command
  cost-step (command (NetworkCommand.send id addr msg)) l =
      omega (arith, cost-handle_send id addr msg l)
  cost-step (command (NetworkCommand.listen addr tx)) l = omega (arith, cost-do_listen addr tx l)
  cost-step (incoming peer stream) l = omega (arith, cost-handle_incoming_stream peer stream l)
  cost-step (swarm_event e) l = omega (arith, cost-handle_swarm_event e l)

  named-taken :
      (w : Wake n) (ws : List (Wake n))
      → named x (taken (w ∷ ws)) ≡ named x (taken (w ∷ [])) + named x (taken ws)
  named-taken (command cmd) ws = named-append x (cmd ∷ []) (taken ws)
  named-taken (incoming peer stream) ws = omega arith
  named-taken (swarm_event e) ws = omega arith

  cost-event_loop :
      (ws : List (Wake n)) (l : Loop n)
      → cost x (event_loop n j ws l) ≤ cost x l + named x (taken ws)
  unfolding event_loop
  cost-event_loop [] l = omega arith
  cost-event_loop (w ∷ ws) l =
      omega (arith, cost-event_loop ws (step n j w l), cost-step w l, named-taken w ws)

  -- In every run of the loop from its start, the calls of `on_send_error` for a message id and the
  -- sends of it that still wait are together at most as many as its `Send` commands.
  pub event_loop-bounded :
      (ws : List (Wake n)) (w : n.World) (callbacks : NetworkCallbacks)
      → let l = event_loop n j ws (start n j w callbacks) in
        failures x l.calls + waiting x l.pending_sends ≤ named x (taken ws)
  event_loop-bounded ws w callbacks = omega (arith, cost-event_loop ws (start n j w callbacks))
