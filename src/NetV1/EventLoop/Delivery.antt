-- ===== src/NetV1/EventLoop/Delivery.antt =====
-- That a message of the first version which has to wait for a connection is sent in the end.
use ping_pong_libp2p.Base.Iterators.{find_map}
use ping_pong_libp2p.Base.{
  ◌≡◌, ◌≢◌, refl, ap, ◌∙◌, inl, inr, false, Option, none, some, List, [], ◌∷◌, ◌++◌, arith, All,
  Option-cases, beq_ne, beq_refl, if◌then◌else◌,
}
use ping_pong_libp2p.Base.Assoc.{get-remove}
use ping_pong_libp2p.Io.{ok, err, Result-cases}
use ping_pong_libp2p.Deps.Json.{Json}
use ping_pong_libp2p.Deps.Libp2p.{Libp2p}
use ping_pong_libp2p.NetV1.Types.{MessageId, GlobalAddress, MeerkatMessage, Call}
use ping_pong_libp2p.NetV1.EventLoop.{
  ResponseTx, NetworkCommand, new_listen_addr, connection_established, connection_closed, other,
  Wake, command, incoming, swarm_event, Loop, call, respond, entry, forget, extract_peer_id,
  send_to_peer, handle_send, do_listen, handle_command, handle_incoming_stream, on_new_listen_addr,
  send_messages, handle_swarm_event, step, event_loop,
}
use ping_pong_libp2p.NetV1.EventLoop.Outcome.{same_peer, outcome, queue_after}
use ping_pong_libp2p.NetV1.EventLoop.Sends.{
  send_to_peer-SameBooks, entry-SameBooks, handle_send_lem,
}
use ping_pong_libp2p.NetV1.EventLoop.Waiting.{
  connected, connection_established-sends, entry-announced, outcome-waits,
}

-- The peer that an address leads to.
abbrev pub target : (n : Libp2p) → GlobalAddress → Option n.PeerId
target n addr = elim (n.parse addr) [ err _ ↦ none | ok m ↦ find_map n.p2p (n.iter m) ]

-- A turn of the loop that is neither a send to `peer` nor a connection with it.
abbrev pub Leaves : (n : Libp2p) → n.PeerId → Wake n → Type 0
Leaves n peer (command (NetworkCommand.send id addr msg)) = target n addr ≢ some peer
Leaves n peer (command (NetworkCommand.listen addr tx)) = Unit
Leaves n peer (swarm_event (connection_established q)) = q ≢ peer
Leaves n peer (swarm_event (new_listen_addr address)) = Unit
Leaves n peer (swarm_event (connection_closed q)) = Unit
Leaves n peer (swarm_event other) = Unit
Leaves n peer (incoming q stream) = Unit

module _ (n : Libp2p) (j : Json MeerkatMessage) (peer : n.PeerId) where
  queue_after-leaves :
      (addr : GlobalAddress) (msg : MeerkatMessage) (w : n.World) (m : MessageId × MeerkatMessage)
      (ms : List (MessageId × MeerkatMessage))
      → target n addr ≢ some peer
      → queue_after n (outcome n j addr msg w) m peer ms ≡ ms
  queue_after-leaves addr msg w m ms h = elim (Result-cases (n.parse addr)) [
    | inr (e, p) ↦ ground (arith, p)
    | inl (a, p) ↦ elim (Option-cases (find_map n.p2p (n.iter a))) [
      | inl e ↦ ground (arith, p, e)
      | inr (q, e) ↦
          (let found : target n addr ≡ some q = ground (arith, p, e) in
            let differ : same_peer n q peer ≡ false =
              beq_ne ⦃test = n.peer_eq⦄ q peer (λ k. h (found ∙ ap some k)) in
            ground (arith, p, e, differ))
    ]
  ]

module _ {n : Libp2p} (j : Json MeerkatMessage) (peer : n.PeerId) where
  entry-do_listen :
      (addr : GlobalAddress) (tx : ResponseTx) (l : Loop n)
      → entry (do_listen n j addr tx l) peer ≡ entry l peer
  unfolding do_listen entry respond
  entry-do_listen addr tx l = ground arith

  entry-handle_incoming_stream :
      (q : n.PeerId) (stream : n.Stream) (l : Loop n)
      → entry (handle_incoming_stream n j q stream l) peer ≡ entry l peer
  unfolding handle_incoming_stream entry call
  entry-handle_incoming_stream q stream l = ground arith

  entry-on_new_listen_addr :
      (address : n.Multiaddr) (l : Loop n)
      → entry (on_new_listen_addr n j address l) peer ≡ entry l peer
  unfolding on_new_listen_addr entry respond
  entry-on_new_listen_addr address l = ground arith

  entry-send_messages :
      (q : n.PeerId) (ms : List (MessageId × MeerkatMessage)) (l : Loop n)
      → entry (send_messages n j q ms l) peer ≡ entry l peer
  unfolding send_messages
  entry-send_messages q [] l = refl
  entry-send_messages q ((id, msg) ∷ ms) l =
      let l' : Loop n = send_to_peer n j q id msg l in
      entry-send_messages q ms l'
      ∙ entry-SameBooks j l l' peer (send_to_peer-SameBooks j q id msg l)

  entry-forget :
      (q : n.PeerId) (l : Loop n)
      → entry (forget l q) peer ≡ (if same_peer n q peer then [] else entry l peer)
  unfolding entry forget
  entry-forget q l = ground (arith, get-remove ⦃test = n.peer_eq⦄ l.pending_sends q peer)

  -- A connection empties its own peer's queue.
  entry-connection_established :
      (q : n.PeerId) (l : Loop n)
      → entry (handle_swarm_event n j (connection_established q) l) peer
        ≡ (if same_peer n q peer then [] else entry l peer)
  entry-connection_established q l =
      ap (λ x. entry x peer) (connection_established-sends j q l)
      ∙ entry-send_messages q (entry l q) (connected j q l)
      ∙ entry-forget q _
      ∙ ap (λ x. if same_peer n q peer then [] else x)
          (entry-announced j peer (Call.on_peer_connected (n.show_peer q)) l)

  entry-step :
      (w : Wake n) (l : Loop n) → Leaves n peer w → entry (step n j w l) peer ≡ entry l peer
  unfolding step handle_command
  entry-step (command (NetworkCommand.send id addr msg)) l h =
      (handle_send_lem j id addr msg l peer).1
      ∙ queue_after-leaves n j peer addr msg l.net (id, msg) (entry l peer) h
  entry-step (command (NetworkCommand.listen addr tx)) l h = entry-do_listen addr tx l
  entry-step (incoming q stream) l h = entry-handle_incoming_stream q stream l
  entry-step (swarm_event (new_listen_addr address)) l h =
      unfold handle_swarm_event in entry-on_new_listen_addr address l
  entry-step (swarm_event (connection_established q)) l h =
      entry-connection_established q l
      ∙ ap (λ b. if b then [] else entry l peer) (beq_ne ⦃test = n.peer_eq⦄ q peer h)
  entry-step (swarm_event (connection_closed q)) l h =
      unfold handle_swarm_event entry call in ground arith
  entry-step (swarm_event other) l h = unfold handle_swarm_event in refl

  -- Messages that wait for a peer wait until a connection with it is established or another send
  -- to it is attempted.
  pub event_loop-waits :
      (ws : List (Wake n)) (l : Loop n)
      → All (Leaves n peer) ws
      → entry (event_loop n j ws l) peer ≡ entry l peer
  unfolding event_loop
  event_loop-waits [] l h = refl
  event_loop-waits (w ∷ ws) l h = event_loop-waits ws (step n j w l) h.1 ∙ entry-step w l h.0

module _ {n : Libp2p} (j : Json MeerkatMessage) where
  event_loop-append :
      (ws vs : List (Wake n)) (l : Loop n)
      → event_loop n j (ws ++ vs) l ≡ event_loop n j vs (event_loop n j ws l)
  unfolding event_loop
  event_loop-append [] vs l = refl
  event_loop-append (w ∷ ws) vs l = event_loop-append ws vs (step n j w l)

  send_messages-append :
      (peer : n.PeerId) (ms : List (MessageId × MeerkatMessage)) (id : MessageId)
      (msg : MeerkatMessage) (l : Loop n)
      → send_messages n j peer (ms ++ ((id, msg) ∷ [])) l
        ≡ send_to_peer n j peer id msg (send_messages n j peer ms l)
  unfolding send_messages
  send_messages-append peer [] id msg l = refl
  send_messages-append peer ((i, m) ∷ ms) id msg l =
      send_messages-append peer ms id msg (send_to_peer n j peer i m l)

  -- A message of the first version for a peer that is not connected is sent to it in the end: its
  -- dial started, and then any turns of the loop without a connection to the peer and without
  -- another send to it, the connection with the peer first sends the messages that waited before,
  -- then this one, and leaves none waiting for the peer.
  pub event_loop-sends_queued :
      (id : MessageId) (addr : GlobalAddress) (msg : MeerkatMessage) (m : n.Multiaddr)
      (peer : n.PeerId) (ws : List (Wake n)) (l : Loop n)
      → n.parse addr ≡ ok m
      → extract_peer_id n m ≡ some peer
      → n.is_connected l.net peer ≡ false
      → (n.dial m l.net).0 ≡ ok tt
      → All (Leaves n peer) ws
      → let send : Wake n = command (NetworkCommand.send id addr msg) in
        let l' = event_loop n j (send ∷ ws) l in
        let l2 =
          event_loop n j (send ∷ (ws ++ (swarm_event (connection_established peer) ∷ []))) l in
        (l2
          ≡ send_to_peer n j peer id msg
              (send_messages n j peer (entry l peer) (connected j peer l')))
        × (entry l2 peer ≡ [])
  unfolding event_loop step handle_command
  event_loop-sends_queued id addr msg m peer ws l p e down dials leaves =
      let queued : Loop n = handle_send n j id addr msg l in
      let l' : Loop n = event_loop n j ws queued in
      let waiting : entry l' peer ≡ entry l peer ++ ((id, msg) ∷ []) =
        event_loop-waits j peer ws queued leaves
        ∙ (handle_send_lem j id addr msg l peer).1
        ∙ ground (
          arith,
          outcome-waits {n = n} j addr msg m peer l.net p e down dials,
          beq_refl ⦃test = n.peer_eq⦄ peer,
        ) in
      let run = event_loop-append ws (swarm_event (connection_established peer) ∷ []) queued in
      (
        run
            ∙ connection_established-sends j peer l'
            ∙ ap (λ q. send_messages n j peer q (connected j peer l')) waiting
            ∙ send_messages-append peer (entry l peer) id msg (connected j peer l'),
        ap (λ (x : Loop n). entry x peer) run
            ∙ entry-connection_established j peer peer l'
            ∙ ap (λ b. if b then [] else entry l' peer) (beq_refl ⦃test = n.peer_eq⦄ peer),
      )
