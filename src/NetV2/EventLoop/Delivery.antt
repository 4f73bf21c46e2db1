-- ===== src/NetV2/EventLoop/Delivery.antt =====
-- That a message which has to wait for a connection is sent in the end.
use ping_pong_libp2p.Base.{
  ◌≡◌, refl, ap, ◌∙◌, false, some, List, [], ◌∷◌, ◌++◌, arith, All, beq_refl,
}
use ping_pong_libp2p.Io.{ok}
use ping_pong_libp2p.Deps.Json.{Json}
use ping_pong_libp2p.Deps.Libp2p.{Libp2p}
use ping_pong_libp2p.NetV2.Types.{MessageId, Address, MeerkatMessage}
use ping_pong_libp2p.NetV2.Address.{extract_peer_id}
use ping_pong_libp2p.NetV2.EventLoop.{
  Loop, entry, do_send, send_to_peer, send_messages, handle_swarm_command, step, event_loop,
}
use ping_pong_libp2p.NetV2.EventLoop.Signals.{
  SwarmCommand, Wake, command, swarm_event, connection_established,
}
use ping_pong_libp2p.NetV2.EventLoop.Pending.{entry-do_send}
use ping_pong_libp2p.NetV2.EventLoop.Flush.{
  connected, connection_established-sends, connection_established-flushes,
}
use ping_pong_libp2p.NetV2.EventLoop.Waiting.{Leaves, event_loop-waits}

module _ {n : Libp2p} (j : Json MeerkatMessage) where
  event_loop-append :
      (ws vs : List (Wake n)) (l : Loop n)
      → event_loop n j (ws ++ vs) l ≡ event_loop n j vs (event_loop n j ws l)
  unfolding event_loop
  event_loop-append [] vs l = refl
  event_loop-append (w ∷ ws) vs l = event_loop-append ws vs (step n j w l)

  send_messages-append :
      (peer : n.PeerId) (ms : List (MessageId × MeerkatMessage)) (id : MessageId)
      (msg : MeerkatMessage) (l : Loop n)
      → send_messages n j peer (ms ++ ((id, msg) ∷ [])) l
        ≡ send_to_peer n j peer id msg (send_messages n j peer ms l)
  unfolding send_messages
  send_messages-append peer [] id msg l = refl
  send_messages-append peer ((i, m) ∷ ms) id msg l =
      send_messages-append peer ms id msg (send_to_peer n j peer i m l)

  -- A message for a peer that is not connected is sent to it in the end: its dial started, and then
  -- any turns of the loop without a connection to the peer and without another send to it, the
  -- connection with the peer first sends the messages that waited before, then this one, and leaves
  -- none waiting for the peer.
  pub event_loop-delivers :
      (id : MessageId) (addr : Address) (msg : MeerkatMessage) (m : n.Multiaddr) (peer : n.PeerId)
      (ws : List (Wake n)) (l : Loop n)
      → n.parse addr ≡ ok m
      → extract_peer_id n m ≡ some peer
      → n.is_connected l.net peer ≡ false
      → (n.dial m l.net).0 ≡ ok tt
      → All (Leaves n peer) ws
      → let l' = event_loop n j (command (SwarmCommand.send id addr msg) ∷ ws) l in
        let l2 =
          event_loop n j
            (command (SwarmCommand.send id addr msg)
              ∷ (ws ++ (swarm_event (connection_established peer) ∷ [])))
            l in
        (l2
          ≡ send_to_peer n j peer id msg
              (send_messages n j peer (entry l peer) (connected j peer l')))
        × (entry l2 peer ≡ [])
  unfolding event_loop step handle_swarm_command
  event_loop-delivers id addr msg m peer ws l p e down dials leaves =
      let queued : Loop n = do_send n j id addr msg l in
      let l' : Loop n = event_loop n j ws queued in
      let waiting : entry l' peer ≡ entry l peer ++ ((id, msg) ∷ []) =
        event_loop-waits j peer ws queued leaves
        ∙ entry-do_send j id addr msg l peer m peer p e
        ∙ ground (arith, beq_refl ⦃test = n.peer_eq⦄ peer, down, dials) in
      let run = event_loop-append ws (swarm_event (connection_established peer) ∷ []) queued in
      (
        run
            ∙ connection_established-sends j peer l'
            ∙ ap (λ q. send_messages n j peer q (connected j peer l')) waiting
            ∙ send_messages-append peer (entry l peer) id msg (connected j peer l'),
        ap (λ (x : Loop n). entry x peer) run
            ∙ (connection_established-flushes j peer peer l').1
            ∙ ground (arith, beq_refl ⦃test = n.peer_eq⦄ peer),
      )
