-- ===== src/NetV1/EventLoop/Waiting.antt =====
-- What waits for a peer in the first version's loop after some `Send` commands, and what its
-- connection then sends.
use ping_pong_libp2p.Base.{
  ◌≡◌, sym, ap, subst, ◌∙◌, false, some, List, [], ◌∷◌, ◌++◌, arith, append-nil, append_assoc,
  beq_refl, if◌then◌else◌,
}
use ping_pong_libp2p.Base.Assoc.{remove_missing}
use ping_pong_libp2p.Io.{ok}
use ping_pong_libp2p.Deps.Json.{Json}
use ping_pong_libp2p.Deps.Libp2p.{Libp2p}
use ping_pong_libp2p.NetV1.Types.{MessageId, GlobalAddress, MeerkatMessage, Call}
use ping_pong_libp2p.NetV1.EventLoop.{
  Wake, command, connection_established, Loop, NetworkCommand, call, entry, forget, extract_peer_id,
  handle_send, send_known, dial_for, push, send_messages, flush_pending, handle_swarm_event,
  handle_command, step, event_loop,
}
use ping_pong_libp2p.NetV1.EventLoop.Outcome.{outcome, waits}
use ping_pong_libp2p.NetV1.EventLoop.Sends.{handle_send_lem}

-- The `Send` commands of some messages to one address.
abbrev pub sends :
    (n : Libp2p) → GlobalAddress → List (MessageId × MeerkatMessage) → List NetworkCommand
sends n addr [] = []
sends n addr ((id, m) ∷ ms) = NetworkCommand.send id addr m ∷ sends n addr ms

-- Commands, as the loop meets them.
abbrev pub commands : {n : Libp2p} → List NetworkCommand → List (Wake n)
commands [] = []
commands (c ∷ cs) = command c ∷ commands cs

module _ {n : Libp2p} (j : Json MeerkatMessage) where
  -- The state in which the messages of a new connection are sent: the peer was announced, where the
  -- manager asked for that, and nothing waits for it.
  abbrev pub connected : n.PeerId → Loop n → Loop n
  connected peer l =
      forget
        (if l.callbacks.on_peer_connected
          then call l (Call.on_peer_connected (n.show_peer peer))
          else l)
        peer

  flush_pending-eq :
      (peer : n.PeerId) (l : Loop n)
      → flush_pending n j peer l ≡ send_messages n j peer (entry l peer) (forget l peer)
  unfolding flush_pending entry forget
  flush_pending-eq peer l = ground (arith, remove_missing ⦃test = n.peer_eq⦄ l.pending_sends peer)

  pub entry-announced :
      (peer : n.PeerId) (c : Call) (l : Loop n)
      → entry (if l.callbacks.on_peer_connected then call l c else l) peer ≡ entry l peer
  unfolding call entry
  entry-announced peer c l = ground arith

  pub connection_established-sends :
      (peer : n.PeerId) (l : Loop n)
      → handle_swarm_event n j (connection_established peer) l
        ≡ send_messages n j peer (entry l peer) (connected peer l)
  unfolding handle_swarm_event
  connection_established-sends peer l =
      flush_pending-eq peer _
      ∙ ap (λ ms. send_messages n j peer ms (connected peer l))
          (entry-announced peer (Call.on_peer_connected (n.show_peer peer)) l)

  pub outcome-waits :
      (addr : GlobalAddress) (msg : MeerkatMessage) (m : n.Multiaddr) (peer : n.PeerId)
      (w : n.World)
      → n.parse addr ≡ ok m
      → extract_peer_id n m ≡ some peer
      → n.is_connected w peer ≡ false
      → (n.dial m w).0 ≡ ok tt
      → outcome n j addr msg w ≡ waits peer
  unfolding extract_peer_id
  outcome-waits addr msg m peer w p e down dials = ground (arith, p, e, down, dials)

  net-handle_send :
      (id : MessageId) (addr : GlobalAddress) (msg : MeerkatMessage) (m : n.Multiaddr)
      (peer : n.PeerId) (l : Loop n)
      → n.parse addr ≡ ok m
      → extract_peer_id n m ≡ some peer
      → n.is_connected l.net peer ≡ false
      → (handle_send n j id addr msg l).net ≡ (n.dial m l.net).1
  unfolding handle_send send_known dial_for push call forget
  net-handle_send id addr msg m peer l p e down = ground (arith, p, e, down)

  pub entry-sends :
      (addr : GlobalAddress) (m : n.Multiaddr) (peer : n.PeerId) (Down : n.World → Type 0)
      (stays : (w : n.World)
        → Down w
        → (n.is_connected w peer ≡ false) × ((n.dial m w).0 ≡ ok tt) × Down (n.dial m w).1)
      (ms : List (MessageId × MeerkatMessage)) (l : Loop n)
      → n.parse addr ≡ ok m
      → extract_peer_id n m ≡ some peer
      → Down l.net
      → entry (event_loop n j (commands (sends n addr ms)) l) peer ≡ entry l peer ++ ms
  unfolding event_loop step handle_command
  entry-sends addr m peer Down stays [] l p e down = sym (append-nil (entry l peer))
  entry-sends addr m peer Down stays ((id, msg) ∷ ms) l p e down =
      let (off, started, down') = stays l.net down in
      let l' : Loop n = handle_send n j id addr msg l in
      let queued : entry l' peer ≡ entry l peer ++ ((id, msg) ∷ []) =
        (handle_send_lem j id addr msg l peer).1
        ∙ ground (
          arith,
          outcome-waits addr msg m peer l.net p e off started,
          beq_refl ⦃test = n.peer_eq⦄ peer,
        ) in
      entry-sends addr m peer Down stays ms l' p e
        (subst Down (sym (net-handle_send id addr msg m peer l p e off)) down')
      ∙ ap (λ q. q ++ ms) queued
      ∙ append_assoc (entry l peer) ((id, msg) ∷ []) ms
