-- ===== src/NetV2/EventLoop/Cost.antt =====
-- Counting what happens to a message: its failures, its waiting sends, its commands.
use ping_pong_libp2p.Base.{
  ℕ, ◌+◌, ◌≤◌, ◌≡◌, ap, ◌∙◌, Option, none, some, List, [], ◌∷◌, ◌++◌, arith,
}
use ping_pong_libp2p.Queues.{
  hit, queued, waiting, waiting-remove, waiting-insert, waiting-remove-insert,
}
use ping_pong_libp2p.Deps.Json.{Json}
use ping_pong_libp2p.Deps.Libp2p.{Libp2p}
use ping_pong_libp2p.NetV2.Types.{MessageId, MeerkatMessage, SendError}
use ping_pong_libp2p.NetV2.Messages.{
  NetworkEvent, message_received, send_failed, peer_connected, peer_disconnected,
}
use ping_pong_libp2p.NetV2.EventLoop.{Loop, entry, push, forget, emit}
use ping_pong_libp2p.NetV2.EventLoop.Signals.{SwarmCommand, Wake, command, incoming, swarm_event}
use ping_pong_libp2p.NetV2.EventLoop.Events.{report}
use ping_pong_libp2p.NetV2.EventLoop.Flush.{connected, connected-books, connected-pending}

module _ (x : MessageId) where
  -- The failures that are reported of the message `x`.
  abbrev pub failures : List NetworkEvent → ℕ
  failures [] = 0
  failures (send_failed id e ∷ es) = hit x id + failures es
  failures (message_received peer msg ∷ es) = failures es
  failures (peer_connected peer ∷ es) = failures es
  failures (peer_disconnected peer ∷ es) = failures es

  -- The `Send` commands of it.
  abbrev pub sent : {n : Libp2p} → List (Wake n) → ℕ
  sent [] = 0
  sent (command (SwarmCommand.send id addr msg) ∷ ws) = hit x id + sent ws
  sent (command (SwarmCommand.listen addr tx) ∷ ws) = sent ws
  sent (command (SwarmCommand.listen_via_relay addr tx) ∷ ws) = sent ws
  sent (incoming peer stream ∷ ws) = sent ws
  sent (swarm_event event ∷ ws) = sent ws

  pub failures-append :
      (es fs : List NetworkEvent) → failures (es ++ fs) ≡ failures es + failures fs
  failures-append [] fs = omega arith
  failures-append (send_failed id e ∷ es) fs = ground (arith, failures-append es fs)
  failures-append (message_received peer msg ∷ es) fs = failures-append es fs
  failures-append (peer_connected peer ∷ es) fs = failures-append es fs
  failures-append (peer_disconnected peer ∷ es) fs = failures-append es fs

  pub failures-report : (id : MessageId) (o : Option SendError) → failures (report id o) ≤ hit x id
  failures-report id none = omega arith
  failures-report id (some e) = omega arith

  -- What the message can still cost, or has: the failures reported, and the sends that wait.
  abbrev pub cost : {n : Libp2p} → Loop n → ℕ
  cost l = failures l.event_tx + waiting x l.pending_sends

  module _ {n : Libp2p} where
    pub cost-emit : (l : Loop n) (e : NetworkEvent) → cost (emit l e) ≡ cost l + failures (e ∷ [])
    unfolding emit
    cost-emit l e = ground (arith, failures-append l.event_tx (e ∷ []))

    pub waiting-push :
        (l : Loop n) (peer : n.PeerId) (id : MessageId) (msg : MeerkatMessage)
        → waiting x (push l peer (id, msg)).pending_sends ≤ waiting x l.pending_sends + hit x id
    unfolding push entry
    waiting-push l peer id msg =
        ground (arith, waiting-insert x ⦃test = n.peer_eq⦄ l.pending_sends peer id msg)

    -- A queue that was pushed to and is removed again.
    pub waiting-forget-push :
        (l : Loop n) (peer : n.PeerId) (id : MessageId) (msg : MeerkatMessage)
        → waiting x (forget (push l peer (id, msg)) peer).pending_sends ≤ waiting x l.pending_sends
    unfolding push forget
    waiting-forget-push l peer id msg =
        waiting-remove-insert x ⦃test = n.peer_eq⦄ l.pending_sends peer
          (entry l peer ++ ((id, msg) ∷ []))

    pub cost-connected :
        (j : Json MeerkatMessage) (peer : n.PeerId) (l : Loop n)
        → cost (connected j peer l) + queued x (entry l peer) ≤ cost l
    unfolding entry
    cost-connected j peer l =
        let (shown, _, _) = connected-books j peer peer l in
        let events : failures (connected j peer l).event_tx ≡ failures l.event_tx + 0 =
          ap failures shown ∙ failures-append l.event_tx (peer_connected (n.show_peer peer) ∷ []) in
        let sends = ap (waiting x) (connected-pending j peer l) in
        ground (arith, events, sends, waiting-remove x ⦃test = n.peer_eq⦄ l.pending_sends peer)
