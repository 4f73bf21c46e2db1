-- ===== src/NetV1/EventLoop/Cost.antt =====
-- Counting what happens to a message in the first version's loop: its calls of `on_send_error`, its
-- waiting sends, its commands.
use ping_pong_libp2p.Base.{ℕ, ◌+◌, ◌≤◌, ◌≡◌, Option, none, some, List, [], ◌∷◌, ◌++◌, arith}
use ping_pong_libp2p.Queues.{
  hit, queued, waiting, waiting-remove, waiting-insert, waiting-remove-insert,
}
use ping_pong_libp2p.Deps.Json.{Json}
use ping_pong_libp2p.Deps.Libp2p.{Libp2p}
use ping_pong_libp2p.NetV1.Types.{
  MessageId, MeerkatMessage, SendError, Call, on_message, on_send_error,
}
use ping_pong_libp2p.NetV1.EventLoop.{Loop, NetworkCommand, entry, push, forget, call}
use ping_pong_libp2p.NetV1.EventLoop.Outcome.{report}
use ping_pong_libp2p.NetV1.EventLoop.Waiting.{connected}

module _ (x : MessageId) where
  -- The calls of `on_send_error` for the message `x`.
  abbrev pub failures : List Call → ℕ
  failures [] = 0
  failures (on_send_error id e ∷ cs) = hit x id + failures cs
  failures (on_message peer msg ∷ cs) = failures cs
  failures (Call.on_peer_connected peer ∷ cs) = failures cs
  failures (Call.on_peer_disconnected peer ∷ cs) = failures cs

  -- The `Send` commands of it.
  abbrev pub named : List NetworkCommand → ℕ
  named [] = 0
  named (NetworkCommand.send id addr msg ∷ cmds) = hit x id + named cmds
  named (NetworkCommand.listen addr tx ∷ cmds) = named cmds

  pub failures-append : (cs ds : List Call) → failures (cs ++ ds) ≡ failures cs + failures ds
  failures-append [] ds = omega arith
  failures-append (on_send_error id e ∷ cs) ds = ground (arith, failures-append cs ds)
  failures-append (on_message peer msg ∷ cs) ds = failures-append cs ds
  failures-append (Call.on_peer_connected peer ∷ cs) ds = failures-append cs ds
  failures-append (Call.on_peer_disconnected peer ∷ cs) ds = failures-append cs ds

  pub failures-report : (id : MessageId) (o : Option SendError) → failures (report id o) ≤ hit x id
  failures-report id none = omega arith
  failures-report id (some e) = omega arith

  pub named-append : (cs ds : List NetworkCommand) → named (cs ++ ds) ≡ named cs + named ds
  named-append [] ds = omega arith
  named-append (NetworkCommand.send id addr msg ∷ cs) ds = ground (arith, named-append cs ds)
  named-append (NetworkCommand.listen addr tx ∷ cs) ds = named-append cs ds

  -- What the message can still cost, or has: the calls made, and the sends that wait.
  abbrev pub cost : {n : Libp2p} → Loop n → ℕ
  cost l = failures l.calls + waiting x l.pending_sends

  module _ {n : Libp2p} where
    pub cost-call : (l : Loop n) (c : Call) → cost (call l c) ≡ cost l + failures (c ∷ [])
    unfolding call
    cost-call l c = ground (arith, failures-append l.calls (c ∷ []))

    pub waiting-push :
        (l : Loop n) (peer : n.PeerId) (id : MessageId) (msg : MeerkatMessage)
        → waiting x (push l peer (id, msg)).pending_sends ≤ waiting x l.pending_sends + hit x id
    unfolding push entry
    waiting-push l peer id msg =
        ground (arith, waiting-insert x ⦃test = n.peer_eq⦄ l.pending_sends peer id msg)

    pub waiting-forget-push :
        (l : Loop n) (peer : n.PeerId) (id : MessageId) (msg : MeerkatMessage)
        → waiting x (forget (push l peer (id, msg)) peer).pending_sends ≤ waiting x l.pending_sends
    unfolding push forget
    waiting-forget-push l peer id msg =
        waiting-remove-insert x ⦃test = n.peer_eq⦄ l.pending_sends peer
          (entry l peer ++ ((id, msg) ∷ []))

    pub cost-connected :
        (j : Json MeerkatMessage) (peer : n.PeerId) (l : Loop n)
        → cost (connected j peer l) + queued x (entry l peer) ≤ cost l
    unfolding entry forget call
    cost-connected j peer l = ground (
      arith,
      failures-append l.calls (Call.on_peer_connected (n.show_peer peer) ∷ []),
      waiting-remove x ⦃test = n.peer_eq⦄ l.pending_sends peer,
    )
