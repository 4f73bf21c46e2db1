-- ===== src/NetV2/Actor/Failures.antt =====
-- The actor and its event loop together: which failures a client can see. The commands that wake the
-- loop are those of the actor, in their order; everything else that wakes it may come in between.
use ping_pong_libp2p.Base.{
  ℕ, suc, ◌+◌, ◌^◌, ◌<◌, ◌≤◌, ◌≡◌, refl, ap, subst, ◌∙◌, List, [], ◌∷◌, ◌++◌, arith,
}
use ping_pong_libp2p.Queues.{hit, among, waiting, count_up}
use ping_pong_libp2p.Deps.Channel.{Channel}
use ping_pong_libp2p.Io.{Result, ok, err}
use ping_pong_libp2p.Text.{Text}
use ping_pong_libp2p.Deps.Json.{Json}
use ping_pong_libp2p.Deps.Libp2p.{Libp2p}
use ping_pong_libp2p.NetV2.Types.{MessageId, MeerkatMessage, NodeType}
use ping_pong_libp2p.NetV2.Messages.{
  NetworkCommand, send_message, listen, get_local_addresses, listen_via_relay, NetworkEvent,
}
use ping_pong_libp2p.NetV2.NetworkLayer.Ids.{Session, run, sends, sends-cons, ids, ids-run}
use ping_pong_libp2p.NetV2.EventLoop.{Loop, event_loop, start}
use ping_pong_libp2p.NetV2.EventLoop.Signals.{SwarmCommand, Wake, command, incoming, swarm_event}
use ping_pong_libp2p.NetV2.EventLoop.Cost.{failures, sent}
use ping_pong_libp2p.NetV2.EventLoop.AtMostOnce.{event_loop-at_most_once}
use ping_pong_libp2p.NetV2.Actor.{NetworkActor, Answer, new, handle_command, finish_listen}
use ping_pong_libp2p.NetV2.Actor.Contract.{
  network_layer, network_actor-Contract, handle_command-send_message,
}

-- The commands among what wakes the loop.
abbrev pub commands : {n : Libp2p} → List (Wake n) → List SwarmCommand
commands [] = []
commands (command cmd ∷ ws) = cmd ∷ commands ws
commands (incoming peer stream ∷ ws) = commands ws
commands (swarm_event event ∷ ws) = commands ws

module _ (x : MessageId) where
  abbrev named : List SwarmCommand → ℕ
  named [] = 0
  named (SwarmCommand.send id addr msg ∷ cmds) = hit x id + named cmds
  named (SwarmCommand.listen addr tx ∷ cmds) = named cmds
  named (SwarmCommand.listen_via_relay addr tx ∷ cmds) = named cmds

  named-append : (cs ds : List SwarmCommand) → named (cs ++ ds) ≡ named cs + named ds
  named-append [] ds = omega arith
  named-append (SwarmCommand.send id addr msg ∷ cs) ds = ground (arith, named-append cs ds)
  named-append (SwarmCommand.listen addr tx ∷ cs) ds = named-append cs ds
  named-append (SwarmCommand.listen_via_relay addr tx ∷ cs) ds = named-append cs ds

  sent-named : {n : Libp2p} (ws : List (Wake n)) → sent x ws ≡ named (commands ws)
  sent-named [] = refl
  sent-named (command (SwarmCommand.send id addr msg) ∷ ws) = ap (λ k. hit x id + k) (sent-named ws)
  sent-named (command (SwarmCommand.listen addr tx) ∷ ws) = sent-named ws
  sent-named (command (SwarmCommand.listen_via_relay addr tx) ∷ ws) = sent-named ws
  sent-named (incoming peer stream ∷ ws) = sent-named ws
  sent-named (swarm_event event ∷ ws) = sent-named ws

  module _ {n : Libp2p} {c : Channel NetworkEvent} where
    command_tx-finish_listen :
        (answer : Answer) (self : NetworkActor n c)
        → ((finish_listen answer self).1.command_tx ≡ self.command_tx)
          × ((finish_listen answer self).1.next_message_id ≡ self.next_message_id)
    unfolding finish_listen
    command_tx-finish_listen answer self = (ground arith, ground arith)

    named-listen :
        (answer : Answer) (cmd : SwarmCommand) (next : ℕ) (self : NetworkActor n c)
        → named (cmd ∷ []) ≡ 0
        → let self' : NetworkActor n c = record self {
          next_reply = next;
          command_tx = self.command_tx ++ (cmd ∷ []);
        } in
          (named (finish_listen answer self').1.command_tx ≡ named self.command_tx)
          × ((finish_listen answer self').1.next_message_id ≡ self.next_message_id)
    named-listen answer cmd next self none_named =
        let self' : NetworkActor n c = record self {
          next_reply = next;
          command_tx = self.command_tx ++ (cmd ∷ []);
        } in
        let (same, id) = command_tx-finish_listen answer self' in
        (ap named same ∙ named-append self.command_tx (cmd ∷ []) ∙ omega (arith, none_named), id)

    -- One command hands the loop its own id, if it is a send, and no other.
    named-handle_command :
        (w : Answer) (cmd : NetworkCommand) (self : NetworkActor n c)
        → let k = sends (network_layer n c) ((w, cmd) ∷ []) in
          let self' = (handle_command w cmd self).1 in
          self.next_message_id + k < 2 ^ 64
          → (named self'.command_tx ≡ named self.command_tx + among x self.next_message_id k)
            × (self'.next_message_id ≡ self.next_message_id + k)
    named-handle_command w (send_message addr msg) self h =
        let (_, handed, next, _, _) = handle_command-send_message w addr msg self in
        let now = ap named handed ∙ named-append self.command_tx (SwarmCommand.send _ _ _ ∷ []) in
        (ground (arith, now), omega (arith, next))
    named-handle_command w (listen addr) self h =
        unfold handle_command in
        (let (same, id) =
            named-listen w (SwarmCommand.listen addr self.next_reply) (suc self.next_reply) self
              refl in
          (ground (arith, same), omega (arith, id)))
    named-handle_command w (listen_via_relay addr) self h =
        unfold handle_command in
        (let (same, id) =
            named-listen w (SwarmCommand.listen_via_relay addr self.next_reply)
              (suc self.next_reply) self refl in
          (ground (arith, same), omega (arith, id)))
    named-handle_command w get_local_addresses self h =
        unfold handle_command in (ground arith, omega arith)

    named-run :
        (cmds : Session (network_layer n c)) (self : NetworkActor n c)
        → self.next_message_id + sends (network_layer n c) cmds < 2 ^ 64
        → named (run (network_layer n c) cmds self).1.command_tx
          ≡ named self.command_tx + among x self.next_message_id (sends (network_layer n c) cmds)
    named-run [] self h = ground arith
    named-run ((w, cmd) ∷ cmds) self h =
        let self' : NetworkActor n c = (handle_command w cmd self).1 in
        let both = sends-cons (network_layer n c) w cmd cmds in
        let (now, next) = named-handle_command w cmd self (omega (arith, both)) in
        named-run cmds self' (omega (arith, next, both)) ∙ ground (arith, now, next, both)

  module _ {n : Libp2p} (c : Channel NetworkEvent) where
    failures-started :
        (j : Json MeerkatMessage) (self : NetworkActor n c) (cmds : Session (network_layer n c))
        (ws : List (Wake n)) (later : List SwarmCommand) (w : n.World)
        → self.command_tx ≡ []
        → self.next_message_id ≡ 1
        → 1 + sends (network_layer n c) cmds < 2 ^ 64
        → (run (network_layer n c) cmds self).1.command_tx ≡ commands ws ++ later
        → let l = event_loop n j ws (start n j w) in
          (ids (run (network_layer n c) cmds self).0 ≡ count_up 1 (sends (network_layer n c) cmds))
          × (failures x l.event_tx + waiting x l.pending_sends
              ≤ among x 1 (sends (network_layer n c) cmds))
    failures-started j self cmds ws later w idle first fits taken =
        let fits' : self.next_message_id + sends (network_layer n c) cmds < 2 ^ 64 =
          omega (arith, first) in
        (
          ids-run (network_layer n c) (network_actor-Contract n c) cmds self fits'
              ∙ ap (λ k. count_up k (sends (network_layer n c) cmds)) first,
          omega (
            arith,
            event_loop-at_most_once x j ws w,
            sent-named ws,
            ap (named) taken ∙ named-append (commands ws) later,
            named-run cmds self fits',
            ap named idle,
            ap (λ k. among x k (sends (network_layer n c) cmds)) first,
          ),
        )

    -- The system of a new actor and its loop, in any session and any run: the sends are answered
    -- with the ids 1, 2, … in order, and if the loop has taken some of the actor's commands, in
    -- their order, then of each id given out at most one failure is reported, and none while its
    -- message still waits; and no failure is reported under any other id. (The session must not
    -- exhaust the ids.)
    pub failures_at_most_once :
        (j : Json MeerkatMessage) (built : Result (n.World × n.PeerId) Text) (t : NodeType)
        (self : NetworkActor n c) (l0 : Loop n) (cmds : Session (network_layer n c))
        (ws : List (Wake n)) (later : List SwarmCommand)
        → new j built t ≡ ok (self, l0)
        → 1 + sends (network_layer n c) cmds < 2 ^ 64
        → (run (network_layer n c) cmds self).1.command_tx ≡ commands ws ++ later
        → let l = event_loop n j ws l0 in
          (ids (run (network_layer n c) cmds self).0 ≡ count_up 1 (sends (network_layer n c) cmds))
          × (failures x l.event_tx + waiting x l.pending_sends
              ≤ among x 1 (sends (network_layer n c) cmds))
    unfolding new
    failures_at_most_once j (err e) t self l0 cmds ws later made fits taken = absurd (cc made)
    failures_at_most_once j (ok (w, name)) t self l0 cmds ws later made fits taken =
        let started : start n j w ≡ l0 = cc made in
        subst
          (λ l0.
            (ids (run (network_layer n c) cmds self).0
              ≡ count_up 1 (sends (network_layer n c) cmds))
            × (failures x (event_loop n j ws l0).event_tx
                  + waiting x (event_loop n j ws l0).pending_sends
                ≤ among x 1 (sends (network_layer n c) cmds)))
          started (failures-started j self cmds ws later w (cc made) (cc made) fits taken)
