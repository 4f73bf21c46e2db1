-- ===== src/NetV2/EventLoop/Order.antt =====
-- Which messages wait for a peer, and in which order: the queue against the commands that came.
use mathlib.Core.List.{Sublist, sublist-append_left}
use mathlib.Core.List.Sublist
use ping_pong_libp2p.Base.{
  inl, inr, Bool, true, false, Option, none, some, List, [], ◌∷◌, ◌++◌, arith, append_assoc,
  if◌then◌else◌, Bool-cases, Option-cases,
}
use ping_pong_libp2p.Base.Assoc.{get}
use ping_pong_libp2p.Io.{Result, ok, err, Result-cases}
use ping_pong_libp2p.Text.{Text}
use ping_pong_libp2p.Deps.Json.{Json}
use ping_pong_libp2p.Deps.Libp2p.{Libp2p}
use ping_pong_libp2p.NetV2.Types.{MessageId, Address, MeerkatMessage}
use ping_pong_libp2p.NetV2.EventLoop.{Loop, entry, do_send, step, event_loop, start}
use ping_pong_libp2p.NetV2.EventLoop.Signals.{
  SwarmCommand, Wake, command, incoming, swarm_event, connection_established, connection_closed,
  new_listen_addr, relay, relay_client, identify_received, identify_other, other,
}
use ping_pong_libp2p.NetV2.EventLoop.Pending.{same_peer, entry-do_send}
use ping_pong_libp2p.NetV2.EventLoop.Flush.{connection_established-flushes}
use ping_pong_libp2p.NetV2.EventLoop.Waiting.{Leaves, target, entry-do_send_lost, entry-step}

abbrev Messages : Type 0
Messages = List (MessageId × MeerkatMessage)

-- Whether the peer is `q`.
abbrev leads_to : (n : Libp2p) → n.PeerId → Option n.PeerId → Bool
leads_to n q none = false
leads_to n q (some peer) = same_peer n peer q

-- What a send makes of a queue, whatever it meets.
queue-Sublist :
    (up same : Bool) (dialled : Result (Unit {0}) Text) (m : MessageId × MeerkatMessage)
    (ms : Messages)
    → Sublist
        (if up
          then ms
          else if same
          then elim dialled [ ok _ ↦ ms ++ (m ∷ []) | err _ ↦ [] ]
          else ms)
        (ms ++ (if same then m ∷ [] else []))
queue-Sublist true same dialled m ms = sublist-append_left ms (if same then m ∷ [] else [])
queue-Sublist false false dialled m ms = sublist-append_left ms []
queue-Sublist false true (ok _) m ms = Sublist.refl (ms ++ (m ∷ []))
queue-Sublist false true (err _) m ms = sublist-append_left [] (ms ++ (m ∷ []))

module _ {n : Libp2p} (q : n.PeerId) where
  -- The message of a `Send` command to the peer.
  abbrev pub sent_by : Wake n → Messages
  sent_by (command (SwarmCommand.send id addr msg)) =
      if leads_to n q (target n addr) then (id, msg) ∷ [] else []
  sent_by (command (SwarmCommand.listen addr tx)) = []
  sent_by (command (SwarmCommand.listen_via_relay addr tx)) = []
  sent_by (incoming peer stream) = []
  sent_by (swarm_event event) = []

  -- The messages that were sent to it, in order.
  abbrev pub sent_to : List (Wake n) → Messages
  sent_to [] = []
  sent_to (w ∷ ws) = sent_by w ++ sent_to ws

  module _ (j : Json MeerkatMessage) where
    -- What the queue can become: as it was, with the message behind it, or empty.
    entry-do_send-Sublist :
        (id : MessageId) (addr : Address) (msg : MeerkatMessage) (l : Loop n)
        → Sublist
            (entry (do_send n j id addr msg l) q)
            (entry l q ++ sent_by (command (SwarmCommand.send id addr msg)))
    entry-do_send-Sublist id addr msg l = elim (Option-cases (target n addr)) [
      | inl lost ↦
          rw (entry-do_send_lost j q id addr msg l lost) (sublist-append_left (entry l q) _)
      | inr (peer, found) ↦ elim (Result-cases (n.parse addr)) [
        | inr (e, p) ↦ absurd (ground (arith, p))
        | inl (m, p) ↦
            rw (entry-do_send j id addr msg l q m peer p (ground (arith, p)), found)
              (queue-Sublist (n.is_connected l.net peer) (same_peer n peer q) (n.dial m l.net).0
                (id, msg) (entry l q))
      ]
    ]

    -- A turn that leaves the queue alone.
    unchanged :
        (w : Wake n) (l : Loop n)
        → Leaves n q w
        → Sublist (entry (step n j w l) q) (entry l q ++ sent_by w)
    unchanged w l h = rw (entry-step j q w l h) (sublist-append_left (entry l q) (sent_by w))

    connected-Sublist :
        (peer : n.PeerId) (l : Loop n)
        → Sublist
            (entry (step n j (swarm_event (connection_established peer)) l) q)
            (entry l q ++ [])
    unfolding step
    connected-Sublist peer l =
        rw ((connection_established-flushes j peer q l).1) (elim (Bool-cases (same_peer n peer q)) [
          | inl same ↦ rw same (sublist-append_left [] (entry l q ++ []))
          | inr differ ↦ rw differ (sublist-append_left (entry l q) [])
        ])

    entry-step-Sublist :
        (w : Wake n) (l : Loop n) → Sublist (entry (step n j w l) q) (entry l q ++ sent_by w)
    entry-step-Sublist (command (SwarmCommand.send id addr msg)) l =
        unfold step in entry-do_send-Sublist id addr msg l
    entry-step-Sublist (command (SwarmCommand.listen addr tx)) l = unchanged _ l tt
    entry-step-Sublist (command (SwarmCommand.listen_via_relay addr tx)) l = unchanged _ l tt
    entry-step-Sublist (incoming peer stream) l = unchanged _ l tt
    entry-step-Sublist (swarm_event (connection_established peer)) l = connected-Sublist peer l
    entry-step-Sublist (swarm_event (connection_closed peer)) l = unchanged _ l tt
    entry-step-Sublist (swarm_event (new_listen_addr address)) l = unchanged _ l tt
    entry-step-Sublist (swarm_event (identify_received a)) l = unchanged _ l tt
    entry-step-Sublist (swarm_event relay_client) l = unchanged _ l tt
    entry-step-Sublist (swarm_event relay) l = unchanged _ l tt
    entry-step-Sublist (swarm_event identify_other) l = unchanged _ l tt
    entry-step-Sublist (swarm_event other) l = unchanged _ l tt

    entry-event_loop-Sublist :
        (ws : List (Wake n)) (l : Loop n)
        → Sublist (entry (event_loop n j ws l) q) (entry l q ++ sent_to ws)
    unfolding event_loop
    entry-event_loop-Sublist [] l = sublist-append_left (entry l q) []
    entry-event_loop-Sublist (w ∷ ws) l = rw (← append_assoc (entry l q) (sent_by w) (sent_to ws)) (
        Sublist.trans (entry-event_loop-Sublist ws (step n j w l))
          (Sublist.append (entry-step-Sublist w l) (Sublist.refl (sent_to ws))))

    -- In every run of the loop from its start, what waits for a peer are messages that were sent to
    -- an address of this peer, each at most as often as it was sent, in the order of the `Send`
    -- commands: the loop never makes up, repeats, misroutes or reorders a waiting message.
    pub waiting-Sublist :
        (ws : List (Wake n)) (w : n.World)
        → Sublist (entry (event_loop n j ws (start n j w)) q) (sent_to ws)
    waiting-Sublist ws w = unfold entry get in entry-event_loop-Sublist ws (start n j w)
