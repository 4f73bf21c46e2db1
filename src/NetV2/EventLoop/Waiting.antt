-- ===== src/NetV2/EventLoop/Waiting.antt =====
-- How long a message waits, and in which order messages leave.
use ping_pong_libp2p.Base.{
  ◌≡◌, ◌≢◌, refl, sym, ap, ◌∙◌, inl, inr, false, Option, none, some, List, [], ◌∷◌, ◌++◌, arith,
  append-nil, append_assoc, if◌then◌else◌, Option-cases, All, beq_ne, beq_refl, subst,
}
use mathlib.Core.List.{foldl}
use ping_pong_libp2p.Io.{ok, err, Result-cases}
use ping_pong_libp2p.Deps.Json.{Json}
use ping_pong_libp2p.Deps.Libp2p.{Libp2p}
use ping_pong_libp2p.NetV2.Types.{MessageId, Address, MeerkatMessage}
use ping_pong_libp2p.NetV2.Address.{extract_peer_id}
use ping_pong_libp2p.NetV2.EventLoop.{
  Loop, entry, do_send, handle_swarm_event, step, event_loop, send_messages, send_to_peer, dial_for,
  push, do_listen, do_listen_via_relay, handle_incoming, on_new_listen_addr,
}
use ping_pong_libp2p.NetV2.EventLoop.Signals.{
  ReplyTx, SwarmCommand, SwarmEvent, Wake, command, incoming, swarm_event, connection_established,
  connection_closed, new_listen_addr, relay, relay_client, identify_received, identify_other, other,
}
use ping_pong_libp2p.NetV2.EventLoop.Pending.{
  same_peer, entry-do_send, do_send-known, send_known-down,
}
use ping_pong_libp2p.NetV2.EventLoop.Flush.{
  connected, connection_established-sends, connection_established-flushes,
}

-- The peer that an address leads to.
abbrev pub target : (n : Libp2p) → Address → Option n.PeerId
target n addr = elim (n.parse addr) [ err _ ↦ none | ok m ↦ extract_peer_id n m ]

-- A turn of the loop that is neither a send to `peer` nor a connection with it.
abbrev pub Leaves : (n : Libp2p) → n.PeerId → Wake n → Type 0
Leaves n peer (command (SwarmCommand.send id addr msg)) = target n addr ≢ some peer
Leaves n peer (swarm_event (connection_established q)) = q ≢ peer
Leaves n peer (incoming q stream) = Unit
Leaves n peer _ = Unit

module _ {n : Libp2p} (j : Json MeerkatMessage) (peer : n.PeerId) where
  pub entry-do_send_lost :
      (id : MessageId) (addr : Address) (msg : MeerkatMessage) (l : Loop n)
      → target n addr ≡ none
      → entry (do_send n j id addr msg l) peer ≡ entry l peer
  unfolding do_send entry
  entry-do_send_lost id addr msg l h = ground arith

  entry-do_send_leaves :
      (id : MessageId) (addr : Address) (msg : MeerkatMessage) (l : Loop n)
      → target n addr ≢ some peer
      → entry (do_send n j id addr msg l) peer ≡ entry l peer
  entry-do_send_leaves id addr msg l h = elim (Result-cases (n.parse addr)) [
    | inr (e, p) ↦ entry-do_send_lost id addr msg l (ground arith)
    | inl (m, p) ↦ elim (Option-cases (extract_peer_id n m)) [
      | inl e ↦ entry-do_send_lost id addr msg l (ground arith)
      | inr (q, e) ↦
          (let found : target n addr ≡ some q = ground arith in
            let differ : same_peer n q peer ≡ false =
              beq_ne ⦃test = n.peer_eq⦄ q peer (λ k. h (found ∙ ap some k)) in
            entry-do_send j id addr msg l peer m q p e ∙ ground (arith, differ))
    ]
  ]

  pub entry-do_listen :
      (addr : Address) (tx : ReplyTx) (l : Loop n)
      → entry (do_listen n j addr tx l) peer ≡ entry l peer
  unfolding do_listen entry
  entry-do_listen addr tx l = ground arith

  entry-do_listen_via_relay :
      (addr : Address) (tx : ReplyTx) (l : Loop n)
      → entry (do_listen_via_relay n j addr tx l) peer ≡ entry l peer
  unfolding do_listen_via_relay entry
  entry-do_listen_via_relay addr tx l = ground arith

  entry-handle_incoming :
      (q : n.PeerId) (stream : n.Stream) (l : Loop n)
      → entry (handle_incoming n j q stream l) peer ≡ entry l peer
  unfolding handle_incoming entry
  entry-handle_incoming q stream l = ground arith

  entry-on_new_listen_addr :
      (address : n.Multiaddr) (l : Loop n)
      → entry (on_new_listen_addr n j address l) peer ≡ entry l peer
  unfolding on_new_listen_addr entry
  entry-on_new_listen_addr address l = ground arith

  entry-handle_swarm_event :
      (e : SwarmEvent n) (l : Loop n)
      → Leaves n peer (swarm_event e)
      → entry (handle_swarm_event n j e l) peer ≡ entry l peer
  unfolding handle_swarm_event entry
  entry-handle_swarm_event (new_listen_addr address) l h = entry-on_new_listen_addr address l
  entry-handle_swarm_event (connection_established q) l h =
      (connection_established-flushes j q peer l).1
      ∙ ap (λ b. if b then [] else entry l peer) (beq_ne ⦃test = n.peer_eq⦄ q peer h)
  entry-handle_swarm_event (connection_closed q) l h = refl
  entry-handle_swarm_event relay_client l h = refl
  entry-handle_swarm_event relay l h = refl
  entry-handle_swarm_event (identify_received a) l h = refl
  entry-handle_swarm_event identify_other l h = refl
  entry-handle_swarm_event other l h = refl

  pub entry-step :
      (w : Wake n) (l : Loop n) → Leaves n peer w → entry (step n j w l) peer ≡ entry l peer
  unfolding step
  entry-step (command (SwarmCommand.send id addr msg)) l h = entry-do_send_leaves id addr msg l h
  entry-step (command (SwarmCommand.listen addr tx)) l h = entry-do_listen addr tx l
  entry-step (command (SwarmCommand.listen_via_relay addr tx)) l h =
      entry-do_listen_via_relay addr tx l
  entry-step (incoming q stream) l h = entry-handle_incoming q stream l
  entry-step (swarm_event e) l h = entry-handle_swarm_event e l h

  -- Messages that wait for a peer wait until a connection with it is established or another send
  -- to it is attempted: no other command, stream or event, a closed connection and all events that
  -- the loop ignores included, takes one out of the peer's queue or changes their order.
  pub event_loop-waits :
      (ws : List (Wake n)) (l : Loop n)
      → All (Leaves n peer) ws
      → entry (event_loop n j ws l) peer ≡ entry l peer
  unfolding event_loop
  event_loop-waits [] l h = refl
  event_loop-waits (w ∷ ws) l h = event_loop-waits ws (step n j w l) h.1 ∙ entry-step w l h.0

-- The `Send` commands of some messages to one address.
abbrev pub sends : (n : Libp2p) → Address → List (MessageId × MeerkatMessage) → List (Wake n)
sends n addr [] = []
sends n addr ((id, msg) ∷ ms) = command (SwarmCommand.send id addr msg) ∷ sends n addr ms

module _ {n : Libp2p} (j : Json MeerkatMessage) where
  net-dial_for :
      (m : n.Multiaddr) (peer : n.PeerId) (id : MessageId) (waits : MessageId × MeerkatMessage)
      (l : Loop n)
      → (dial_for n j m peer id (push l peer waits)).net ≡ (n.dial m l.net).1
  unfolding dial_for push
  net-dial_for m peer id waits l = ground arith

  net-do_send :
      (id : MessageId) (addr : Address) (msg : MeerkatMessage) (l : Loop n) (m : n.Multiaddr)
      (peer : n.PeerId)
      → n.parse addr ≡ ok m
      → extract_peer_id n m ≡ some peer
      → n.is_connected l.net peer ≡ false
      → (do_send n j id addr msg l).net ≡ (n.dial m l.net).1
  net-do_send id addr msg l m peer p e down =
      ap (λ (k : Loop n). k.net)
        (do_send-known j id addr msg l m peer p e ∙ send_known-down j m peer id msg l down)
      ∙ net-dial_for m peer id (id, msg) l

  entry-sends :
      (addr : Address) (m : n.Multiaddr) (peer : n.PeerId) (Down : n.World → Type 0)
      (stays : (w : n.World)
        → Down w
        → (n.is_connected w peer ≡ false) × ((n.dial m w).0 ≡ ok tt) × Down (n.dial m w).1)
      (ms : List (MessageId × MeerkatMessage)) (l : Loop n)
      → n.parse addr ≡ ok m
      → extract_peer_id n m ≡ some peer
      → Down l.net
      → entry (event_loop n j (sends n addr ms) l) peer ≡ entry l peer ++ ms
  unfolding event_loop
  entry-sends addr m peer Down stays [] l p e down = sym (append-nil (entry l peer))
  entry-sends addr m peer Down stays ((id, msg) ∷ ms) l p e down =
      let (off, started, down') = stays l.net down in
      let l' : Loop n = do_send n j id addr msg l in
      let queued : entry l' peer ≡ entry l peer ++ ((id, msg) ∷ []) =
        entry-do_send j id addr msg l peer m peer p e
        ∙ ground (arith, beq_refl ⦃test = n.peer_eq⦄ peer, off, started) in
      entry-sends addr m peer Down stays ms l' p e
        (subst Down (sym (net-do_send id addr msg l m peer p e off)) down')
      ∙ ap (λ q. q ++ ms) queued
      ∙ append_assoc (entry l peer) ((id, msg) ∷ []) ms

  send_messages-foldl :
      (peer : n.PeerId) (ms : List (MessageId × MeerkatMessage)) (l : Loop n)
      → send_messages n j peer ms l ≡ foldl (λ k x. send_to_peer n j peer x.0 x.1 k) l ms
  unfolding send_messages
  send_messages-foldl peer [] l = refl
  send_messages-foldl peer ((id, msg) ∷ ms) l =
      send_messages-foldl peer ms (send_to_peer n j peer id msg l)

  -- Messages sent while the peer is not reached, with every dial started, wait in the order of
  -- their commands behind those that waited before; and the connection, once established, makes of
  -- the loop what sending each of them to the peer, once and in that order, makes of it. `Down` is any condition on the network under which the peer is not
  -- connected and a dial starts, and which a dial does not end.
  pub event_loop-sends_in_order :
      (addr : Address) (m : n.Multiaddr) (peer : n.PeerId) (Down : n.World → Type 0)
      (stays : (w : n.World)
        → Down w
        → (n.is_connected w peer ≡ false) × ((n.dial m w).0 ≡ ok tt) × Down (n.dial m w).1)
      (ms : List (MessageId × MeerkatMessage)) (l : Loop n)
      → n.parse addr ≡ ok m
      → extract_peer_id n m ≡ some peer
      → Down l.net
      → let l' = event_loop n j (sends n addr ms) l in
        (entry l' peer ≡ entry l peer ++ ms)
        × (handle_swarm_event n j (connection_established peer) l'
            ≡ foldl
                (λ k x. send_to_peer n j peer x.0 x.1 k)
                (connected j peer l')
                (entry l peer ++ ms))
  event_loop-sends_in_order addr m peer Down stays ms l p e down =
      let l' : Loop n = event_loop n j (sends n addr ms) l in
      let queue : entry l' peer ≡ entry l peer ++ ms =
        entry-sends addr m peer Down stays ms l p e down in
      (
        queue,
        connection_established-sends j peer l'
            ∙ ap (λ q. send_messages n j peer q (connected j peer l')) queue
            ∙ send_messages-foldl peer (entry l peer ++ ms) (connected j peer l'),
      )
