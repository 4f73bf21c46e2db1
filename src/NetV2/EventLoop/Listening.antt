-- ===== src/NetV2/EventLoop/Listening.antt =====
-- How requests to listen are answered.
use ping_pong_libp2p.Base.{
  ◌≡◌, refl, sym, ◌⊎◌, Bool, true, false, Option, none, some, List, [], ◌∷◌, arith, All, All-append,
  inl, inr, Bool-cases, Option-cases, subst,
}
use ping_pong_libp2p.Io.{Result, ok, err, Result-cases}
use ping_pong_libp2p.Text.{Text, text, contains}
use ping_pong_libp2p.Deps.Json.{Json}
use ping_pong_libp2p.Deps.Libp2p.{Libp2p}
use ping_pong_libp2p.NetV2.Types.{Address, MeerkatMessage}
use ping_pong_libp2p.NetV2.EventLoop.{
  Loop, reply, answer_listen, handle_swarm_event, step, event_loop, start, do_listen,
  do_listen_via_relay, handle_incoming, on_new_listen_addr,
}
use ping_pong_libp2p.NetV2.EventLoop.Signals.{
  ReplyTx, SwarmCommand, SwarmEvent, Wake, command, incoming, swarm_event, connection_established,
  connection_closed, new_listen_addr, relay, relay_client, identify_received, identify_other, other,
}
use ping_pong_libp2p.NetV2.EventLoop.Events.{do_send_reports}
use ping_pong_libp2p.NetV2.EventLoop.Flush.{connection_established-books}

-- `is_relay` says which requests came with `ListenViaRelay`.
module _ (is_relay : ReplyTx → Bool) where
  -- A command that carries its request under the right name.
  abbrev pub IsTagged : {n : Libp2p} → Wake n → Type 0
  IsTagged (command (SwarmCommand.listen addr tx)) = is_relay tx ≡ false
  IsTagged (command (SwarmCommand.listen_via_relay addr tx)) = is_relay tx ≡ true
  IsTagged (incoming q stream) = Unit
  IsTagged _ = Unit

  -- An answer that a relay request may get: an error, or an address over a circuit.
  abbrev pub IsHonest : ReplyTx × Result Address Text → Type 0
  IsHonest (tx, err e) = Unit
  IsHonest (tx, ok addr) = (is_relay tx ≡ false) ⊎ (contains addr (text "/p2p-circuit") ≡ true)

  abbrev RelayTagged : Option (Address × ReplyTx) → Type 0
  RelayTagged none = Unit
  RelayTagged (some (addr, tx)) = is_relay tx ≡ true

  abbrev ListenTagged : Option ReplyTx → Type 0
  ListenTagged none = Unit
  ListenTagged (some tx) = is_relay tx ≡ false

  pub record Inv {n : Libp2p} (l : Loop n) : Type 0 where
    relay_tagged : RelayTagged l.pending_relay
    listen_tagged : ListenTagged l.pending_listen
    pub honest : All IsHonest l.replies

  module _ {n : Libp2p} where
    Inv-reply :
        (l : Loop n) (tx : ReplyTx) (r : Result Address Text)
        → Inv l
        → IsHonest (tx, r)
        → Inv (reply l tx r)
    unfolding reply
    Inv-reply l tx r h k = record {
      relay_tagged = h.relay_tagged;
      listen_tagged = h.listen_tagged;
      honest = All-append IsHonest l.replies ((tx, r) ∷ []) h.honest (k, tt);
    }

    Inv-net : (l : Loop n) (w : n.World) → Inv l → Inv (record l { net = w })
    Inv-net l w h = record {
      relay_tagged = h.relay_tagged;
      listen_tagged = h.listen_tagged;
      honest = h.honest;
    }

  module _ {n : Libp2p} (j : Json MeerkatMessage) where
    do_listen-Inv :
        (addr : Address) (tx : ReplyTx) (l : Loop n)
        → is_relay tx ≡ false
        → Inv l
        → Inv (do_listen n j addr tx l)
    unfolding do_listen
    do_listen-Inv addr tx l t h = elim (Result-cases (n.parse addr)) [
      | inr (e, p) ↦ rw (p, do_listen) (Inv-reply l tx _ h tt)
      | inl (m, p) ↦ elim (Result-cases (n.listen_on m l.net).0) [
        | inr (e, q) ↦ rw (p, do_listen, q) (Inv-reply _ tx _ (Inv-net l _ h) tt)
        | inl (u, q) ↦
            rw (p, do_listen, q)
              (record { relay_tagged = h.relay_tagged; listen_tagged = t; honest = h.honest })
      ]
    ]

    do_listen_via_relay-Inv :
        (addr : Address) (tx : ReplyTx) (l : Loop n)
        → is_relay tx ≡ true
        → Inv l
        → Inv (do_listen_via_relay n j addr tx l)
    unfolding do_listen_via_relay
    do_listen_via_relay-Inv addr tx l t h = elim (Result-cases (n.parse addr)) [
      | inr (e, p) ↦ rw (p, do_listen_via_relay) (Inv-reply l tx _ h tt)
      | inl (m, p) ↦ elim (Result-cases (n.dial m l.net).0) [
        | inr (e, q) ↦ rw (p, do_listen_via_relay, q) (Inv-reply _ tx _ (Inv-net l _ h) tt)
        | inl (u, q) ↦
            rw (p, do_listen_via_relay, q)
              (record { relay_tagged = t; listen_tagged = h.listen_tagged; honest = h.honest })
      ]
    ]

    answer_listen-Inv : (addr : Address) (l : Loop n) → Inv l → Inv (answer_listen n j addr l)
    unfolding answer_listen
    answer_listen-Inv addr l h = elim (Option-cases l.pending_listen) [
      | inl e ↦ rw (e, answer_listen) h
      | inr (tx, e) ↦
          (let t : is_relay tx ≡ false = subst ListenTagged e h.listen_tagged in
            rw (e, answer_listen)
              (Inv-reply _ tx (ok addr)
                (record { relay_tagged = h.relay_tagged; listen_tagged = tt; honest = h.honest })
                (inl t)))
    ]

    on_new_listen_addr-Inv :
        (address : n.Multiaddr) (l : Loop n) → Inv l → Inv (on_new_listen_addr n j address l)
    unfolding on_new_listen_addr
    on_new_listen_addr-Inv address l h =
        let addr : Address = n.show_addr address in
        elim (Bool-cases (contains addr (text "/p2p-circuit"))) [
          | inr plain ↦ rw (plain, on_new_listen_addr) (answer_listen-Inv addr l h)
          | inl circuit ↦ elim (Option-cases l.pending_relay) [
            | inl e ↦ rw (circuit, on_new_listen_addr, e) (answer_listen-Inv addr l h)
            | inr ((a, tx), e) ↦
                rw (circuit, on_new_listen_addr, e)
                  (Inv-reply _ tx (ok addr)
                    (record {
                      relay_tagged = tt;
                      listen_tagged = h.listen_tagged;
                      honest = h.honest;
                    })
                    (inr circuit))
          ]
        ]

    -- A step that touches no request keeps the invariant.
    Inv-same :
        (l l' : Loop n)
        → l'.pending_listen ≡ l.pending_listen
        → l'.pending_relay ≡ l.pending_relay
        → l'.replies ≡ l.replies
        → Inv l
        → Inv l'
    Inv-same l l' a b c h = record {
      relay_tagged = subst RelayTagged (sym b) h.relay_tagged;
      listen_tagged = subst ListenTagged (sym a) h.listen_tagged;
      honest = subst (All IsHonest) (sym c) h.honest;
    }

    handle_incoming-Inv :
        (q : n.PeerId) (stream : n.Stream) (l : Loop n)
        → Inv l
        → Inv (handle_incoming n j q stream l)
    unfolding handle_incoming
    handle_incoming-Inv q stream l h =
        Inv-same l (handle_incoming n j q stream l) (ground arith) (ground arith) (ground arith) h

    handle_swarm_event-Inv :
        (e : SwarmEvent n) (l : Loop n) → Inv l → Inv (handle_swarm_event n j e l)
    unfolding handle_swarm_event
    handle_swarm_event-Inv (new_listen_addr address) l h = on_new_listen_addr-Inv address l h
    handle_swarm_event-Inv (connection_established q) l h =
        let (a, b, c) = connection_established-books j q l in Inv-same l _ a b c h
    handle_swarm_event-Inv (connection_closed q) l h = Inv-same l _ refl refl refl h
    handle_swarm_event-Inv relay_client l h = h
    handle_swarm_event-Inv relay l h = h
    handle_swarm_event-Inv (identify_received a) l h = Inv-net l _ h
    handle_swarm_event-Inv identify_other l h = h
    handle_swarm_event-Inv other l h = h

    step-Inv : (w : Wake n) (l : Loop n) → IsTagged w → Inv l → Inv (step n j w l)
    unfolding step
    step-Inv (command (SwarmCommand.send id addr msg)) l t h =
        let (_, a, b, c) = do_send_reports j id addr msg l in Inv-same l _ a b c h
    step-Inv (command (SwarmCommand.listen addr tx)) l t h = do_listen-Inv addr tx l t h
    step-Inv (command (SwarmCommand.listen_via_relay addr tx)) l t h =
        do_listen_via_relay-Inv addr tx l t h
    step-Inv (incoming q stream) l t h = handle_incoming-Inv q stream l h
    step-Inv (swarm_event e) l t h = handle_swarm_event-Inv e l h

    event_loop-Inv :
        (ws : List (Wake n)) (l : Loop n) → All IsTagged ws → Inv l → Inv (event_loop n j ws l)
    unfolding event_loop
    event_loop-Inv [] l t h = h
    event_loop-Inv (w ∷ ws) l t h = event_loop-Inv ws (step n j w l) t.1 (step-Inv w l t.0 h)

    -- Whatever wakes the loop, in whatever order: a `ListenViaRelay` that is answered with an
    -- address is answered with one over a circuit. (`is_relay` tells the two kinds of requests
    -- apart, and every command carries its request under the right kind.)
    pub replies-IsHonest :
        (ws : List (Wake n)) (w : n.World)
        → All IsTagged ws
        → All IsHonest (event_loop n j ws (start n j w)).replies
    replies-IsHonest ws w t =
        (event_loop-Inv ws (start n j w) t
          (record { relay_tagged = tt; listen_tagged = tt; honest = tt })).honest
