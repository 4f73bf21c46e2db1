-- ===== src/NetV1/EventLoop/Addresses.antt =====
-- The addresses that the first version's loop keeps, and what it answers with.
use ping_pong_libp2p.Base.{
  ◌≡◌, refl, sym, ap, subst, ◌∙◌, inl, inr, List, [], ◌∷◌, ◌++◌, append-nil, append_assoc,
  Option-cases, All, All-append, arith,
}
use ping_pong_libp2p.Io.{Result, ok, err, Result-cases}
use ping_pong_libp2p.Deps.Json.{Json}
use ping_pong_libp2p.Deps.Libp2p.{Libp2p}
use ping_pong_libp2p.NetV1.Types.{GlobalAddress, MeerkatMessage, NetworkError, NetworkCallbacks}
use ping_pong_libp2p.NetV1.EventLoop.{
  ResponseTx, send, listen, new_listen_addr, connection_established, connection_closed, other, Wake,
  command, incoming, swarm_event, Loop, respond, do_listen, on_new_listen_addr, step, event_loop,
  start,
}
use ping_pong_libp2p.NetV1.EventLoop.Listening.{SameListening, step-SameListening, reported}

-- An answer is an error, or an address of the list.
abbrev pub IsListed : List GlobalAddress → ResponseTx × Result GlobalAddress NetworkError → Type 0
IsListed addrs (tx, err e) = Unit
IsListed addrs (tx, ok a) =
    (before : List GlobalAddress) × ((after : List GlobalAddress) × (addrs ≡ before ++ (a ∷ after)))

IsListed-append :
    (addrs more : List GlobalAddress) (r : ResponseTx × Result GlobalAddress NetworkError)
    → IsListed addrs r
    → IsListed (addrs ++ more) r
IsListed-append addrs more (tx, err e) h = tt
IsListed-append addrs more (tx, ok a) (before, (after, e)) =
    (before, (after ++ more, ap (λ l. l ++ more) e ∙ append_assoc before (a ∷ after) more))

All-IsListed :
    (addrs more : List GlobalAddress) (rs : List (ResponseTx × Result GlobalAddress NetworkError))
    → All (IsListed addrs) rs
    → All (IsListed (addrs ++ more)) rs
All-IsListed addrs more [] h = tt
All-IsListed addrs more (r ∷ rs) h =
    (IsListed-append addrs more r h.0, All-IsListed addrs more rs h.1)

module _ {n : Libp2p} (j : Json MeerkatMessage) where
  -- What one turn keeps and adds.
  abbrev Extends : Wake n → Loop n → Loop n → Type 0
  Extends w l l' =
      (l'.local_addrs ≡ l.local_addrs ++ reported n (w ∷ []))
      × All (IsListed l'.local_addrs) l'.responses

  Extends-same :
      (l l' : Loop n)
      → SameListening l l'
      → All (IsListed l.local_addrs) l.responses
      → (l'.local_addrs ≡ l.local_addrs ++ []) × All (IsListed l'.local_addrs) l'.responses
  Extends-same l l' same h = (
    same.addrs ∙ sym (append-nil l.local_addrs),
    subst (λ a. All (IsListed a) l'.responses) (sym same.addrs)
        (subst (All (IsListed l.local_addrs)) (sym same.answers) h),
  )

  respond-IsListed :
      (l : Loop n) (tx : ResponseTx) (e : NetworkError)
      → All (IsListed l.local_addrs) l.responses
      → All (IsListed l.local_addrs) (l.responses ++ ((tx, err e) ∷ []))
  respond-IsListed l tx e h =
      All-append (IsListed l.local_addrs) l.responses ((tx, err e) ∷ []) h (tt, tt)

  do_listen-Extends :
      (addr : GlobalAddress) (tx : ResponseTx) (l : Loop n)
      → All (IsListed l.local_addrs) l.responses
      → Extends (command (listen addr tx)) l (do_listen n j addr tx l)
  unfolding do_listen
  do_listen-Extends addr tx l h = elim (Result-cases (n.parse addr)) [
    | inr (e, p) ↦
        rw (p, do_listen)
          (sym (append-nil l.local_addrs), unfold respond in respond-IsListed l tx _ h)
    | inl (m, p) ↦ elim (Result-cases (n.listen_on m l.net).0) [
      | inr (e, q) ↦
          rw (p, do_listen, q)
            (sym (append-nil l.local_addrs), unfold respond in respond-IsListed l tx _ h)
      | inl (u, q) ↦ rw (p, do_listen, q) (sym (append-nil l.local_addrs), h)
    ]
  ]

  on_new_listen_addr-Extends :
      (a : n.Multiaddr) (l : Loop n)
      → All (IsListed l.local_addrs) l.responses
      → Extends (swarm_event (new_listen_addr a)) l (on_new_listen_addr n j a l)
  unfolding on_new_listen_addr
  on_new_listen_addr-Extends a l h =
      let more : List GlobalAddress = n.show_addr a ∷ [] in
      let kept = All-IsListed l.local_addrs more l.responses h in
      elim (Option-cases l.pending_listen) [
        | inl e ↦ rw (e, on_new_listen_addr) (refl, kept)
        | inr (tx, e) ↦
            rw (e, on_new_listen_addr)
              (
                refl,
                All-append (IsListed (l.local_addrs ++ more)) l.responses
                    ((tx, ok (n.show_addr a)) ∷ []) kept ((l.local_addrs, ([], refl)), tt),
              )
      ]

  step-Extends :
      (w : Wake n) (l : Loop n)
      → All (IsListed l.local_addrs) l.responses
      → Extends w l (step n j w l)
  unfolding step
  step-Extends (command (listen addr tx)) l h = do_listen-Extends addr tx l h
  step-Extends (swarm_event (new_listen_addr a)) l h = on_new_listen_addr-Extends a l h
  step-Extends (command (send id addr msg)) l h =
      Extends-same l _ (step-SameListening j (command (send id addr msg)) l tt) h
  step-Extends (incoming q stream) l h =
      Extends-same l _ (step-SameListening j (incoming q stream) l tt) h
  step-Extends (swarm_event (connection_established q)) l h =
      Extends-same l _ (step-SameListening j (swarm_event (connection_established q)) l tt) h
  step-Extends (swarm_event (connection_closed q)) l h =
      Extends-same l _ (step-SameListening j (swarm_event (connection_closed q)) l tt) h
  step-Extends (swarm_event other) l h =
      Extends-same l _ (step-SameListening j (swarm_event other) l tt) h

  reported-cons :
      (w : Wake n) (ws : List (Wake n)) → reported n (w ∷ ws) ≡ reported n (w ∷ []) ++ reported n ws
  reported-cons (command cmd) ws = refl
  reported-cons (incoming q stream) ws = refl
  reported-cons (swarm_event (new_listen_addr a)) ws = refl
  reported-cons (swarm_event (connection_established q)) ws = refl
  reported-cons (swarm_event (connection_closed q)) ws = refl
  reported-cons (swarm_event other) ws = refl

  event_loop-Extends :
      (ws : List (Wake n)) (l : Loop n)
      → All (IsListed l.local_addrs) l.responses
      → ((event_loop n j ws l).local_addrs ≡ l.local_addrs ++ reported n ws)
        × All (IsListed (event_loop n j ws l).local_addrs) (event_loop n j ws l).responses
  unfolding event_loop
  event_loop-Extends [] l h = (sym (append-nil l.local_addrs), h)
  event_loop-Extends (w ∷ ws) l h =
      let (now, listed) = step-Extends w l h in
      let (then_on, all_listed) = event_loop-Extends ws (step n j w l) listed in
      (
        then_on
            ∙ ap (λ a. a ++ reported n ws) now
            ∙ append_assoc l.local_addrs (reported n (w ∷ [])) (reported n ws)
            ∙ ap (λ a. l.local_addrs ++ a) (sym (reported-cons w ws)),
        all_listed,
      )

  local_addrs-do_listen :
      (addr : GlobalAddress) (tx : ResponseTx) (l : Loop n)
      → (do_listen n j addr tx l).local_addrs ≡ l.local_addrs ++ []
  unfolding do_listen respond
  local_addrs-do_listen addr tx l = ground (arith, append-nil l.local_addrs)

  local_addrs-on_new_listen_addr :
      (a : n.Multiaddr) (l : Loop n)
      → (on_new_listen_addr n j a l).local_addrs ≡ l.local_addrs ++ (n.show_addr a ∷ [])
  unfolding on_new_listen_addr respond
  local_addrs-on_new_listen_addr a l = ground arith

  local_addrs-step :
      (w : Wake n) (l : Loop n) → (step n j w l).local_addrs ≡ l.local_addrs ++ reported n (w ∷ [])
  unfolding step
  local_addrs-step (command (listen addr tx)) l = local_addrs-do_listen addr tx l
  local_addrs-step (swarm_event (new_listen_addr a)) l = local_addrs-on_new_listen_addr a l
  local_addrs-step (command (send id addr msg)) l =
      (step-SameListening j (command (send id addr msg)) l tt).addrs
      ∙ sym (append-nil l.local_addrs)
  local_addrs-step (incoming q stream) l =
      (step-SameListening j (incoming q stream) l tt).addrs ∙ sym (append-nil l.local_addrs)
  local_addrs-step (swarm_event (connection_established q)) l =
      (step-SameListening j (swarm_event (connection_established q)) l tt).addrs
      ∙ sym (append-nil l.local_addrs)
  local_addrs-step (swarm_event (connection_closed q)) l =
      (step-SameListening j (swarm_event (connection_closed q)) l tt).addrs
      ∙ sym (append-nil l.local_addrs)
  local_addrs-step (swarm_event other) l = sym (append-nil l.local_addrs)

  -- A run of the loop from any state adds to the local addresses what the swarm reports.
  pub local_addrs-reported :
      (ws : List (Wake n)) (l : Loop n)
      → (event_loop n j ws l).local_addrs ≡ l.local_addrs ++ reported n ws
  unfolding event_loop
  local_addrs-reported [] l = sym (append-nil l.local_addrs)
  local_addrs-reported (w ∷ ws) l =
      local_addrs-reported ws (step n j w l)
      ∙ ap (λ a. a ++ reported n ws) (local_addrs-step w l)
      ∙ append_assoc l.local_addrs (reported n (w ∷ [])) (reported n ws)
      ∙ ap (λ a. l.local_addrs ++ a) (sym (reported-cons w ws))

  -- In every run of the loop from its start, the local addresses are exactly those that the swarm
  -- reported, in their order, and every request to listen that was answered with an address was
  -- answered with one of them.
  local_addrs-event_loop :
      (ws : List (Wake n)) (w : n.World) (callbacks : NetworkCallbacks)
      → let l = event_loop n j ws (start n j w callbacks) in
        (l.local_addrs ≡ reported n ws) × All (IsListed (reported n ws)) l.responses
  local_addrs-event_loop ws w callbacks =
      let (addrs, listed) = event_loop-Extends ws (start n j w callbacks) tt in
      (
        addrs,
        subst (λ a. All (IsListed a) (event_loop n j ws (start n j w callbacks)).responses) addrs
            listed,
      )
