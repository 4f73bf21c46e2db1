-- ===== src/Demo/Server/Progress.antt =====
-- One task among the others: from the stream that is accepted to the pong.
use ping_pong_libp2p.Base.{
  Bool-cases, nat_beq, nat_beq_iff, ℕ, suc, ◌+◌, ◌≡◌, ◌≢◌, refl, sym, ap, subst, ◌∙◌, inl, inr,
  some, List, [], ◌∷◌, ◌++◌, All, append_assoc, if◌then◌else◌, arith,
}
use ping_pong_libp2p.Base.Indices.{get_elem?, get_elem?-set}
use ping_pong_libp2p.Io.{Result}
use ping_pong_libp2p.Text.{Text}
use ping_pong_libp2p.Deps.Streams.{StreamLaws, ApartLaws}
use ping_pong_libp2p.Deps.Json.{Json}
use ping_pong_libp2p.Deps.Libp2p.{Libp2p}
use ping_pong_libp2p.Demo.{PingMessage, PongMessage}
use ping_pong_libp2p.Demo.Server.{
  Task, reading_length, reading_body, writing_length, writing_body, finished, resume, ended,
  Spawned, Wake, incoming, turn, new_listen_addr, connection_established, other, Server, run, step,
  serve,
}
use ping_pong_libp2p.Demo.Server.Isolation.{Harmless, Foreign, Foreign-set}
use ping_pong_libp2p.Demo.Server.Beside.{Turns, step-GoesOn}

-- How many turns the task of this number gets.
abbrev pub turns_of : {n : Libp2p} → ℕ → List (Wake n) → ℕ
turns_of i [] = 0
turns_of i (turn k ∷ ws) = let rest = turns_of i ws in if nat_beq k i then suc rest else rest
turns_of i (incoming peer st ∷ ws) = turns_of i ws
turns_of i (new_listen_addr address ∷ ws) = turns_of i ws
turns_of i (connection_established peer ∷ ws) = turns_of i ws
turns_of i (other ∷ ws) = turns_of i ws

-- The log has that entry.
abbrev pub Logged : {L : Type 0} → L → List L → Type 0
Logged {L} entry log = (before after : List L) × (log ≡ before ++ entry ∷ after)

Logged-append :
    {L : Type 0} (entry : L) (log more : List L) → Logged entry log → Logged entry (log ++ more)
Logged-append entry log more (before, after, e) =
    (before, after ++ more, ap (λ l. l ++ more) e ∙ append_assoc before (entry ∷ after) more)

module _ {P : Type 0} (peer : P) where
  -- A task that has ended is in the log.
  abbrev pub Reported : Task → List (P × Result (Unit {0}) Text) → Type 0
  Reported (finished r) log = Logged (peer, r) log
  Reported reading_length log = Unit
  Reported (reading_body len) log = Unit
  Reported (writing_length d) log = Unit
  Reported (writing_body d) log = Unit

  Reported-append :
      (t : Task) (log more : List (P × Result (Unit {0}) Text))
      → Reported t log
      → Reported t (log ++ more)
  Reported-append (finished r) log more h = Logged-append (peer, r) log more h
  Reported-append reading_length log more h = tt
  Reported-append (reading_body len) log more h = tt
  Reported-append (writing_length d) log more h = tt
  Reported-append (writing_body d) log more h = tt

  Reported-ended :
      (t u : Task) (log : List (P × Result (Unit {0}) Text))
      → ((r : Result (Unit {0}) Text) → t ≡ finished r → u ≡ t)
      → Reported t log
      → Reported u (log ++ ended peer t u)
  unfolding ended
  Reported-ended (finished r) u log same h =
      subst (λ x. Reported x (log ++ [])) (sym (same r refl)) (Logged-append (peer, r) log [] h)
  Reported-ended reading_length (finished r) log same h = (log, [], refl)
  Reported-ended (reading_body len) (finished r) log same h = (log, [], refl)
  Reported-ended (writing_length d) (finished r) log same h = (log, [], refl)
  Reported-ended (writing_body d) (finished r) log same h = (log, [], refl)
  Reported-ended _ reading_length log same h = tt
  Reported-ended _ (reading_body len) log same h = tt
  Reported-ended _ (writing_length d) log same h = tt
  Reported-ended _ (writing_body d) log same h = tt

-- What a stage of a task is, by its number: a predicate of the task and of the bytes of its stream,
-- so that nothing but a turn of the task changes it. `goes` says that a turn leads to the next.
module _ (n : Libp2p) (laws : StreamLaws n.streams) (apart : ApartLaws n.streams laws)
    (pings : Json PingMessage) (pongs : Json PongMessage)
    (with_p2p : n.Multiaddr → n.PeerId → Result n.Multiaddr n.Multiaddr) (me : n.PeerId)
    (peer : n.PeerId) (st : n.Stream) (Stage : ℕ → Task → List ℕ → List ℕ → Type 0)
    (goes : (k : ℕ) (t : Task) (w : n.World)
      → Stage k t (laws.written w st) (laws.unread w st)
      → let r = resume n.streams pings pongs st t w in
        Stage (suc k) r.0 (laws.written r.1 st) (laws.unread r.1 st)) where
  resume-finished :
      (t : Task) (w : n.World) (r : Result (Unit {0}) Text)
      → t ≡ finished r
      → (resume n.streams pings pongs st t w).0 ≡ t
  unfolding resume
  resume-finished (finished r) w _ e = refl
  resume-finished reading_length w r e = absurd (cc e)
  resume-finished (reading_body len) w r e = absurd (cc e)
  resume-finished (writing_length d) w r e = absurd (cc e)
  resume-finished (writing_body d) w r e = absurd (cc e)

  -- The task of number `i` is in a stage, and it alone has the stream.
  pub record Present (i k : ℕ) (s : Server n) : Type 0 where
    pub task : Task
    pub here : get_elem? s.tasks i ≡ some (record { peer = peer; stream = st; task = task })
    pub alone : Foreign n st (λ j. j ≢ i) s.tasks
    pub at : Stage k task (laws.written s.net st) (laws.unread s.net st)
    pub logged : Reported peer task s.log

  -- A turn of its own takes it one further.
  run-Present :
      (i k : ℕ) (s : Server n)
      → Present i k s
      → Present i (suc k) (run n pings pongs with_p2p me i s)
  unfolding run
  run-Present i k s h =
      let at_stage : Task → Spawned n = λ t. record { peer = peer; stream = st; task = t } in
      let next : Task = (resume n.streams pings pongs st h.task s.net).0 in
      rw (h.here, run)
        (record {
          task = next;
          here = get_elem?-set s.tasks i (at_stage h.task) (at_stage next) h.here;
          alone =
              Foreign-set n st (λ j. j ≢ i) s.tasks i (at_stage h.task) (at_stage next) h.alone
                h.here refl;
          at = goes k h.task s.net h.at;
          logged =
              Reported-ended peer h.task next s.log (λ r e. resume-finished h.task s.net r e)
                h.logged;
        })

  -- Anything else leaves it where it is.
  step-Present_other :
      (i k m : ℕ) (w : Wake n) (s : Server n)
      → m ≡ k
      → Harmless n with_p2p me st w
      → Turns n laws apart pings pongs with_p2p me st (λ j. j ≢ i) w
      → Present i k s
      → (s' : Server n) × (step n pings pongs with_p2p me w s ≡ some s') × Present i m s'
  step-Present_other i k m w s same harmless idle h =
      let (s', goes, beside, foreign, _, kept) =
        step-GoesOn n laws apart pings pongs with_p2p me st (λ j. j ≢ i) w s harmless idle
          h.alone in
      (
        s',
        goes,
        subst (λ k. Present i k s') (sym same)
            (record {
              task = h.task;
              here = kept i _ idle h.here;
              alone = foreign;
              at =
                  subst (λ l. Stage k h.task l (laws.unread s'.net st)) (sym beside.same_written)
                    (subst (λ l. Stage k h.task (laws.written s.net st) l) (sym beside.same_unread)
                      h.at);
              logged =
                  subst (Reported peer h.task) (sym beside.grown)
                    (Reported-append peer h.task s.log beside.entries h.logged);
            }),
      )

  step-Present :
      (i k m : ℕ) (w : Wake n) (s : Server n)
      → m ≡ turns_of i (w ∷ []) + k
      → Harmless n with_p2p me st w
      → Present i k s
      → (s' : Server n) × (step n pings pongs with_p2p me w s ≡ some s') × Present i m s'
  unfolding step
  step-Present i k m (turn j) s e harmless h = elim (Bool-cases (nat_beq j i)) [
    | inl q ↦
        (let j_is : j ≡ i = (nat_beq_iff j i).0 q in
          let more : suc k ≡ m = ground (arith, e, q) in
          (
            run n pings pongs with_p2p me j s,
            refl,
            subst (λ x. Present i m (run n pings pongs with_p2p me x s)) (sym j_is)
                (subst (λ x. Present i x (run n pings pongs with_p2p me i s)) more
                  (run-Present i k s h)),
          ))
    | inr q ↦
        step-Present_other i k m (turn j) s (ground (arith, e, q)) harmless
          (λ eq. absurd (cc (sym q ∙ (nat_beq_iff j i).1 eq))) h
  ]
  step-Present i k m (incoming p st') s e harmless h =
      step-Present_other i k m (incoming p st') s (omega (arith, e)) harmless tt h
  step-Present i k m (new_listen_addr address) s e harmless h =
      step-Present_other i k m (new_listen_addr address) s (omega (arith, e)) harmless tt h
  step-Present i k m (connection_established p) s e harmless h =
      step-Present_other i k m (connection_established p) s (omega (arith, e)) harmless tt h
  step-Present i k m other s e harmless h =
      step-Present_other i k m other s (omega (arith, e)) harmless tt h

  turns_of-cons :
      (i : ℕ) (w : Wake n) (ws : List (Wake n))
      → turns_of i (w ∷ ws) ≡ turns_of i ws + turns_of i (w ∷ [])
  turns_of-cons i (turn j) ws = ground arith
  turns_of-cons i (incoming p st') ws = omega arith
  turns_of-cons i (new_listen_addr address) ws = omega arith
  turns_of-cons i (connection_established p) ws = omega arith
  turns_of-cons i other ws = omega arith

  -- A whole run.
  pub serve-Present :
      (i k m : ℕ) (ws : List (Wake n)) (s : Server n)
      → m ≡ turns_of i ws + k
      → All (Harmless n with_p2p me st) ws
      → Present i k s
      → (s' : Server n) × (serve n pings pongs with_p2p me ws s ≡ some s') × Present i m s'
  unfolding serve
  serve-Present i k m [] s e harmless h =
      let same : k ≡ m = omega (arith, e) in (s, refl, subst (λ x. Present i x s) same h)
  serve-Present i k m (w ∷ ws) s e (harmless, more) h =
      let (s', goes, h') = step-Present i k (turns_of i (w ∷ []) + k) w s refl harmless h in
      let (s'', goes', h'') =
        serve-Present i (turns_of i (w ∷ []) + k) m ws s' (omega (arith, e, turns_of-cons i w ws))
          more h' in
      (s'', rw (goes, serve) goes', h'')
