-- ===== src/Demo/Server/Beside.antt =====
-- What the server's other tasks leave of a stream: its bytes, and whose stream it is.
use ping_pong_libp2p.Base.{
  Option-cases, ℕ, ◌+◌, ◌≡◌, ◌≢◌, refl, sym, ◌∙◌, inl, inr, some, List, [], ◌∷◌, ◌++◌, All, length,
  length-append, append-nil, arith,
}
use ping_pong_libp2p.Base.Indices.{get_elem?, get_elem?-append, get_elem?-set_ne, length-set}
use ping_pong_libp2p.Io.{Result}
use ping_pong_libp2p.Text.{Text}
use ping_pong_libp2p.Deps.Streams.{StreamLaws, ApartLaws}
use ping_pong_libp2p.Deps.Json.{Json}
use ping_pong_libp2p.Deps.Libp2p.{Libp2p}
use ping_pong_libp2p.Demo.{PingMessage, PongMessage}
use ping_pong_libp2p.Demo.Server.{
  Spawned, reading_length, resume, ended, Wake, incoming, turn, new_listen_addr,
  connection_established, other, Server, run, step, serve,
}
use ping_pong_libp2p.Demo.Server.Isolation.{
  Harmless, accepted, resume-written, resume-unread, Foreign, Foreign-set, Foreign-snoc,
}

module _ (n : Libp2p) (laws : StreamLaws n.streams) (apart : ApartLaws n.streams laws)
    (pings : Json PingMessage) (pongs : Json PongMessage)
    (with_p2p : n.Multiaddr → n.PeerId → Result n.Multiaddr n.Multiaddr) (me : n.PeerId)
    (st : n.Stream) where
  open laws use {written, unread}

  -- A server with the same bytes on the stream, and a log that at most grew.
  pub record Beside (s s' : Server n) : Type 0 where
    pub same_written : written s'.net st ≡ written s.net st
    pub same_unread : unread s'.net st ≡ unread s.net st
    pub entries : List (n.PeerId × Result (Unit {0}) Text)
    pub grown : s'.log ≡ s.log ++ entries

  Beside-refl : (s : Server n) → Beside s s
  Beside-refl s = record {
    same_written = refl;
    same_unread = refl;
    entries = [];
    grown = sym (append-nil s.log);
  }

  -- A turn of a task with another stream.
  run-Beside :
      (P : ℕ → Type 0) (k : ℕ) (s : Server n)
      → P k
      → Foreign n st P s.tasks
      → Beside s (run n pings pongs with_p2p me k s)
        × Foreign n st P (run n pings pongs with_p2p me k s).tasks
        × (length (run n pings pongs with_p2p me k s).tasks ≡ length s.tasks)
        × ((j : ℕ)
            → k ≢ j
            → get_elem? (run n pings pongs with_p2p me k s).tasks j ≡ get_elem? s.tasks j)
  unfolding run
  run-Beside P k s p h = elim (Option-cases (get_elem? s.tasks k)) [
    | inl e ↦ rw (e, run) (Beside-refl s, h, refl, λ j d. refl)
    | inr (t, e) ↦
        rw (e, run)
          (let next : Spawned n = record {
            peer = t.peer;
            stream = t.stream;
            task = (resume n.streams pings pongs t.stream t.task s.net).0;
          } in
            (
              record {
                same_written =
                    resume-written n.streams laws apart pings pongs t.stream st t.task s.net
                      (h k t p e);
                same_unread =
                    resume-unread n.streams laws apart pings pongs t.stream st t.task s.net
                      (h k t p e);
                entries = ended t.peer t.task next.task;
                grown = refl;
              },
              Foreign-set n st P s.tasks k t next h e refl,
              length-set s.tasks k next,
              λ j d. get_elem?-set_ne s.tasks k j next d,
            ))
  ]

  -- The tasks that may go on when the server is woken.
  abbrev pub Turns : (ℕ → Type 0) → Wake n → Type 0
  Turns P (incoming peer st') = Unit
  Turns P (turn k) = P k
  Turns P (new_listen_addr address) = Unit
  Turns P (connection_established peer) = Unit
  Turns P other = Unit

  -- The server goes on, and a task that has no turn is the same as before.
  abbrev pub GoesOn : (ℕ → Type 0) → Wake n → Server n → Type 0
  GoesOn P w s =
      (s' : Server n) × (step n pings pongs with_p2p me w s ≡ some s')
      × Beside s s'
      × Foreign n st P s'.tasks
      × (length s'.tasks ≡ accepted (w ∷ []) + length s.tasks)
      × ((j : ℕ) (t : Spawned n)
          → Turns (λ k. k ≢ j) w
          → get_elem? s.tasks j ≡ some t
          → get_elem? s'.tasks j ≡ some t)

  pub step-GoesOn :
      (P : ℕ → Type 0) (w : Wake n) (s : Server n)
      → Harmless n with_p2p me st w
      → Turns P w
      → Foreign n st P s.tasks
      → GoesOn P w s
  unfolding step
  step-GoesOn P (incoming peer st') s harmless p h =
      let new : Spawned n = record { peer = peer; stream = st'; task = reading_length } in
      (
        record { net = s.net; tasks = s.tasks ++ (new ∷ []); log = s.log },
        refl,
        record {
          same_written = refl;
          same_unread = refl;
          entries = [];
          grown = sym (append-nil s.log);
        },
        Foreign-snoc n st P s.tasks new h (λ _. harmless),
        omega (arith, length-append s.tasks (new ∷ [])),
        λ j t idle found. get_elem?-append s.tasks (new ∷ []) j t found,
      )
  step-GoesOn P (turn k) s harmless p h =
      let (beside, foreign, size, rest) = run-Beside P k s p h in
      (
        run n pings pongs with_p2p me k s,
        refl,
        beside,
        foreign,
        omega (arith, size),
        λ j t idle found. rest j idle ∙ found,
      )
  step-GoesOn P (new_listen_addr address) s (full, e) p h =
      (s, rw (e, step) refl, Beside-refl s, h, omega arith, λ j t idle found. found)
  step-GoesOn P (connection_established peer) s harmless p h =
      (s, refl, Beside-refl s, h, omega arith, λ j t idle found. found)
  step-GoesOn P other s harmless p h =
      (s, refl, Beside-refl s, h, omega arith, λ j t idle found. found)

  accepted-cons :
      (w : Wake n) (ws : List (Wake n)) → accepted (w ∷ ws) ≡ accepted ws + accepted (w ∷ [])
  accepted-cons (turn j) ws = omega arith
  accepted-cons (incoming p st') ws = omega arith
  accepted-cons (new_listen_addr address) ws = omega arith
  accepted-cons (connection_established p) ws = omega arith
  accepted-cons other ws = omega arith

  all_Turns : (w : Wake n) → Turns (λ j. Unit) w
  all_Turns (turn j) = tt
  all_Turns (incoming p st') = tt
  all_Turns (new_listen_addr address) = tt
  all_Turns (connection_established p) = tt
  all_Turns other = tt

  -- A whole run in which nobody has the stream.
  pub serve-Beside :
      (ws : List (Wake n)) (s : Server n)
      → All (Harmless n with_p2p me st) ws
      → Foreign n st (λ j. Unit) s.tasks
      → (s' : Server n) × (serve n pings pongs with_p2p me ws s ≡ some s')
        × (written s'.net st ≡ written s.net st)
        × (unread s'.net st ≡ unread s.net st)
        × Foreign n st (λ j. Unit) s'.tasks
        × (length s'.tasks ≡ accepted ws + length s.tasks)
  unfolding serve
  serve-Beside [] s h f = (s, refl, refl, refl, f, omega arith)
  serve-Beside (w ∷ ws) s (harmless, more) f =
      let (s', goes, beside, f', size, _) = step-GoesOn (λ j. Unit) w s harmless (all_Turns w) f in
      let (s'', goes', out, left, f'', size') = serve-Beside ws s' more f' in
      (
        s'',
        rw (goes, serve) goes',
        out ∙ beside.same_written,
        left ∙ beside.same_unread,
        f'',
        omega (arith, size, size', accepted-cons w ws),
      )
