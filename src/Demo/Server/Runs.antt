-- ===== src/Demo/Server/Runs.antt =====
-- The whole run of the server's `main`, as one of its tasks sees it.
use ping_pong_libp2p.Base.Indices.{get_elem?-last}
use ping_pong_libp2p.Base.{
  ℕ, suc, ◌≡◌, ◌≢◌, refl, sym, ap, subst, ◌∙◌, inl, inr, Option-cases, some, List, [], ◌∷◌, ◌++◌,
  All, length, arith,
}
use ping_pong_libp2p.Io.{Result, ok}
use ping_pong_libp2p.Text.{Text}
use ping_pong_libp2p.Deps.Streams.{StreamLaws, ApartLaws}
use ping_pong_libp2p.Deps.Json.{Json}
use ping_pong_libp2p.Deps.Libp2p.{Libp2p}
use ping_pong_libp2p.Deps.SwarmBuilder.{SwarmBuilder}
use ping_pong_libp2p.Demo.{PingMessage, PongMessage}
use ping_pong_libp2p.Demo.Server.{
  Task, Spawned, reading_length, resume, Wake, incoming, Server, build_swarm, listen, step, serve,
  main,
}
use ping_pong_libp2p.Demo.Server.Isolation.{Harmless, accepted, Foreign, Foreign-snoc}
use ping_pong_libp2p.Demo.Server.Beside.{serve-Beside}
use ping_pong_libp2p.Demo.Server.Progress.{turns_of, Reported, serve-Present}

module _ (n : Libp2p) (pings : Json PingMessage) (pongs : Json PongMessage)
    (with_p2p : n.Multiaddr → n.PeerId → Result n.Multiaddr n.Multiaddr) (me : n.PeerId) where
  serve-append :
      (before after : List (Wake n)) (s s1 : Server n)
      → serve n pings pongs with_p2p me before s ≡ some s1
      → serve n pings pongs with_p2p me (before ++ after) s
        ≡ serve n pings pongs with_p2p me after s1
  unfolding serve
  serve-append [] after s s1 h = ap (serve n pings pongs with_p2p me after) (cc h)
  serve-append (w ∷ ws) after s s1 h = elim (Option-cases (step n pings pongs with_p2p me w s)) [
    | inl e ↦ absurd (cc (rw (e, serve) at h))
    | inr (s', e) ↦ rw (e, serve) (serve-append ws after s' s1 (rw (e, serve) at h))
  ]

-- `main` with a swarm that listens.
main-serve :
    (n : Libp2p) {PublicKey RelayClient Behaviour : Type 0}
    (b : SwarmBuilder n PublicKey RelayClient Behaviour) (stream_behaviour : Behaviour)
    (pings : Json PingMessage) (pongs : Json PongMessage)
    (with_p2p : n.Multiaddr → n.PeerId → Result n.Multiaddr n.Multiaddr) (me : n.PeerId)
    (filter : Result (Unit {0}) Text) (ws : List (Wake n)) (w v : n.World)
    → filter ≡ ok tt
    → build_swarm n b stream_behaviour ≡ ok (w, me)
    → listen n w ≡ (ok tt, v)
    → main n b stream_behaviour pings pongs with_p2p filter ws
      ≡ ok (serve n pings pongs with_p2p me ws (record { net = v; tasks = []; log = [] }))
unfolding main
main-serve n b stream_behaviour pings pongs with_p2p me filter ws w v f built up =
    rw (f, main, built, up) refl

-- What a stage is is said in Demo/Server/Progress.
module _ (n : Libp2p) (laws : StreamLaws n.streams) (apart : ApartLaws n.streams laws)
    {PublicKey RelayClient Behaviour : Type 0} (b : SwarmBuilder n PublicKey RelayClient Behaviour)
    (stream_behaviour : Behaviour) (pings : Json PingMessage) (pongs : Json PongMessage)
    (with_p2p : n.Multiaddr → n.PeerId → Result n.Multiaddr n.Multiaddr) (me : n.PeerId)
    (peer : n.PeerId) (st : n.Stream) (Stage : ℕ → Task → List ℕ → List ℕ → Type 0)
    (goes : (k : ℕ) (t : Task) (w : n.World)
      → Stage k t (laws.written w st) (laws.unread w st)
      → let r = resume n.streams pings pongs st t w in
        Stage (suc k) r.0 (laws.written r.1 st) (laws.unread r.1 st)) where
  open laws use {written, unread}

  -- The stream is accepted when nobody has it, and its task gets its turns.
  serve-Stage :
      (m : ℕ) (after : List (Wake n)) (s : Server n)
      → All (Harmless n with_p2p me st) after
      → Foreign n st (λ j. Unit) s.tasks
      → Stage 0 reading_length (written s.net st) (unread s.net st)
      → m ≡ turns_of (length s.tasks) after
      → (s' : Server n) × (t : Task) × (serve n pings pongs with_p2p me (incoming peer st ∷ after) s
          ≡ some s')
        × Stage m t (written s'.net st) (unread s'.net st)
        × Reported peer t s'.log
  unfolding serve step
  serve-Stage m after s h foreign first count =
      let new : Spawned n = record { peer = peer; stream = st; task = reading_length } in
      let s0 : Server n = record { net = s.net; tasks = s.tasks ++ (new ∷ []); log = s.log } in
      let (s', runs, there) =
        serve-Present n laws apart pings pongs with_p2p me peer st Stage goes (length s.tasks) 0 m
          after s0 (omega (arith, count)) h
          (record {
            task = reading_length;
            here = get_elem?-last s.tasks new;
            alone =
                Foreign-snoc n st (λ j. j ≢ length s.tasks) s.tasks new
                  (λ j t d found. foreign j t tt found) (λ d. absurd (d refl));
            at = first;
            logged = tt;
          }) in
      (s', there.task, runs, there.at, there.logged)

  -- In a run of `main` with a swarm that listens, the task of the stream gets to the stage of its
  -- turns, and is logged if it has ended.
  pub main-Stage :
      (before after : List (Wake n)) (filter : Result (Unit {0}) Text) (w v : n.World)
      → filter ≡ ok tt
      → build_swarm n b stream_behaviour ≡ ok (w, me)
      → listen n w ≡ (ok tt, v)
      → All (Harmless n with_p2p me st) before
      → All (Harmless n with_p2p me st) after
      → Stage 0 reading_length (written v st) (unread v st)
      → (s' : Server n) × (t : Task) × (main n b stream_behaviour pings pongs with_p2p filter
            (before ++ incoming peer st ∷ after)
          ≡ ok (some s'))
        × Stage (turns_of (accepted before) after) t (written s'.net st) (unread s'.net st)
        × Reported peer t s'.log
  main-Stage before after filter w v f built up h k first =
      let (s, run, out, left, foreign, size) =
        serve-Beside n laws apart pings pongs with_p2p me st before
          (record { net = v; tasks = []; log = [] }) h (λ j t p found. absurd (cc found)) in
      let number : accepted before ≡ length s.tasks = omega (arith, size) in
      let (s', t, runs, at, logged) =
        serve-Stage (turns_of (accepted before) after) after s k foreign
          (subst (λ l. Stage 0 reading_length l (unread s.net st)) (sym out)
            (subst (λ l. Stage 0 reading_length (written v st) l) (sym left) first))
          (ap (λ i. turns_of i after) number) in
      (
        s',
        t,
        main-serve n b stream_behaviour pings pongs with_p2p me filter
              (before ++ incoming peer st ∷ after) w v f built up
            ∙ ap ok (
                serve-append n pings pongs with_p2p me before (incoming peer st ∷ after) _ s run
                ∙ runs),
        at,
        logged,
      )
