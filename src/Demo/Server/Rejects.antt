-- ===== src/Demo/Server/Rejects.antt =====
-- What the server's `main` makes of a stream that does not bring a ping.
use ping_pong_libp2p.Base.{
  ℕ, zero, suc, ◌-◌, ◌<◌, ◌≤◌, ◌≡◌, ◌⊎◌, refl, sym, ap, subst, ◌∙◌, inl, inr, some, List, ◌∷◌, ◌++◌,
  All, length, arith,
}
use ping_pong_libp2p.Io.{Result, ok, err}
use ping_pong_libp2p.Text.{Text}
use ping_pong_libp2p.Deps.Streams.{Streams, StreamLaws, DuplexLaws, ApartLaws}
use ping_pong_libp2p.Deps.Json.{Json}
use ping_pong_libp2p.Deps.Libp2p.{Libp2p}
use ping_pong_libp2p.Deps.SwarmBuilder.{SwarmBuilder}
use ping_pong_libp2p.Frame.{from_be_bytes}
use ping_pong_libp2p.Demo.{PingMessage, PongMessage}
use ping_pong_libp2p.Demo.Server.{
  Task, reading_length, reading_body, finished, respond, resume, Wake, incoming, Server,
  build_swarm, listen, main,
}
use ping_pong_libp2p.Demo.Server.Isolation.{Harmless, accepted}
use ping_pong_libp2p.Demo.Server.Progress.{turns_of, Logged, Reported}
use ping_pong_libp2p.Demo.Server.Runs.{main-Stage}

module _ (pings : Json PingMessage) where
  -- The bytes do not begin with so many bytes that are a ping: they are fewer, or no ping.
  abbrev pub IllFormed : ℕ → List ℕ → Type 0
  IllFormed n left =
      (length left < n)
      ⊎ ((bytes rest : List ℕ) × (e : Text) × (left ≡ bytes ++ rest)
          × (length bytes ≡ n)
          × (pings.from_slice bytes ≡ err e))

  -- The bytes do not begin with the frame of a ping: there is no length, or what follows it is not
  -- that many bytes of a ping.
  abbrev pub IllFramed : List ℕ → Type 0
  IllFramed left =
      (length left < 4)
      ⊎ ((header body : List ℕ) × (left ≡ header ++ body)
          × (length header ≡ 4)
          × IllFormed (from_be_bytes header) body)

module _ (s : Streams) (laws : StreamLaws s) (duplex : DuplexLaws s laws) (st : s.Stream)
    (pings : Json PingMessage) (pongs : Json PongMessage) (old : List ℕ) where
  open laws use {written, unread}

  abbrev Failed : Task → Type 0
  Failed t = (e : Text) × (t ≡ finished (err e))

  -- The task after so many turns.
  abbrev pub FailsAt : ℕ → Task → List ℕ → List ℕ → Type 0
  FailsAt zero t out left = (out ≡ old) × (t ≡ reading_length) × IllFramed pings left
  FailsAt (suc zero) t out left =
      (out ≡ old) × (Failed t ⊎ ((n : ℕ) × (t ≡ reading_body n) × IllFormed pings n left))
  FailsAt (suc (suc k)) t out left = (out ≡ old) × Failed t

  -- A read whose size is given by an equation.
  read_exact-bytes :
      (bytes rest : List ℕ) (n : ℕ) (w : s.World)
      → length bytes ≡ n
      → unread w st ≡ bytes ++ rest
      → (v : s.World) × (s.read_exact st n w ≡ (ok bytes, v)) × (unread v st ≡ rest)
  read_exact-bytes bytes rest n w size h =
      let (v, p, q) = laws.read_exact_ok st bytes rest w h in
      (v, ap (λ k. s.read_exact st k w) (sym size) ∙ p, q)

  Failed-resume :
      (t : Task) (w : s.World)
      → Failed t
      → Failed (resume s pings pongs st t w).0
        × (written (resume s pings pongs st t w).1 st ≡ written w st)
  unfolding resume
  Failed-resume t w (e, h) =
      let r : Task × s.World = resume s pings pongs st t w in
      let same : r ≡ (finished (err e), w) = ap (λ t. resume s pings pongs st t w) h in
      ((e, ap (λ x. x.0) same), ap (λ x. written x.1 st) same)

  body-FailsAt :
      (n : ℕ) (w : s.World)
      → IllFormed pings n (unread w st)
      → Failed (resume s pings pongs st (reading_body n) w).0
  unfolding resume respond
  body-FailsAt n w (inl short) = let (e, v, p) = laws.read_exact_eof st n w short in (e, rw p refl)
  body-FailsAt n w (inr (bytes, rest, e, left, size, bad)) =
      let (v, p, _) = read_exact-bytes bytes rest n w size left in (e, rw (p, bad) refl)

  resume-FailsAt :
      (k : ℕ) (t : Task) (w : s.World)
      → FailsAt k t (written w st) (unread w st)
      → let r = resume s pings pongs st t w in FailsAt (suc k) r.0 (written r.1 st) (unread r.1 st)
  unfolding resume
  resume-FailsAt zero t w (out, same, inl short) =
      let (e, v, p) = laws.read_exact_eof st 4 w short in
      rw same (duplex.written-read_exact st 4 w ∙ out, inl (e, rw p refl))
  resume-FailsAt zero t w (out, same, inr (header, body, left, size, ill)) =
      let (v, p, q) = read_exact-bytes header body 4 w size left in
      rw same (
        duplex.written-read_exact st 4 w ∙ out,
        inr (from_be_bytes header, rw p refl, rw p (rw q ill)),
      )
  resume-FailsAt (suc zero) t w (out, inl failed) =
      let (failed', same) = Failed-resume t w failed in (same ∙ out, failed')
  resume-FailsAt (suc zero) t w (out, inr (n, same, ill)) =
      rw same (duplex.written-read_exact st n w ∙ out, body-FailsAt n w ill)
  resume-FailsAt (suc (suc k)) t w (out, failed) =
      let (failed', same) = Failed-resume t w failed in (same ∙ out, failed')

module _ (n : Libp2p) (laws : StreamLaws n.streams) (duplex : DuplexLaws n.streams laws)
    (apart : ApartLaws n.streams laws) {PublicKey RelayClient Behaviour : Type 0}
    (b : SwarmBuilder n PublicKey RelayClient Behaviour) (stream_behaviour : Behaviour)
    (pings : Json PingMessage) (pongs : Json PongMessage)
    (with_p2p : n.Multiaddr → n.PeerId → Result n.Multiaddr n.Multiaddr) where
  open laws use {written, unread}

  -- A stream that does not bring a ping does no harm: let the bytes on it, up to its end, not begin
  -- with the frame of a ping, because they are too few for a length, or for what the length says,
  -- or because that is no ping. Then a server whose swarm was built and listens, woken by any
  -- number of events before and after it accepts the stream, of which none accepts this stream
  -- again and none is a new address that `with_p2p` refuses, goes on to the end. If the task of
  -- this stream gets two turns or more, nothing was written to the stream, and the task is logged
  -- with an error.
  pub main-rejects :
      (peer : n.PeerId) (st : n.Stream) (before after : List (Wake n))
      (filter : Result (Unit {0}) Text) (me : n.PeerId) (w v : n.World)
      → filter ≡ ok tt
      → build_swarm n b stream_behaviour ≡ ok (w, me)
      → listen n w ≡ (ok tt, v)
      → All (Harmless n with_p2p me st) before
      → All (Harmless n with_p2p me st) after
      → IllFramed pings (unread v st)
      → 2 ≤ turns_of (accepted before) after
      → (s' : Server n) × (e : Text) × (main n b stream_behaviour pings pongs with_p2p filter
            (before ++ incoming peer st ∷ after)
          ≡ ok (some s'))
        × (written s'.net st ≡ written v st)
        × Logged (peer, err e) s'.log
  main-rejects peer st before after filter me w v f built up h k ill turns =
      let old : List ℕ = written v st in
      let count : ℕ = turns_of (accepted before) after in
      let two : count ≡ suc (suc (count - 2)) = omega (arith, turns) in
      let (s', t, goes, at, logged) =
        main-Stage n laws apart b stream_behaviour pings pongs with_p2p me peer st
          (FailsAt n.streams laws duplex st pings pongs old)
          (resume-FailsAt n.streams laws duplex st pings pongs old) before after filter w v f built
          up h k (refl, refl, ill) in
      let (out, (e, ended)) =
        subst
          (λ m.
            FailsAt n.streams laws duplex st pings pongs old m t (written s'.net st)
              (unread s'.net st))
          two at in
      (s', e, goes, out, subst (λ x. Reported peer x s'.log) ended logged)
