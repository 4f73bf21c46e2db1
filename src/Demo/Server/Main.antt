-- ===== src/Demo/Server/Main.antt =====
-- What the server's `main` makes of a ping.
use ping_pong_libp2p.Base.{
  ℕ, ◌^◌, ◌-◌, ◌<◌, ◌≤◌, ◌≡◌, refl, suc, subst, arith, some, List, ◌∷◌, ◌++◌, All, length,
}
use ping_pong_libp2p.Io.{Result, ok}
use ping_pong_libp2p.Text.{Text}
use ping_pong_libp2p.Deps.Streams.{StreamLaws, DuplexLaws, ApartLaws}
use ping_pong_libp2p.Deps.Json.{Json, JsonLaws}
use ping_pong_libp2p.Deps.Libp2p.{Libp2p}
use ping_pong_libp2p.Deps.SwarmBuilder.{SwarmBuilder}
use ping_pong_libp2p.Frame.Exchange.{frame}
use ping_pong_libp2p.Demo.{PingMessage, PongMessage}
use ping_pong_libp2p.Demo.Server.{pong_for, Wake, incoming, Server, build_swarm, listen, main}
use ping_pong_libp2p.Demo.Server.Isolation.{Harmless, accepted}
use ping_pong_libp2p.Demo.Server.Progress.{turns_of, Logged, Reported}
use ping_pong_libp2p.Demo.Server.Runs.{main-Stage}
use ping_pong_libp2p.Demo.Server.Stages.{At, resume-At}

module _ (n : Libp2p) (laws : StreamLaws n.streams) (duplex : DuplexLaws n.streams laws)
    (apart : ApartLaws n.streams laws) {PublicKey RelayClient Behaviour : Type 0}
    (b : SwarmBuilder n PublicKey RelayClient Behaviour) (stream_behaviour : Behaviour)
    (pings : Json PingMessage) (ping_laws : JsonLaws pings) (pongs : Json PongMessage)
    (with_p2p : n.Multiaddr → n.PeerId → Result n.Multiaddr n.Multiaddr) where
  open laws use {written, unread}

  -- A server whose swarm was built and listens on its two addresses answers every ping, however its
  -- tasks take turns: take a stream on which a whole ping of less than 2 ^ 32 bytes has arrived, and to which writes
  -- succeed, and let the server be woken by any number of events before and after it accepts the
  -- stream: other streams, turns of the tasks of any of them between the turns of this one's, and
  -- of the swarm, except that this stream is not accepted again and no new address is one that
  -- `with_p2p` refuses. If the task of this stream gets four turns or more, `main` goes on to the
  -- end, this stream has got exactly the frame of the pong more than when the server began to
  -- listen, and the ping is logged as answered.
  pub main-answers :
      (ping : PingMessage) (bytes answer rest : List ℕ) (peer : n.PeerId) (st : n.Stream)
      (before after : List (Wake n)) (filter : Result (Unit {0}) Text) (me : n.PeerId)
      (w v : n.World)
      → filter ≡ ok tt
      → build_swarm n b stream_behaviour ≡ ok (w, me)
      → listen n w ≡ (ok tt, v)
      → All (Harmless n with_p2p me st) before
      → All (Harmless n with_p2p me st) after
      → unread v st ≡ frame bytes ++ rest
      → pings.to_vec ping ≡ ok bytes
      → length bytes < 2 ^ 32
      → pongs.to_vec (pong_for ping) ≡ ok answer
      → ((bs : List ℕ) (x : n.World) → (n.streams.write_all st bs x).0 ≡ ok tt)
      → 4 ≤ turns_of (accepted before) after
      → (s' : Server n) × (main n b stream_behaviour pings pongs with_p2p filter
            (before ++ incoming peer st ∷ after)
          ≡ ok (some s'))
        × (written s'.net st ≡ written v st ++ frame answer)
        × Logged (peer, ok tt) s'.log
  main-answers ping bytes answer rest peer st before after filter me w v f built up h k arrived e
        small e' writes turns =
      let old : List ℕ = written v st in
      let count : ℕ = turns_of (accepted before) after in
      let four : count ≡ suc (suc (suc (suc (count - 4)))) = omega (arith, turns) in
      let (s', t, goes, at, logged) =
        main-Stage n laws apart b stream_behaviour pings pongs with_p2p me peer st
          (At n.streams laws st bytes answer old rest)
          (resume-At n.streams laws st bytes answer old rest duplex pings ping_laws pongs ping e
            small e' writes)
          before after filter w v f built up h k (refl, refl, arrived) in
      let (ended, out, _) =
        subst
          (λ m.
            At n.streams laws st bytes answer old rest m t (written s'.net st) (unread s'.net st))
          four at in
      (s', goes, out, subst (λ x. Reported peer x s'.log) ended logged)
