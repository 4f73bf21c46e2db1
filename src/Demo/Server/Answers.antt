-- ===== src/Demo/Server/Answers.antt =====
-- What the server answers to a ping that has arrived.
use ping_pong_libp2p.Base.{ℕ, ◌^◌, ◌<◌, ◌≡◌, sym, ap, ◌∙◌, List, ◌++◌, length, drop}
use ping_pong_libp2p.Base.Parts.{drop-grown}
use ping_pong_libp2p.Io.{ok, Io, lift, pure, ◌>>=◌}
use ping_pong_libp2p.Text.{Text}
use ping_pong_libp2p.Deps.Streams.{Streams, StreamLaws, DuplexLaws}
use ping_pong_libp2p.Deps.Json.{Json, JsonLaws}
use ping_pong_libp2p.Frame.Exchange.{
  frame, writing, reading-frame_whole, written-writing, written-reading,
}
use ping_pong_libp2p.Demo.{PingMessage, PongMessage}
use ping_pong_libp2p.Demo.Server.{pong_for, handle_ping}

module _ (s : Streams) (laws : StreamLaws s) (duplex : DuplexLaws s laws) (pings : Json PingMessage)
    (ping_laws : JsonLaws pings) (pongs : Json PongMessage) where
  open laws use {written, unread}

  -- A ping that is handled with success adds exactly the frame of its pong to the stream.
  handle_ping-answer :
      (ping : PingMessage) (bytes answer rest : List ℕ) (st : s.Stream) (u u' : s.World)
      → pings.to_vec ping ≡ ok bytes
      → length bytes < 2 ^ 32
      → unread u st ≡ frame bytes ++ rest
      → pongs.to_vec (pong_for ping) ≡ ok answer
      → handle_ping s pings pongs st u ≡ (ok tt, u')
      → written u' st ≡ written u st ++ frame answer
  unfolding handle_ping
  handle_ping-answer ping bytes answer rest st u u' e small arrived e' handled =
      let (v, read, _) = reading-frame_whole s laws st bytes rest u small arrived in
      let parsed : pings.from_slice bytes ≡ ok ping = ping_laws.from_slice-to_vec ping bytes e in
      let next : List ℕ → Io s.World Text (Unit {0}) = λ buf. lift (pings.from_slice buf) >>= λ p.
      lift (pongs.to_vec (pong_for p)) >>= λ d. writing s st d (pure tt) in
      let wrote : writing s st answer (pure tt) v ≡ (ok tt, u') =
        rw (parsed, e') at (sym (read (Unit {0}) next) ∙ handled) in
      let (x, done, out) = written-writing s laws st answer (pure tt) v u' tt wrote in
      ap (λ y. written y st) (sym (ap (λ y. y.1) done))
      ∙ out
      ∙ ap (λ l. l ++ frame answer)
          (written-reading s laws duplex st bytes u v (read (List ℕ) pure))

  -- The frame of the pong arrives at the client that wrote the ping, where what each side writes is
  -- what arrives at the other.
  pub unread-handle_ping :
      (ping : PingMessage) (bytes answer more rest : List ℕ) (st st' : s.Stream)
      (w w' u u' : s.World)
      → pings.to_vec ping ≡ ok bytes
      → length bytes < 2 ^ 32
      → writing s st bytes (pure tt) w ≡ (ok tt, w')
      → unread u st' ≡ drop (length (written w st)) (written w' st) ++ more
      → pongs.to_vec (pong_for ping) ≡ ok answer
      → handle_ping s pings pongs st' u ≡ (ok tt, u')
      → unread w' st ≡ drop (length (written u st')) (written u' st') ++ rest
      → unread w' st ≡ frame answer ++ rest
  unread-handle_ping ping bytes answer more rest st st' w w' u u' e small sent there e' handled
        back =
      let (_, done, out) = written-writing s laws st bytes (pure tt) w w' tt sent in
      let out' : written w' st ≡ written w st ++ frame bytes =
        ap (λ y. written y.1 st) (sym done) ∙ out in
      let arrived : unread u st' ≡ frame bytes ++ more =
        drop-grown (written w st) (written w' st) (frame bytes) more (unread u st') out' there in
      drop-grown (written u st') (written u' st') (frame answer) rest (unread w' st)
        (handle_ping-answer ping bytes answer more st' u u' e small arrived e' handled) back
