-- ===== src/Demo/Client/Answered.antt =====
-- The native client's pings and their answers.
use ping_pong_libp2p.Base.{ℕ, ◌^◌, ◌<◌, ◌≡◌, ap, ◌∙◌, true, some, List, ◌++◌, length, drop, arith}
use ping_pong_libp2p.Io.{ok, Io, lift, pure, ◌>>=◌}
use ping_pong_libp2p.Text.{Text}
use ping_pong_libp2p.Deps.Streams.{Streams, StreamLaws, DuplexLaws}
use ping_pong_libp2p.Deps.Json.{Json, JsonLaws}
use ping_pong_libp2p.Frame.Exchange.{writing, reading, reading-frame_whole, writing-next}
use ping_pong_libp2p.Demo.{PingMessage, PongMessage}
use ping_pong_libp2p.Demo.Server.{pong_for, handle_ping}
use ping_pong_libp2p.Demo.Server.Answers.{unread-handle_ping}
use ping_pong_libp2p.Demo.Client.{OpenStreamError, ping_for, send_ping, round}

module _ (s : Streams) (laws : StreamLaws s) (duplex : DuplexLaws s laws) (pings : Json PingMessage)
    (ping_laws : JsonLaws pings) (pongs : Json PongMessage) (pong_laws : JsonLaws pongs) where
  open laws use {written, unread}

  -- A round of the client in which the server handles the ping is completed: the stream is opened
  -- and can be closed, the ping is written with success and arrives whole at the server, and the
  -- answer of the server, which handles it with success, arrives whole; both are less than 2 ^ 32
  -- bytes long.
  pub round-handle_ping :
      (sleep : s.World → s.World) (open_stream : Io s.World OpenStreamError s.Stream) (counter : ℕ)
      (bytes answer more rest : List ℕ) (st st' : s.Stream) (v w w' u u' : s.World)
      → open_stream (sleep v) ≡ (ok st, w)
      → ((x : s.World) → (s.close st x).0 ≡ ok tt)
      → pings.to_vec (ping_for counter) ≡ ok bytes
      → length bytes < 2 ^ 32
      → writing s st bytes (pure tt) w ≡ (ok tt, w')
      → unread u st' ≡ drop (length (written w st)) (written w' st) ++ more
      → pongs.to_vec (pong_for (ping_for counter)) ≡ ok answer
      → length answer < 2 ^ 32
      → handle_ping s pings pongs st' u ≡ (ok tt, u')
      → unread w' st ≡ drop (length (written u st')) (written u' st') ++ rest
      → (round s pings pongs sleep open_stream counter v).0 ≡ some true
  unfolding round send_ping
  round-handle_ping sleep open_stream counter bytes answer more rest st st' v w w' u u' opened
        closes e₁ small sent there e₂ small' handled back =
      let ping : PingMessage = ping_for counter in
      let next : List ℕ → Io s.World Text (Unit {0}) =
        λ buf. lift (pongs.from_slice buf) >>= λ _. s.close st in
      let (r, read, _) = reading-frame_whole s laws st answer rest w' small' (
        unread-handle_ping s laws duplex pings ping_laws pongs ping bytes answer more rest st st' w
          w' u u' e₁ small sent there e₂ handled back) in
      let closed : (next answer r).0 ≡ ok tt =
        rw (pong_laws.from_slice-to_vec (pong_for ping) answer e₂) (closes r) in
      let done : (writing s st bytes (reading s st next) w).0 ≡ ok tt =
        ap (λ x. x.0) (writing-next s st bytes (reading s st next) w w' sent ∙ read (Unit {0}) next)
        ∙ closed in
      ground (arith, opened, e₁, done)
