-- ===== src/Demo/Client/Served.antt =====
-- A run of the native client in which the server handles its pings.
use ping_pong_libp2p.Base.{
  ℕ, zero, suc, ◌+◌, ◌^◌, ◌<◌, ◌≡◌, ◌≢◌, refl, sym, ap, ◌∙◌, true, some, List, [], ◌∷◌, ◌++◌,
  length, drop, arith,
}
use ping_pong_libp2p.Io.{Result, ok, err, Io, pure}
use ping_pong_libp2p.Text.{Text}
use ping_pong_libp2p.Queues.{count_up, count_up-snoc}
use ping_pong_libp2p.Deps.Libp2p.{Libp2p}
use ping_pong_libp2p.Deps.SwarmBuilder.{SwarmBuilder}
use ping_pong_libp2p.Deps.Streams.{Streams, StreamLaws, DuplexLaws}
use ping_pong_libp2p.Deps.Json.{Json, JsonLaws}
use ping_pong_libp2p.Frame.Exchange.{writing}
use ping_pong_libp2p.Demo.{PingMessage, PongMessage}
use ping_pong_libp2p.Demo.Server.{pong_for, handle_ping}
use ping_pong_libp2p.Demo.Client.{
  OpenStreamError, unsupported_protocol, server_peer, ping_for, round, build_swarm, main,
}
use ping_pong_libp2p.Demo.Client.Answered.{round-handle_ping}
use ping_pong_libp2p.Demo.Client.Main.{main-first_refusal}
use ping_pong_libp2p.Demo.Client.Rounds.{number, after, opening, answered, completed, round-goes_on}

-- In this round, with this number and from this world on, the server handles the client's ping: a
-- stream is opened, the ping is written to it with success and arrives whole on a stream of the
-- server, which handles it with success, and the pong arrives whole at the client; both are less
-- than 2 ^ 32 bytes long.
pub record Served (s : Streams) (laws : StreamLaws s) (pings : Json PingMessage)
    (pongs : Json PongMessage) (sleep : s.World → s.World)
    (open_stream : Io s.World OpenStreamError s.Stream) (counter : ℕ) (v : s.World) : Type 0 where
  pub ping_bytes : List ℕ
  pub pong_bytes : List ℕ
  pub stream : s.Stream
  pub server_stream : s.Stream
  pub before_ping : s.World
  pub after_ping : s.World
  pub server_before : s.World
  pub server_after : s.World
  pub behind_ping : List ℕ
  pub behind_pong : List ℕ
  pub opened : open_stream (sleep v) ≡ (ok stream, before_ping)
  pub ping_encoded : pings.to_vec (ping_for counter) ≡ ok ping_bytes
  pub ping_small : length ping_bytes < 2 ^ 32
  pub ping_written : writing s stream ping_bytes (pure tt) before_ping ≡ (ok tt, after_ping)
  pub ping_arrived :
      laws.unread server_before server_stream
      ≡ drop (length (laws.written before_ping stream)) (laws.written after_ping stream)
        ++ behind_ping
  pub pong_encoded : pongs.to_vec (pong_for (ping_for counter)) ≡ ok pong_bytes
  pub pong_small : length pong_bytes < 2 ^ 32
  pub handled : handle_ping s pings pongs server_stream server_before ≡ (ok tt, server_after)
  pub pong_arrived :
      laws.unread after_ping stream
      ≡ drop
          (length (laws.written server_before server_stream))
          (laws.written server_after server_stream)
        ++ behind_pong

module _ (s : Streams) (laws : StreamLaws s) (duplex : DuplexLaws s laws) (pings : Json PingMessage)
    (ping_laws : JsonLaws pings) (pongs : Json PongMessage) (pong_laws : JsonLaws pongs)
    (closes : (st : s.Stream) (x : s.World) → (s.close st x).0 ≡ ok tt) (sleep : s.World → s.World)
    (open_stream : Io s.World OpenStreamError s.Stream) (v : s.World) where
  opening-Served :
      (i : ℕ)
      → Served s laws pings pongs sleep open_stream
          (number i)
          (after s pings pongs sleep open_stream v i)
      → opening s pings pongs sleep open_stream v i ≢ err unsupported_protocol
  opening-Served i h refused = absurd (cc (ap (λ x. x.0) h.opened, refused))

  answered-Served :
      (i : ℕ)
      → Served s laws pings pongs sleep open_stream
          (number i)
          (after s pings pongs sleep open_stream v i)
      → answered s pings pongs sleep open_stream v i ≡ true
  answered-Served i h =
      let done : (round s pings pongs sleep open_stream (number i)
            (after s pings pongs sleep open_stream v i)).0
          ≡ some true =
        round-handle_ping s laws duplex pings ping_laws pongs pong_laws sleep open_stream (number i)
          h.ping_bytes h.pong_bytes h.behind_ping h.behind_pong h.stream h.server_stream
          (after s pings pongs sleep open_stream v i) h.before_ping h.after_ping h.server_before
          h.server_after h.opened (closes h.stream) h.ping_encoded h.ping_small h.ping_written
          h.ping_arrived h.pong_encoded h.pong_small h.handled h.pong_arrived in
      cc (done, round-goes_on s pings pongs sleep open_stream v i (opening-Served i h))

  -- All pings of such rounds are logged as complete.
  completed-Served :
      (k : ℕ)
      → k < 2 ^ 64
      → ((i : ℕ)
          → i < k
          → Served s laws pings pongs sleep open_stream
              (number i)
              (after s pings pongs sleep open_stream v i))
      → completed s pings pongs sleep open_stream v k ≡ count_up 1 k
  completed-Served zero small h = refl
  completed-Served (suc i) small h =
      let done : answered s pings pongs sleep open_stream v i ≡ true =
        answered-Served i (h i (omega arith)) in
      let name : number i ≡ 1 + i = omega (arith, small) in
      rw done (
        ap (λ l. l ++ (number i ∷ [])) (completed-Served i (omega arith) (λ j q. h j (omega arith)))
        ∙ ap (λ x. count_up 1 i ++ (x ∷ [])) name
        ∙ sym (count_up-snoc 1 i))

module _ (n : Libp2p) (laws : StreamLaws n.streams) (duplex : DuplexLaws n.streams laws)
    {PublicKey RelayClient Behaviour : Type 0} (b : SwarmBuilder n PublicKey RelayClient Behaviour)
    (stream_behaviour : Behaviour) (pings : Json PingMessage) (ping_laws : JsonLaws pings)
    (pongs : Json PongMessage) (pong_laws : JsonLaws pongs) (sleep : n.World → n.World)
    (open_stream : n.PeerId → Io n.World OpenStreamError n.Stream) where
  -- The client and the server together: the client, started with an address that it accepts and
  -- that can be dialled once the swarm is built, whose streams can be closed, and whose first `k`
  -- pings (fewer than 2 ^ 64) the server handles, each in its round, returns with success in the
  -- round after them if a stream is refused there because the server does not speak the protocol,
  -- with any fuel for this round. It has then logged exactly the pings 1 to `k` as complete, in
  -- order.
  pub main-Served :
      (filter : Result (Unit {0}) Text) (arg : Text) (address : n.Multiaddr) (peer : n.PeerId)
      (k fuel : ℕ) (w v : n.World)
      → filter ≡ ok tt
      → n.parse arg ≡ ok address
      → server_peer n address ≡ ok peer
      → build_swarm n b stream_behaviour ≡ ok w
      → n.dial address w ≡ (ok tt, v)
      → ((st : n.Stream) (x : n.World) → (n.close st x).0 ≡ ok tt)
      → k < 2 ^ 64
      → ((i : ℕ)
          → i < k
          → Served n.streams laws pings pongs sleep
              (open_stream peer)
              (number i)
              (after n.streams pings pongs sleep (open_stream peer) v i))
      → opening n.streams pings pongs sleep (open_stream peer) v k ≡ err unsupported_protocol
      → k < fuel
      → main n b stream_behaviour pings pongs sleep open_stream filter (some arg) fuel
        ≡ some (ok (count_up 1 k, after n.streams pings pongs sleep (open_stream peer) v (suc k)))
  main-Served filter arg address peer k fuel w v f p e built d closes small served refused enough =
      let x : n.World = after n.streams pings pongs sleep (open_stream peer) v (suc k) in
      (main-first_refusal n b stream_behaviour pings pongs sleep open_stream filter arg address peer
        k fuel w v f p e built d
        (λ i q.
          opening-Served n.streams laws duplex pings ping_laws pongs pong_laws closes sleep
            (open_stream peer) v i (served i q))
        refused enough).0
      ∙ ap (λ l. some (ok (l, x)))
          (completed-Served n.streams laws duplex pings ping_laws pongs pong_laws closes sleep
            (open_stream peer) v k small served)
