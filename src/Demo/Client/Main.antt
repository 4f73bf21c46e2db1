-- ===== src/Demo/Client/Main.antt =====
-- A run of the native client from its argument on.
use ping_pong_libp2p.Base.{ℕ, suc, ◌<◌, ◌≡◌, ◌≢◌, refl, ap, ◌∙◌, none, some, []}
use ping_pong_libp2p.Io.{Result, ok, err, Io}
use ping_pong_libp2p.Text.{Text}
use ping_pong_libp2p.Deps.Json.{Json}
use ping_pong_libp2p.Deps.Libp2p.{Libp2p}
use ping_pong_libp2p.Deps.SwarmBuilder.{SwarmBuilder}
use ping_pong_libp2p.Demo.{PingMessage, PongMessage}
use ping_pong_libp2p.Demo.Client.{
  OpenStreamError, unsupported_protocol, server_peer, send_pings, returned, build_swarm,
  read_address, start, main,
}
use ping_pong_libp2p.Demo.Client.Rounds.{after, opening, completed, send_pings-first_refusal}

module _ (n : Libp2p) {PublicKey RelayClient Behaviour : Type 0}
    (b : SwarmBuilder n PublicKey RelayClient Behaviour) (stream_behaviour : Behaviour)
    (pings : Json PingMessage) (pongs : Json PongMessage) (sleep : n.World → n.World)
    (open_stream : n.PeerId → Io n.World OpenStreamError n.Stream) where
  start-dialled :
      (filter : Result (Unit {0}) Text) (arg : Text) (address : n.Multiaddr) (peer : n.PeerId)
      (w v : n.World)
      → filter ≡ ok tt
      → n.parse arg ≡ ok address
      → server_peer n address ≡ ok peer
      → build_swarm n b stream_behaviour ≡ ok w
      → n.dial address w ≡ (ok tt, v)
      → start n b stream_behaviour filter (some arg) ≡ ok (peer, v)
  unfolding start read_address
  start-dialled filter arg address peer w v f p e built d = rw (f, p, e, built, d) refl

  main-started :
      (filter : Result (Unit {0}) Text) (arg : Text) (peer : n.PeerId) (fuel : ℕ) (v : n.World)
      → start n b stream_behaviour filter (some arg) ≡ ok (peer, v)
      → main n b stream_behaviour pings pongs sleep open_stream filter (some arg) fuel
        ≡ returned (send_pings n.streams pings pongs sleep (open_stream peer) fuel 0 [] v)
  unfolding main
  main-started filter arg peer fuel v h = rw (h, main) refl

  -- The client, started with an address that it accepts and that can be dialled once the swarm is
  -- built, pings the peer of this address until the server does not speak the protocol, and no
  -- longer. In the first round in which a stream is refused for that reason, and with any fuel for
  -- this round, it returns with success; after the rounds before, whatever else failed in them, it
  -- has not returned. The pings that it has logged as complete are those of the rounds before in
  -- which a stream was opened and the ping on it answered, in order and numbered by their rounds
  -- from 1 (modulo 2 ^ 64).
  pub main-first_refusal :
      (filter : Result (Unit {0}) Text) (arg : Text) (address : n.Multiaddr) (peer : n.PeerId)
      (k fuel : ℕ) (w v : n.World)
      → filter ≡ ok tt
      → n.parse arg ≡ ok address
      → server_peer n address ≡ ok peer
      → build_swarm n b stream_behaviour ≡ ok w
      → n.dial address w ≡ (ok tt, v)
      → ((i : ℕ)
          → i < k
          → opening n.streams pings pongs sleep (open_stream peer) v i ≢ err unsupported_protocol)
      → opening n.streams pings pongs sleep (open_stream peer) v k ≡ err unsupported_protocol
      → k < fuel
      → (main n b stream_behaviour pings pongs sleep open_stream filter (some arg) fuel
          ≡ some (
              ok (
                completed n.streams pings pongs sleep (open_stream peer) v k,
                after n.streams pings pongs sleep (open_stream peer) v (suc k),
              )))
        × (main n b stream_behaviour pings pongs sleep open_stream filter (some arg) k ≡ none)
  main-first_refusal filter arg address peer k fuel w v f p e built d goes refused enough =
      let started : start n b stream_behaviour filter (some arg) ≡ ok (peer, v) =
        start-dialled filter arg address peer w v f p e built d in
      let (ends, not_yet) =
        send_pings-first_refusal n.streams pings pongs sleep (open_stream peer) v k fuel goes
          refused enough in
      (
        main-started filter arg peer fuel v started ∙ ap returned ends,
        main-started filter arg peer k v started ∙ ap returned not_yet,
      )
