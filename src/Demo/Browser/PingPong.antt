-- ===== src/Demo/Browser/PingPong.antt =====
-- The exchange of a ping and its pong between the client in the browser and the server.
use ping_pong_libp2p.Base.{
  ℕ, ◌^◌, ◌<◌, ◌≡◌, refl, ap, ◌∙◌, some, List, [], ◌∷◌, ◌++◌, All, length, drop,
}
use ping_pong_libp2p.Io.{ok, Io, pure, ◌>>◌, >>=-eq-ok}
use ping_pong_libp2p.Text.{Text, text}
use ping_pong_libp2p.Deps.Streams.{StreamLaws, DuplexLaws}
use ping_pong_libp2p.Deps.Json.{Json, JsonLaws}
use ping_pong_libp2p.Deps.Libp2p.{Libp2p}
use ping_pong_libp2p.Deps.WasmSwarm.{WasmSwarm}
use ping_pong_libp2p.Frame.{u32, to_be_bytes}
use ping_pong_libp2p.Frame.Exchange.{frame, writing, reading-frame_whole, reading-parts}
use ping_pong_libp2p.Demo.{PingMessage, PongMessage}
use ping_pong_libp2p.Demo.Server.{pong_for, handle_ping}
use ping_pong_libp2p.Demo.Server.Answers.{unread-handle_ping}
use ping_pong_libp2p.Demo.Browser.{
  SwarmEvent, connection_established, Page, extract_peer_id, build_swarm, connect_to_server,
  exchange, send_ping,
}
use ping_pong_libp2p.Demo.Browser.Connecting.{Undecided, connect_to_server_lem}

module _ (n : Libp2p) {PublicKey RelayClient Behaviour : Type 0}
    (x : WasmSwarm n PublicKey RelayClient Behaviour) (laws : StreamLaws n.streams)
    (duplex : DuplexLaws n.streams laws) (pings : Json PingMessage) (ping_laws : JsonLaws pings)
    (pongs : Json PongMessage) (pong_laws : JsonLaws pongs) where
  open laws use {written, unread}

  -- An exchange in which the pong arrives returns its text.
  exchange-pong :
      (message : Text) (pong : PongMessage) (bytes answer rest : List ℕ) (page : Page n x.Control)
      (peer : n.PeerId) (control : x.Control) (st : n.Stream) (w w' : n.World)
      → page.peer_id ≡ some peer
      → page.control ≡ some control
      → x.open_stream control peer page.net ≡ (ok st, w)
      → pings.to_vec (record { message = message }) ≡ ok bytes
      → writing n.streams st bytes (pure tt) w ≡ (ok tt, w')
      → pongs.to_vec pong ≡ ok answer
      → length answer < 2 ^ 32
      → unread w' st ≡ frame answer ++ rest
      → (send_ping n x pings pongs message page).0 ≡ ok pong.message
  unfolding send_ping exchange
  exchange-pong message pong bytes answer rest page peer control st w w' known held opened e sent e'
        small arrived =
      let header : Io n.World Text (Unit {0}) = n.write_all st (to_be_bytes (u32 (length bytes))) in
      let (_, v, first, h) = >>=-eq-ok header (λ _. n.write_all st bytes >> pure tt) w w' tt sent in
      let (_, v', second, done) = >>=-eq-ok (n.write_all st bytes) (λ _. pure tt) v w' tt h in
      let (r, read, _) = reading-frame_whole n.streams laws st answer rest w' small arrived in
      let (b, y, third, fourth) = reading-parts n.streams st answer w' r (read (List ℕ) pure) in
      let third' : n.read_exact st 4 v' ≡ (ok b, y) =
        ap (n.read_exact st 4) (ap (λ z. z.1) done) ∙ third in
      rw
        (
          known,
          held,
          opened,
          e,
          first,
          second,
          third',
          fourth,
          pong_laws.from_slice-to_vec pong answer e',
        )
        refl

  -- A page that has connected to a server and sends it a ping gets back "Pong! You said: " and its
  -- own message. The condition is that the ping, written with success, arrives whole at the server,
  -- which handles it with success and whose answer arrives whole; that both are less than 2 ^ 32
  -- bytes long; and that the address parses, names the server's peer and can be dialled over the
  -- swarm that is built, with the connection the first event that decides the wait.
  pub send_ping-handle_ping :
      (stream_behaviour : Behaviour) (addr : Text) (m : n.Multiaddr) (remote : n.PeerId)
      (id_keys : x.Keypair) (config : x.Noise) (swarm : x.Swarm)
      (before after : List (SwarmEvent n)) (page : Page n x.Control) (message : Text)
      (bytes answer more rest : List ℕ) (st st' : n.Stream) (v₀ v w w' u u' : n.World)
      → n.parse addr ≡ ok m
      → extract_peer_id n m ≡ some remote
      → x.noise_config id_keys ≡ ok config
      → build_swarm n x stream_behaviour id_keys config page.net ≡ (swarm, v₀)
      → x.dial swarm m v₀ ≡ (ok tt, v)
      → All (Undecided n remote) before
      → x.open_stream (x.new_control swarm) remote v ≡ (ok st, w)
      → pings.to_vec (record { message = message }) ≡ ok bytes
      → length bytes < 2 ^ 32
      → writing n.streams st bytes (pure tt) w ≡ (ok tt, w')
      → unread u st' ≡ drop (length (written w st)) (written w' st) ++ more
      → pongs.to_vec (pong_for (record { message = message })) ≡ ok answer
      → length answer < 2 ^ 32
      → handle_ping n.streams pings pongs st' u ≡ (ok tt, u')
      → unread w' st ≡ drop (length (written u st')) (written u' st') ++ rest
      → let page' =
          (connect_to_server n x stream_behaviour addr id_keys
            (before ++ (connection_established remote ∷ after))
            page).1 in
        (send_ping n x pings pongs message page').0 ≡ ok (text "Pong! You said: " ++ message)
  unfolding pong_for
  send_ping-handle_ping stream_behaviour addr m remote id_keys config swarm before after page
        message bytes answer more rest st st' v₀ v w w' u u' p e c built d undecided opened e₁ small
        sent there e₂ small' handled back =
      let ping : PingMessage = record { message = message } in
      let control : x.Control = x.new_control swarm in
      let connected : Page n x.Control = record {
        control = some control;
        peer_id = some remote;
        net = v;
      } in
      let arrived : unread w' st ≡ frame answer ++ rest =
        unread-handle_ping n.streams laws duplex pings ping_laws pongs ping bytes answer more rest
          st st' w w' u u' e₁ small sent there e₂ handled back in
      ap (λ r. (send_ping n x pings pongs message r.1).0)
        (connect_to_server_lem n x stream_behaviour remote addr m id_keys config swarm before after
          [] page v₀ v p e c built d undecided).0
      ∙ exchange-pong message (pong_for ping) bytes answer rest connected remote control st w w'
          refl refl opened e₁ sent e₂ small' arrived
