-- ===== src/NetV2/EventLoop/Incoming.antt =====
-- A stream that a peer opened, from its bytes to the event.
use ping_pong_libp2p.Base.{
  ℕ, ◌≡◌, sym, ap, ◌∙◌, List, [], ◌∷◌, ◌++◌, length, take, drop, append-nil, ◌<◌, ◌^◌,
}
use ping_pong_libp2p.Io.{Result, ok, err}
use ping_pong_libp2p.Text.{Text}
use ping_pong_libp2p.Deps.Json.{Json, JsonLaws}
use ping_pong_libp2p.Deps.Streams.{StreamLaws, CloseLaws, Takes}
use ping_pong_libp2p.Deps.Libp2p.{Libp2p}
use ping_pong_libp2p.Frame.Exchange.{frame}
use ping_pong_libp2p.NetV2.Types.{MessageId, MeerkatMessage}
use ping_pong_libp2p.NetV2.Messages.{message_received}
use ping_pong_libp2p.NetV2.Protocol
use ping_pong_libp2p.NetV2.Protocol.Wire.{
  send_message-Takes, recv_message-send_message, recv_message-cut,
}
use ping_pong_libp2p.NetV2.EventLoop.{Loop, on_open, send_to_peer, handle_incoming}

module _ {n : Libp2p} (laws : StreamLaws n.streams) (j : Json MeerkatMessage) where
  pub handle_incoming-ok :
      (peer : n.PeerId) (stream : n.Stream) (l : Loop n) (msg : MeerkatMessage) (w : n.World)
      → Protocol.recv_message n.streams j stream l.net ≡ (ok msg, w)
      → (handle_incoming n j peer stream l).event_tx
        ≡ l.event_tx ++ (message_received (n.show_peer peer) msg ∷ [])
  unfolding handle_incoming
  handle_incoming-ok peer stream l msg w h = rw (h, handle_incoming)

  handle_incoming-err :
      (peer : n.PeerId) (stream : n.Stream) (l : Loop n) (e : Text) (w : n.World)
      → Protocol.recv_message n.streams j stream l.net ≡ (err e, w)
      → (handle_incoming n j peer stream l).event_tx ≡ l.event_tx
  unfolding handle_incoming
  handle_incoming-err peer stream l e w h = rw (h, handle_incoming)

  send_to_peer-ok :
      (peer : n.PeerId) (id : MessageId) (msg : MeerkatMessage) (l : Loop n) (st : n.Stream)
      (w w' : n.World)
      → n.open_stream peer l.net ≡ (ok st, w)
      → Protocol.send_message n.streams j st msg w ≡ (ok tt, w')
      → (send_to_peer n j peer id msg l).event_tx ≡ l.event_tx
  unfolding send_to_peer
  send_to_peer-ok peer id msg l st w w' o s = rw (o, send_to_peer) (rw (s, on_open))

  -- What a send leaves on the stream that it opened: the frame of the message.
  written-send_to_peer :
      (close : CloseLaws n.streams laws) (peer : n.PeerId) (id : MessageId) (msg : MeerkatMessage)
      (bytes : List ℕ) (l : Loop n) (st : n.Stream) (w w' : n.World)
      → n.open_stream peer l.net ≡ (ok st, w)
      → Protocol.send_message n.streams j st msg w ≡ (ok tt, w')
      → laws.written w' st ≡ laws.written w st ++ frame bytes
      → laws.written (send_to_peer n j peer id msg l).net st ≡ laws.written w st ++ frame bytes
  unfolding send_to_peer
  written-send_to_peer close peer id msg bytes l st w w' o s out =
      rw (o, send_to_peer)
        (rw (s, on_open)
          (ap (λ (x : n.World). laws.written (n.close st x).1 st)
              (ap (λ (x : Result (Unit {0}) Text × n.World). x.1) s)
            ∙ close.written-close st w'
            ∙ out))

  -- A message that one node sends to a connected peer is the event that the peer's node reports. If
  -- the stream opens and takes what is written to it, then the sender's loop reports nothing and
  -- has written exactly the frame of the message, of less than 2 ^ 32 bytes; and the other node, on
  -- whose incoming stream arrives what the sender's loop has written, reports this message, from
  -- this peer.
  pub handle_incoming-send_to_peer :
      (close : CloseLaws n.streams laws) (json : JsonLaws j) (peer from : n.PeerId) (id : MessageId)
      (msg : MeerkatMessage) (bytes : List ℕ) (l l' : Loop n) (st st' : n.Stream) (w : n.World)
      → n.open_stream peer l.net ≡ (ok st, w)
      → Takes n.streams st
      → j.to_vec msg ≡ ok bytes
      → length bytes < 2 ^ 32
      → laws.unread l'.net st'
        ≡ drop (length (laws.written w st)) (laws.written (send_to_peer n j peer id msg l).net st)
      → ((send_to_peer n j peer id msg l).event_tx ≡ l.event_tx)
        × (laws.written (send_to_peer n j peer id msg l).net st ≡ laws.written w st ++ frame bytes)
        × ((handle_incoming n j from st' l').event_tx
            ≡ l'.event_tx ++ (message_received (n.show_peer from) msg ∷ []))
  handle_incoming-send_to_peer close json peer from id msg bytes l l' st st' w o takes e small
        arrived =
      let (w', s, out) = send_message-Takes n.streams laws j st msg bytes w takes e in
      let wrote : laws.written (send_to_peer n j peer id msg l).net st
          ≡ laws.written w st ++ frame bytes =
        written-send_to_peer close peer id msg bytes l st w w' o s out in
      let there : laws.unread l'.net st'
          ≡ drop (length (laws.written w st)) (laws.written w' st) ++ [] =
        arrived
        ∙ ap (drop (length (laws.written w st))) (wrote ∙ sym out)
        ∙ sym (append-nil (drop (length (laws.written w st)) (laws.written w' st))) in
      let (r, p, _) =
        recv_message-send_message n.streams laws j json st msg bytes w w' st' [] l'.net e small s
          there in
      (send_to_peer-ok peer id msg l st w w' o s, wrote, handle_incoming-ok from st' l' msg r p)

  -- A stream that ends inside a message is reported by no event.
  handle_incoming-cut :
      (peer : n.PeerId) (stream : n.Stream) (bytes : List ℕ) (k : ℕ) (l : Loop n)
      → length bytes < 2 ^ 32
      → k < length (frame bytes)
      → laws.unread l.net stream ≡ take k (frame bytes)
      → (handle_incoming n j peer stream l).event_tx ≡ l.event_tx
  handle_incoming-cut peer stream bytes k l small short h =
      let (e, w, p) = recv_message-cut n.streams laws j stream bytes k l.net small short h in
      handle_incoming-err peer stream l e w p
