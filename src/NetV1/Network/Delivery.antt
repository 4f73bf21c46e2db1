-- ===== src/NetV1/Network/Delivery.antt =====
-- A message of the first version on its whole way: from the manager's `send` over the loop and the
-- stream to the node that it is for.
use ping_pong_libp2p.Base.{
  ℕ, ◌^◌, ◌<◌, ◌≡◌, refl, sym, ap, ◌∙◌, true, some, List, [], ◌∷◌, ◌++◌, length, drop, append-nil,
}
use ping_pong_libp2p.Base.Parts.{drop-grown}
use ping_pong_libp2p.Io.{Result, ok, lift}
use ping_pong_libp2p.Text.{Text}
use ping_pong_libp2p.Deps.Json.{Json, JsonLaws}
use ping_pong_libp2p.Deps.Streams.{Streams, StreamLaws, CloseLaws, Takes}
use ping_pong_libp2p.Deps.Libp2p.{Libp2p}
use ping_pong_libp2p.Frame.{u32, to_be_bytes}
use ping_pong_libp2p.Frame.Exchange.{frame, reading-frame_whole, written-writing}
use ping_pong_libp2p.NetV1.Types.{MessageId, GlobalAddress, MeerkatMessage, on_message}
use ping_pong_libp2p.NetV1.Protocol
use ping_pong_libp2p.NetV1.EventLoop.{
  Loop, NetworkCommand, incoming, call, on_open, send_to_peer, send_known, handle_send,
  handle_command, handle_incoming_stream, extract_peer_id, step, event_loop,
}
use ping_pong_libp2p.NetV1.EventLoop.Waiting.{commands}
use ping_pong_libp2p.NetV1.Network.{LibP2PNetwork, send}

module _ (s : Streams) (laws : StreamLaws s) (j : Json MeerkatMessage) where
  open laws use {written}

  -- A stream that takes everything takes a message that serialises, and gets its frame.
  send_message-Takes :
      (st : s.Stream) (msg : MeerkatMessage) (bytes : List ℕ) (w : s.World)
      → Takes s st
      → j.to_vec msg ≡ ok bytes
      → (w' : s.World) × (Protocol.send_message s j st msg w ≡ (ok tt, w'))
        × (written w' st ≡ written w st ++ frame bytes)
  unfolding Protocol.send_message
  send_message-Takes st msg bytes w (writes, flushes) e =
      let w1 : s.World = (s.write_all st (to_be_bytes (u32 (length bytes))) w).1 in
      let w2 : s.World = (s.write_all st bytes w1).1 in
      let w3 : s.World = (s.flush st w2).1 in
      let sent : Protocol.send_message s j st msg w ≡ (ok tt, w3) =
        rw (e, writes (to_be_bytes (u32 (length bytes))) w, writes bytes w1, flushes w2) refl in
      let (v, flushed, out) = written-writing s laws st bytes (s.flush st) w w3 tt (rw e at sent) in
      (w3, sent, laws.flush_ok st v w3 flushed ∙ out)

module _ {n : Libp2p} (laws : StreamLaws n.streams) (close : CloseLaws n.streams laws)
    (j : Json MeerkatMessage) where
  open laws use {written, unread}

  on_message-handle_incoming_stream :
      (peer : n.PeerId) (st : n.Stream) (l : Loop n) (msg : MeerkatMessage) (w : n.World)
      → Protocol.recv_message n.streams j st l.net ≡ (ok msg, w)
      → (handle_incoming_stream n j peer st l).calls
        ≡ l.calls ++ (on_message (n.show_peer peer) msg ∷ [])
  unfolding handle_incoming_stream call
  on_message-handle_incoming_stream peer st l msg w h = rw (h, handle_incoming_stream)

  -- What a send to a connected peer leaves: the stream has the frame, and nothing is called back.
  written-handle_send :
      (id : MessageId) (addr : GlobalAddress) (msg : MeerkatMessage) (l : Loop n) (m : n.Multiaddr)
      (peer : n.PeerId) (bytes : List ℕ) (st : n.Stream) (w : n.World)
      → n.parse addr ≡ ok m
      → extract_peer_id n m ≡ some peer
      → n.is_connected l.net peer ≡ true
      → n.open_stream peer l.net ≡ (ok st, w)
      → Takes n.streams st
      → j.to_vec msg ≡ ok bytes
      → ((handle_send n j id addr msg l).calls ≡ l.calls)
        × (written (handle_send n j id addr msg l).net st ≡ written w st ++ frame bytes)
  unfolding handle_send extract_peer_id
  written-handle_send id addr msg l m peer bytes st w p found up opened takes e =
      let (w', sent, out) = send_message-Takes n.streams laws j st msg bytes w takes e in
      (
        rw (p, handle_send, found, up, send_known, opened, send_to_peer, sent, on_open) refl,
        rw (p, handle_send, found, up, send_known, opened, send_to_peer)
            (rw (sent, on_open)
              (ap (λ (x : n.World). written (n.close st x).1 st)
                  (ap (λ (x : Result (Unit {0}) Text × n.World). x.1) sent)
                ∙ close.written-close st w'
                ∙ out)),
      )

  -- A message that a manager sends to a connected peer gets the next id and reaches the peer's
  -- node: if the loop has met all earlier commands, the stream opens and takes what is written to
  -- it, and the message has less than 2 ^ 32 bytes, then the sender's loop calls nothing back and
  -- has written exactly the frame of the message to that stream; and a node on whose incoming
  -- stream arrives what the sender's loop has written makes exactly one call, that of `on_message`
  -- with the sender's name and the message.
  pub on_message-send :
      (json : JsonLaws j) (addr : GlobalAddress) (msg : MeerkatMessage) (self : LibP2PNetwork n)
      (l l' : Loop n) (m : n.Multiaddr) (peer from : n.PeerId) (bytes : List ℕ) (st st' : n.Stream)
      (w : n.World)
      → self.command_tx ≡ []
      → n.parse addr ≡ ok m
      → extract_peer_id n m ≡ some peer
      → n.is_connected l.net peer ≡ true
      → n.open_stream peer l.net ≡ (ok st, w)
      → Takes n.streams st
      → j.to_vec msg ≡ ok bytes
      → length bytes < 2 ^ 32
      → unread l'.net st'
        ≡ drop
            (length (written w st))
            (written (event_loop n j (commands (send addr msg self).1.command_tx) l).net st)
      → let (id, self') = send addr msg self in
        let sent = event_loop n j (commands self'.command_tx) l in
        (id ≡ self.next_message_id)
        × (sent.calls ≡ l.calls)
        × (written sent.net st ≡ written w st ++ frame bytes)
        × ((step n j (incoming from st') l').calls
            ≡ l'.calls ++ (on_message (n.show_peer from) msg ∷ []))
  unfolding send step event_loop handle_command Protocol.recv_message
  on_message-send json addr msg self l l' m peer from bytes st st' w idle p found up opened takes e
        small arrived =
      let id : MessageId = self.next_message_id in
      let sent : Loop n = event_loop n j (commands (send addr msg self).1.command_tx) l in
      let one : sent ≡ handle_send n j id addr msg l =
        ap (λ cs. event_loop n j (commands (cs ++ (NetworkCommand.send id addr msg ∷ []))) l)
          idle in
      let (quiet, out) =
        written-handle_send id addr msg l m peer bytes st w p found up opened takes e in
      let wrote : written sent.net st ≡ written w st ++ frame bytes =
        ap (λ (k : Loop n). written k.net st) one ∙ out in
      let (r, reads, _) = reading-frame_whole n.streams laws st' bytes [] l'.net small (
        drop-grown (written w st) (written sent.net st) (frame bytes) [] (unread l'.net st') wrote
          (arrived ∙ sym (append-nil _))) in
      (
        refl,
        ap (λ (k : Loop n). k.calls) one ∙ quiet,
        wrote,
        on_message-handle_incoming_stream from st' l' msg r (
            reads MeerkatMessage (λ bs. lift (j.from_slice bs))
            ∙ ap (λ x. (x, r)) (json.from_slice-to_vec msg bytes e)),
      )
