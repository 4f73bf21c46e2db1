-- ===== src/NetV2/Protocol/Wire.antt =====
-- What `send_message` puts on a stream and `recv_message` takes from it.
use ping_pong_libp2p.Base.{ℕ, ◌^◌, ◌<◌, ◌≡◌, refl, ap, ◌∙◌, List, ◌++◌, length, take, drop}
use ping_pong_libp2p.Base.Parts.{drop-grown}
use ping_pong_libp2p.Io.{ok, err, lift}
use ping_pong_libp2p.Text.{Text}
use ping_pong_libp2p.Deps.Streams.{Streams, StreamLaws, Takes}
use ping_pong_libp2p.Deps.Json.{Json, JsonLaws}
use ping_pong_libp2p.Frame.{u32, to_be_bytes}
use ping_pong_libp2p.Frame.Exchange.{
  frame, reading-frame, reading-frame_whole, reading-cut, written-writing,
}
use ping_pong_libp2p.NetV2.Types.{MeerkatMessage}
use ping_pong_libp2p.NetV2.Protocol.{send_message, recv_message}

module _ (s : Streams) (laws : StreamLaws s) (j : Json MeerkatMessage) where
  open laws use {written, unread}

  -- A send that succeeds has written the frame of the serialised message, and nothing else.
  written-send_message :
      (st : s.Stream) (msg : MeerkatMessage) (bytes : List ℕ) (w w' : s.World)
      → j.to_vec msg ≡ ok bytes
      → send_message s j st msg w ≡ (ok tt, w')
      → written w' st ≡ written w st ++ frame bytes
  unfolding send_message
  written-send_message st msg bytes w w' e h =
      let (v, flushed, out) = written-writing s laws st bytes (s.flush st) w w' tt (rw e at h) in
      laws.flush_ok st v w' flushed ∙ out

  -- A stream that takes everything takes a message that serialises, and gets its frame.
  pub send_message-Takes :
      (st : s.Stream) (msg : MeerkatMessage) (bytes : List ℕ) (w : s.World)
      → Takes s st
      → j.to_vec msg ≡ ok bytes
      → (w' : s.World) × (send_message s j st msg w ≡ (ok tt, w'))
        × (written w' st ≡ written w st ++ frame bytes)
  unfolding send_message
  send_message-Takes st msg bytes w (writes, flushes) e =
      let header : List ℕ = to_be_bytes (u32 (length bytes)) in
      let w1 : s.World = (s.write_all st header w).1 in
      let w2 : s.World = (s.write_all st bytes w1).1 in
      let w3 : s.World = (s.flush st w2).1 in
      let sent : send_message s j st msg w ≡ (ok tt, w3) =
        rw (e, writes header w, writes bytes w1, flushes w2) refl in
      (w3, sent, written-send_message st msg bytes w w3 e sent)

  -- The frame of any bytes, at the front of what has arrived, is read as the first
  -- `length bytes % 2 ^ 32` of them; what follows stays on the stream.
  pub recv_message-frame :
      (st : s.Stream) (bytes rest : List ℕ) (w : s.World)
      → unread w st ≡ frame bytes ++ rest
      → (w' : s.World) × (recv_message s j st w
          ≡ (j.from_slice (take (u32 (length bytes)) bytes), w'))
        × (unread w' st ≡ drop (u32 (length bytes)) bytes ++ rest)
  unfolding recv_message
  recv_message-frame st bytes rest w h =
      let (w', p, q) = reading-frame s laws st bytes rest w h in
      (w', p MeerkatMessage (λ l. lift (j.from_slice l)), q)

  -- What was sent is received: the message of a frame that has arrived whole, of less than 2 ^ 32
  -- bytes, is read back as it was, and exactly its frame is taken off the stream.
  pub recv_message-send_message :
      (json : JsonLaws j) (st : s.Stream) (msg : MeerkatMessage) (bytes : List ℕ) (w w' : s.World)
      (st' : s.Stream) (rest : List ℕ) (r : s.World)
      → j.to_vec msg ≡ ok bytes
      → length bytes < 2 ^ 32
      → send_message s j st msg w ≡ (ok tt, w')
      → unread r st' ≡ drop (length (written w st)) (written w' st) ++ rest
      → (r' : s.World) × (recv_message s j st' r ≡ (ok msg, r')) × (unread r' st' ≡ rest)
  unfolding recv_message
  recv_message-send_message json st msg bytes w w' st' rest r e small sent arrived =
      let there : unread r st' ≡ frame bytes ++ rest =
        drop-grown (written w st) (written w' st) (frame bytes) rest (unread r st')
          (written-send_message st msg bytes w w' e sent) arrived in
      let (r', p, q) = reading-frame_whole s laws st' bytes rest r small there in
      (
        r',
        p MeerkatMessage (λ l. lift (j.from_slice l))
            ∙ ap (λ x. (x, r')) (json.from_slice-to_vec msg bytes e),
        q,
      )

  -- A stream that ends inside a frame of less than 2 ^ 32 bytes gives an error, never a message.
  pub recv_message-cut :
      (st : s.Stream) (bytes : List ℕ) (k : ℕ) (w : s.World)
      → length bytes < 2 ^ 32
      → k < length (frame bytes)
      → unread w st ≡ take k (frame bytes)
      → (e : Text) × (w' : s.World) × (recv_message s j st w ≡ (err e, w'))
  unfolding recv_message
  recv_message-cut st bytes k w small short h =
      let (e, w', p) = reading-cut s laws st bytes k w small short h in
      (e, w', p MeerkatMessage (λ l. lift (j.from_slice l)))
