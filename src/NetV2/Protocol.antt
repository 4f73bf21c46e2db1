-- ===== src/NetV2/Protocol.antt =====
-- meerkat-net-v2/src/protocol.rs: messages on a stream, behind a length of four bytes. The buffers
-- that `recv_message` allocates are not modelled; `usize` has at least 32 bits.
pub mod Wire
use ping_pong_libp2p.Base.{ℕ, List, length}
use ping_pong_libp2p.Io.{Result, Io, lift, ◌>>=◌, ◌>>◌}
use ping_pong_libp2p.Text.{Text}
use ping_pong_libp2p.Deps.Streams.{Streams}
use ping_pong_libp2p.Deps.Json.{Json}
use ping_pong_libp2p.Frame.{u32, to_be_bytes, from_be_bytes}
use ping_pong_libp2p.NetV2.Types.{MeerkatMessage}

module _ (s : Streams) (j : Json MeerkatMessage) where
  unfoldable pub send_message : s.Stream → MeerkatMessage → Io s.World Text (Unit {0})
  send_message stream msg = do
    bytes ← lift (j.to_vec msg)
    s.write_all stream (to_be_bytes (u32 (length bytes)))
    s.write_all stream bytes
    s.flush stream

  unfoldable pub recv_message : s.Stream → Io s.World Text MeerkatMessage
  recv_message stream = do
    len_bytes ← s.read_exact stream 4
    bytes ← s.read_exact stream (from_be_bytes len_bytes)
    lift (j.from_slice bytes)
