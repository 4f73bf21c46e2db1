-- ===== src/NetV1/Types.antt =====
-- meerkat-net/src/types.rs and interface.rs. `MessageId` and `GlobalAddress` wrap one value each, and
-- stand for it.
use ping_pong_libp2p.Base.{ℕ, Bool, ◌++◌}
use ping_pong_libp2p.Text.{Text, text}

abbrev pub MessageId : Type 0
MessageId = ℕ

abbrev pub GlobalAddress : Type 0
GlobalAddress = Text

pub data MeerkatMessage : Type 0 where
  ping : Text → MeerkatMessage
  pong : Text → MeerkatMessage
  announce : GlobalAddress → MeerkatMessage

pub data SendError : Type 0 where
  unreachable_address : GlobalAddress → SendError
  connection_lost : Text → SendError
  protocol_error : Text → SendError

-- `Display for SendError`
unfoldable pub show_error : SendError → Text
show_error (unreachable_address addr) = text "Unreachable: " ++ addr
show_error (connection_lost peer) = text "Connection lost: " ++ peer
show_error (protocol_error msg) = text "Protocol error: " ++ msg

pub data NetworkError : Type 0 where
  invalid_address : Text → NetworkError
  bind_failed : Text → NetworkError
  already_listening : NetworkError

-- `NetworkCallbacks`: `on_message` and `on_send_error` are always given, and of the other two the
-- record says whether they are.
pub record NetworkCallbacks : Type 0 where
  pub on_peer_connected : Bool
  pub on_peer_disconnected : Bool

-- A call of one of them, with its arguments.
pub data Call : Type 0 where
  on_message : Text → MeerkatMessage → Call
  on_send_error : MessageId → SendError → Call
  on_peer_connected : Text → Call
  on_peer_disconnected : Text → Call
