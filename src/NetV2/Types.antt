-- ===== src/NetV2/Types.antt =====
-- meerkat-net-v2/src/types.rs. `MessageId` and `Address` wrap one value each, and stand for it.
use ping_pong_libp2p.Base.{ℕ, List}
use ping_pong_libp2p.Text.{Text}

-- u64
abbrev pub MessageId : Type 0
MessageId = ℕ

abbrev pub Address : Type 0
Address = Text

pub data MeerkatMessage : Type 0 where
  ping : Text → MeerkatMessage
  pong : Text → MeerkatMessage
  announce : Address → MeerkatMessage
  transaction : ℕ → List ℕ → MeerkatMessage
  propagation : ℕ → List ℕ → MeerkatMessage

pub data SendError : Type 0 where
  unreachable_address : Address → SendError
  connection_lost : Text → SendError
  protocol_error : Text → SendError

pub data NodeType : Type 0 where
  server : NodeType
  browser_client : Address → NodeType
