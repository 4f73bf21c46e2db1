-- ===== src/NetV2/Messages.antt =====
-- meerkat-net-v2/src/messages.rs
use ping_pong_libp2p.Base.{List}
use ping_pong_libp2p.Text.{Text}
use ping_pong_libp2p.NetV2.Types.{MessageId, Address, MeerkatMessage, SendError}

pub data NetworkCommand : Type 0 where
  send_message : Address → MeerkatMessage → NetworkCommand
  listen : Address → NetworkCommand
  get_local_addresses : NetworkCommand
  listen_via_relay : Address → NetworkCommand

pub data NetworkReply : Type 0 where
  message_sent : MessageId → NetworkReply
  listen_success : Address → NetworkReply
  local_addresses : List Address → NetworkReply
  failure : Text → NetworkReply

pub data NetworkEvent : Type 0 where
  message_received : Text → MeerkatMessage → NetworkEvent
  send_failed : MessageId → SendError → NetworkEvent
  peer_connected : Text → NetworkEvent
  peer_disconnected : Text → NetworkEvent
