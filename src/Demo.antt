-- ===== src/Demo.antt =====
-- The ping-pong demo: the messages of shared/src/lib.rs, and the programs that exchange them.
pub mod Server
pub mod Client
pub mod Browser
pub mod Peers
use ping_pong_libp2p.Text.{Text}

pub record PingMessage : Type 0 where
  pub message : Text

pub record PongMessage : Type 0 where
  pub message : Text
