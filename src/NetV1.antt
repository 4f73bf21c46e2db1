-- ===== src/NetV1.antt =====
-- The crate meerkat-net (meerkat-net/src), the first version of the network layer: its messages and
-- its network in memory.
pub mod Types
pub mod Protocol
pub mod EventLoop
pub mod NetworkLayer
pub mod Network
pub mod Mock
