-- ===== src/NetV2.antt =====
-- The crate meerkat-net-v2 (meerkat-net-v2/src): the actor-based network layer.
pub mod Types
pub mod Messages
pub mod Protocol
pub mod Address
pub mod Mock
pub mod EventLoop
pub mod Swarm
pub mod Actor
pub mod NetworkLayer
