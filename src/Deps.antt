-- ===== src/Deps.antt =====
-- The third-party code that the program calls, as interfaces: the model takes values of these
-- records as parameters. A record of operations says nothing of what they do; what the code relies
-- on is a record of laws of its own, which only the theorems take that need it.
pub mod Streams
pub mod Json
pub mod Channel
pub mod Libp2p
pub mod SwarmBuilder
pub mod WasmSwarm
