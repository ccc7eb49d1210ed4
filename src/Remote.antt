-- ===== src/Remote.antt =====
-- The connections to other nodes: uActor/include/remote and uActor/src/remote.
pub mod Processors
pub mod Forwarding
pub mod Framer
pub mod Writing
