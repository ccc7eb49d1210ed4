-- ===== src/Examples.antt =====
-- The theorems at concrete inputs.
pub mod Routing
pub mod Actors
pub mod Services
pub mod Connections
pub mod Values
