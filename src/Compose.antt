-- ===== src/Compose.antt =====
-- compose.rs: components, instances and includes become one flat topology.
pub mod Subst
pub mod Connect
pub mod Expand
pub mod Flat
pub mod Load
pub mod Loads
