-- ===== src/Producer.antt =====
-- src/producer: which queue a unit goes to, which tilesets exist, and one tick of discovery.
pub mod Routing
pub mod Tilesets
pub mod Discovery
