-- ===== src/Engine.antt =====
-- Setting up a round (packages/engine): the shared seed, and the keys that come before it.
pub mod Beacon
pub mod Setup
