-- ===== src/Session.antt =====
-- Signed histories (packages/session): byte strings, the chain of a sender, the chains of a session.
pub mod Bytes
pub mod Chain
pub mod Registry
pub mod Sync
pub mod Witness
pub mod Equivocation
pub mod Lobby
