-- ===== src/Protocol.antt =====
-- What is on the wire: canonical values (packages/encoding) and the bodies of the messages
-- (packages/protocol).
pub mod Value
pub mod Canonical
pub mod Schema
pub mod Hashes
pub mod Envelope
pub mod Challenges
pub mod Lobby
pub mod Requests
pub mod Claims
pub mod Violation
