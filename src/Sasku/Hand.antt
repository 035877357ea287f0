-- ===== src/Sasku/Hand.antt =====
-- packages/rules-sasku/src/hand.ts: the course of a hand, from the first bid to the score.
pub mod State
pub mod Auction
pub mod Playing
pub mod Next
pub mod Audit
pub mod Whole
pub mod Won
pub mod Sound
pub mod Outcome
pub mod TrickKeeps
pub mod AuctionKeeps
pub mod Keeps
pub mod Public
pub mod Hidden
