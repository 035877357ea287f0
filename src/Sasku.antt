-- ===== src/Sasku.antt =====
-- The rules of Sasku (packages/rules-sasku): deck, tricks, scoring, hand, and decoded actions.
pub mod Errors
pub mod Deck
pub mod Scoring
pub mod Tricks
pub mod Hand
pub mod Action
