-- ===== src/Deck.antt =====
-- Cards that no player knows alone (packages/deck): masking by a shared key, and the proofs of shares.
pub mod Curve
pub mod Elgamal
pub mod Proofs
