-- ===== src/Deck/Proofs/Complete.antt =====
-- packages/deck/src/proofs.ts: proofs that are made are accepted.
use tablefolk.Base.{
  ℕ, ◌<◌, ◌≡◌, refl, sym, ap, ◌∙◌, subst, ◌%◌, Result, ok, err, ensure, arith, Bool-cases, true,
  false, ◌==◌, inl, inr, >>=-eq-ok, >>-eq-ok, length,
}
use native.Mathlib.Nat.{mod-lt}
use tablefolk.Protocol.Value.{Value}
use tablefolk.Protocol.Hashes.{DomainPurpose, proof_of_possession}
use tablefolk.Protocol.Hashes
use tablefolk.Protocol.Challenges.{
  ChallengeError, bad_digest, ProofContext, WideHash, proof_challenge_input, reduce_wide,
  proof_challenge_scalar,
}
use tablefolk.Deck.Curve.{Curve, IsCurve, multiply}
use tablefolk.Deck.Curve.Multiples.{answer-multiply, multiply-multiple}
use tablefolk.Deck.Elgamal.{decryption_share}
use tablefolk.Deck.Proofs.{
  KeyShare, ProvenShare, require_non_zero_scalar, require_position, challenged, share_point,
  key_proof_challenge, decryption_proof_challenge, create_game_key_share, verify_game_key_share,
  create_proven_share, verify_proven_share,
}

challenged-ok :
    (r : Result ChallengeError ℕ) (c : ℕ) → challenged r ≡ ok c → (d : ℕ) × (r ≡ ok d) × (d ≡ c)
challenged-ok (ok d) c h = (d, refl, cc h)
challenged-ok (err e) c h = cc

-- A challenge is below the order.
challenge-lt :
    (hash : WideHash) (purpose : DomainPurpose) (context : ProofContext) (v : Value) (c : ℕ)
    → 0 < hash.order
    → challenged (proof_challenge_scalar hash purpose context v) ≡ ok c
    → c < hash.order
unfolding proof_challenge_scalar reduce_wide
challenge-lt hash purpose context v c positive given =
    let (d, scalar, same) : (d : ℕ) × (proof_challenge_scalar hash purpose context v ≡ ok d)
        × (d ≡ c) =
      challenged-ok (proof_challenge_scalar hash purpose context v) c given in
    let (input, i, reduced) = >>=-eq-ok (proof_challenge_input hash purpose context v) _ scalar in
    let (sized, last) = >>-eq-ok (ensure (length (hash.sha512 input) == 64) bad_digest) _ reduced in
    let d_is : hash.number_of (hash.sha512 input) % hash.order ≡ d = cc last in
    subst (λ e. e < hash.order) (d_is ∙ same) (mod-lt (hash.number_of (hash.sha512 input)) positive)

-- The key of a secret is not the neutral point.
key_point :
    (curve : Curve) (x : ℕ)
    → IsCurve curve
    → x < curve.order
    → require_non_zero_scalar x ≡ ok tt
    → curve.is_zero (multiply curve curve.base x) ≡ false
key_point curve x h low fine = elim (Bool-cases (curve.is_zero (multiply curve curve.base x))) [
  | inr point ↦ point
  | inl zero_point ↦
      let positive : 0 < x = ground arith in
      let neutral = (h.is_zero_iff (multiply curve curve.base x)).0 zero_point in
      absurd (
        h.base_multiple x positive low (sym (multiply-multiple curve h curve.base x low) ∙ neutral))
]

-- Scalars of the curve.
challenge-low :
    (curve : Curve) (hash : WideHash) (purpose : DomainPurpose) (context : ProofContext) (v : Value)
    (c : ℕ)
    → IsCurve curve
    → hash.order ≡ curve.order
    → challenged (proof_challenge_scalar hash purpose context v) ≡ ok c
    → c < curve.order
challenge-low curve hash purpose context v c h same given =
    subst (λ o. c < o) same
      (challenge-lt hash purpose context v c (subst (λ o. 0 < o) (sym same) h.order_positive) given)

module _ (curve : Curve) (hash : WideHash) where
  -- The share that the holder of a secret makes is accepted, with any nonce and in any context in
  -- which it can be made.
  pub verify-create_game_key_share :
      (context : ProofContext) (secret_key nonce : ℕ) (share : KeyShare curve hash)
      → IsCurve curve
      → hash.order ≡ curve.order
      → secret_key < curve.order
      → nonce < curve.order
      → create_game_key_share curve hash context secret_key nonce ≡ ok share
      → verify_game_key_share curve hash context share ≡ true
  unfolding create_game_key_share verify_game_key_share key_proof_challenge
  verify-create_game_key_share context x k share h same_order x_low k_low made =
      let p = multiply curve curve.base x in
      let r = multiply curve curve.base k in
      let (fine, m1) = >>-eq-ok (require_non_zero_scalar x) _ made in
      let (c, challenge, m2) = >>=-eq-ok (key_proof_challenge curve hash context p r) _ m1 in
      let z = curve.add_scalars k (curve.multiply_scalars c x) in
      let is : record { h = p; pop = record { r = r; z = z } } ≡ share = cc m2 in
      let c_low = challenge-low curve hash proof_of_possession context _ c h same_order challenge in
      let equation = answer-multiply curve h curve.base k c x k_low c_low x_low in
      let equal =
        (h.equals_iff (multiply curve curve.base z) (curve.add r (multiply curve p c))).1
          equation in
      let point = key_point curve x h x_low fine in
      subst (λ s. verify_game_key_share curve hash context s ≡ true) is
        (rw (point, challenge, equal) refl)

  share_point_lem :
      (x : ℕ) (card_a t : curve.Point)
      → share_point curve hash x card_a ≡ ok t
      → t ≡ multiply curve card_a x
  unfolding decryption_share
  share_point_lem x card_a t h = elim (Bool-cases (x == 0)) [
    | inl none ↦ ground arith
    | inr some_x ↦ ground arith
  ]

  -- The share of a card that the holder of a secret makes is accepted under the holder's key, for each
  -- position below 128 and in any context in which it can be made.
  pub verify-create_proven_share :
      (context : ProofContext) (position secret_key : ℕ) (card_a : curve.Point) (nonce : ℕ)
      (share : ProvenShare curve hash)
      → IsCurve curve
      → hash.order ≡ curve.order
      → secret_key < curve.order
      → nonce < curve.order
      → create_proven_share curve hash context position secret_key card_a nonce ≡ ok share
      → verify_proven_share curve hash context position
          (multiply curve curve.base secret_key)
          card_a
          share
        ≡ true
  unfolding create_proven_share verify_proven_share decryption_proof_challenge
  verify-create_proven_share context position x card_a k share h same_order x_low k_low made =
      let p = multiply curve curve.base x in
      let r1 = multiply curve curve.base k in
      let r2 = multiply curve card_a k in
      let s = multiply curve card_a x in
      let (placed, m1) = >>-eq-ok (require_position position) _ made in
      let (fine, m2) = >>-eq-ok (require_non_zero_scalar x) _ m1 in
      let (t, shared, m3) = >>=-eq-ok (share_point curve hash x card_a) _ m2 in
      let t_is : t ≡ s = share_point_lem x card_a t shared in
      let (c, challenge, m4) =
        >>=-eq-ok (decryption_proof_challenge curve hash context position p card_a t r1 r2) _ m3 in
      let z = curve.add_scalars k (curve.multiply_scalars c x) in
      let is : record { s = t; proof = record { r1 = r1; r2 = r2; z = z } } ≡ share = cc m4 in
      let c_low =
        challenge-low curve hash Hashes.decryption_share context _ c h same_order challenge in
      let first =
        (h.equals_iff (multiply curve curve.base z) (curve.add r1 (multiply curve p c))).1
          (answer-multiply curve h curve.base k c x k_low c_low x_low) in
      let second = (h.equals_iff (multiply curve card_a z) (curve.add r2 (multiply curve t c))).1 (
        answer-multiply curve h card_a k c x k_low c_low x_low
        ∙ ap (λ q. curve.add r2 (multiply curve q c)) (sym t_is)) in
      let point = key_point curve x h x_low fine in
      subst (λ s. verify_proven_share curve hash context position p card_a s ≡ true) is
        (rw (placed, point, challenge, first, second) refl)
