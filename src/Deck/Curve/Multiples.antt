-- ===== src/Deck/Curve/Multiples.antt =====
-- packages/crypto/src/ristretto.ts: sums of copies of a point.
use tablefolk.Base.{
  ℕ, zero, suc, ◌+◌, ◌*◌, ◌/◌, ◌%◌, ◌<◌, ◌≡◌, refl, sym, ◌∙◌, ap, ap₂, subst, false, ◌==◌, arith,
}
use native.Mathlib.Omega.{div_any}
use native.Mathlib.Nat.{mul_comm, mod-lt}
use tablefolk.Deck.Curve.{Curve, IsCurve, multiply, multiple}

module _ (curve : Curve) (h : IsCurve curve) where
  -- A sum of four, its middle terms exchanged.
  pub exchange :
      (p q r s : curve.Point)
      → curve.add (curve.add p q) (curve.add r s) ≡ curve.add (curve.add p r) (curve.add q s)
  exchange p q r s =
      rw
        (
          h.add_assoc p q (curve.add r s),
          ← h.add_assoc q r s,
          h.add_comm q r,
          h.add_assoc r q s,
          ← h.add_assoc p r (curve.add q s),
        )
        refl

  pub multiple-add :
      (p : curve.Point) (m n : ℕ)
      → multiple curve p (m + n) ≡ curve.add (multiple curve p m) (multiple curve p n)
  unfolding multiple
  multiple-add p zero n =
      subst (λ k. multiple curve p k ≡ curve.add curve.neutral (multiple curve p n)) (omega arith)
        (sym (h.neutral_add (multiple curve p n)))
  multiple-add p (suc m) n =
      let shift : suc (m + n) ≡ suc m + n = omega arith in
      subst (λ k. multiple curve p k ≡ curve.add (multiple curve p (suc m)) (multiple curve p n))
        shift
        (ap (curve.add p) (multiple-add p m n)
          ∙ sym (h.add_assoc p (multiple curve p m) (multiple curve p n)))

  pub multiple-neutral : (n : ℕ) → multiple curve curve.neutral n ≡ curve.neutral
  unfolding multiple
  multiple-neutral zero = refl
  multiple-neutral (suc n) = h.neutral_add (multiple curve curve.neutral n) ∙ multiple-neutral n

  pub multiple-of_sum :
      (p q : curve.Point) (n : ℕ)
      → multiple curve (curve.add p q) n ≡ curve.add (multiple curve p n) (multiple curve q n)
  unfolding multiple
  multiple-of_sum p q zero = sym (h.neutral_add curve.neutral)
  multiple-of_sum p q (suc n) =
      ap (curve.add (curve.add p q)) (multiple-of_sum p q n)
      ∙ exchange p q (multiple curve p n) (multiple curve q n)

  pub multiple-multiple :
      (p : curve.Point) (m n : ℕ) → multiple curve (multiple curve p m) n ≡ multiple curve p (m * n)
  unfolding multiple
  multiple-multiple p m zero = let none : 0 ≡ m * 0 = omega arith in ap (multiple curve p) none
  multiple-multiple p m (suc n) =
      let shift : m + m * n ≡ m * suc n = ground arith in
      ap (curve.add (multiple curve p m)) (multiple-multiple p m n)
      ∙ sym (multiple-add p m (m * n))
      ∙ ap (multiple curve p) shift

  pub multiple-mod :
      (p : curve.Point) (n : ℕ) → multiple curve p (n % curve.order) ≡ multiple curve p n
  multiple-mod p n =
      let rest = n % curve.order in
      let whole = n / curve.order in
      let parts : curve.order * whole + rest ≡ n = div_any n curve.order in
      sym (
        ap (multiple curve p) (sym parts)
        ∙ multiple-add p (curve.order * whole) rest
        ∙ ap (λ q. curve.add q (multiple curve p rest))
            (sym (multiple-multiple p curve.order whole)
              ∙ ap (λ q. multiple curve q whole) (h.order_multiple p)
              ∙ multiple-neutral whole)
        ∙ h.neutral_add (multiple curve p rest))

  pub multiply-multiple :
      (p : curve.Point) (n : ℕ) → n < curve.order → multiply curve p n ≡ multiple curve p n
  unfolding multiple
  multiply-multiple p zero low = refl
  multiply-multiple p (suc n) low =
      let positive : (suc n == 0) ≡ false = ground arith in
      rw positive (h.times_multiple p (suc n) (omega arith) low)

  -- The two sides of the equation that the proofs of keys and of shares check: a nonce and a secret,
  -- by the answer to a challenge.
  pub answer-multiply :
      (p : curve.Point) (nonce challenge secret : ℕ)
      → nonce < curve.order
      → challenge < curve.order
      → secret < curve.order
      → multiply curve p (curve.add_scalars nonce (curve.multiply_scalars challenge secret))
        ≡ curve.add (multiply curve p nonce) (multiply curve (multiply curve p secret) challenge)
  answer-multiply p nonce challenge secret n c s =
      let q = curve.order in
      let product = challenge * secret in
      let total = nonce + product % q in
      let turned : product ≡ secret * challenge = mul_comm challenge secret in
      ap (multiply curve p) (
        h.add_scalars_mod nonce (curve.multiply_scalars challenge secret)
        ∙ ap (λ k. (nonce + k) % q) (h.multiply_scalars_mod challenge secret))
      ∙ multiply-multiple p (total % q) (mod-lt total h.order_positive)
      ∙ multiple-mod p total
      ∙ multiple-add p nonce (product % q)
      ∙ ap (curve.add (multiple curve p nonce)) (
          multiple-mod p product
          ∙ ap (multiple curve p) turned
          ∙ sym (multiple-multiple p secret challenge))
      ∙ sym (
          ap₂ curve.add (multiply-multiple p nonce n) (
            multiply-multiple (multiply curve p secret) challenge c
            ∙ ap (λ r. multiple curve r challenge) (multiply-multiple p secret s)))
