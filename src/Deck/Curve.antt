-- ===== src/Deck/Curve.antt =====
-- packages/crypto/src/ristretto.ts: points and scalars. The curve is a third-party library's, a
-- parameter; a scalar is a number below its order.
pub mod Multiples
use tablefolk.Base.{
  ℕ, zero, suc, ◌+◌, ◌*◌, ◌%◌, ◌<◌, ◌≡◌, ◌≢◌, ◌↔◌, Bool, true, List, ◌==◌, if◌then◌else◌,
}
use tablefolk.Session.Bytes.{Bytes}

-- What is called of `ristretto255.Point` and its field of scalars.
pub record Curve : Type 1 where
  pub Point : Type 0
  pub base : Point
  pub neutral : Point
  pub add : Point → Point → Point
  pub subtract : Point → Point → Point
  pub times : Point → ℕ → Point
  pub equals : Point → Point → Bool
  pub is_zero : Point → Bool
  pub to_bytes : Point → Bytes
  pub order : ℕ
  pub add_scalars : ℕ → ℕ → ℕ
  pub multiply_scalars : ℕ → ℕ → ℕ

-- `multiply`.
abbrev pub multiply : (curve : Curve) → curve.Point → ℕ → curve.Point
multiply curve p scalar = if scalar == 0 then curve.neutral else curve.times p scalar

-- The sum of `n` copies of a point.
unfoldable pub multiple : (curve : Curve) → curve.Point → ℕ → curve.Point
multiple curve p zero = curve.neutral
multiple curve p (suc n) = curve.add p (multiple curve p n)

-- The points are a commutative group of the order, and the scalars are numbers modulo it.
pub record IsCurve (curve : Curve) : Type 0 where
  pub add_assoc : (p q r : curve.Point) → curve.add (curve.add p q) r ≡ curve.add p (curve.add q r)
  pub add_comm : (p q : curve.Point) → curve.add p q ≡ curve.add q p
  pub neutral_add : (p : curve.Point) → curve.add curve.neutral p ≡ p
  pub subtract_add : (p q : curve.Point) → curve.subtract (curve.add p q) q ≡ p
  pub times_multiple :
      (p : curve.Point) (n : ℕ) → 0 < n → n < curve.order → curve.times p n ≡ multiple curve p n
  pub order_multiple : (p : curve.Point) → multiple curve p curve.order ≡ curve.neutral
  pub base_multiple :
      (n : ℕ) → 0 < n → n < curve.order → multiple curve curve.base n ≢ curve.neutral
  pub order_positive : 0 < curve.order
  pub add_scalars_mod : (a b : ℕ) → curve.add_scalars a b ≡ (a + b) % curve.order
  pub multiply_scalars_mod : (a b : ℕ) → curve.multiply_scalars a b ≡ (a * b) % curve.order
  pub equals_iff : (p q : curve.Point) → (curve.equals p q ≡ true) ↔ (p ≡ q)
  pub is_zero_iff : (p : curve.Point) → (curve.is_zero p ≡ true) ↔ (p ≡ curve.neutral)
