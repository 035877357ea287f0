-- ===== src/Frames/Reassembler/Table.antt =====
-- The maps of `FrameReassembler`, as association lists.
use tablefolk.Base.{
  ℕ, suc, ◌+◌, ◌≤◌, ◌≡◌, refl, subst, Bool-cases, inl, inr, List, [], ◌∷◌, none, some, arith,
  length, sum_by, All, ◌==◌,
}
use tablefolk.Frames.Reassembler.{lookup, insert, remove}

module _ {A : Type 0} (size : A → ℕ) where
  abbrev pub total : List (ℕ × A) → ℕ
  total = sum_by (λ p. size p.1)

  pub total-remove :
      (k : ℕ) (m : List (ℕ × A)) (v : A)
      → lookup k m ≡ some v
      → total m ≡ size v + total (remove k m)
  total-remove k [] v h = cc
  total-remove k ((j, w) ∷ m) v h = elim (Bool-cases (j == k)) [
    | inl here ↦ let same : w ≡ v = ground arith in rw (here, ← same) refl
    | inr later ↦ rw later (omega (arith, total-remove k m v (ground arith)))
  ]

  pub total-insert_new :
      (k : ℕ) (m : List (ℕ × A)) (v : A)
      → lookup k m ≡ none
      → total (insert k v m) ≡ total m + size v
  total-insert_new k [] v h = omega arith
  total-insert_new k ((j, w) ∷ m) v h = elim (Bool-cases (j == k)) [
    | inl here ↦ ground arith
    | inr later ↦ rw later (omega (arith, total-insert_new k m v (ground arith)))
  ]

  pub total-insert_old :
      (k : ℕ) (m : List (ℕ × A)) (v w : A)
      → lookup k m ≡ some w
      → total (insert k v m) + size w ≡ total m + size v
  total-insert_old k [] v w h = cc
  total-insert_old k ((j, x) ∷ m) v w h = elim (Bool-cases (j == k)) [
    | inl here ↦ let same : x ≡ w = ground arith in rw (here, ← same) (omega arith)
    | inr later ↦ rw later (omega (arith, total-insert_old k m v w (ground arith)))
  ]

module _ {A : Type 0} where
  pub length-remove : (k : ℕ) (m : List (ℕ × A)) → length (remove k m) ≤ length m
  length-remove k [] = omega arith
  length-remove k ((j, w) ∷ m) = elim (Bool-cases (j == k)) [
    | inl here ↦ rw here (omega arith)
    | inr later ↦ rw later (omega (arith, length-remove k m))
  ]

  pub length-insert : (k : ℕ) (m : List (ℕ × A)) (v : A) → length (insert k v m) ≤ suc (length m)
  length-insert k [] v = omega arith
  length-insert k ((j, w) ∷ m) v = elim (Bool-cases (j == k)) [
    | inl here ↦ rw here (omega arith)
    | inr later ↦ rw later (omega (arith, length-insert k m v))
  ]

  pub length-insert_old :
      (k : ℕ) (m : List (ℕ × A)) (v w : A) → lookup k m ≡ some w → length (insert k v m) ≡ length m
  length-insert_old k [] v w h = cc
  length-insert_old k ((j, x) ∷ m) v w h = elim (Bool-cases (j == k)) [
    | inl here ↦ rw here refl
    | inr later ↦ rw later (omega (arith, length-insert_old k m v w (ground arith)))
  ]

  pub lookup-insert : (k : ℕ) (m : List (ℕ × A)) (v : A) → lookup k (insert k v m) ≡ some v
  lookup-insert k [] v = ground arith
  lookup-insert k ((j, w) ∷ m) v = ground (arith, lookup-insert k m v)

-- A property of every value of a map.
module _ {A : Type 0} (P : A → Type 0) where
  pub All-remove : (k : ℕ) (m : List (ℕ × A)) → All (λ p. P p.1) m → All (λ p. P p.1) (remove k m)
  All-remove k [] h = tt
  All-remove k ((j, w) ∷ m) h = elim (Bool-cases (j == k)) [
    | inl here ↦ rw here h.1
    | inr later ↦ rw later (h.0, All-remove k m h.1)
  ]

  pub All-insert :
      (k : ℕ) (m : List (ℕ × A)) (v : A)
      → All (λ p. P p.1) m
      → P v
      → All (λ p. P p.1) (insert k v m)
  All-insert k [] v h p = (p, tt)
  All-insert k ((j, w) ∷ m) v h p = elim (Bool-cases (j == k)) [
    | inl here ↦ rw here (p, h.1)
    | inr later ↦ rw later (h.0, All-insert k m v h.1 p)
  ]

  pub All-lookup :
      (k : ℕ) (m : List (ℕ × A)) (v : A) → All (λ p. P p.1) m → lookup k m ≡ some v → P v
  All-lookup k [] v h e = cc
  All-lookup k ((j, w) ∷ m) v h e = elim (Bool-cases (j == k)) [
    | inl here ↦ subst P (ground arith) h.0
    | inr later ↦ All-lookup k m v h.1 (ground arith)
  ]
