-- ===== src/Engine/Beacon/Places.antt =====
-- packages/engine/src/randomness-beacon.ts: the places of the seats, and how many are empty.
use tablefolk.Base.{
  ℕ, zero, suc, ◌+◌, ◌≤◌, ◌<◌, ◌≡◌, ◌≢◌, refl, ap, List, [], ◌∷◌, Option, none, some, arith, length,
  set, replicate, In, inl, inr, subst,
}
use tablefolk.Engine.Beacon.{place, count_missing, missing_from}

module _ {ℓ} {A : Type ℓ} where
  pub place-set_self :
      (xs : List (Option A)) (i : ℕ) (v : A) → i < length xs → place (set xs i (some v)) i ≡ some v
  place-set_self [] i v h = absurd (omega arith)
  place-set_self (x ∷ xs) zero v h = refl
  place-set_self (x ∷ xs) (suc i) v h = place-set_self xs i v (omega arith)

  pub place-set_ne :
      (xs : List (Option A)) (i j : ℕ) (v : A) → i ≢ j → place (set xs i (some v)) j ≡ place xs j
  place-set_ne [] i j v h = refl
  place-set_ne (x ∷ xs) zero zero v h = absurd (h refl)
  place-set_ne (x ∷ xs) zero (suc j) v h = refl
  place-set_ne (x ∷ xs) (suc i) zero v h = refl
  place-set_ne (x ∷ xs) (suc i) (suc j) v h = place-set_ne xs i j v (λ e. h (ap suc e))

  pub count_missing-set :
      (xs : List (Option A)) (i : ℕ) (v : A)
      → i < length xs
      → place xs i ≡ none
      → suc (count_missing (set xs i (some v))) ≡ count_missing xs
  count_missing-set [] i v h e = absurd (omega arith)
  count_missing-set (none ∷ xs) zero v h e = refl
  count_missing-set (some b ∷ xs) zero v h e = cc
  count_missing-set (none ∷ xs) (suc i) v h e = ap suc (count_missing-set xs i v (omega arith) e)
  count_missing-set (some b ∷ xs) (suc i) v h e = count_missing-set xs i v (omega arith) e

  pub count_missing_zero :
      (xs : List (Option A)) (i : ℕ)
      → i < length xs
      → count_missing xs ≡ 0
      → (v : A) × (place xs i ≡ some v)
  count_missing_zero [] i h e = absurd (omega arith)
  count_missing_zero (none ∷ xs) i h e = absurd (omega arith)
  count_missing_zero (some b ∷ xs) zero h e = (b, refl)
  count_missing_zero (some b ∷ xs) (suc i) h e = count_missing_zero xs i (omega arith) e

  count_missing_le : (xs : List (Option A)) → count_missing xs ≤ length xs
  count_missing_le [] = omega arith
  count_missing_le (none ∷ xs) = omega (arith, count_missing_le xs)
  count_missing_le (some b ∷ xs) = omega (arith, count_missing_le xs)

  pub count_missing_all :
      (xs : List (Option A)) (i : ℕ) → count_missing xs ≡ length xs → place xs i ≡ none
  count_missing_all [] i e = refl
  count_missing_all (none ∷ xs) zero e = refl
  count_missing_all (none ∷ xs) (suc i) e = count_missing_all xs i (omega arith)
  count_missing_all (some b ∷ xs) i e = absurd (omega (arith, count_missing_le xs))

  pub place-replicate : (n i : ℕ) → place (replicate {A = Option A} n none) i ≡ none
  place-replicate zero i = refl
  place-replicate (suc n) zero = refl
  place-replicate (suc n) (suc i) = place-replicate n i

  -- The empty places are those listed.
  pub missing_from-In :
      (n : ℕ) (xs : List (Option A)) (seat : ℕ)
      → In seat (missing_from n xs)
      → (i : ℕ) × (seat ≡ n + i) × (i < length xs) × (place xs i ≡ none)
  missing_from-In n [] seat h = absurd h
  missing_from-In n (none ∷ xs) seat (inl e) = (0, omega (arith, e), omega arith, refl)
  missing_from-In n (none ∷ xs) seat (inr h) =
      let (i, e, l, p) = missing_from-In (suc n) xs seat h in (suc i, omega arith, omega arith, p)
  missing_from-In n (some b ∷ xs) seat h =
      let (i, e, l, p) = missing_from-In (suc n) xs seat h in (suc i, omega arith, omega arith, p)

  pub In-missing_from :
      (n : ℕ) (xs : List (Option A)) (i : ℕ)
      → i < length xs
      → place xs i ≡ none
      → In (n + i) (missing_from n xs)
  In-missing_from n [] i h p = absurd (omega arith)
  In-missing_from n (none ∷ xs) zero h p = inl (omega arith)
  In-missing_from n (none ∷ xs) (suc i) h p = inr (
      subst (λ s. In s (missing_from (suc n) xs)) (omega arith)
        (In-missing_from (suc n) xs i (omega arith) p))
  In-missing_from n (some b ∷ xs) zero h p = cc
  In-missing_from n (some b ∷ xs) (suc i) h p =
      subst (λ s. In s (missing_from (suc n) xs)) (omega arith)
        (In-missing_from (suc n) xs i (omega arith) p)

  pub length-missing_from :
      (n : ℕ) (xs : List (Option A)) → length (missing_from n xs) ≡ count_missing xs
  length-missing_from n [] = refl
  length-missing_from n (none ∷ xs) = ap suc (length-missing_from (suc n) xs)
  length-missing_from n (some b ∷ xs) = length-missing_from (suc n) xs

module _ {ℓ} (A : Type ℓ) where
  pub count_missing-replicate : (n : ℕ) → count_missing (replicate {A = Option A} n none) ≡ n
  count_missing-replicate zero = refl
  count_missing-replicate (suc n) = ap suc (count_missing-replicate n)

  pub length-replicate : (n : ℕ) → length (replicate {A = Option A} n none) ≡ n
  length-replicate zero = refl
  length-replicate (suc n) = ap suc (length-replicate n)
