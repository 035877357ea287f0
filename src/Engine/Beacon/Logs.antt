-- ===== src/Engine/Beacon/Logs.antt =====
-- packages/engine/src/randomness-beacon.ts: which messages a beacon took, and what it holds of them.
use mathlib.Core.List.{append-nil}
use tablefolk.Base.{
  ℕ, suc, ◌<◌, ◌≡◌, refl, sym, ap, subst, List, [], ◌∷◌, ◌++◌, Option, none, some, ok, arith,
  length, set, Option-cases, Bool-cases, inl, inr, >>=-eq-ok, ok-injective, ◌==◌, if◌then◌else◌,
}
use tablefolk.Session.Bytes.{Bytes}
use tablefolk.Protocol.Hashes.{Hashing}
use tablefolk.Engine.Beacon.{
  BeaconState, committing, revealing, complete, BeaconResult, duplicate, rejected, accepted, Beacon,
  place, count_missing, classify_commitment, record_commitment, accept_commitment, classify_reveal,
  record_reveal, with_seed, accept_reveal,
}
use tablefolk.Engine.Beacon.Places.{place-set_self, place-set_ne}

-- A message that a beacon is given.
pub data Message : Type 0 where
  commitment : (seat : ℕ) → Bytes → Message
  secret : (seat : ℕ) → Bytes → Message

-- The commitments and the secrets of a seat among the messages, in their order.
abbrev pub commitments_of : ℕ → List Message → List Bytes
commitments_of seat [] = []
commitments_of seat (commitment s c ∷ messages) =
    let rest = commitments_of seat messages in if s == seat then c ∷ rest else rest
commitments_of seat (secret s c ∷ messages) = commitments_of seat messages

abbrev pub secrets_of : ℕ → List Message → List Bytes
secrets_of seat [] = []
secrets_of seat (commitment s c ∷ messages) = secrets_of seat messages
secrets_of seat (secret s c ∷ messages) =
    let rest = secrets_of seat messages in if s == seat then c ∷ rest else rest

-- What a place holds: nothing or one message.
abbrev pub held : Option Bytes → List Bytes
held none = []
held (some b) = b ∷ []

pub commitments_of-append :
    (seat : ℕ) (l m : List Message)
    → commitments_of seat (l ++ m) ≡ commitments_of seat l ++ commitments_of seat m
commitments_of-append seat [] m = refl
commitments_of-append seat (commitment s c ∷ l) m = elim (Bool-cases (s == seat)) [
  | inl own ↦ rw own (ap (◌∷◌ c) (commitments_of-append seat l m))
  | inr other ↦ rw other (commitments_of-append seat l m)
]
commitments_of-append seat (secret s c ∷ l) m = commitments_of-append seat l m

pub secrets_of-append :
    (seat : ℕ) (l m : List Message)
    → secrets_of seat (l ++ m) ≡ secrets_of seat l ++ secrets_of seat m
secrets_of-append seat [] m = refl
secrets_of-append seat (commitment s c ∷ l) m = secrets_of-append seat l m
secrets_of-append seat (secret s c ∷ l) m = elim (Bool-cases (s == seat)) [
  | inl own ↦ rw own (ap (◌∷◌ c) (secrets_of-append seat l m))
  | inr other ↦ rw other (secrets_of-append seat l m)
]

-- Every place holds one message when none is empty.
pub held_all :
    (xs : List (Option Bytes))
    → ((i : ℕ) → i < length xs → length (held (place xs i)) ≡ 1)
    → count_missing xs ≡ 0
held_all [] h = refl
held_all (none ∷ xs) h = absurd (omega (arith, h 0 (omega arith)))
held_all (some b ∷ xs) h = held_all xs (λ i low. h (suc i) (omega arith))

-- A commitment that is accepted goes into the empty place of its seat, and nothing else is stored.
pub taken_commitment :
    (b next : Beacon) (seat s : ℕ) (c : Bytes) (t : BeaconState)
    → accept_commitment b seat c ≡ ok (next, accepted s t)
    → (place b.commitments seat ≡ none)
      × (next.commitments ≡ set b.commitments seat (some c))
      × (next.reveals ≡ b.reveals)
unfolding accept_commitment classify_commitment
taken_commitment b next seat s c t h =
    let (r, classified, recorded) = >>=-eq-ok (classify_commitment b seat c) _ h in
    by_result r classified
      (ok-injective (record_commitment b seat c r) (next, accepted s t) recorded)
  where
    by_result :
        (r : BeaconResult)
        → classify_commitment b seat c ≡ ok r
        → record_commitment b seat c r ≡ (next, accepted s t)
        → (place b.commitments seat ≡ none)
          × (next.commitments ≡ set b.commitments seat (some c))
          × (next.reveals ≡ b.reveals)
    by_result (duplicate i u) e k = cc
    by_result (rejected i u reason) e k = cc
    by_result (accepted i u) e k = (
      elim (Option-cases (place b.commitments seat)) [
        | inl empty ↦ empty
        | inr (existing, there) ↦ ground arith
      ],
      sym (ap (λ (p : Beacon × BeaconResult). p.0.commitments) k),
      sym (ap (λ (p : Beacon × BeaconResult). p.0.reveals) k),
    )

module _ (hashing : Hashing) where
  with_seed-keeps :
      (b after : Beacon)
      → with_seed hashing b ≡ ok after
      → (after.commitments ≡ b.commitments) × (after.reveals ≡ b.reveals)
  with_seed-keeps b after h = by_state b.state refl
    where
      by_state :
          (t : BeaconState)
          → b.state ≡ t
          → (after.commitments ≡ b.commitments) × (after.reveals ≡ b.reveals)
      by_state committing e = ground arith
      by_state revealing e = ground arith
      by_state complete e = ground arith

  -- A secret that is accepted goes into the empty place of its seat, and nothing else is stored.
  pub taken_reveal :
      (b next : Beacon) (seat s : ℕ) (c : Bytes) (t : BeaconState)
      → accept_reveal hashing b seat c ≡ ok (next, accepted s t)
      → (place b.reveals seat ≡ none)
        × (next.reveals ≡ set b.reveals seat (some c))
        × (next.commitments ≡ b.commitments)
  unfolding accept_reveal classify_reveal
  taken_reveal b next seat s c t h =
      let (r, classified, recorded) = >>=-eq-ok (classify_reveal hashing b seat c) _ h in
      by_result r classified recorded
    where
      by_result :
          (r : BeaconResult)
          → classify_reveal hashing b seat c ≡ ok r
          → record_reveal hashing b seat c r ≡ ok (next, accepted s t)
          → (place b.reveals seat ≡ none)
            × (next.reveals ≡ set b.reveals seat (some c))
            × (next.commitments ≡ b.commitments)
      by_result (duplicate i u) e k = cc
      by_result (rejected i u reason) e k = cc
      by_result (accepted i u) e k =
          let stored : Beacon = record b { reveals = set b.reveals seat (some c); state = u } in
          let (after, seeded, given) = >>=-eq-ok (with_seed hashing stored) _ k in
          let (kept, put) = with_seed-keeps stored after seeded in
          let same : after ≡ next =
            ap (λ (p : Beacon × BeaconResult). p.0)
              (ok-injective (after, accepted i u) (next, accepted s t) given) in
          (
            elim (Option-cases (place b.reveals seat)) [
              | inl empty ↦ empty
              | inr (existing, there) ↦ ground arith
            ],
            subst (λ x. x.reveals ≡ set b.reveals seat (some c)) same put,
            subst (λ x. x.commitments ≡ b.commitments) same kept,
          )

-- A place that took a message holds it, and the others hold what they held.
pub held-set :
    (xs : List (Option Bytes)) (i : ℕ) (v : Bytes) (seat : ℕ)
    → i < length xs
    → place xs i ≡ none
    → held (place (set xs i (some v)) seat)
      ≡ held (place xs seat) ++ (if i == seat then v ∷ [] else [])
held-set xs i v seat low empty = elim (Bool-cases (i == seat)) [
  | inl same ↦
      let is : i ≡ seat = ground arith in
      let put = subst (λ j. place (set xs i (some v)) j ≡ some v) is (place-set_self xs i v low) in
      let was = subst (λ j. place xs j ≡ none) is empty in rw (same, put, was) refl
  | inr other ↦
      let kept = place-set_ne xs i seat v (ground arith) in
      rw (other, kept) (sym (append-nil (held (place xs seat))))
]
