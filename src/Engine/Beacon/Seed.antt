-- ===== src/Engine/Beacon/Seed.antt =====
-- packages/engine/src/randomness-beacon.ts: the seed, as the commitments determine it.
use tablefolk.Base.{
  ℕ, suc, ◌≡◌, ◌≢◌, refl, ap, subst, List, [], ◌∷◌, Option, none, some, arith, length, ◌⊎◌, inl,
  inr,
}
use tablefolk.Session.Bytes.{Bytes}
use tablefolk.Protocol.Canonical.Unique.{Bytes-cases}
use tablefolk.Protocol.Hashes.{Hashing}
use tablefolk.Protocol.Hashes.Binding.{Collision, beacon_commitment_binds}
use tablefolk.Engine.Beacon.{complete, Beacon, place, count_missing}
use tablefolk.Engine.Beacon.Sound.{IsBeacon, Stage}

-- A seat whose values differ.
abbrev Differs : List (Option Bytes) → List (Option Bytes) → Type 0
Differs xs ys =
    (i : ℕ) × (s : Bytes) × (t : Bytes) × (place xs i ≡ some s) × (place ys i ≡ some t) × (s ≢ t)

same_or_Differs :
    (xs ys : List (Option Bytes))
    → length xs ≡ length ys
    → count_missing xs ≡ 0
    → count_missing ys ≡ 0
    → (xs ≡ ys) ⊎ Differs xs ys
same_or_Differs [] [] l m n = inl refl
same_or_Differs [] (y ∷ ys) l m n = absurd (omega arith)
same_or_Differs (x ∷ xs) [] l m n = absurd (omega arith)
same_or_Differs (none ∷ xs) (y ∷ ys) l m n = absurd (omega arith)
same_or_Differs (some s ∷ xs) (none ∷ ys) l m n = absurd (omega arith)
same_or_Differs (some s ∷ xs) (some t ∷ ys) l m n = elim (Bytes-cases s t) [
  | inr differ ↦ inr (0, s, t, refl, refl, differ)
  | inl same ↦ elim (same_or_Differs xs ys (omega arith) m n) [
    | inl rest ↦ inl (cc)
    | inr (i, a, b, p, q, d) ↦ inr (suc i, a, b, p, q, d)
  ]
]

-- Two beacons of one round that are complete with the same commitments have the same seed, or they
-- show two inputs of the hash that have one digest.
pub seed_is_bound :
    (hashing : Hashing) (b c : Beacon)
    → IsBeacon hashing b
    → IsBeacon hashing c
    → b.game_id ≡ c.game_id
    → b.round ≡ c.round
    → b.commitments ≡ c.commitments
    → b.state ≡ complete
    → c.state ≡ complete
    → (b.seed ≡ c.seed) ⊎ Collision hashing
seed_is_bound hashing b c h k game round commitments b_done c_done =
    let b_stage = subst (Stage hashing b) b_done h.stage in
    let c_stage = subst (Stage hashing c) c_done k.stage in
    elim (same_or_Differs b.reveals c.reveals
      (cc (
        h.reveal_places,
        h.commitment_places,
        k.reveal_places,
        k.commitment_places,
        ap length commitments,
      ))
      b_stage.1 c_stage.1) [
        | inl same ↦ inl (cc (b_stage.2, c_stage.2))
        | inr (i, s, t, p, q, differ) ↦
            let (d, d_at, d_opens) = h.opened i s p in
            let (e, e_at, e_opens) = k.opened i t q in
            inr (beacon_commitment_binds hashing b.game_id b.round i s t d d_opens (cc) differ)
      ]
