-- ===== src/Engine/Beacon/Sound.antt =====
-- packages/engine/src/randomness-beacon.ts: what holds of every beacon.
use tablefolk.Base.{
  ℕ, suc, ◌+◌, ◌≤◌, ◌<◌, ◌≡◌, refl, subst, none, some, ok, arith, length, set, inl, inr, ◌==◌,
  if◌then◌else◌, ◌⊎◌, ◌↔◌,
}
use tablefolk.Session.Bytes.{Bytes, IsBytes}
use tablefolk.Protocol.Value.{max_safe_integer}
use tablefolk.Protocol.Hashes.{Hashing, beacon_commitment}
use tablefolk.Engine.Beacon.{
  BeaconState, committing, revealing, complete, BeaconResult, accepted, Beacon, place,
  count_missing, joined_secrets,
}

pub State-cases : (s : BeaconState) → (s ≡ committing) ⊎ ((s ≡ revealing) ⊎ (s ≡ complete))
State-cases committing = inl refl
State-cases revealing = inr (inl refl)
State-cases complete = inr (inr refl)

abbrev pub after_commitment : Beacon → BeaconState
after_commitment b = if count_missing b.commitments == 1 then revealing else committing

abbrev pub after_reveal : Beacon → BeaconState
after_reveal b = if count_missing b.reveals == 1 then complete else revealing

-- The states that an accepted message leads to.
abbrev pub Moves : BeaconState → BeaconState → Type 0
Moves committing complete = ⊥
Moves committing next = Unit
Moves revealing committing = ⊥
Moves revealing next = Unit
Moves complete next = ⊥

module _ (hashing : Hashing) where
  -- What the state tells of the places and the seed.
  abbrev pub Stage : Beacon → BeaconState → Type 0
  Stage b committing =
      (0 < count_missing b.commitments)
      × (count_missing b.reveals ≡ length b.reveals)
      × (b.seed ≡ none)
  Stage b revealing =
      (count_missing b.commitments ≡ 0) × (0 < count_missing b.reveals) × (b.seed ≡ none)
  Stage b complete =
      (count_missing b.commitments ≡ 0)
      × (count_missing b.reveals ≡ 0)
      × (b.seed ≡ some (hashing.sha256 (joined_secrets b.reveals)))

  -- A secret that is in opens the commitment of its seat.
  abbrev pub Opens : Beacon → ℕ → Bytes → Type 0
  Opens b seat secret =
      (c : Bytes) × (place b.commitments seat ≡ some c)
      × (beacon_commitment hashing b.game_id b.round seat secret ≡ ok c)

  pub record IsBeacon (b : Beacon) : Type 0 where
    pub table : (3 ≤ b.seat_count) × (b.seat_count ≤ 8)
    pub in_round : b.round ≤ max_safe_integer
    pub commitment_places : length b.commitments ≡ b.seat_count
    pub reveal_places : length b.reveals ≡ b.seat_count
    pub stage : Stage b b.state
    pub of_bytes : (seat : ℕ) (c : Bytes) → place b.commitments seat ≡ some c → IsBytes c
    pub opened : (seat : ℕ) (s : Bytes) → place b.reveals seat ≡ some s → Opens b seat s

  -- The messages that a beacon waits for: each accepted one is one less, no other changes anything.
  abbrev pub work : Beacon → ℕ
  work b = count_missing b.commitments + count_missing b.reveals

  abbrev pub Counts : Beacon → Beacon → BeaconResult → Type 0
  Counts b next (accepted seat s) =
      (suc (work next) ≡ work b)
      × (next.state ≡ s)
      × (next.seat_count ≡ b.seat_count)
      × Moves b.state s
  Counts b next other = next ≡ b

  -- A beacon with one more commitment.
  abbrev pub committed : Beacon → ℕ → Bytes → Beacon
  committed b seat c = record b {
    commitments = set b.commitments seat (some c);
    state = if count_missing b.commitments == 1 then revealing else committing;
  }

  -- A beacon with one more secret.
  abbrev pub revealed : Beacon → ℕ → Bytes → Beacon
  revealed b seat s =
      let last = count_missing b.reveals == 1 in
      let all = set b.reveals seat (some s) in
      record b {
        reveals = all;
        state = after_reveal b;
        seed = if last then some (hashing.sha256 (joined_secrets all)) else b.seed;
      }

  -- The state tells whether anything is awaited.
  pub complete_iff : (b : Beacon) → IsBeacon b → (b.state ≡ complete) ↔ (work b ≡ 0)
  complete_iff b h = (
    λ done. let stage = subst (Stage b) done h.stage in omega arith,
    λ none_left. elim (State-cases b.state) [
      | inl early ↦ let stage = subst (Stage b) early h.stage in absurd (omega arith)
      | inr (inl now) ↦ let stage = subst (Stage b) now h.stage in absurd (omega arith)
      | inr (inr done) ↦ done
    ],
  )
