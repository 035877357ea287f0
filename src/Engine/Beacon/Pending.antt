-- ===== src/Engine/Beacon/Pending.antt =====
-- packages/engine/src/randomness-beacon.ts: the seats that a beacon waits for.
use tablefolk.Base.{
  ℕ, ◌<◌, ◌≡◌, ◌↔◌, refl, ap, subst, List, [], ◌∷◌, none, some, ok, arith, length, ◌⊎◌, inl, inr,
  In,
}
use tablefolk.Session.Bytes.{Bytes}
use tablefolk.Protocol.Hashes.{Hashing, beacon_commitment}
use tablefolk.Protocol.Hashes.Binding.{IsHashing}
use tablefolk.Engine.Beacon.{
  BeaconState, committing, revealing, complete, accepted, Beacon, place, awaited, pending_senders,
  commitment_at, accept_commitment, accept_reveal,
}
use tablefolk.Engine.Beacon.Places.{missing_from-In, length-missing_from, count_missing_zero}
use tablefolk.Engine.Beacon.Accepts.{accept_reveal_match}
use tablefolk.Engine.Beacon.Sound.{
  IsBeacon, committed, revealed, after_reveal, after_commitment, State-cases, Stage,
}

module _ (hashing : Hashing) where
  -- The first commitments of a seat and the secrets that open them are what is awaited.
  abbrev pub TakesCommitment : Beacon → ℕ → Type 0
  TakesCommitment b seat =
      (c : Bytes)
      → length c ≡ 32
      → (next : Beacon) × (s : BeaconState) × (accept_commitment b seat c
          ≡ ok (next, accepted seat s))

  abbrev pub TakesSecret : Beacon → ℕ → Type 0
  TakesSecret b seat =
      (c secret_bytes : Bytes)
      → length secret_bytes ≡ 32
      → commitment_at b seat ≡ ok (some c)
      → beacon_commitment hashing b.game_id b.round seat secret_bytes ≡ ok c
      → (next : Beacon) × (s : BeaconState) × (accept_reveal hashing b seat secret_bytes
          ≡ ok (next, accepted seat s))

  takes_commitment :
      (b : Beacon) (seat : ℕ)
      → seat < b.seat_count
      → b.state ≡ committing
      → place b.commitments seat ≡ none
      → TakesCommitment b seat
  unfolding accept_commitment
  takes_commitment b seat low now empty c size =
      (committed hashing b seat c, after_commitment b, ground arith)

  takes_secret :
      (b : Beacon) (seat : ℕ)
      → IsHashing hashing
      → IsBeacon hashing b
      → seat < b.seat_count
      → b.state ≡ revealing
      → place b.reveals seat ≡ none
      → TakesSecret b seat
  unfolding commitment_at
  takes_secret b seat hash h low now empty c s size given opens = (
    revealed hashing b seat s,
    after_reveal b,
    accept_reveal_match hashing b h seat low hash s c size empty now (ground arith) opens,
  )

  -- A seat that is awaited has an empty place.
  pending-place :
      (b : Beacon) (seat : ℕ)
      → In seat (pending_senders b)
      → (seat < length (awaited b)) × (place (awaited b) seat ≡ none)
  unfolding pending_senders
  pending-place b seat i =
      let (j, same, low, empty) = missing_from-In 0 (awaited b) seat i in
      let j_seat : j ≡ seat = omega arith in
      (omega arith, subst (λ k. place (awaited b) k ≡ none) j_seat empty)

  -- Of a seat that is awaited, a committing beacon takes any commitment of 32 bytes, and a revealing
  -- one any secret of 32 bytes that opens the seat's commitment; a complete beacon awaits no seat.
  pub pending_senders-progress :
      (b : Beacon) (seat : ℕ)
      → IsHashing hashing
      → IsBeacon hashing b
      → In seat (pending_senders b)
      → ((b.state ≡ committing) × TakesCommitment b seat)
        ⊎ ((b.state ≡ revealing) × TakesSecret b seat)
  pending_senders-progress b seat hash h i =
      let (low, empty) = pending-place b seat i in
      elim (State-cases b.state) [
        | inl now ↦
            inl (
              now,
              takes_commitment b seat (ground (arith, h.commitment_places)) now (ground arith),
            )
        | inr (inl now) ↦
            inr
              (now, takes_secret b seat hash h (ground (arith, h.reveal_places)) now (ground arith))
        | inr (inr now) ↦
            let stage = subst (Stage hashing b) now h.stage in
            let (s, taken) = count_missing_zero b.reveals seat (ground arith) stage.1 in
            absurd (ground arith)
      ]

  length_zero : (xs : List ℕ) → length xs ≡ 0 → xs ≡ []
  length_zero [] e = refl
  length_zero (x ∷ xs) e = absurd (omega arith)

  -- A beacon awaits no seat exactly if it is complete.
  pending_senders_empty_iff :
      (b : Beacon) → IsBeacon hashing b → (pending_senders b ≡ []) ↔ (b.state ≡ complete)
  unfolding pending_senders
  pending_senders_empty_iff b h =
      let count = length-missing_from 0 (awaited b) in
      elim (State-cases b.state) [
        | inl now ↦
            let stage = subst (Stage hashing b) now h.stage in
            (λ e. absurd (ground (arith, ap length e)), λ d. ground arith)
        | inr (inl now) ↦
            let stage = subst (Stage hashing b) now h.stage in
            (λ e. absurd (ground (arith, ap length e)), λ d. ground arith)
        | inr (inr now) ↦
            let stage = subst (Stage hashing b) now h.stage in
            (λ e. now, λ d. length_zero (pending_senders b) (ground arith))
      ]
