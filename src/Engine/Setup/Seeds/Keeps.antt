-- ===== src/Engine/Setup/Seeds/Keeps.antt =====
-- packages/engine/src/setup-coordinator.ts: what commitments and secrets make of a setup.
use tablefolk.Base.{
  ltb, ℕ, ◌<◌, ◌≡◌, refl, ◌∙◌, ap, true, none, some, Result, ok, ◌>>=◌, arith, length, Option-cases,
  inl, inr,
}
use tablefolk.Session.Bytes.{Bytes, IsBytes}
use tablefolk.Protocol.Hashes.{Hashing}
use tablefolk.Protocol.Hashes.Binding.{IsHashing}
use tablefolk.Protocol.Challenges.{WideHash}
use tablefolk.Deck.Curve.{Curve}
use tablefolk.Engine.Beacon.{
  Beacon, BeaconState, committing, revealing, complete, BeaconResult, BeaconError,
  classify_commitment, accept_commitment, classify_reveal, accept_reveal,
}
use tablefolk.Engine.Beacon.Accepts.{accept_commitment-IsBeacon, accept_reveal-IsBeacon}
use tablefolk.Engine.Setup.{
  SetupReason, no_beacon_reveal, SetupError, Setup, SetupState, keys, rand_commit, rand_reveal,
  setup_complete, setup_failed, SetupResult, setup_state_for, setup_state_of, map_beacon_result,
  beacon_step, setup_rejected, after_failure, no_beacon_commit,
}
use tablefolk.Engine.Setup.Sound.{IsSetup}
use tablefolk.Engine.Setup.Seeds.{
  unless_failed, classify_with, setup_accept_commitment, setup_accept_reveal,
}
use tablefolk.Engine.Setup.Seeds.Replies.{accept-classify_commitment, accept-classify_reveal}
use tablefolk.Engine.Setup.Seeds.Steps.{InStep, Recorded, in_step, record_with-IsSetup}

module _ (curve : Curve) (hash : WideHash) (hashing : Hashing) where
  -- A message with no beacon is refused, one way or the other.
  refused_in :
      (x y : SetupState) (seat : ℕ) (reason : SetupReason)
      → (why : SetupReason) × (unless_failed curve hash x
            (ok (setup_rejected seat y after_failure))
            (ok (setup_rejected seat y reason))
          ≡ ok (setup_rejected seat y why))
  refused_in keys y seat reason = (reason, refl)
  refused_in rand_commit y seat reason = (reason, refl)
  refused_in rand_reveal y seat reason = (reason, refl)
  refused_in setup_complete y seat reason = (reason, refl)
  refused_in setup_failed y seat reason = (after_failure, refl)

  refused_without :
      (s : Setup curve hash) (seat : ℕ) (reason : SetupReason)
      (ask : Beacon → Result BeaconError BeaconResult)
      → s.beacon ≡ none
      → (why : SetupReason) × (unless_failed curve hash s.state
            (ok (setup_rejected seat s.state after_failure))
            (classify_with curve hash s seat reason ask s.beacon)
          ≡ ok (setup_rejected seat s.state why))
  refused_without s seat reason ask absent =
      let (why, refused) = refused_in s.state s.state seat reason in
      (
        why,
        ap
              (λ o.
                unless_failed curve hash s.state (ok (setup_rejected seat s.state after_failure))
                  (classify_with curve hash s seat reason ask o))
              absent
            ∙ refused,
      )

  not_failed :
      (t : BeaconState) (refusal answer : Result SetupError SetupResult)
      → unless_failed curve hash (setup_state_for t) refusal answer ≡ answer
  not_failed committing refusal answer = refl
  not_failed revealing refusal answer = refl
  not_failed complete refusal answer = refl

  -- With a beacon, the setup's classification is that of the beacon.
  classified_by :
      (s : Setup curve hash) (b : Beacon) (seat : ℕ) (reason : SetupReason) (r : BeaconResult)
      (ask : Beacon → Result BeaconError BeaconResult) (refusal : Result SetupError SetupResult)
      → s.beacon ≡ some b
      → s.state ≡ setup_state_for b.state
      → ask b ≡ ok r
      → unless_failed curve hash s.state refusal
          (classify_with curve hash s seat reason ask s.beacon)
        ≡ ok (map_beacon_result r (setup_state_of r))
  classified_by s b seat reason r ask refusal has step asked =
      ap
        (λ x.
          unless_failed curve hash x refusal (classify_with curve hash s seat reason ask s.beacon))
        step
      ∙ not_failed b.state refusal (classify_with curve hash s seat reason ask s.beacon)
      ∙ ap (classify_with curve hash s seat reason ask) has
      ∙ ap (λ x. beacon_step x >>= λ y. ok (map_beacon_result y (setup_state_of y))) asked

  -- A commitment of 32 bytes for a seat of the table is answered, never thrown at, and the setup stays
  -- sound: its state goes with that of the beacon.
  pub setup_accept_commitment-IsSetup :
      (s : Setup curve hash) (seat : ℕ) (c : Bytes)
      → IsSetup curve hash hashing s
      → seat < s.seat_count
      → length c ≡ 32
      → IsBytes c
      → (next : Setup curve hash) × (r : SetupResult) × (setup_accept_commitment curve hash s seat c
          ≡ ok (next, r))
        × IsSetup curve hash hashing next
  unfolding setup_accept_commitment Recorded InStep
  setup_accept_commitment-IsSetup s seat c h low size c_bytes =
      let at_table : ltb seat s.seat_count ≡ true = ground arith in
      elim (Option-cases s.beacon) [
        | inl absent ↦
            let (why, refused) =
              refused_without s seat no_beacon_commit (λ d. classify_commitment d seat c) absent in
            (s, setup_rejected seat s.state why, rw (at_table, refused) refl, h)
        | inr (b, has) ↦
            let step = in_step curve hash hashing s b s.state has refl h.setup_stage in
            let (next, r, given, sound, counts) =
              accept_commitment-IsBeacon hashing b step.1 seat (ground (arith, step.3)) c size
                c_bytes in
            let asked =
              classified_by s b seat no_beacon_commit r (λ d. classify_commitment d seat c)
                (ok (setup_rejected seat s.state after_failure)) has step.2
                (accept-classify_commitment b next seat c r given) in
            let (after, result, recorded, kept) =
              record_with-IsSetup curve hash hashing s b next r (λ d. accept_commitment d seat c) h
                has step given sound counts in
            (after, result, rw (at_table, asked) recorded, kept)
      ]

  -- A secret of 32 bytes for a seat of the table is answered, never thrown at, and the setup stays
  -- sound: its state goes with that of the beacon.
  pub setup_accept_reveal-IsSetup :
      (s : Setup curve hash) (seat : ℕ) (secret : Bytes)
      → IsHashing hashing
      → IsSetup curve hash hashing s
      → seat < s.seat_count
      → length secret ≡ 32
      → (next : Setup curve hash) × (r : SetupResult) × (setup_accept_reveal curve hash hashing s
            seat secret
          ≡ ok (next, r))
        × IsSetup curve hash hashing next
  unfolding setup_accept_reveal Recorded InStep
  setup_accept_reveal-IsSetup s seat secret hashes h low size =
      let at_table : ltb seat s.seat_count ≡ true = ground arith in
      elim (Option-cases s.beacon) [
        | inl absent ↦
            let (why, refused) =
              refused_without s seat no_beacon_reveal (λ d. classify_reveal hashing d seat secret)
                absent in
            (s, setup_rejected seat s.state why, rw (at_table, refused) refl, h)
        | inr (b, has) ↦
            let step = in_step curve hash hashing s b s.state has refl h.setup_stage in
            let (next, r, given, sound, counts) =
              accept_reveal-IsBeacon hashing b step.1 seat (ground (arith, step.3)) hashes secret
                size in
            let asked =
              classified_by s b seat no_beacon_reveal r (λ d. classify_reveal hashing d seat secret)
                (ok (setup_rejected seat s.state after_failure)) has step.2
                (accept-classify_reveal hashing b next seat secret r given) in
            let (after, result, recorded, kept) =
              record_with-IsSetup curve hash hashing s b next r
                (λ d. accept_reveal hashing d seat secret) h has step given sound counts in
            (after, result, rw (at_table, asked) recorded, kept)
      ]
