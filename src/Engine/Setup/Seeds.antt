-- ===== src/Engine/Setup/Seeds.antt =====
-- packages/engine/src/setup-coordinator.ts: the commitments and secrets, which the beacon takes.
pub mod Replies
pub mod Steps
pub mod Keeps
use tablefolk.Base.{ℕ, Option, none, some, Result, ok, err, ◌>>=◌, ◌>>◌, ensure, ltb}
use tablefolk.Session.Bytes.{Bytes}
use tablefolk.Protocol.Hashes.{Hashing}
use tablefolk.Protocol.Challenges.{WideHash}
use tablefolk.Deck.Curve.{Curve}
use tablefolk.Engine.Beacon.{
  Beacon, BeaconState, committing, revealing, complete, BeaconResult, BeaconError,
  classify_commitment, accept_commitment, classify_reveal, accept_reveal,
}
use tablefolk.Engine.Setup.{
  Setup, SetupState, rand_reveal, setup_complete, setup_failed, SetupReason, SetupResult,
  setup_accepted, setup_rejected, SetupError, bad_setup_seat, beacon_disappeared, after_failure,
  no_beacon_commit, no_beacon_reveal, beacon_step, map_beacon_result, setup_state_of,
}

module _ (curve : Curve) (hash : WideHash) where
  -- The check for a setup that failed.
  abbrev pub unless_failed :
      SetupState
      → Result SetupError SetupResult
      → Result SetupError SetupResult
      → Result SetupError SetupResult
  unless_failed setup_failed refusal answer = refusal
  unless_failed other refusal answer = answer

  -- A message for the beacon, of which `ask` tells the beacon's result.
  abbrev pub classify_with :
      Setup curve hash
      → ℕ
      → SetupReason
      → (Beacon → Result BeaconError BeaconResult)
      → Option Beacon
      → Result SetupError SetupResult
  classify_with s seat reason ask none = ok (setup_rejected seat s.state reason)
  classify_with s seat reason ask (some b) = do
    r ← beacon_step (ask b)
    ok (map_beacon_result r (setup_state_of r))

  unfoldable pub setup_classify_commitment :
      Setup curve hash → ℕ → Bytes → Result SetupError SetupResult
  setup_classify_commitment s seat commitment = do
    ensure (ltb seat s.seat_count) bad_setup_seat
    unless_failed s.state (ok (setup_rejected seat s.state after_failure)) (
        classify_with s seat no_beacon_commit (λ b. classify_commitment b seat commitment) s.beacon)

  -- `#syncBeaconState`.
  abbrev pub synced : SetupState → BeaconState → SetupState
  synced state committing = state
  synced state revealing = rand_reveal
  synced state complete = setup_complete

  -- An accepted message is given to the beacon.
  abbrev pub record_with :
      Setup curve hash
      → (Beacon → Result BeaconError (Beacon × BeaconResult))
      → SetupResult
      → Result SetupError (Setup curve hash × SetupResult)
  record_with s give (setup_accepted seat state) = elim s.beacon [
    | none ↦ err beacon_disappeared
    | some b ↦ do
      outcome ← beacon_step (give b)
      let after = record s { beacon = some outcome.0; state = synced s.state outcome.0.state }
      ok (after, map_beacon_result outcome.1 after.state)
  ]
  record_with s give other = ok (s, other)

  unfoldable pub setup_accept_commitment :
      Setup curve hash → ℕ → Bytes → Result SetupError (Setup curve hash × SetupResult)
  unfolding setup_classify_commitment
  setup_accept_commitment s seat commitment = do
    classification ← setup_classify_commitment s seat commitment
    record_with s (λ b. accept_commitment b seat commitment) classification

  module _ (hashing : Hashing) where
    unfoldable pub setup_classify_reveal :
        Setup curve hash → ℕ → Bytes → Result SetupError SetupResult
    setup_classify_reveal s seat secret = do
      ensure (ltb seat s.seat_count) bad_setup_seat
      unless_failed s.state (ok (setup_rejected seat s.state after_failure)) (
          classify_with s seat no_beacon_reveal (λ b. classify_reveal hashing b seat secret)
            s.beacon)

    unfoldable pub setup_accept_reveal :
        Setup curve hash → ℕ → Bytes → Result SetupError (Setup curve hash × SetupResult)
    unfolding setup_classify_reveal
    setup_accept_reveal s seat secret = do
      classification ← setup_classify_reveal s seat secret
      record_with s (λ b. accept_reveal hashing b seat secret) classification
