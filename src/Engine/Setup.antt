-- ===== src/Engine/Setup.antt =====
-- packages/engine/src/setup-coordinator.ts: the setup of a round, first the keys of all seats, then
-- the shared seed.
pub mod Sound
pub mod Keys
pub mod Seeds
use tablefolk.Base.{
  ℕ, suc, Bool, true, false, List, [], ◌∷◌, Option, none, some, Result, ok, err, ◌>>=◌, ◌>>◌,
  ensure, expect, leb, ltb, not, ◌&&◌, ◌==◌, if◌then◌else◌, set, replicate, map,
}
use tablefolk.Session.Bytes.{Bytes}
use tablefolk.Protocol.Value.{max_safe_integer}
use tablefolk.Protocol.Schema.{SchemaError, parse_game_id, parse_fixed_bytes}
use tablefolk.Protocol.Hashes.{Hashing}
use tablefolk.Protocol.Challenges.{ProofContext, WideHash}
use tablefolk.Deck.Curve.{Curve}
use tablefolk.Deck.Elgamal.{MaskError, no_keys, aggregate_public_keys}
use tablefolk.Deck.Proofs.{KeyShare, verify_game_key_share}
use tablefolk.Engine.Beacon.{
  Beacon, BeaconState, committing, revealing, complete, BeaconReason, BeaconResult, accepted,
  duplicate, rejected, BeaconError, place, count_missing, missing_from, new_beacon, pending_senders,
  classify_commitment, accept_commitment, classify_reveal, accept_reveal,
}

pub data SetupState : Type 0 where
  keys rand_commit rand_reveal setup_complete setup_failed : SetupState

-- `SetupRejectionReason`: those of the beacon, and its own.
pub data SetupReason : Type 0 where
  of_beacon : BeaconReason → SetupReason
  conflicting_key_share invalid_key_proof after_failure no_beacon_commit no_beacon_reveal :
      SetupReason

-- `SetupIngestResult`; the only failure is that the keys add up to the neutral point.
pub data SetupResult : Type 0 where
  setup_accepted setup_duplicate : (seat : ℕ) → SetupState → SetupResult
  setup_rejected : (seat : ℕ) → SetupState → SetupReason → SetupResult
  aggregate_failed : SetupResult

-- What is thrown.
pub data SetupError : Type 0 where
  bad_setup_round bad_table bad_setup_seat beacon_disappeared : SetupError
  bad_game_id : SchemaError → SetupError
  bad_beacon : BeaconError → SetupError
  bad_keys : MaskError → SetupError

abbrev pub beacon_step {ℓ} : {A : Type ℓ} → Result BeaconError A → Result SetupError A
beacon_step (ok a) = ok a
beacon_step (err e) = err (bad_beacon e)

-- `setupStateForBeacon`.
abbrev pub setup_state_for : BeaconState → SetupState
setup_state_for committing = rand_commit
setup_state_for revealing = rand_reveal
setup_state_for complete = setup_complete

-- `mapBeaconResult`.
abbrev pub map_beacon_result : BeaconResult → SetupState → SetupResult
map_beacon_result (accepted seat s) state = setup_accepted seat state
map_beacon_result (duplicate seat s) state = setup_duplicate seat state
map_beacon_result (rejected seat s reason) state = setup_rejected seat state (of_beacon reason)

abbrev pub setup_state_of : BeaconResult → SetupState
setup_state_of (accepted seat s) = setup_state_for s
setup_state_of (duplicate seat s) = setup_state_for s
setup_state_of (rejected seat s reason) = setup_state_for s

module _ (curve : Curve) (hash : WideHash) where
  -- `SetupCoordinator`.
  pub record Setup : Type 0 where
    pub game_id : Bytes
    pub round : ℕ
    pub seat_count : ℕ
    pub beacon_required : Bool
    pub key_shares : List (Option (KeyShare curve hash))
    pub state : SetupState
    pub aggregate_key : Option curve.Point
    pub beacon : Option Beacon

  abbrev pub proof_context : Setup → ProofContext
  proof_context s = record { game_id = s.game_id; round = s.round; phase = "setup.keys" }

  -- The constructor.
  unfoldable pub new_setup : Bytes → ℕ → ℕ → Bool → Result SetupError Setup
  unfolding parse_fixed_bytes
  new_setup game_id round seat_count beacon_required = do
    ensure (leb round max_safe_integer) bad_setup_round
    ensure (leb 3 seat_count && leb seat_count 8) bad_table
    game ← elim (parse_game_id game_id) [ ok game ↦ ok game | err e ↦ err (bad_game_id e) ]
    ok (record {
      game_id = game;
      round = round;
      seat_count = seat_count;
      beacon_required = beacon_required;
      key_shares = replicate seat_count none;
      state = keys;
      aggregate_key = none;
      beacon = none;
    })

  abbrev pub pending_of_beacon : Option Beacon → List ℕ
  pending_of_beacon none = []
  pending_of_beacon (some b) = pending_senders b

  -- `pendingSenders`.
  unfoldable pub setup_pending_senders : Setup → List ℕ
  setup_pending_senders s = elim s.state [
    | keys ↦ missing_from 0 s.key_shares
    | rand_commit ↦ pending_of_beacon s.beacon
    | rand_reveal ↦ pending_of_beacon s.beacon
    | _ ↦ []
  ]

  -- `equalKeyShares`.
  unfoldable pub equal_key_shares : KeyShare curve hash → KeyShare curve hash → Bool
  equal_key_shares left right =
      curve.equals left.h right.h
      && (curve.equals left.pop.r right.pop.r && left.pop.z == right.pop.z)

  -- The keys of the places that are filled.
  abbrev pub keys_of : List (Option (KeyShare curve hash)) → List curve.Point
  keys_of [] = []
  keys_of (none ∷ shares) = keys_of shares
  keys_of (some share ∷ shares) = share.h ∷ keys_of shares

  -- `aggregatePublicKeys` in `classifyKeyShare`, where a `TypeError` is caught.
  abbrev pub classify_aggregate :
      Setup → ℕ → Result MaskError curve.Point → Result SetupError SetupResult
  classify_aggregate s seat (ok aggregate) =
      ok (setup_accepted seat (if s.beacon_required then rand_commit else setup_complete))
  classify_aggregate s seat (err no_keys) = err (bad_keys no_keys)
  classify_aggregate s seat (err e) = ok aggregate_failed

  -- A share for an empty place.
  abbrev pub classify_share :
      Setup → ℕ → KeyShare curve hash → SetupState → Result SetupError SetupResult
  classify_share s seat share setup_failed = ok (setup_rejected seat setup_failed after_failure)
  classify_share s seat share keys =
      let prospective = set s.key_shares seat (some share) in
      if not (verify_game_key_share curve hash (proof_context s) share)
      then ok (setup_rejected seat keys invalid_key_proof)
      else if not (count_missing prospective == 0)
      then ok (setup_accepted seat keys)
      else classify_aggregate s seat (aggregate_public_keys curve (keys_of prospective))
  classify_share s seat share other = ok (setup_rejected seat other invalid_key_proof)

  abbrev pub classify_share_at :
      Setup → ℕ → KeyShare curve hash → Option (KeyShare curve hash) → Result SetupError SetupResult
  classify_share_at s seat share (some existing) = ok (
      if equal_key_shares existing share
      then setup_duplicate seat s.state
      else setup_rejected seat s.state conflicting_key_share)
  classify_share_at s seat share none = classify_share s seat share s.state

  unfoldable pub classify_key_share :
      Setup → ℕ → KeyShare curve hash → Result SetupError SetupResult
  classify_key_share s seat share = do
    ensure (ltb seat s.seat_count) bad_setup_seat
    classify_share_at s seat share (place s.key_shares seat)

  -- The key and the beacon, when the last share is in.
  abbrev pub start_beacon : Setup → Result SetupError (Option Beacon)
  start_beacon s =
      if s.beacon_required
      then (beacon_step (new_beacon s.game_id s.round s.seat_count) >>= λ b. ok (some b))
      else ok s.beacon

  abbrev pub finish_keys : Setup → SetupState → Result SetupError Setup
  finish_keys s next = do
    aggregate ← elim (aggregate_public_keys curve (keys_of s.key_shares)) [
      | ok p ↦ ok p
      | err e ↦ err (bad_keys e)
    ]
    b ← start_beacon s
    ok (record s { aggregate_key = some aggregate; beacon = b; state = next })

  abbrev pub record_share : Setup → SetupState → Result SetupError Setup
  record_share s rand_commit = finish_keys s rand_commit
  record_share s setup_complete = finish_keys s setup_complete
  record_share s other = ok (record s { state = other })

  abbrev pub record_key_share :
      Setup → ℕ → KeyShare curve hash → SetupResult → Result SetupError (Setup × SetupResult)
  record_key_share s seat share (setup_accepted at next) = do
    after ← record_share (record s { key_shares = set s.key_shares seat (some share) }) next
    ok (after, setup_accepted at next)
  record_key_share s seat share aggregate_failed = ok (
    record s { key_shares = set s.key_shares seat (some share); state = setup_failed },
    aggregate_failed,
  )
  record_key_share s seat share other = ok (s, other)

  unfoldable pub accept_key_share :
      Setup → ℕ → KeyShare curve hash → Result SetupError (Setup × SetupResult)
  unfolding classify_key_share
  accept_key_share s seat share = do
    classification ← classify_key_share s seat share
    record_key_share s seat share classification
