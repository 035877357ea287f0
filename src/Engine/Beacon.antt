-- ===== src/Engine/Beacon.antt =====
-- packages/engine/src/randomness-beacon.ts: a seed that each player has a part in. What
-- `parseHash256` and `parseRandomSecret` copy is kept as it is.
pub mod Places
pub mod Sound
pub mod Accepts
pub mod Seed
pub mod Logs
pub mod Runs
pub mod Pending
use tablefolk.Base.{
  ℕ, suc, ◌+◌, Bool, List, [], ◌∷◌, ◌++◌, Option, none, some, Result, ok, err, ◌>>=◌, ◌>>◌, ensure,
  expect, leb, ltb, not, ◌&&◌, ◌==◌, if◌then◌else◌, get_or, set, replicate,
}
use tablefolk.Session.Bytes.{Bytes, bytes_equal}
use tablefolk.Protocol.Value.{max_safe_integer}
use tablefolk.Protocol.Schema.{SchemaError, parse_game_id, parse_hash256, parse_fixed_bytes}
use tablefolk.Protocol.Hashes.{Hashing, HashError, beacon_commitment}

pub data BeaconState : Type 0 where
  committing revealing complete : BeaconState

pub data BeaconReason : Type 0 where
  commitment_mismatch conflicting_commitment conflicting_reveal unexpected_commit
        unexpected_reveal :
      BeaconReason

-- `BeaconIngestResult`.
pub data BeaconResult : Type 0 where
  accepted duplicate : (seat : ℕ) → BeaconState → BeaconResult
  rejected : (seat : ℕ) → BeaconState → BeaconReason → BeaconResult

-- What is thrown.
pub data BeaconError : Type 0 where
  bad_round bad_seat_count bad_seat no_commitment : BeaconError
  bad_field : SchemaError → BeaconError
  bad_hash : HashError → BeaconError

-- `RandomnessBeacon`.
pub record Beacon : Type 0 where
  pub game_id : Bytes
  pub round : ℕ
  pub seat_count : ℕ
  pub commitments : List (Option Bytes)
  pub reveals : List (Option Bytes)
  pub state : BeaconState
  pub seed : Option Bytes

abbrev pub parse_field : Result SchemaError Bytes → Result BeaconError Bytes
parse_field (ok b) = ok b
parse_field (err e) = err (bad_field e)

abbrev pub hash_field : Result HashError Bytes → Result BeaconError Bytes
hash_field (ok b) = ok b
hash_field (err e) = err (bad_hash e)

-- `values[seat]`, `null` in an empty place.
abbrev pub place {ℓ} : {A : Type ℓ} → List (Option A) → ℕ → Option A
place values seat = get_or values seat none

-- `values.filter((value) => value === null).length`.
abbrev pub count_missing {ℓ} : {A : Type ℓ} → List (Option A) → ℕ
count_missing [] = 0
count_missing (none ∷ values) = suc (count_missing values)
count_missing (some b ∷ values) = count_missing values

-- The seats of the empty places, from a seat on.
abbrev pub missing_from {ℓ} : {A : Type ℓ} → ℕ → List (Option A) → List ℕ
missing_from seat [] = []
missing_from seat (none ∷ values) = seat ∷ missing_from (suc seat) values
missing_from seat (some b ∷ values) = missing_from (suc seat) values

-- The values that are there, one after the other: the parts that are hashed.
abbrev pub joined_secrets : List (Option Bytes) → Bytes
joined_secrets [] = []
joined_secrets (none ∷ values) = joined_secrets values
joined_secrets (some b ∷ values) = b ++ joined_secrets values

-- The constructor.
unfoldable pub new_beacon : Bytes → ℕ → ℕ → Result BeaconError Beacon
new_beacon game_id round seat_count = do
  ensure (leb round max_safe_integer) bad_round
  ensure (leb 3 seat_count && leb seat_count 8) bad_seat_count
  game ← parse_field (parse_game_id game_id)
  ok (record {
    game_id = game;
    round = round;
    seat_count = seat_count;
    commitments = replicate seat_count none;
    reveals = replicate seat_count none;
    state = committing;
    seed = none;
  })

abbrev pub awaited : Beacon → List (Option Bytes)
awaited b = elim b.state [ committing ↦ b.commitments | _ ↦ b.reveals ]

-- `pendingSenders`.
unfoldable pub pending_senders : Beacon → List ℕ
pending_senders b = missing_from 0 (awaited b)

unfoldable pub commitment_at : Beacon → ℕ → Result BeaconError (Option Bytes)
commitment_at b seat = do ensure (ltb seat b.seat_count) bad_seat; ok (place b.commitments seat)

-- `classifyCommitment`, with the commitment that the place has.
abbrev pub classify_first : Beacon → ℕ → BeaconState → BeaconResult
classify_first b seat committing =
    accepted seat (if count_missing b.commitments == 1 then revealing else committing)
classify_first b seat other = rejected seat other unexpected_commit

abbrev pub classify_against : Beacon → ℕ → Bytes → Option Bytes → BeaconResult
classify_against b seat commitment (some existing) =
    if bytes_equal existing commitment
    then duplicate seat b.state
    else rejected seat b.state conflicting_commitment
classify_against b seat commitment none = classify_first b seat b.state

unfoldable pub classify_commitment : Beacon → ℕ → Bytes → Result BeaconError BeaconResult
unfolding parse_fixed_bytes
classify_commitment b seat candidate = do
  ensure (ltb seat b.seat_count) bad_seat
  commitment ← parse_field (parse_hash256 candidate)
  ok (classify_against b seat commitment (place b.commitments seat))

abbrev pub record_commitment : Beacon → ℕ → Bytes → BeaconResult → Beacon × BeaconResult
record_commitment b seat candidate (accepted s next) = (
  record b { commitments = set b.commitments seat (some candidate); state = next },
  accepted s next,
)
record_commitment b seat candidate other = (b, other)

unfoldable pub accept_commitment : Beacon → ℕ → Bytes → Result BeaconError (Beacon × BeaconResult)
unfolding classify_commitment
accept_commitment b seat candidate = do
  classification ← classify_commitment b seat candidate
  ok (record_commitment b seat candidate classification)

module _ (hashing : Hashing) where
  -- `classifyReveal` of a secret for an empty place.
  abbrev pub classify_opening : Beacon → ℕ → Bytes → BeaconState → Result BeaconError BeaconResult
  classify_opening b seat secret revealing = do
    expected ← hash_field (beacon_commitment hashing b.game_id b.round seat secret)
    commitment ← expect (place b.commitments seat) no_commitment
    ok (
        if not (bytes_equal commitment expected)
        then rejected seat revealing commitment_mismatch
        else accepted seat (if count_missing b.reveals == 1 then complete else revealing))
  classify_opening b seat secret other = ok (rejected seat other unexpected_reveal)

  abbrev pub classify_secret : Beacon → ℕ → Bytes → Option Bytes → Result BeaconError BeaconResult
  classify_secret b seat secret (some existing) = ok (
      if bytes_equal existing secret
      then duplicate seat b.state
      else rejected seat b.state conflicting_reveal)
  classify_secret b seat secret none = classify_opening b seat secret b.state

  unfoldable pub classify_reveal : Beacon → ℕ → Bytes → Result BeaconError BeaconResult
  unfolding parse_fixed_bytes
  classify_reveal b seat candidate = do
    ensure (ltb seat b.seat_count) bad_seat
    secret ← parse_field (parse_fixed_bytes 32 candidate)
    classify_secret b seat secret (place b.reveals seat)

  -- The seed, when the last secret is in.
  abbrev pub with_seed : Beacon → Result BeaconError Beacon
  with_seed b = elim b.state [
    | complete ↦ do
      digest ← parse_field (parse_hash256 (hashing.sha256 (joined_secrets b.reveals)))
      ok (record b { seed = some digest })
    | _ ↦ ok b
  ]

  abbrev pub record_reveal :
      Beacon → ℕ → Bytes → BeaconResult → Result BeaconError (Beacon × BeaconResult)
  record_reveal b seat candidate (accepted s next) = do
    after ← with_seed (record b { reveals = set b.reveals seat (some candidate); state = next })
    ok (after, accepted s next)
  record_reveal b seat candidate other = ok (b, other)

  unfoldable pub accept_reveal : Beacon → ℕ → Bytes → Result BeaconError (Beacon × BeaconResult)
  unfolding classify_reveal
  accept_reveal b seat candidate = do
    classification ← classify_reveal b seat candidate
    record_reveal b seat candidate classification
