-- ===== src/Examples/Setups.antt =====
-- Runs of packages/engine/src.
use tablefolk.Base.{
  ℕ, zero, suc, ◌≡◌, ◌<◌, ◌↔◌, ◌⊎◌, refl, List, [], ◌∷◌, none, some, ok, err, arith, replicate, inl,
  inr, subst, In, length,
}
use tablefolk.Session.Bytes.{Bytes, IsBytes}
use tablefolk.Protocol.Value.{malformed, validate_value, max_safe_integer}
use tablefolk.Protocol.Schema.{parse_fixed_bytes}
use tablefolk.Protocol.Canonical.{encode_canonical}
use tablefolk.Protocol.Hashes.{Hashing, beacon_commitment}
use tablefolk.Protocol.Hashes.Binding.{IsHashing, Collision}
use tablefolk.Engine.Beacon.{
  committing, revealing, complete, BeaconResult, Beacon, new_beacon, place, pending_senders,
  accept_commitment, accept_reveal,
}
use tablefolk.Engine.Beacon.Accepts.{accept_commitment-IsBeacon, accept_reveal-IsBeacon}
use tablefolk.Engine.Beacon.Sound.{IsBeacon, Counts, Opens}
use tablefolk.Engine.Beacon.Seed.{seed_is_bound}
use tablefolk.Engine.Beacon.Logs.{Message, commitment, secret, commitments_of, secrets_of, held}
use tablefolk.Engine.Beacon.Runs.{run_messages, new_beacon-IsBeacon, beacon_runs}
use tablefolk.Engine.Beacon.Pending.{TakesCommitment, TakesSecret, pending_senders-progress}

-- A hash of one digest.
abbrev pub hashing : Hashing
hashing = record {
  cbor = record { encode = λ v. some []; decode = λ b. err malformed };
  sha256 = λ b. replicate 32 0;
}

pub replicate-IsBytes : (n b : ℕ) → b < 256 → IsBytes (replicate n b)
replicate-IsBytes zero b h = tt
replicate-IsBytes (suc n) b h = (h, replicate-IsBytes n b h)

pub hashing-IsHashing : IsHashing hashing
hashing-IsHashing = record {
  digest_size = λ b. refl;
  digest_bytes = λ b. replicate-IsBytes 32 0 (omega arith);
  encodes = λ n h. ([], refl);
}

abbrev game : Bytes
game = replicate 16 1

abbrev digest : Bytes
digest = replicate 32 0

abbrev secret_bytes : Bytes
secret_bytes = replicate 32 5

abbrev pub started : Beacon
started = record {
  game_id = game;
  round = 0;
  seat_count = 3;
  commitments = replicate 3 none;
  reveals = replicate 3 none;
  state = committing;
  seed = none;
}

beacon_started : new_beacon game 0 3 ≡ ok started
unfolding new_beacon parse_fixed_bytes max_safe_integer
beacon_started = refl

pub started-IsBeacon : IsBeacon hashing started
started-IsBeacon = (new_beacon-IsBeacon hashing game 0 3 started beacon_started).0

accept_commitment-IsBeacon_example :
    (next : Beacon) × (r : BeaconResult) × (accept_commitment started 1 digest ≡ ok (next, r))
    × IsBeacon hashing next
    × Counts hashing started next r
accept_commitment-IsBeacon_example =
    accept_commitment-IsBeacon hashing started started-IsBeacon 1 (omega arith) digest refl
      (replicate-IsBytes 32 0 (omega arith))

-- Every seat has committed.
abbrev pub committed : Beacon
committed = record {
  game_id = game;
  round = 0;
  seat_count = 3;
  commitments = replicate 3 (some digest);
  reveals = replicate 3 none;
  state = revealing;
  seed = none;
}

digests_of_bytes :
    (seat : ℕ) (c : Bytes) → place (replicate 3 (some digest)) seat ≡ some c → IsBytes c
digests_of_bytes zero c e = subst IsBytes {x = digest} (cc e) (replicate-IsBytes 32 0 (omega arith))
digests_of_bytes (suc zero) c e =
    subst IsBytes {x = digest} (cc e) (replicate-IsBytes 32 0 (omega arith))
digests_of_bytes (suc (suc zero)) c e =
    subst IsBytes {x = digest} (cc e) (replicate-IsBytes 32 0 (omega arith))
digests_of_bytes (suc (suc (suc seat))) c e = cc

none_revealed :
    (seat : ℕ) (s : Bytes) → place (replicate 3 none) seat ≡ some s → Opens hashing committed seat s
none_revealed zero s e = cc
none_revealed (suc zero) s e = cc
none_revealed (suc (suc zero)) s e = cc
none_revealed (suc (suc (suc seat))) s e = cc

pub committed-IsBeacon : IsBeacon hashing committed
unfolding max_safe_integer
committed-IsBeacon = record {
  table = (omega arith, omega arith);
  in_round = omega arith;
  commitment_places = refl;
  reveal_places = refl;
  stage = (refl, omega arith, refl);
  of_bytes = digests_of_bytes;
  opened = none_revealed;
}

accept_reveal-IsBeacon_example :
    (next : Beacon) × (r : BeaconResult) × (accept_reveal hashing committed 2 secret_bytes
      ≡ ok (next, r))
    × IsBeacon hashing next
    × Counts hashing committed next r
accept_reveal-IsBeacon_example =
    accept_reveal-IsBeacon hashing committed committed-IsBeacon 2 (omega arith) hashing-IsHashing
      secret_bytes refl

pending_two : In 2 (pending_senders committed)
unfolding pending_senders
pending_two = inr (inr (inl refl))

pending_senders-progress_example :
    ((committed.state ≡ committing) × TakesCommitment hashing committed 2)
    ⊎ ((committed.state ≡ revealing) × TakesSecret hashing committed 2)
pending_senders-progress_example =
    pending_senders-progress hashing committed 2 hashing-IsHashing committed-IsBeacon pending_two

-- Every seat has revealed.
abbrev opened : Beacon
opened = record {
  game_id = game;
  round = 0;
  seat_count = 3;
  commitments = replicate 3 (some digest);
  reveals = replicate 3 (some secret_bytes);
  state = complete;
  seed = some digest;
}

all_revealed :
    (seat : ℕ) (s : Bytes) → place opened.reveals seat ≡ some s → Opens hashing opened seat s
unfolding beacon_commitment encode_canonical validate_value max_safe_integer
all_revealed zero s e = (digest, refl, refl)
all_revealed (suc zero) s e = (digest, refl, refl)
all_revealed (suc (suc zero)) s e = (digest, refl, refl)
all_revealed (suc (suc (suc seat))) s e = cc

opened-IsBeacon : IsBeacon hashing opened
unfolding max_safe_integer
opened-IsBeacon = record {
  table = (omega arith, omega arith);
  in_round = omega arith;
  commitment_places = refl;
  reveal_places = refl;
  stage = (refl, refl, refl);
  of_bytes = digests_of_bytes;
  opened = all_revealed;
}

seed_is_bound_example : (opened.seed ≡ opened.seed) ⊎ Collision hashing
seed_is_bound_example =
    seed_is_bound hashing opened opened opened-IsBeacon opened-IsBeacon refl refl refl refl refl

abbrev messages : List Message
messages = commitment 0 digest ∷ secret 2 secret_bytes ∷ []

beacon_runs_example :
    (next : Beacon) × (log : List Message) × (run_messages hashing started messages
      ≡ ok (next, log))
    × IsBeacon hashing next
    × ((seat : ℕ)
        → (commitments_of seat log ≡ held (place next.commitments seat))
          × (secrets_of seat log ≡ held (place next.reveals seat)))
    × ((next.state ≡ complete) ↔ (
        (seat : ℕ)
        → seat < 3
        → (length (commitments_of seat log) ≡ 1) × (length (secrets_of seat log) ≡ 1)))
beacon_runs_example =
    beacon_runs hashing game 0 3 started messages hashing-IsHashing beacon_started
      ((omega arith, refl, replicate-IsBytes 32 0 (omega arith)), ((omega arith, refl), tt))
