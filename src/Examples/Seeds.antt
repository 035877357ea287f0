-- ===== src/Examples/Seeds.antt =====
-- Runs of packages/engine/src/setup-coordinator.ts with a beacon.
use tablefolk.Base.{ℕ, zero, suc, ◌≡◌, refl, subst, true, some, ok, arith, replicate}
use tablefolk.Protocol.Value.{max_safe_integer, validate_value}
use tablefolk.Protocol.Canonical.{encode_canonical}
use tablefolk.Protocol.Challenges.{proof_challenge_scalar}
use tablefolk.Deck.Elgamal.{aggregate_public_keys}
use tablefolk.Deck.Proofs.{KeyShare, key_proof_challenge, verify_game_key_share}
use tablefolk.Engine.Beacon.{Beacon, place}
use tablefolk.Engine.Setup.{Setup, SetupState, SetupResult, rand_commit, keys_of, proof_context}
use tablefolk.Engine.Setup.Sound.{SetupStage, IsSetup}
use tablefolk.Engine.Setup.Seeds.{setup_accept_commitment}
use tablefolk.Engine.Setup.Seeds.Keeps.{setup_accept_commitment-IsSetup}
use tablefolk.Examples.Wire.{two, wide, key_share}
use tablefolk.Examples.Setups.{hashing, replicate-IsBytes, started, started-IsBeacon}

-- A setup whose three keys are in.
abbrev keyed : Beacon → SetupState → Setup two wide
keyed b state = record {
  game_id = replicate 16 1;
  round = 0;
  seat_count = 3;
  beacon_required = true;
  key_shares = replicate 3 (some key_share);
  state = state;
  aggregate_key = some true;
  beacon = some b;
}

shares_fine :
    (b : Beacon) (state : SetupState) (seat : ℕ) (share : KeyShare two wide)
    → place (replicate 3 (some key_share)) seat ≡ some share
    → verify_game_key_share two wide (proof_context two wide (keyed b state)) share ≡ true
unfolding verify_game_key_share key_proof_challenge proof_challenge_scalar encode_canonical
    validate_value max_safe_integer
shares_fine b state zero share e =
    let same : key_share ≡ share = cc e in
    subst (λ d. verify_game_key_share two wide (proof_context two wide (keyed b state)) d ≡ true)
      same refl
shares_fine b state (suc zero) share e =
    let same : key_share ≡ share = cc e in
    subst (λ d. verify_game_key_share two wide (proof_context two wide (keyed b state)) d ≡ true)
      same refl
shares_fine b state (suc (suc zero)) share e =
    let same : key_share ≡ share = cc e in
    subst (λ d. verify_game_key_share two wide (proof_context two wide (keyed b state)) d ≡ true)
      same refl
shares_fine b state (suc (suc (suc seat))) share e = cc

keys_summed : aggregate_public_keys two (keys_of two wide (replicate 3 (some key_share))) ≡ ok true
unfolding aggregate_public_keys
keys_summed = refl

keyed-IsSetup :
    (b : Beacon) (state : SetupState)
    → SetupStage two wide hashing (keyed b state) state
    → IsSetup two wide hashing (keyed b state)
unfolding max_safe_integer
keyed-IsSetup b state stage = record {
  table = (omega arith, omega arith);
  in_round = omega arith;
  game_size = refl;
  places = refl;
  verified = shares_fine b state;
  setup_stage = stage;
}

setup_accept_commitment-IsSetup_example :
    (next : Setup two wide) × (r : SetupResult) × (setup_accept_commitment two wide
        (keyed started rand_commit)
        1
        (replicate 32 0)
      ≡ ok (next, r))
    × IsSetup two wide hashing next
setup_accept_commitment-IsSetup_example =
    setup_accept_commitment-IsSetup two wide hashing (keyed started rand_commit) 1 (replicate 32 0)
      (keyed-IsSetup started rand_commit
        ((refl, (true, refl, keys_summed)), (started, refl, started-IsBeacon, refl, refl, refl)))
      (omega arith) refl (replicate-IsBytes 32 0 (omega arith))
