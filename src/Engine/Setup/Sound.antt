-- ===== src/Engine/Setup/Sound.antt =====
-- packages/engine/src/setup-coordinator.ts: what holds of every setup.
use tablefolk.Base.{ℕ, ◌≤◌, ◌<◌, ◌≡◌, none, some, ok, err, length, true, false, ◌⊎◌}
use tablefolk.Protocol.Value.{max_safe_integer}
use tablefolk.Protocol.Hashes.{Hashing}
use tablefolk.Protocol.Challenges.{WideHash}
use tablefolk.Deck.Curve.{Curve}
use tablefolk.Deck.Elgamal.{MaskError, aggregate_public_keys}
use tablefolk.Deck.Proofs.{KeyShare, verify_game_key_share}
use tablefolk.Engine.Beacon.{
  Beacon, BeaconState, committing, revealing, complete, place, count_missing,
}
use tablefolk.Engine.Beacon.Sound.{IsBeacon}
use tablefolk.Engine.Setup.{
  Setup, SetupState, keys, rand_commit, rand_reveal, setup_complete, setup_failed, proof_context,
  keys_of,
}

module _ (curve : Curve) (hash : WideHash) (hashing : Hashing) where
  -- All keys are in, and the key that they add up to is kept.
  abbrev pub Keyed : Setup curve hash → Type 0
  Keyed s =
      (count_missing s.key_shares ≡ 0)
      × ((aggregate : curve.Point) × (s.aggregate_key ≡ some aggregate)
          × (aggregate_public_keys curve (keys_of curve hash s.key_shares) ≡ ok aggregate))

  -- A sound beacon of the setup's table that is in a state.
  abbrev pub Drawing : Setup curve hash → BeaconState → Type 0
  Drawing s state =
      (b : Beacon) × (s.beacon ≡ some b)
      × IsBeacon hashing b
      × (b.state ≡ state)
      × (b.seat_count ≡ s.seat_count)
      × (s.beacon_required ≡ true)

  abbrev pub SetupStage : Setup curve hash → SetupState → Type 0
  SetupStage s keys =
      (0 < count_missing s.key_shares) × (s.aggregate_key ≡ none) × (s.beacon ≡ none)
  SetupStage s rand_commit = Keyed s × Drawing s committing
  SetupStage s rand_reveal = Keyed s × Drawing s revealing
  SetupStage s setup_complete =
      Keyed s × (((s.beacon_required ≡ false) × (s.beacon ≡ none)) ⊎ Drawing s complete)
  SetupStage s setup_failed =
      (count_missing s.key_shares ≡ 0)
      × (s.aggregate_key ≡ none)
      × (s.beacon ≡ none)
      × ((e : MaskError) × (aggregate_public_keys curve (keys_of curve hash s.key_shares) ≡ err e))

  pub record IsSetup (s : Setup curve hash) : Type 0 where
    pub table : (3 ≤ s.seat_count) × (s.seat_count ≤ 8)
    pub in_round : s.round ≤ max_safe_integer
    pub game_size : length s.game_id ≡ 16
    pub places : length s.key_shares ≡ s.seat_count
    pub verified :
        (seat : ℕ) (share : KeyShare curve hash)
        → place s.key_shares seat ≡ some share
        → verify_game_key_share curve hash (proof_context curve hash s) share ≡ true
    pub setup_stage : SetupStage s s.state
    -- A new beacon of the table.
