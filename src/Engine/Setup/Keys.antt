-- ===== src/Engine/Setup/Keys.antt =====
-- packages/engine/src/setup-coordinator.ts: what holds of a setup while keys come in.
use tablefolk.Base.{
  ℕ, ◌≤◌, ◌<◌, ◌≡◌, ◌≢◌, refl, subst, ◌∙◌, List, [], ◌∷◌, Option, none, some, ok, err, arith,
  length, set, length-set, replicate, Option-cases, Bool-cases, Result-cases, inl, inr, true, ◌==◌,
  if◌then◌else◌, ◌⊎◌,
}
use tablefolk.Session.Bytes.{Bytes}
use tablefolk.Protocol.Value.{max_safe_integer}
use tablefolk.Protocol.Schema.{parse_fixed_bytes}
use tablefolk.Protocol.Hashes.{Hashing}
use tablefolk.Protocol.Challenges.{WideHash}
use tablefolk.Deck.Curve.{Curve}
use tablefolk.Deck.Elgamal.{
  MaskError, no_keys, identity_key, identity_aggregate, zero_randomness, zero_secret, add_keys,
  aggregate_public_keys,
}
use tablefolk.Deck.Proofs.{KeyShare, verify_game_key_share}
use tablefolk.Engine.Beacon.{Beacon, committing, new_beacon, place, count_missing}
use tablefolk.Engine.Beacon.Places.{place-set_self, place-set_ne}
use tablefolk.Engine.Beacon.Sound.{IsBeacon}
use tablefolk.Engine.Beacon.Runs.{new_beacon-IsBeacon}
use tablefolk.Engine.Setup.{
  Setup, SetupState, keys, rand_commit, rand_reveal, setup_complete, setup_failed, SetupResult,
  setup_accepted, setup_rejected, setup_duplicate, aggregate_failed, proof_context, keys_of,
  classify_aggregate, equal_key_shares, accept_key_share, invalid_key_proof, conflicting_key_share,
  after_failure,
}
use tablefolk.Engine.Setup.Sound.{Keyed, SetupStage, IsSetup}

abbrev Other : SetupState → Type 0
Other t = (t ≡ rand_commit) ⊎ ((t ≡ rand_reveal) ⊎ ((t ≡ setup_complete) ⊎ (t ≡ setup_failed)))

SetupState-cases : (t : SetupState) → (t ≡ keys) ⊎ Other t
SetupState-cases keys = inl refl
SetupState-cases rand_commit = inr (inl refl)
SetupState-cases rand_reveal = inr (inr (inl refl))
SetupState-cases setup_complete = inr (inr (inr (inl refl)))
SetupState-cases setup_failed = inr (inr (inr (inr refl)))

-- The check for no key at all passes when a share is there.
module _ (curve : Curve) where
  add_keys_err :
      (aggregate : curve.Point) (points : List curve.Point) (e : MaskError)
      → add_keys curve aggregate points ≡ err e
      → e ≢ no_keys
  unfolding add_keys
  add_keys_err aggregate [] e h n = cc
  add_keys_err aggregate (p ∷ points) e h n = elim (Bool-cases (curve.is_zero p)) [
    | inl zero_point ↦ ground arith
    | inr fine ↦ add_keys_err (curve.add aggregate p) points e (ground arith) n
  ]

  aggregate_err :
      (p : curve.Point) (points : List curve.Point) (e : MaskError)
      → aggregate_public_keys curve (p ∷ points) ≡ err e
      → e ≢ no_keys
  unfolding aggregate_public_keys
  aggregate_err p points e h n = elim (Result-cases (add_keys curve curve.neutral (p ∷ points))) [
    | inr (f, failed) ↦ add_keys_err curve.neutral (p ∷ points) e (ground arith) n
    | inl (total, added) ↦ ground arith
  ]

module _ (curve : Curve) (hash : WideHash) (hashing : Hashing) where
  beacon_starts :
      (game_id : Bytes) (round seats : ℕ)
      → round ≤ max_safe_integer
      → 3 ≤ seats
      → seats ≤ 8
      → length game_id ≡ 16
      → (b : Beacon) × (new_beacon game_id round seats ≡ ok b)
        × IsBeacon hashing b
        × (b.state ≡ committing)
        × (b.seat_count ≡ seats)
  unfolding new_beacon parse_fixed_bytes
  beacon_starts game_id round seats safe few many size =
      let b : Beacon = record {
        game_id = game_id;
        round = round;
        seat_count = seats;
        commitments = replicate seats none;
        reveals = replicate seats none;
        state = committing;
        seed = none;
      } in
      let starts : new_beacon game_id round seats ≡ ok b = ground arith in
      (b, starts, (new_beacon-IsBeacon hashing game_id round seats b starts).0, refl, refl)

  shares_verified :
      (P : KeyShare curve hash → Type 0) (xs : List (Option (KeyShare curve hash))) (i : ℕ)
      (share : KeyShare curve hash)
      → i < length xs
      → P share
      → ((seat : ℕ) (d : KeyShare curve hash) → place xs seat ≡ some d → P d)
      → (seat : ℕ) (d : KeyShare curve hash) → place (set xs i (some share)) seat ≡ some d
      → P d
  shares_verified P xs i share l h all seat d e = elim (Bool-cases (i == seat)) [
    | inl same ↦
        let share_is : share ≡ d = ground (arith, place-set_self xs i share l) in subst P share_is h
    | inr other ↦ all seat d (ground (arith, place-set_ne xs i seat share))
  ]

  module _ (s : Setup curve hash) (h : IsSetup curve hash hashing s) (seat : ℕ)
      (low : seat < s.seat_count) (share : KeyShare curve hash) where
    abbrev with_share : Setup curve hash
    with_share = record s { key_shares = set s.key_shares seat (some share) }

    -- A setup with one more share, in any state that fits it.
    with_share-IsSetup :
        (next : SetupState) (aggregate : Option curve.Point) (b : Option Beacon)
        → verify_game_key_share curve hash (proof_context curve hash s) share ≡ true
        → SetupStage curve hash hashing
            (record with_share { state = next; aggregate_key = aggregate; beacon = b })
            next
        → IsSetup curve hash hashing
            (record with_share { state = next; aggregate_key = aggregate; beacon = b })
    with_share-IsSetup next aggregate b fine stage = record {
      table = h.table;
      in_round = h.in_round;
      game_size = h.game_size;
      places = length-set s.key_shares seat (some share) ∙ h.places;
      verified =
          shares_verified
            (λ d. verify_game_key_share curve hash (proof_context curve hash s) d ≡ true)
            s.key_shares seat share (omega (arith, h.places)) fine h.verified;
      setup_stage = stage;
    }

    some_key :
        (xs : List (Option (KeyShare curve hash)))
        → count_missing xs ≡ 0
        → 0 < length xs
        → (p : curve.Point) × (points : List curve.Point) × (keys_of curve hash xs ≡ p ∷ points)
    some_key [] e l = absurd (omega arith)
    some_key (none ∷ xs) e l = absurd (omega arith)
    some_key (some d ∷ xs) e l = (d.h, keys_of curve hash xs, refl)

    abbrev Answered : Type 0
    Answered =
        (next : Setup curve hash) × (r : SetupResult) × (accept_key_share curve hash s seat share
          ≡ ok (next, r))
        × IsSetup curve hash hashing next

    -- The last share, when the keys have a sum.
    last_share :
        (aggregate : curve.Point)
        → s.state ≡ keys
        → place s.key_shares seat ≡ none
        → verify_game_key_share curve hash (proof_context curve hash s) share ≡ true
        → count_missing with_share.key_shares ≡ 0
        → aggregate_public_keys curve (keys_of curve hash with_share.key_shares) ≡ ok aggregate
        → Answered
    unfolding accept_key_share
    last_share aggregate now empty fine full sum =
        let stage = subst (SetupStage curve hash hashing s) now h.setup_stage in
        let kept : Setup curve hash = record with_share { aggregate_key = some aggregate } in
        let keyed : Keyed curve hash hashing kept = (full, (aggregate, refl, sum)) in
        elim (Bool-cases s.beacon_required) [
          | inl required ↦
              let (b, starts, sound, state, table) =
                beacon_starts s.game_id s.round s.seat_count h.in_round h.table.0 h.table.1
                  h.game_size in
              (
                record with_share {
                  state = rand_commit;
                  aggregate_key = some aggregate;
                  beacon = some b;
                },
                setup_accepted seat rand_commit,
                ground arith,
                with_share-IsSetup rand_commit (some aggregate) (some b) fine
                    (keyed, (b, refl, sound, state, table, required)),
              )
          | inr optional ↦ (
            record with_share { state = setup_complete; aggregate_key = some aggregate },
            setup_accepted seat setup_complete,
            ground arith,
            with_share-IsSetup setup_complete (some aggregate) s.beacon fine
                (keyed, inl (optional, stage.2)),
          )
        ]

    failed_lem :
        (e : MaskError)
        → e ≢ no_keys
        → classify_aggregate curve hash s seat (err e) ≡ ok aggregate_failed
    failed_lem no_keys h = absurd (h refl)
    failed_lem identity_key h = refl
    failed_lem identity_aggregate h = refl
    failed_lem zero_randomness h = refl
    failed_lem zero_secret h = refl

    -- The last share, when they have none.
    no_sum :
        (e : MaskError)
        → s.state ≡ keys
        → place s.key_shares seat ≡ none
        → verify_game_key_share curve hash (proof_context curve hash s) share ≡ true
        → count_missing with_share.key_shares ≡ 0
        → aggregate_public_keys curve (keys_of curve hash with_share.key_shares) ≡ err e
        → Answered
    unfolding accept_key_share
    no_sum e now empty fine full sum =
        let stage = subst (SetupStage curve hash hashing s) now h.setup_stage in
        let size = length-set s.key_shares seat (some share) in
        let (p, points, is) = some_key with_share.key_shares full (omega (arith, h.places, low)) in
        let some_keys : e ≢ no_keys =
          aggregate_err curve p points e
            (subst (λ l. aggregate_public_keys curve l ≡ err e) is sum) in
        (
          record with_share { state = setup_failed },
          aggregate_failed,
          ground (arith, failed_lem e some_keys),
          with_share-IsSetup setup_failed s.aggregate_key s.beacon fine
              (full, stage.1, stage.2, (e, sum)),
        )

    -- A key share for a seat of the table is answered, never thrown at, and the setup stays sound: each
    -- share that is kept has a proof that is accepted, the sum of the keys is there exactly after all
    -- shares, and then the beacon starts if it is required.
    pub accept_key_share-IsSetup : Answered
    unfolding accept_key_share
    accept_key_share-IsSetup = elim (Option-cases (place s.key_shares seat)) [
      | inr (existing, taken) ↦ (
        s,
        (if equal_key_shares curve hash existing share
            then setup_duplicate seat s.state
            else setup_rejected seat s.state conflicting_key_share),
        ground arith,
        h,
      )
      | inl empty ↦ elim (SetupState-cases s.state) [
        | inr (inr (inr (inr failed))) ↦
            (s, setup_rejected seat s.state after_failure, ground arith, h)
        | inr (inl t) ↦ (s, setup_rejected seat s.state invalid_key_proof, ground arith, h)
        | inr (inr (inl t)) ↦ (s, setup_rejected seat s.state invalid_key_proof, ground arith, h)
        | inr (inr (inr (inl t))) ↦
            (s, setup_rejected seat s.state invalid_key_proof, ground arith, h)
        | inl now ↦
            elim (Bool-cases
              (verify_game_key_share curve hash (proof_context curve hash s) share)) [
                | inr refused ↦ (s, setup_rejected seat keys invalid_key_proof, ground arith, h)
                | inl fine ↦ elim (Bool-cases (count_missing with_share.key_shares == 0)) [
                  | inr more ↦
                      let stage = subst (SetupStage curve hash hashing s) now h.setup_stage in
                      (
                        record with_share { state = keys },
                        setup_accepted seat keys,
                        ground arith,
                        with_share-IsSetup keys s.aggregate_key s.beacon fine
                            (ground arith, stage.1, stage.2),
                      )
                  | inl full ↦
                      elim (Result-cases
                        (aggregate_public_keys curve (keys_of curve hash with_share.key_shares))) [
                          | inl (aggregate, sum) ↦
                              last_share aggregate now empty fine (ground arith) sum
                          | inr (e, refused) ↦ no_sum e now empty fine (ground arith) refused
                        ]
                ]
              ]
      ]
    ]
