-- ===== src/Engine/Setup/Seeds/Steps.antt =====
-- packages/engine/src/setup-coordinator.ts: a setup that moves in step with its beacon.
use tablefolk.Base.{◌≡◌, refl, sym, ◌∙◌, ap, subst, true, some, Result, ok, inl, inr}
use tablefolk.Protocol.Hashes.{Hashing}
use tablefolk.Protocol.Challenges.{WideHash}
use tablefolk.Deck.Curve.{Curve}
use tablefolk.Engine.Beacon.{
  Beacon, BeaconState, committing, revealing, complete, BeaconResult, BeaconError, accepted,
  duplicate, rejected,
}
use tablefolk.Engine.Beacon.Sound.{IsBeacon, Counts, Moves}
use tablefolk.Engine.Setup.{
  SetupError, Setup, SetupState, keys, rand_commit, rand_reveal, setup_complete, setup_failed,
  SetupResult, setup_state_for, setup_state_of, map_beacon_result,
}
use tablefolk.Engine.Setup.Sound.{Keyed, Drawing, SetupStage, IsSetup}
use tablefolk.Engine.Setup.Seeds.{synced, record_with}

module _ (curve : Curve) (hash : WideHash) (hashing : Hashing) where
  -- A beacon that is there is sound and in step with the setup.
  unfoldable pub InStep : Setup curve hash → Beacon → Type 0
  InStep s b =
      Keyed curve hash hashing s
      × IsBeacon hashing b
      × (s.state ≡ setup_state_for b.state)
      × (b.seat_count ≡ s.seat_count)
      × (s.beacon_required ≡ true)

  of_Drawing :
      (s : Setup curve hash) (b : Beacon) (t : BeaconState)
      → s.beacon ≡ some b
      → s.state ≡ setup_state_for t
      → Keyed curve hash hashing s
      → Drawing curve hash hashing s t
      → InStep s b
  unfolding InStep
  of_Drawing s b t has now keyed (c, has_c, sound, state, table, required) =
      let same : c ≡ b = cc (has, has_c) in
      subst
        (λ d.
          Keyed curve hash hashing s
          × IsBeacon hashing d
          × (s.state ≡ setup_state_for d.state)
          × (d.seat_count ≡ s.seat_count)
          × (s.beacon_required ≡ true))
        same (keyed, sound, now ∙ ap setup_state_for (sym state), table, required)

  pub in_step :
      (s : Setup curve hash) (b : Beacon) (t : SetupState)
      → s.beacon ≡ some b
      → s.state ≡ t
      → SetupStage curve hash hashing s t
      → InStep s b
  in_step s b keys has now stage = absurd (cc (has, stage.2))
  in_step s b rand_commit has now stage = of_Drawing s b committing has now stage.0 stage.1
  in_step s b rand_reveal has now stage = of_Drawing s b revealing has now stage.0 stage.1
  in_step s b setup_complete has now (keyed, inl optional) = absurd (cc (has, optional.1))
  in_step s b setup_complete has now (keyed, inr drawing) =
      of_Drawing s b complete has now keyed drawing
  in_step s b setup_failed has now stage = absurd (cc (has, stage.2))

  -- The setup after the beacon took a message.
  abbrev taken : Setup curve hash → Beacon → Setup curve hash
  taken s next = record s { beacon = some next; state = synced curve hash s.state next.state }

  synced_is :
      (x : SetupState) (t u : BeaconState)
      → x ≡ setup_state_for t
      → Moves t u
      → synced curve hash x u ≡ setup_state_for u
  synced_is x committing committing e m = e
  synced_is x committing revealing e m = refl
  synced_is x committing complete e m = absurd m
  synced_is x revealing committing e m = absurd m
  synced_is x revealing revealing e m = refl
  synced_is x revealing complete e m = refl
  synced_is x complete u e m = absurd m

  stage_of :
      (s : Setup curve hash) (u : BeaconState)
      → Keyed curve hash hashing s
      → Drawing curve hash hashing s u
      → SetupStage curve hash hashing s (setup_state_for u)
  stage_of s committing keyed drawing = (keyed, drawing)
  stage_of s revealing keyed drawing = (keyed, drawing)
  stage_of s complete keyed drawing = (keyed, inr drawing)

  taken-IsSetup :
      (s : Setup curve hash) (b next : Beacon)
      → IsSetup curve hash hashing s
      → InStep s b
      → IsBeacon hashing next
      → next.seat_count ≡ b.seat_count
      → Moves b.state next.state
      → IsSetup curve hash hashing (taken s next)
  unfolding InStep
  taken-IsSetup s b next h (keyed, was_sound, step, table, required) sound same moves = record {
    table = h.table;
    in_round = h.in_round;
    game_size = h.game_size;
    places = h.places;
    verified = h.verified;
    setup_stage =
        subst (SetupStage curve hash hashing (taken s next))
          (sym (synced_is s.state b.state next.state step moves))
          (stage_of (taken s next) next.state keyed
            (next, refl, sound, refl, same ∙ table, required));
  }

  -- A message that the beacon answers is answered by the setup.
  unfoldable pub Recorded :
      Setup curve hash → Result SetupError (Setup curve hash × SetupResult) → Type 0
  Recorded s outcome =
      (next : Setup curve hash) × (r : SetupResult) × (outcome ≡ ok (next, r))
      × IsSetup curve hash hashing next

  pub record_with-IsSetup :
      (s : Setup curve hash) (b next : Beacon) (r : BeaconResult)
      (give : Beacon → Result BeaconError (Beacon × BeaconResult))
      → IsSetup curve hash hashing s
      → s.beacon ≡ some b
      → InStep s b
      → give b ≡ ok (next, r)
      → IsBeacon hashing next
      → Counts hashing b next r
      → Recorded s (record_with curve hash s give (map_beacon_result r (setup_state_of r)))
  unfolding Recorded
  record_with-IsSetup s b next (accepted seat t) give h has step given sound counts =
      let moves = subst (Moves b.state) (sym counts.1) counts.3 in
      (
        taken s next,
        map_beacon_result (accepted seat t) (taken s next).state,
        rw (has, given) refl,
        taken-IsSetup s b next h step sound counts.2 moves,
      )
  record_with-IsSetup s b next (duplicate seat t) give h has step given sound counts =
      (s, map_beacon_result (duplicate seat t) (setup_state_for t), refl, h)
  record_with-IsSetup s b next (rejected seat t reason) give h has step given sound counts =
      (s, map_beacon_result (rejected seat t reason) (setup_state_for t), refl, h)
