-- ===== src/Engine/Beacon/Accepts.antt =====
-- packages/engine/src/randomness-beacon.ts: what an answered message makes of a beacon.
use tablefolk.Base.{
  ℕ, ◌<◌, ◌≡◌, refl, sym, subst, List, Option, none, some, ok, arith, length, set, length-set,
  Option-cases, Bool-cases, inl, inr, Bool, true, false, ◌==◌, if◌then◌else◌,
}
use tablefolk.Session.Bytes.{Bytes, IsBytes, bytes_equal}
use tablefolk.Protocol.Hashes.{Hashing, beacon_commitment}
use tablefolk.Protocol.Hashes.Binding.{IsHashing, beacon_commitment_ok}
use tablefolk.Session.Bytes.Laws.{bytes_equal_iff}
use tablefolk.Engine.Beacon.{
  BeaconState, committing, revealing, BeaconResult, accepted, Beacon, classify_against, place,
  count_missing, joined_secrets, accept_commitment, accept_reveal, duplicate, rejected,
  unexpected_reveal, conflicting_reveal, commitment_mismatch,
}
use tablefolk.Engine.Beacon.Places.{
  place-set_self, place-set_ne, count_missing-set, count_missing_zero, count_missing_all,
}
use tablefolk.Engine.Beacon.Sound.{
  Moves, Stage, Opens, IsBeacon, Counts, committed, revealed, State-cases, after_commitment,
  after_reveal,
}

-- What holds of the next state, whichever it is.
state_if :
    (P : BeaconState → Type 0) (q : Bool) {x y : BeaconState}
    → (q ≡ true → P x)
    → (q ≡ false → P y)
    → P (if q then x else y)
state_if P true f g = f refl
state_if P false f g = g refl

module _ (hashing : Hashing) where
  commitments_of_bytes :
      (xs : List (Option Bytes)) (i : ℕ) (c : Bytes)
      → i < length xs
      → IsBytes c
      → ((seat : ℕ) (d : Bytes) → place xs seat ≡ some d → IsBytes d)
      → (seat : ℕ) (d : Bytes) → place (set xs i (some c)) seat ≡ some d
      → IsBytes d
  commitments_of_bytes xs i c l h all seat d e = elim (Bool-cases (i == seat)) [
    | inl same ↦
        let d_is_c : c ≡ d = ground (arith, place-set_self xs i c l) in subst IsBytes d_is_c h
    | inr other ↦ all seat d (ground (arith, place-set_ne xs i seat c))
  ]

  module _ (b : Beacon) (h : IsBeacon hashing b) (seat : ℕ) (low : seat < b.seat_count) where
    committed-IsBeacon :
        (c : Bytes)
        → IsBytes c
        → b.state ≡ committing
        → place b.commitments seat ≡ none
        → IsBeacon hashing (committed hashing b seat c)
    committed-IsBeacon c c_bytes now empty =
        let early = subst (Stage hashing b) now h.stage in
        let fewer =
          count_missing-set b.commitments seat c (omega (arith, h.commitment_places)) empty in
        record {
          table = h.table;
          in_round = h.in_round;
          commitment_places =
              ground (arith, length-set b.commitments seat (some c), h.commitment_places);
          reveal_places = h.reveal_places;
          stage =
              state_if (Stage hashing (committed hashing b seat c))
                (count_missing b.commitments == 1) (λ last. ground arith) (λ more. ground arith);
          of_bytes =
              commitments_of_bytes b.commitments seat c (omega (arith, h.commitment_places)) c_bytes
                h.of_bytes;
          opened = λ s secret e. absurd (ground (arith, count_missing_all b.reveals s early.1));
        }

    -- A commitment of 32 bytes for a seat of the table is answered, never thrown at, and the invariant
    -- of the beacon is kept. An accepted one is one message less to wait for; a duplicate or rejected
    -- one changes nothing.
    pub accept_commitment-IsBeacon :
        (c : Bytes)
        → length c ≡ 32
        → IsBytes c
        → (next : Beacon) × (r : BeaconResult) × (accept_commitment b seat c ≡ ok (next, r))
          × IsBeacon hashing next
          × Counts hashing b next r
    unfolding accept_commitment
    accept_commitment-IsBeacon c size c_bytes = elim (Option-cases (place b.commitments seat)) [
      | inr (existing, taken) ↦
          (b, classify_against b seat c (some existing), ground arith, h, ground arith)
      | inl empty ↦ elim (State-cases b.state) [
        | inl now ↦ (
          committed hashing b seat c,
          accepted seat (after_commitment b),
          ground arith,
          committed-IsBeacon c c_bytes now empty,
          (
            ground (
              arith,
              count_missing-set b.commitments seat c (omega (arith, h.commitment_places)) empty,
            ),
            refl,
            refl,
            subst (λ t. Moves t (after_commitment b)) (sym now)
                (state_if (Moves committing) (count_missing b.commitments == 1) (λ l. tt)
                  (λ m. tt)),
          ),
        )
        | inr later ↦ (b, classify_against b seat c none, ground arith, h, ground arith)
      ]
    ]

    revealed_opened :
        (s c : Bytes)
        → place b.commitments seat ≡ some c
        → beacon_commitment hashing b.game_id b.round seat s ≡ ok c
        → (i : ℕ) (t : Bytes) → place (set b.reveals seat (some s)) i ≡ some t
        → Opens hashing b i t
    revealed_opened s c given opens i t e = elim (Bool-cases (i == seat)) [
      | inl same ↦
          let i_seat : seat ≡ i = ground arith in
          let t_is_s : s ≡ t =
            ground (arith, place-set_self b.reveals seat s (omega (arith, h.reveal_places))) in
          subst (λ j. Opens hashing b j t) i_seat
            (subst (Opens hashing b seat) t_is_s (c, given, opens))
      | inr other ↦ h.opened i t (ground (arith, place-set_ne b.reveals seat i s))
    ]

    revealed-IsBeacon :
        (s c : Bytes)
        → b.state ≡ revealing
        → place b.reveals seat ≡ none
        → place b.commitments seat ≡ some c
        → beacon_commitment hashing b.game_id b.round seat s ≡ ok c
        → IsBeacon hashing (revealed hashing b seat s)
    revealed-IsBeacon s c now empty given opens =
        let stage = subst (Stage hashing b) now h.stage in
        let fewer = count_missing-set b.reveals seat s (omega (arith, h.reveal_places)) empty in
        record {
          table = h.table;
          in_round = h.in_round;
          commitment_places = h.commitment_places;
          reveal_places = ground (arith, length-set b.reveals seat (some s), h.reveal_places);
          stage =
              state_if (Stage hashing (revealed hashing b seat s)) (count_missing b.reveals == 1)
                (λ last. ground arith) (λ more. ground arith);
          of_bytes = h.of_bytes;
          opened = revealed_opened s c given opens;
        }

    pub accept_reveal_match :
        IsHashing hashing
        → (s c : Bytes) → length s ≡ 32
        → place b.reveals seat ≡ none
        → b.state ≡ revealing
        → place b.commitments seat ≡ some c
        → beacon_commitment hashing b.game_id b.round seat s ≡ ok c
        → accept_reveal hashing b seat s
          ≡ ok (revealed hashing b seat s, accepted seat (after_reveal b))
    unfolding accept_reveal
    accept_reveal_match hash s c size empty now given opens =
        let match : bytes_equal c c ≡ true =
          (bytes_equal_iff c c (h.of_bytes seat c given) (h.of_bytes seat c given)).1 refl in
        ground (arith, hash.digest_size (joined_secrets (set b.reveals seat (some s))))

    -- A secret that is awaited: it opens the commitment of its seat or is refused.
    accept_opening :
        IsHashing hashing
        → (s : Bytes) → length s ≡ 32
        → place b.reveals seat ≡ none
        → b.state ≡ revealing
        → (next : Beacon) × (r : BeaconResult) × (accept_reveal hashing b seat s ≡ ok (next, r))
          × IsBeacon hashing next
          × Counts hashing b next r
    unfolding accept_reveal
    accept_opening hash s size empty now =
        let stage = subst (Stage hashing b) now h.stage in
        let (c, given) =
          count_missing_zero b.commitments seat (omega (arith, h.commitment_places)) stage.0 in
        let (e, opens, e_bytes) =
          beacon_commitment_ok hashing hash b.game_id b.round seat s h.in_round
            (omega (arith, h.table)) in
        let fewer = count_missing-set b.reveals seat s (omega (arith, h.reveal_places)) empty in
        elim (Bool-cases (bytes_equal c e)) [
          | inr mismatch ↦ (b, rejected seat revealing commitment_mismatch, ground arith, h, refl)
          | inl match ↦
              let same : e ≡ c =
                sym ((bytes_equal_iff c e (h.of_bytes seat c given) e_bytes).0 match) in
              let opens_c =
                subst (λ d. beacon_commitment hashing b.game_id b.round seat s ≡ ok d) same opens in
              (
                revealed hashing b seat s,
                accepted seat (after_reveal b),
                accept_reveal_match hash s c size empty now given opens_c,
                revealed-IsBeacon s c now empty given opens_c,
                (
                  ground arith,
                  refl,
                  refl,
                  subst (λ t. Moves t (after_reveal b)) (sym now)
                      (state_if (Moves revealing) (count_missing b.reveals == 1) (λ l. tt)
                        (λ m. tt)),
                ),
              )
        ]

    -- A secret of 32 bytes for a seat of the table is answered, never thrown at, and the invariant of
    -- the beacon is kept. An accepted one is one message less to wait for; a duplicate or rejected one
    -- changes nothing.
    pub accept_reveal-IsBeacon :
        IsHashing hashing
        → (s : Bytes) → length s ≡ 32
        → (next : Beacon) × (r : BeaconResult) × (accept_reveal hashing b seat s ≡ ok (next, r))
          × IsBeacon hashing next
          × Counts hashing b next r
    unfolding accept_reveal
    accept_reveal-IsBeacon hash s size = elim (Option-cases (place b.reveals seat)) [
      | inr (existing, taken) ↦ (
        b,
        (if bytes_equal existing s
            then duplicate seat b.state
            else rejected seat b.state conflicting_reveal),
        ground arith,
        h,
        ground arith,
      )
      | inl empty ↦ elim (State-cases b.state) [
        | inl early ↦ (b, rejected seat b.state unexpected_reveal, ground arith, h, refl)
        | inr (inl now) ↦ accept_opening hash s size empty now
        | inr (inr late) ↦ (b, rejected seat b.state unexpected_reveal, ground arith, h, refl)
      ]
    ]
