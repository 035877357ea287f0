-- ===== src/Engine/Beacon/Runs.antt =====
-- packages/engine/src/randomness-beacon.ts: a beacon from its start to its seed.
use mathlib.Core.List.{append-nil, append_assoc}
use tablefolk.Base.{
  ℕ, ◌*◌, ◌≤◌, ◌<◌, ◌≡◌, ◌↔◌, refl, sym, ◌∙◌, ap, subst, List, [], ◌∷◌, ◌++◌, none, Result, ok,
  ◌>>=◌, arith, length, All, replicate,
}
use tablefolk.Session.Bytes.{Bytes, IsBytes}
use tablefolk.Protocol.Value.{max_safe_integer}
use tablefolk.Protocol.Schema.{parse_fixed_bytes}
use tablefolk.Protocol.Hashes.{Hashing}
use tablefolk.Protocol.Hashes.Binding.{IsHashing}
use tablefolk.Engine.Beacon.{
  BeaconError, BeaconResult, duplicate, rejected, committing, complete, accepted, Beacon, place,
  new_beacon, accept_commitment, accept_reveal,
}
use tablefolk.Engine.Beacon.Places.{
  count_missing-replicate, length-replicate, place-replicate, count_missing_zero,
}
use tablefolk.Engine.Beacon.Logs.{
  Message, commitment, secret, commitments_of, secrets_of, held, commitments_of-append,
  secrets_of-append, held_all, taken_commitment, taken_reveal, held-set,
}
use tablefolk.Engine.Beacon.Accepts.{accept_commitment-IsBeacon, accept_reveal-IsBeacon}
use tablefolk.Engine.Beacon.Sound.{IsBeacon, Counts, complete_iff, work}

abbrev pub IsMessage : ℕ → Message → Type 0
IsMessage seats (commitment seat c) = (seat < seats) × (length c ≡ 32) × IsBytes c
IsMessage seats (secret seat s) = (seat < seats) × (length s ≡ 32)

-- The next beacon, and the message if it was accepted.
abbrev pub logged : Message → Beacon × BeaconResult → Beacon × List Message
logged m (next, accepted seat s) = (next, m ∷ [])
logged m (next, other) = (next, [])

abbrev pub give : Hashing → Beacon → Message → Result BeaconError (Beacon × List Message)
give hashing b (commitment seat c) = do
  outcome ← accept_commitment b seat c
  ok (logged (commitment seat c) outcome)
give hashing b (secret seat s) = do
  outcome ← accept_reveal hashing b seat s
  ok (logged (secret seat s) outcome)

-- A sequence of messages, with those accepted.
unfoldable pub run_messages :
    Hashing → Beacon → List Message → Result BeaconError (Beacon × List Message)
run_messages hashing b [] = ok (b, [])
run_messages hashing b (m ∷ messages) = do
  first ← give hashing b m
  rest ← run_messages hashing first.0 messages
  ok (rest.0, first.1 ++ rest.1)

module _ (hashing : Hashing) where
  -- The beacon that a constructor gives.
  abbrev fresh : Bytes → ℕ → ℕ → Beacon
  fresh game_id round seats = record {
    game_id = game_id;
    round = round;
    seat_count = seats;
    commitments = replicate seats none;
    reveals = replicate seats none;
    state = committing;
    seed = none;
  }

  new_beacon-fresh :
      (game_id : Bytes) (round seats : ℕ) (b : Beacon)
      → new_beacon game_id round seats ≡ ok b
      → (fresh game_id round seats ≡ b) × (round ≤ max_safe_integer) × (3 ≤ seats) × (seats ≤ 8)
  unfolding new_beacon parse_fixed_bytes
  new_beacon-fresh game_id round seats b h =
      (ground arith, ground arith, ground arith, ground arith)

  fresh-IsBeacon :
      (game_id : Bytes) (round seats : ℕ)
      → round ≤ max_safe_integer
      → 3 ≤ seats
      → seats ≤ 8
      → IsBeacon hashing (fresh game_id round seats)
  fresh-IsBeacon game_id round seats safe few many = record {
    table = (few, many);
    in_round = safe;
    commitment_places = length-replicate Bytes seats;
    reveal_places = length-replicate Bytes seats;
    stage = (
      omega (arith, count_missing-replicate Bytes seats),
      count_missing-replicate Bytes seats ∙ sym (length-replicate Bytes seats),
      refl,
    );
    of_bytes = λ seat c e. absurd (cc (place-replicate seats seat));
    opened = λ seat s e. absurd (cc (place-replicate seats seat));
  }

  -- A new beacon is sound, and waits for two messages of each seat.
  pub new_beacon-IsBeacon :
      (game_id : Bytes) (round seats : ℕ) (b : Beacon)
      → new_beacon game_id round seats ≡ ok b
      → IsBeacon hashing b × (work hashing b ≡ 2 * seats) × (b.seat_count ≡ seats)
  new_beacon-IsBeacon game_id round seats b h =
      let (is_fresh, safe, few, many) = new_beacon-fresh game_id round seats b h in
      (
        subst (IsBeacon hashing) is_fresh (fresh-IsBeacon game_id round seats safe few many),
        subst (λ c. work hashing c ≡ 2 * seats) is_fresh
            (omega (arith, count_missing-replicate Bytes seats)),
        ap (λ c. c.seat_count) (sym is_fresh),
      )

  -- What the messages that a beacon accepted make of it: each seat's place holds what it held and the
  -- seat's accepted messages.
  abbrev Holds : Beacon → Beacon → List Message → Type 0
  Holds b next log =
      (seat : ℕ)
      → (held (place next.commitments seat)
          ≡ held (place b.commitments seat) ++ commitments_of seat log)
        × (held (place next.reveals seat) ≡ held (place b.reveals seat) ++ secrets_of seat log)

  abbrev Follows : Beacon → Beacon → List Message → Type 0
  Follows b next log = IsBeacon hashing next × (next.seat_count ≡ b.seat_count) × Holds b next log

  unchanged-Follows : (b next : Beacon) → IsBeacon hashing next → next ≡ b → Follows b next []
  unchanged-Follows b next h same = (
    h,
    ap (λ c. c.seat_count) same,
    λ seat. (
      ap (λ c. held (place c.commitments seat)) same ∙ sym (append-nil _),
      ap (λ c. held (place c.reveals seat)) same ∙ sym (append-nil _),
    ),
  )

  commitment-Follows :
      (b next : Beacon) (seat : ℕ) (c : Bytes) (r : BeaconResult)
      → IsBeacon hashing b
      → seat < b.seat_count
      → accept_commitment b seat c ≡ ok (next, r)
      → IsBeacon hashing next
      → Counts hashing b next r
      → ((logged (commitment seat c) (next, r)).0 ≡ next)
        × Follows b next (logged (commitment seat c) (next, r)).1
  commitment-Follows b next seat c (duplicate i t) was low given h counts =
      (refl, unchanged-Follows b next h counts)
  commitment-Follows b next seat c (rejected i t reason) was low given h counts =
      (refl, unchanged-Follows b next h counts)
  commitment-Follows b next seat c (accepted i t) was low given h counts =
      let (empty, put, kept) = taken_commitment b next seat i c t given in
      (
        refl,
        (
          h,
          counts.2,
          λ s. (
            ap (λ xs. held (place xs s)) put
                ∙ held-set b.commitments seat c s (omega (arith, was.commitment_places)) empty,
            ap (λ xs. held (place xs s)) kept ∙ sym (append-nil _),
          ),
        ),
      )

  secret-Follows :
      (b next : Beacon) (seat : ℕ) (c : Bytes) (r : BeaconResult)
      → IsBeacon hashing b
      → seat < b.seat_count
      → accept_reveal hashing b seat c ≡ ok (next, r)
      → IsBeacon hashing next
      → Counts hashing b next r
      → ((logged (secret seat c) (next, r)).0 ≡ next)
        × Follows b next (logged (secret seat c) (next, r)).1
  secret-Follows b next seat c (duplicate i t) was low given h counts =
      (refl, unchanged-Follows b next h counts)
  secret-Follows b next seat c (rejected i t reason) was low given h counts =
      (refl, unchanged-Follows b next h counts)
  secret-Follows b next seat c (accepted i t) was low given h counts =
      let (empty, put, kept) = taken_reveal hashing b next seat i c t given in
      (
        refl,
        (
          h,
          counts.2,
          λ s. (
            ap (λ xs. held (place xs s)) kept ∙ sym (append-nil _),
            ap (λ xs. held (place xs s)) put
                ∙ held-set b.reveals seat c s (omega (arith, was.reveal_places)) empty,
          ),
        ),
      )

  give-IsBeacon :
      (b : Beacon) (m : Message)
      → IsHashing hashing
      → IsBeacon hashing b
      → IsMessage b.seat_count m
      → (next : Beacon) × (log : List Message) × (give hashing b m ≡ ok (next, log))
        × Follows b next log
  give-IsBeacon b (commitment seat c) hash h m =
      let (next, r, given, kept, counts) =
        accept_commitment-IsBeacon hashing b h seat m.0 c m.1 m.2 in
      let (same, follows) = commitment-Follows b next seat c r h m.0 given kept counts in
      let log = (logged (commitment seat c) (next, r)).1 in
      (next, log, rw given (ap (λ x. ok (x, log)) same), follows)
  give-IsBeacon b (secret seat s) hash h m =
      let (next, r, given, kept, counts) = accept_reveal-IsBeacon hashing b h seat m.0 hash s m.1 in
      let (same, follows) = secret-Follows b next seat s r h m.0 given kept counts in
      let log = (logged (secret seat s) (next, r)).1 in
      (next, log, rw given (ap (λ x. ok (x, log)) same), follows)

  -- What two runs after one another make of a place.
  both :
      (x u v : List Bytes) {y z w : List Bytes} → y ≡ x ++ u → z ≡ y ++ v → w ≡ u ++ v → z ≡ x ++ w
  both x u v first second whole =
      second ∙ ap (λ l. l ++ v) first ∙ append_assoc x u v ∙ ap (◌++◌ x) (sym whole)

  run_messages-IsBeacon :
      (b : Beacon) (messages : List Message)
      → IsHashing hashing
      → IsBeacon hashing b
      → All (IsMessage b.seat_count) messages
      → (next : Beacon) × (log : List Message) × (run_messages hashing b messages ≡ ok (next, log))
        × Follows b next log
  unfolding run_messages
  run_messages-IsBeacon b [] hash h m = (b, [], refl, unchanged-Follows b b h refl)
  run_messages-IsBeacon b (m ∷ messages) hash h ms =
      let (first, l, given, (kept, seats, holds)) = give-IsBeacon b m hash h ms.0 in
      let (last, k, ran, (kept_on, seats_on, holds_on)) =
        run_messages-IsBeacon first messages hash kept
          (subst (λ s. All (IsMessage s) messages) (sym seats) ms.1) in
      (
        last,
        l ++ k,
        rw (given, ran) refl,
        (
          kept_on,
          seats_on ∙ seats,
          λ s. (
            both (held (place b.commitments s)) (commitments_of s l) (commitments_of s k)
                (holds s).0 (holds_on s).0 (commitments_of-append s l k),
            both (held (place b.reveals s)) (secrets_of s l) (secrets_of s k) (holds s).1
                (holds_on s).1 (secrets_of-append s l k),
          ),
        ),
      )

  -- A beacon is complete when each place holds a message, and only then.
  complete_held :
      (b : Beacon)
      → IsBeacon hashing b
      → (b.state ≡ complete) ↔ (
          (seat : ℕ)
          → seat < b.seat_count
          → (length (held (place b.commitments seat)) ≡ 1)
            × (length (held (place b.reveals seat)) ≡ 1))
  complete_held b h = (
    λ done seat low.
        let no_work = (complete_iff hashing b h).0 done in
        let (c, has_c) =
          count_missing_zero b.commitments seat (omega (arith, h.commitment_places))
            (omega arith) in
        let (s, has_s) =
          count_missing_zero b.reveals seat (omega (arith, h.reveal_places)) (omega arith) in
        (rw has_c refl, rw has_s refl),
    λ full. (complete_iff hashing b h).1 (
        omega (
          arith,
          held_all b.commitments (λ i low. (full i (omega (arith, h.commitment_places))).0),
          held_all b.reveals (λ i low. (full i (omega (arith, h.reveal_places))).1),
        )),
  )

  -- A new beacon answers any sequence of well-formed messages, in any order and with repetitions,
  -- without a throw, and its invariant holds after them. Of each seat, it then holds exactly the
  -- commitments and exactly the secrets that it accepted, so at most one of each. It is complete
  -- exactly if it accepted one commitment and one secret of each seat.
  pub beacon_runs :
      (game_id : Bytes) (round seats : ℕ) (b : Beacon) (messages : List Message)
      → IsHashing hashing
      → new_beacon game_id round seats ≡ ok b
      → All (IsMessage seats) messages
      → (next : Beacon) × (log : List Message) × (run_messages hashing b messages ≡ ok (next, log))
        × IsBeacon hashing next
        × ((seat : ℕ)
            → (commitments_of seat log ≡ held (place next.commitments seat))
              × (secrets_of seat log ≡ held (place next.reveals seat)))
        × ((next.state ≡ complete) ↔ (
            (seat : ℕ)
            → seat < seats
            → (length (commitments_of seat log) ≡ 1) × (length (secrets_of seat log) ≡ 1)))
  beacon_runs game_id round seats b messages hash new ms =
      let (is_fresh, safe, few, many) = new_beacon-fresh game_id round seats b new in
      let (h, todo, table) = new_beacon-IsBeacon game_id round seats b new in
      let (next, log, ran, (kept, same_table, holds)) =
        run_messages-IsBeacon b messages hash h
          (subst (λ s. All (IsMessage s) messages) (sym table) ms) in
      let empty_c : (seat : ℕ) → place b.commitments seat ≡ none =
        subst (λ d. (seat : ℕ) → place d.commitments seat ≡ none) is_fresh
          (place-replicate seats) in
      let empty_r : (seat : ℕ) → place b.reveals seat ≡ none =
        subst (λ d. (seat : ℕ) → place d.reveals seat ≡ none) is_fresh (place-replicate seats) in
      let same : (seat : ℕ)
          → (commitments_of seat log ≡ held (place next.commitments seat))
            × (secrets_of seat log ≡ held (place next.reveals seat)) =
        λ seat. (
          sym ((holds seat).0 ∙ ap (λ o. held o ++ commitments_of seat log) (empty_c seat)),
          sym ((holds seat).1 ∙ ap (λ o. held o ++ secrets_of seat log) (empty_r seat)),
        ) in
      let done = complete_held next kept in
      let size : next.seat_count ≡ seats = same_table ∙ table in
      (
        next,
        log,
        ran,
        kept,
        same,
        (
          λ e seat low.
              let (c, s) = done.0 e seat (omega arith) in
              (ap length (same seat).0 ∙ c, ap length (same seat).1 ∙ s),
          λ full. done.1 (λ seat low.
              let (c, s) = full seat (omega arith) in
              (ap length (sym (same seat).0) ∙ c, ap length (sym (same seat).1) ∙ s)),
        ),
      )
