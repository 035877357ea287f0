-- ===== src/Session/Equivocation/Judged.antt =====
-- packages/session/src/equivocation.ts: an equivocation leads to evidence that every player accepts.
use tablefolk.Base.{
  ℕ, suc, ◌+◌, ◌≡◌, refl, sym, ◌∙◌, ap, subst, true, List, [], ◌∷◌, some, map, ok, arith, leb,
  get_elem?, Bool-cases, inl, inr,
}
use mathlib.Core.Option
use tablefolk.Session.Bytes.{Bytes, IsBytes, bytes_to_hex}
use tablefolk.Session.Bytes.Laws.{bytes_equal_iff, bytes_to_hex-injective, text_equal→eq}
use tablefolk.Protocol.Canonical.Orders.{IsCbor}
use tablefolk.Protocol.Envelope.{Artifact, Signing}
use tablefolk.Protocol.Violation.{Violation, in_order, compare_bytes, is_less}
use tablefolk.Protocol.Violation.Evidence.{
  IsConflict, IsConflict-sym, violation, Written-ordered, hash_sizes, compare-different,
}
use tablefolk.Session.Registry.{Registry, RosterEntry, has_key, entry_for, seat_of}
use tablefolk.Session.Equivocation.{
  valid, roster_of, assess_copied, assess_equivocation_violation, create_equivocation_violation,
}

-- The entries from a seat on stand at their seats, and their keys are bytes.
abbrev pub Seated : ℕ → List RosterEntry → Type 0
Seated seat [] = Unit {0}
Seated seat (e ∷ entries) = (e.seat ≡ seat) × IsBytes e.sender × Seated (suc seat) entries

-- The seat of a key is where the roster has it.
seat_of_entry :
    (first seat : ℕ) (entries : List RosterEntry) (sender : Bytes)
    → Seated first entries
    → IsBytes sender
    → Option.map (λ (e : RosterEntry). e.seat) (entry_for sender entries) ≡ some seat
    → (k : ℕ) × (seat ≡ first + k)
      × (get_elem? (map (λ (e : RosterEntry). e.sender) entries) k ≡ some sender)
seat_of_entry first seat [] sender s b h = cc
seat_of_entry first seat (e ∷ entries) sender s b h = elim (Bool-cases (has_key sender e)) [
  | inl here ↦
      let found : some e.seat ≡ some seat = rw here at h in
      let same =
        bytes_to_hex-injective e.sender sender s.1 b
          (text_equal→eq (bytes_to_hex e.sender) (bytes_to_hex sender) here) in
      let is : e.seat ≡ seat = cc found in (0, omega (arith, is, s.0), ap some same)
  | inr later ↦
      let (k, at, there) = seat_of_entry (suc first) seat entries sender s.2 b (rw later at h) in
      (suc k, omega (arith, at), there)
]

module _ (signing : Signing) where
  -- A table at which the sender of an envelope has a seat.
  pub record IsSeat (registry : Registry) (seat : ℕ) (a : Artifact) : Type 0 where
    pub seated : Seated 0 registry.entries
    pub small : leb seat 7 ≡ true
    pub game_bytes : IsBytes a.envelope.game
    pub from_bytes : IsBytes a.envelope.from
    pub own_game : a.envelope.game ≡ registry.game_id
    pub own_seat : seat_of registry a.envelope.from ≡ some seat

  assess_copied_seat :
      (registry : Registry) (seat : ℕ) (left right : Artifact)
      → IsSeat registry seat left
      → assess_copied signing registry (violation signing seat left right)
        ≡ valid seat left.envelope.from (violation signing seat left right)
  unfolding assess_copied seat_of
  assess_copied_seat registry seat left right s =
      let (k, at, there) =
        seat_of_entry 0 seat registry.entries left.envelope.from s.seated s.from_bytes s.own_seat in
      let seat_is : k ≡ seat = omega (arith, at) in
      let there' =
        subst (λ n. get_elem? (roster_of registry) n ≡ some left.envelope.from) seat_is there in
      let game =
        (bytes_equal_iff left.envelope.game registry.game_id s.game_bytes
            (subst IsBytes s.own_game s.game_bytes)).1
          s.own_game in
      let from =
        (bytes_equal_iff left.envelope.from left.envelope.from s.from_bytes s.from_bytes).1 refl in
      rw game (ground (arith, there', from))

  -- Evidence in order is made by both orders of its envelopes, and is judged valid.
  abbrev Proven : Registry → ℕ → Artifact → Artifact → Violation → Type 0
  Proven registry seat left right body =
      (create_equivocation_violation signing registry left right ≡ ok body)
      × (create_equivocation_violation signing registry right left ≡ ok body)
      × (assess_equivocation_violation signing registry body ≡ valid seat left.envelope.from body)

  Proven-ordered :
      (registry : Registry) (seat : ℕ) (left right : Artifact)
      → IsCbor signing.hashing.cbor
      → IsConflict signing left right
      → IsSeat registry seat left
      → is_less (compare_bytes left.hash right.hash) ≡ true
      → Proven registry seat left right (violation signing seat left right)
  unfolding create_equivocation_violation
  Proven-ordered registry seat left right lib c s less =
      let (v, one, other, back) = Written-ordered signing seat left right lib s.small c less in
      let judged = assess_copied_seat registry seat left right s in
      let right_seat = subst (λ b. seat_of registry b ≡ some seat) c.one_sender s.own_seat in
      let assessed : assess_equivocation_violation signing registry
            (violation signing seat left right)
          ≡ valid seat left.envelope.from (violation signing seat left right) =
        rw (one, back) judged in
      (
        rw (c.left_genuine, s.own_seat) (rw (one, back) (rw assessed refl)),
        rw (c.right_genuine, right_seat) (rw (other, back) (rw assessed refl)),
        assessed,
      )

  -- Two different genuine envelopes under one number of one chain of a player at the table make
  -- evidence, the same one in whichever order they are given, and every session of the same game and
  -- roster judges it valid against that player.
  pub create_equivocation_violation-valid :
      (registry : Registry) (seat : ℕ) (left right : Artifact)
      → IsCbor signing.hashing.cbor
      → IsConflict signing left right
      → IsSeat registry seat left
      → let (first, second) = in_order left right in
        let body = violation signing seat first second in
        (create_equivocation_violation signing registry left right ≡ ok body)
        × (create_equivocation_violation signing registry right left ≡ ok body)
        × (assess_equivocation_violation signing registry body ≡ valid seat left.envelope.from body)
  create_equivocation_violation-valid registry seat left right lib c s =
      elim (Bool-cases (is_less (compare_bytes left.hash right.hash))) [
        | inl less ↦ rw less (Proven-ordered registry seat left right lib c s less)
        | inr not_less ↦
            let less =
              compare-different left.hash right.hash (hash_sizes signing left right lib c)
                c.different not_less in
            let (one, other, judged) =
              Proven-ordered registry seat right left lib (IsConflict-sym signing c)
                (other_seat registry seat left right c s) less in
            rw not_less (
              other,
              one,
              judged
                  ∙ ap (λ b. valid seat b (violation signing seat right left)) (sym c.one_sender),
            )
      ]
    where
      other_seat :
          (r : Registry) (n : ℕ) (a b : Artifact)
          → IsConflict signing a b
          → IsSeat r n a
          → IsSeat r n b
      other_seat r n a b d t = record {
        seated = t.seated;
        small = t.small;
        game_bytes = d.game_bytes;
        from_bytes = d.from_bytes;
        own_game = sym d.one_game ∙ t.own_game;
        own_seat = subst (λ x. seat_of r x ≡ some n) d.one_sender t.own_seat;
      }
