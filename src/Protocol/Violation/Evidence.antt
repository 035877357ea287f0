-- ===== src/Protocol/Violation/Evidence.antt =====
-- packages/protocol/src/violation.ts: evidence that is written and read again.
use tablefolk.Base.{
  ℕ, ◌≡◌, ◌≢◌, refl, sym, ◌∙◌, subst, Bool, true, false, [], ◌∷◌, some, ok, arith, length, leb,
  Bool-cases, inl, inr,
}
use tablefolk.Session.Bytes.{Bytes, IsBytes, bytes_equal}
use tablefolk.Session.Bytes.Laws.{bytes_equal_iff}
use tablefolk.Protocol.Value.{
  Value, integer, string, array, dict, end, field, items_of, max_safe_integer,
}
use tablefolk.Protocol.Canonical.Orders.{IsCbor}
use tablefolk.Protocol.Schema.{expect_integer_to}
use tablefolk.Protocol.Envelope.{Artifact, Signing}
use tablefolk.Protocol.Envelope.Opened.{decode_and_verify-IsOpened}
use tablefolk.Protocol.Requests.{read_envelopes}
use tablefolk.Protocol.Requests.Answers.{IsGenuine, genuine_value}
use tablefolk.Protocol.Violation.{
  Violation, equivocation_reason, compare_bytes, is_less, is_greater, in_order, same_scope,
  normalize_evidence, encode_violation_body, decode_violation_body,
}

greater-flip :
    (a b : Bytes)
    → length a ≡ length b
    → is_greater (compare_bytes a b) ≡ is_less (compare_bytes b a)
unfolding compare_bytes
greater-flip [] [] n = refl
greater-flip [] (y ∷ b) n = absurd (omega arith)
greater-flip (x ∷ a) [] n = absurd (omega arith)
greater-flip (x ∷ a) (y ∷ b) n = ground (arith, greater-flip a b)

-- Strings of one length that are in no order are equal.
compare-eq :
    (a b : Bytes)
    → length a ≡ length b
    → is_less (compare_bytes a b) ≡ false
    → is_less (compare_bytes b a) ≡ false
    → a ≡ b
unfolding compare_bytes
compare-eq [] [] n h k = refl
compare-eq [] (y ∷ b) n h k = absurd (omega arith)
compare-eq (x ∷ a) [] n h k = absurd (omega arith)
compare-eq (x ∷ a) (y ∷ b) n h k = ground (arith, compare-eq a b)

pub compare-different :
    (a b : Bytes)
    → length a ≡ length b
    → a ≢ b
    → is_less (compare_bytes a b) ≡ false
    → is_less (compare_bytes b a) ≡ true
compare-different a b n d h = elim (Bool-cases (is_less (compare_bytes b a))) [
  | inl less ↦ less
  | inr neither ↦ absurd (d (compare-eq a b n h neither))
]

less-not-flip :
    (a b : Bytes)
    → length a ≡ length b
    → is_less (compare_bytes a b) ≡ true
    → is_less (compare_bytes b a) ≡ false
unfolding compare_bytes
less-not-flip [] b n h = cc
less-not-flip (x ∷ a) [] n h = cc
less-not-flip (x ∷ a) (y ∷ b) n h = ground (arith, less-not-flip a b)

module _ (signing : Signing) where
  -- Two different genuine envelopes under one number of one chain.
  pub record IsConflict (left right : Artifact) : Type 0 where
    pub left_genuine : IsGenuine signing left
    pub right_genuine : IsGenuine signing right
    pub one_game : left.envelope.game ≡ right.envelope.game
    pub one_sender : left.envelope.from ≡ right.envelope.from
    pub one_seq : left.envelope.seq ≡ right.envelope.seq
    pub different : left.hash ≢ right.hash
    pub game_bytes : IsBytes right.envelope.game
    pub from_bytes : IsBytes right.envelope.from
    pub left_hash_bytes : IsBytes left.hash
    pub right_hash_bytes : IsBytes right.hash

  pub IsConflict-sym : {left right : Artifact} → IsConflict left right → IsConflict right left
  IsConflict-sym c = record {
    left_genuine = c.right_genuine;
    right_genuine = c.left_genuine;
    one_game = sym c.one_game;
    one_sender = sym c.one_sender;
    one_seq = sym c.one_seq;
    different = λ e. c.different (sym e);
    game_bytes = subst IsBytes (sym c.one_game) c.game_bytes;
    from_bytes = subst IsBytes (sym c.one_sender) c.from_bytes;
    left_hash_bytes = c.right_hash_bytes;
    right_hash_bytes = c.left_hash_bytes;
  }

  same_scope-conflict :
      (left right : Artifact) → IsConflict left right → same_scope left right ≡ true
  same_scope-conflict left right c =
      let game =
        (bytes_equal_iff left.envelope.game right.envelope.game
            (subst IsBytes (sym c.one_game) c.game_bytes) c.game_bytes).1
          c.one_game in
      let from =
        (bytes_equal_iff left.envelope.from right.envelope.from
            (subst IsBytes (sym c.one_sender) c.from_bytes) c.from_bytes).1
          c.one_sender in
      ground (arith, game, from, c.one_seq)

  hashes-conflict :
      (left right : Artifact) → IsConflict left right → bytes_equal left.hash right.hash ≡ false
  hashes-conflict left right c = elim (Bool-cases (bytes_equal left.hash right.hash)) [
    | inl same ↦ absurd (
        c.different
          ((bytes_equal_iff left.hash right.hash c.left_hash_bytes c.right_hash_bytes).0 same))
    | inr apart ↦ apart
  ]

  pub hash_sizes :
      (left right : Artifact)
      → IsCbor signing.hashing.cbor
      → IsConflict left right
      → length left.hash ≡ length right.hash
  hash_sizes left right lib c =
      (decode_and_verify-IsOpened signing left.canonical_bytes left lib c.left_genuine).hash_size
      ∙ sym
          (decode_and_verify-IsOpened signing right.canonical_bytes right lib
            c.right_genuine).hash_size

  -- Evidence in order is accepted as it is, and out of order it is exchanged.
  normalize_evidence_ordered :
      (strict : Bool) (left right : Artifact)
      → IsCbor signing.hashing.cbor
      → IsConflict left right
      → is_less (compare_bytes left.hash right.hash) ≡ true
      → normalize_evidence signing (left ∷ right ∷ []) strict ≡ ok (left, right)
  unfolding normalize_evidence
  normalize_evidence_ordered true left right lib c less =
      let n = hash_sizes left right lib c in
      let not_greater : is_greater (compare_bytes left.hash right.hash) ≡ false =
        greater-flip left.hash right.hash n ∙ less-not-flip left.hash right.hash n less in
      rw
        (
          c.left_genuine,
          c.right_genuine,
          same_scope-conflict left right c,
          hashes-conflict left right c,
          not_greater,
          less,
        )
        refl
  normalize_evidence_ordered false left right lib c less =
      rw
        (
          c.left_genuine,
          c.right_genuine,
          same_scope-conflict left right c,
          hashes-conflict left right c,
          less,
        )
        refl

  normalize_evidence_swapped :
      (left right : Artifact)
      → IsCbor signing.hashing.cbor
      → IsConflict left right
      → is_less (compare_bytes left.hash right.hash) ≡ true
      → normalize_evidence signing (right ∷ left ∷ []) false ≡ ok (left, right)
  unfolding normalize_evidence
  normalize_evidence_swapped left right lib c less =
      let n = hash_sizes left right lib c in
      let other = IsConflict-sym c in
      let not_less = less-not-flip left.hash right.hash n less in
      rw
        (
          c.left_genuine,
          c.right_genuine,
          same_scope-conflict right left other,
          hashes-conflict right left other,
          not_less,
        )
        refl

  abbrev pub violation : ℕ → Artifact → Artifact → Violation
  violation seat left right = record {
    seat = seat;
    reason = equivocation_reason;
    left = left;
    right = right;
  }

  abbrev violation_map : ℕ → Value → Value → Value
  violation_map seat first second = dict (
      field "seat" (integer seat) (
        field "reason" (string equivocation_reason)
          (field "evidence" (array (items_of (first ∷ second ∷ []))) end)))

  seat_ok : (seat : ℕ) → leb seat 7 ≡ true → expect_integer_to 7 (some (integer seat)) ≡ ok seat
  unfolding expect_integer_to max_safe_integer
  seat_ok seat h = ground arith

  abbrev pub Written : ℕ → Artifact → Artifact → Artifact × Artifact → Type 0
  Written seat left right evidence =
      (v : Value) × (encode_violation_body signing (violation seat left right) ≡ ok v)
      × (encode_violation_body signing (violation seat right left) ≡ ok v)
      × (decode_violation_body signing v ≡ ok (violation seat evidence.0 evidence.1))

  pub Written-ordered :
      (seat : ℕ) (left right : Artifact)
      → IsCbor signing.hashing.cbor
      → leb seat 7 ≡ true
      → IsConflict left right
      → is_less (compare_bytes left.hash right.hash) ≡ true
      → Written seat left right (left, right)
  unfolding encode_violation_body decode_violation_body read_envelopes
  Written-ordered seat left right lib small c less =
      let (first, first_read, first_written) = genuine_value signing left lib c.left_genuine in
      let (second, second_read, second_written) = genuine_value signing right lib c.right_genuine in
      let seat_is = seat_ok seat small in
      let ordered = normalize_evidence_ordered false left right lib c less in
      let swapped = normalize_evidence_swapped left right lib c less in
      let again = normalize_evidence_ordered true left right lib c less in
      (
        violation_map seat first second,
        rw (seat_is, ordered) (rw (first_read, second_read) refl),
        rw (seat_is, swapped) (rw (first_read, second_read) refl),
        rw (seat_is, first_written, second_written)
            (rw (c.left_genuine, c.right_genuine) (rw again refl)),
      )

  -- Two different genuine envelopes under one number of one chain are written as evidence, to the same
  -- body in whichever order they are given, and read back in the order of their hashes.
  pub decode-encode_violation_body :
      (seat : ℕ) (left right : Artifact)
      → IsCbor signing.hashing.cbor
      → leb seat 7 ≡ true
      → IsConflict left right
      → Written seat left right (in_order left right)
  decode-encode_violation_body seat left right lib small c =
      elim (Bool-cases (is_less (compare_bytes left.hash right.hash))) [
        | inl less ↦ rw less (Written-ordered seat left right lib small c less)
        | inr not_less ↦
            let n = hash_sizes left right lib c in
            let less = compare-different left.hash right.hash n c.different not_less in
            let (v, one, other, back) =
              Written-ordered seat right left lib small (IsConflict-sym c) less in
            rw not_less (v, other, one, back)
      ]
