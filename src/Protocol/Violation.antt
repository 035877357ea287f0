-- ===== src/Protocol/Violation.antt =====
-- packages/protocol/src/violation.ts: the evidence of two envelopes under one number of one chain.
pub mod Evidence
use Prim.Native.Nat.{compare, Ordering}
use tablefolk.Base.{
  ℕ, Bool, true, false, not, ◌&&◌, List, [], ◌∷◌, String, Option, none, some, Result, ok, err,
  ◌>>=◌, ◌>>◌, ensure, ◌==◌, length, if◌then◌else◌,
}
use text.Mathlib.Text.{◌==◌ as str_eq}
use tablefolk.Session.Bytes.{Bytes, bytes_equal}
use tablefolk.Protocol.Value.{
  Value, integer, string, array, dict, end, field, get_field, list_of, items_of, EncodingError,
}
use tablefolk.Protocol.Canonical.{decode_canonical}
use tablefolk.Protocol.Schema.{
  SchemaError, bad_reason, bad_count, different_scope, same_hash, unordered, bad_encoding,
  expect_exact_map, expect_array, expect_integer_to, expect_text,
}
use tablefolk.Protocol.Envelope.{Artifact, Signing}
use tablefolk.Protocol.Envelope.Verify.{decode_and_verify_envelope}
use tablefolk.Protocol.Requests.{at_index, opened_value, read_envelopes}

-- `EquivocationViolationBody`.
pub record Violation : Type 0 where
  pub seat : ℕ
  pub reason : String
  pub left : Artifact
  pub right : Artifact

abbrev pub violation_keys : List String
violation_keys = "seat" ∷ "reason" ∷ "evidence" ∷ []

abbrev pub equivocation_reason : String
equivocation_reason = "equivocation"

-- `compareBytes`. Past the end of the right side the difference is no number, and neither test of the
-- result holds then, as for 0.
unfoldable pub compare_bytes : Bytes → Bytes → Ordering
compare_bytes [] right = Ordering.eq
compare_bytes (a ∷ left) [] = Ordering.eq
compare_bytes (a ∷ left) (b ∷ right) =
    let rest = compare_bytes left right in
    elim (compare a b) [
      | Ordering.lt ↦ Ordering.lt
      | Ordering.eq ↦ rest
      | Ordering.gt ↦ Ordering.gt
    ]

abbrev pub is_less : Ordering → Bool
is_less Ordering.lt = true
is_less _ = false

abbrev pub is_greater : Ordering → Bool
is_greater Ordering.gt = true
is_greater _ = false

abbrev pub in_order : Artifact → Artifact → Artifact × Artifact
in_order left right =
    if is_less (compare_bytes left.hash right.hash) then (left, right) else (right, left)

abbrev pub same_scope : Artifact → Artifact → Bool
same_scope left right =
    bytes_equal left.envelope.game right.envelope.game
    && bytes_equal left.envelope.from right.envelope.from
    && left.envelope.seq == right.envelope.seq

-- `decodeCanonical` where its error is not caught.
abbrev pub uncaught {ℓ} : {A : Type ℓ} → Result EncodingError A → Result SchemaError A
uncaught (ok a) = ok a
uncaught (err e) = err bad_encoding

module _ (signing : Signing) where
  -- The tests of `normalizeEvidence` on two envelopes that were opened.
  unfoldable pub check_evidence :
      Bool → Artifact → Artifact → Result SchemaError (Artifact × Artifact)
  check_evidence require_canonical_order left right = do
    ensure (same_scope left right) different_scope
    ensure (not (bytes_equal left.hash right.hash)) same_hash
    ensure (not (require_canonical_order && is_greater (compare_bytes left.hash right.hash)))
        unordered
    ok (in_order left right)

  -- `normalizeEvidence`.
  unfoldable pub normalize_evidence :
      List Artifact → Bool → Result SchemaError (Artifact × Artifact)
  unfolding check_evidence
  normalize_evidence (first ∷ second ∷ []) require_canonical_order = do
    left ← at_index 0 (decode_and_verify_envelope signing first.canonical_bytes)
    right ← at_index 1 (decode_and_verify_envelope signing second.canonical_bytes)
    check_evidence require_canonical_order left right
  normalize_evidence _ require_canonical_order = err bad_count

  -- `encodeEquivocationViolationBody`.
  unfoldable pub encode_violation_body : Violation → Result SchemaError Value
  unfolding normalize_evidence expect_integer_to
  encode_violation_body body = do
    seat ← expect_integer_to 7 (some (integer body.seat))
    ensure (str_eq body.reason equivocation_reason) bad_reason
    evidence ← normalize_evidence (body.left ∷ body.right ∷ []) false
    first ← uncaught (decode_canonical signing.hashing.cbor evidence.0.canonical_bytes)
    second ← uncaught (decode_canonical signing.hashing.cbor evidence.1.canonical_bytes)
    ok (
        dict (
          field "seat" (integer seat) (
            field "reason" (string equivocation_reason)
              (field "evidence" (array (items_of (first ∷ second ∷ []))) end))))

  -- `decodeEquivocationViolationBody`.
  unfoldable pub decode_violation_body : Value → Result SchemaError Violation
  unfolding normalize_evidence read_envelopes expect_integer_to expect_exact_map expect_array
      expect_text
  decode_violation_body value = do
    body ← expect_exact_map (some value) violation_keys
    seat ← expect_integer_to 7 (get_field "seat" body)
    reason ← expect_text (get_field "reason" body)
    ensure (str_eq reason equivocation_reason) bad_reason
    encoded ← expect_array (get_field "evidence" body)
    ensure (length encoded == 2) bad_count
    artifacts ← read_envelopes signing 0 encoded
    evidence ← normalize_evidence artifacts true
    ok (record { seat = seat; reason = reason; left = evidence.0; right = evidence.1 })
