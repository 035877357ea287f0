-- ===== src/Session/Equivocation.antt =====
-- packages/session/src/equivocation.ts: making evidence of an equivocation, and judging it.
pub mod Judged
use tablefolk.Base.{
  ℕ, Bool, List, Option, none, some, map, Result, ok, err, ◌>>=◌, ◌>>◌, ensure, expect, get_elem?,
  ◌∷◌, [], not, if◌then◌else◌,
}
use tablefolk.Session.Bytes.{Bytes, bytes_equal}
use tablefolk.Protocol.Schema.{SchemaError}
use tablefolk.Protocol.Envelope.{Artifact, EnvelopeError, Signing}
use tablefolk.Protocol.Envelope.Verify.{decode_and_verify_envelope}
use tablefolk.Protocol.Violation.{
  Violation, equivocation_reason, encode_violation_body, decode_violation_body,
}
use tablefolk.Session.Registry.{Registry, RosterEntry, seat_of}

pub data EvidenceReason : Type 0 where
  malformed_evidence seat_out_of_roster sender_seat_mismatch wrong_game : EvidenceReason

-- `EquivocationViolationAssessment`.
pub data EvidenceAssessment : Type 0 where
  valid : (seat : ℕ) → (sender : Bytes) → Violation → EvidenceAssessment
  rejected : EvidenceReason → EvidenceAssessment

-- What an `EquivocationEvidenceError` says.
pub data EvidenceError : Type 0 where
  invalid_first stranger no_proof : EvidenceError
  invalid_here : EvidenceReason → EvidenceError

-- `registry.roster`.
abbrev pub roster_of : Registry → List Bytes
roster_of registry = map (λ (e : RosterEntry). e.sender) registry.entries

module _ (signing : Signing) where
  -- `decodeEquivocationViolationBody(encodeEquivocationViolationBody(…))`.
  unfoldable pub copy_violation : Violation → Result SchemaError Violation
  copy_violation candidate = do
    value ← encode_violation_body signing candidate
    decode_violation_body signing value

  -- `assessEquivocationViolation`, from the copied body on.
  unfoldable pub assess_copied : Registry → Violation → EvidenceAssessment
  assess_copied registry body =
      if not (bytes_equal body.left.envelope.game registry.game_id)
      then rejected wrong_game
      else elim (get_elem? (roster_of registry) body.seat) [
        | none ↦ rejected seat_out_of_roster
        | some expected ↦
            if not (bytes_equal body.left.envelope.from expected)
            then rejected sender_seat_mismatch
            else valid body.seat body.left.envelope.from body
      ]

  abbrev pub assess_copy : Registry → Result SchemaError Violation → EvidenceAssessment
  assess_copy registry (ok body) = assess_copied registry body
  assess_copy registry (err e) = rejected malformed_evidence

  unfoldable pub assess_equivocation_violation : Registry → Violation → EvidenceAssessment
  unfolding assess_copied copy_violation
  assess_equivocation_violation registry candidate = assess_copy registry (copy_violation candidate)

  abbrev pub assessed_body : EvidenceAssessment → Result EvidenceError Violation
  assessed_body (valid seat sender body) = ok body
  assessed_body (rejected reason) = err (invalid_here reason)

  abbrev pub caught_as {ℓ} :
      {A : Type ℓ} {E : Type 0} → EvidenceError → Result E A → Result EvidenceError A
  caught_as thrown (ok a) = ok a
  caught_as thrown (err e) = err thrown

  -- `createEquivocationViolation`.
  unfoldable pub create_equivocation_violation :
      Registry → Artifact → Artifact → Result EvidenceError Violation
  unfolding copy_violation assess_equivocation_violation seat_of
  create_equivocation_violation registry left_candidate right_candidate = do
    left ←
        caught_as invalid_first (decode_and_verify_envelope signing left_candidate.canonical_bytes)
    seat ← expect (seat_of registry left.envelope.from) stranger
    body ← caught_as no_proof (
        copy_violation (record {
          seat = seat;
          reason = equivocation_reason;
          left = left;
          right = right_candidate;
        }))
    assessed_body (assess_equivocation_violation registry body)
