-- ===== src/Protocol/Challenges.antt =====
-- packages/protocol/src/hash-inputs.ts: the challenge of a proof, a scalar that is hashed from what is
-- proved. The wide hash and the order of the scalars are parameters.
use text.Mathlib.Text.{◌==◌ as str_eq}
use tablefolk.Base.{
  ℕ, ◌%◌, not, String, ◌++◌, Result, ok, err, ◌>>=◌, ◌>>◌, ensure, leb, ◌==◌, length,
}
use tablefolk.Session.Bytes.{Bytes}
use tablefolk.Protocol.Value.{EncodingError, Value, integer, string, max_safe_integer}
use tablefolk.Protocol.Canonical.{Cbor, encode_canonical}
use tablefolk.Protocol.Hashes.{DomainPurpose, domain_separator}

-- `ProofContext`.
pub record ProofContext : Type 0 where
  pub game_id : Bytes
  pub round : ℕ
  pub phase : String

-- `sha512`, `bytesToNumberLE` and `RISTRETTO_SCALAR_ORDER`.
pub record WideHash : Type 0 where
  pub cbor : Cbor
  pub sha512 : Bytes → Bytes
  pub number_of : Bytes → ℕ
  pub order : ℕ

pub data ChallengeError : Type 0 where
  bad_round bad_phase bad_digest : ChallengeError
  bad_encoding : EncodingError → ChallengeError

abbrev pub encode_part : WideHash → Value → Result ChallengeError Bytes
encode_part hash value = elim (encode_canonical hash.cbor value) [
  | ok encoded ↦ ok encoded
  | err e ↦ err (bad_encoding e)
]

-- `proofChallengeInput`.
unfoldable pub proof_challenge_input :
    WideHash → DomainPurpose → ProofContext → Value → Result ChallengeError Bytes
proof_challenge_input hash purpose context statement = do
  ensure (leb context.round max_safe_integer) bad_round
  ensure (not (str_eq context.phase "")) bad_phase
  round_bytes ← encode_part hash (integer context.round)
  phase_bytes ← encode_part hash (string context.phase)
  statement_bytes ← encode_part hash statement
  ok (
      domain_separator purpose
      ++ (context.game_id ++ (round_bytes ++ (phase_bytes ++ statement_bytes))))

-- `reduceWideRistrettoScalar`.
unfoldable pub reduce_wide : WideHash → Bytes → Result ChallengeError ℕ
reduce_wide hash digest = do
  ensure (length digest == 64) bad_digest
  ok (hash.number_of digest % hash.order)

-- `proofChallengeScalar`.
unfoldable pub proof_challenge_scalar :
    WideHash → DomainPurpose → ProofContext → Value → Result ChallengeError ℕ
unfolding proof_challenge_input reduce_wide
proof_challenge_scalar hash purpose context statement = do
  input ← proof_challenge_input hash purpose context statement
  reduce_wide hash (hash.sha512 input)
