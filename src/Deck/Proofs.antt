-- ===== src/Deck/Proofs.antt =====
-- packages/deck/src/proofs.ts: proofs that a key or a share belongs to a secret. The nonce, which
-- `randomNonZeroRistrettoScalar` draws, is an argument.
pub mod Complete
use tablefolk.Base.{
  ℕ, Bool, false, not, ◌&&◌, Result, ok, err, ◌>>=◌, ◌>>◌, ensure, leb, ◌==◌, if◌then◌else◌,
}
use tablefolk.Protocol.Value.{Value, integer, bytes, dict, end, field}
use tablefolk.Protocol.Hashes.{proof_of_possession}
use tablefolk.Protocol.Hashes
use tablefolk.Protocol.Challenges.{ProofContext, WideHash, ChallengeError, proof_challenge_scalar}
use tablefolk.Deck.Curve.{Curve, multiply}
use tablefolk.Deck.Elgamal.{MaskError, decryption_share}

pub data ProofError : Type 0 where
  zero_scalar bad_position : ProofError
  bad_share : MaskError → ProofError
  bad_challenge : ChallengeError → ProofError

-- `requireNonZeroScalar` and `requirePosition`.
abbrev pub require_non_zero_scalar : ℕ → Result ProofError (Unit {0})
require_non_zero_scalar value = ensure (not (value == 0)) zero_scalar

abbrev pub require_position : ℕ → Result ProofError (Unit {0})
require_position value = ensure (leb value 127) bad_position

abbrev pub challenged : Result ChallengeError ℕ → Result ProofError ℕ
challenged (ok c) = ok c
challenged (err e) = err (bad_challenge e)

-- `try { return ... } catch { return false; }`
abbrev pub or_false : Result ProofError Bool → Bool
or_false (ok b) = b
or_false (err e) = false

module _ (curve : Curve) (hash : WideHash) where
  pub record ProofOfPossession : Type 0 where
    pub r : curve.Point
    pub z : ℕ

  -- `GameKeyShare`.
  pub record KeyShare : Type 0 where
    pub h : curve.Point
    pub pop : ProofOfPossession

  -- `ChaumPedersenProof`.
  pub record ShareProof : Type 0 where
    pub r1 : curve.Point
    pub r2 : curve.Point
    pub z : ℕ

  pub record ProvenShare : Type 0 where
    pub s : curve.Point
    pub proof : ShareProof

  unfoldable pub key_proof_challenge :
      ProofContext → curve.Point → curve.Point → Result ProofError ℕ
  key_proof_challenge context public_key commitment = challenged (
      proof_challenge_scalar hash proof_of_possession context (
        dict (
          field "H" (bytes (curve.to_bytes public_key))
            (field "R" (bytes (curve.to_bytes commitment)) end))))

  unfoldable pub decryption_proof_challenge :
      ProofContext
      → ℕ
      → curve.Point
      → curve.Point
      → curve.Point
      → curve.Point
      → curve.Point
      → Result ProofError ℕ
  decryption_proof_challenge context position public_key card_a share first second = challenged (
      proof_challenge_scalar hash Hashes.decryption_share context (
        dict (
          field "pos" (integer position) (
            field "H" (bytes (curve.to_bytes public_key)) (
              field "A" (bytes (curve.to_bytes card_a)) (
                field "S" (bytes (curve.to_bytes share)) (
                  field "R1" (bytes (curve.to_bytes first))
                    (field "R2" (bytes (curve.to_bytes second)) end))))))))

  unfoldable pub create_game_key_share : ProofContext → ℕ → ℕ → Result ProofError KeyShare
  create_game_key_share context secret_key nonce = do
    require_non_zero_scalar secret_key
    let h = multiply curve curve.base secret_key
    let r = multiply curve curve.base nonce
    challenge ← key_proof_challenge context h r
    let z = curve.add_scalars nonce (curve.multiply_scalars challenge secret_key)
    ok (record { h = h; pop = record { r = r; z = z } })

  unfoldable pub verify_game_key_share : ProofContext → KeyShare → Bool
  verify_game_key_share context share =
      if curve.is_zero share.h
      then false
      else or_false (do
        challenge ← key_proof_challenge context share.h share.pop.r
        let left = multiply curve curve.base share.pop.z
        let right = curve.add share.pop.r (multiply curve share.h challenge)
        ok (curve.equals left right))

  abbrev pub share_point : ℕ → curve.Point → Result ProofError curve.Point
  share_point secret_key card_a = elim (decryption_share curve secret_key card_a) [
    | ok p ↦ ok p
    | err e ↦ err (bad_share e)
  ]

  unfoldable pub create_proven_share :
      ProofContext → ℕ → ℕ → curve.Point → ℕ → Result ProofError ProvenShare
  unfolding decryption_share
  create_proven_share context position secret_key card_a nonce = do
    require_position position
    require_non_zero_scalar secret_key
    let h = multiply curve curve.base secret_key
    s ← share_point secret_key card_a
    let first = multiply curve curve.base nonce
    let second = multiply curve card_a nonce
    challenge ← decryption_proof_challenge context position h card_a s first second
    let z = curve.add_scalars nonce (curve.multiply_scalars challenge secret_key)
    ok (record { s = s; proof = record { r1 = first; r2 = second; z = z } })

  -- The two equations of a proof.
  abbrev pub check_equations :
      ProofContext → ℕ → curve.Point → curve.Point → ProvenShare → Result ProofError Bool
  check_equations context position public_key card_a share = do
    let p = share.proof
    challenge ← decryption_proof_challenge context position public_key card_a share.s p.r1 p.r2
    let first =
        curve.equals (multiply curve curve.base p.z)
          (curve.add p.r1 (multiply curve public_key challenge))
    let second =
        curve.equals (multiply curve card_a p.z) (curve.add p.r2 (multiply curve share.s challenge))
    ok (first && second)

  unfoldable pub verify_proven_share :
      ProofContext → ℕ → curve.Point → curve.Point → ProvenShare → Bool
  verify_proven_share context position public_key card_a share = or_false (
      require_position position
      >> (if curve.is_zero public_key
          then ok false
          else check_equations context position public_key card_a share))
