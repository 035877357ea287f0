-- ===== src/Protocol/Envelope/Verify.antt =====
-- packages/protocol/src/envelope.ts: parsing an envelope, signing one, and reading a signed one
-- again with its signature checked.
use tablefolk.Base.{
  Bool, List, [], ◌∷◌, String, Option, none, some, Result, ok, err, ◌>>=◌, ◌>>◌, ensure, ◌&&◌, ◌==◌,
  length,
}
use tablefolk.Session.Bytes.{Bytes, bytes_equal}
use tablefolk.Protocol.Value.{Value, Fields, bytes, dict, end, field, get_field}
use tablefolk.Protocol.Canonical.{encode_canonical, decode_canonical}
use tablefolk.Protocol.Hashes.{envelope_signature_input, hash_envelope}
use tablefolk.Protocol.Envelope.{
  UnsignedEnvelope, Envelope, Artifact, EnvelopeError, Signing, envelope_version, unsigned_keys,
  signed_keys, require_exact_map, require_unsigned_integer, require_text, require_message_type,
  require_bytes, coded, to_unsigned_value, to_signed_value, with_signature, unsigned,
  invalid_signature, malformed_envelope, sender_key_mismatch, unsupported_version, bad_field,
  bad_secret,
}

-- The loop of `copyWithoutSignature`. A key that is not there would be set to `undefined`; the caller
-- has checked that all are.
abbrev pub copy_fields : List String → Fields → Fields
copy_fields [] fields = end
copy_fields (key ∷ keys) fields = elim (get_field key fields) [
  | none ↦ copy_fields keys fields
  | some value ↦ field key value (copy_fields keys fields)
]

module _ (signing : Signing) where
  -- `snapshotCborValue`.
  unfoldable pub snapshot_value : Option Value → Result EnvelopeError Value
  snapshot_value none = err malformed_envelope
  snapshot_value (some value) = do
    encoded ← coded (encode_canonical signing.hashing.cbor value)
    coded (decode_canonical signing.hashing.cbor encoded)

  -- `parseUnsignedEnvelope`, from the map that it has checked on.
  unfoldable pub parse_fields : Fields → Result EnvelopeError UnsignedEnvelope
  parse_fields fields = do
    version ← require_unsigned_integer (get_field "v" fields)
    ensure (version == envelope_version) unsupported_version
    game ← require_bytes 16 (get_field "game" fields)
    from ← require_bytes 32 (get_field "from" fields)
    seq ← require_unsigned_integer (get_field "seq" fields)
    prev ← require_bytes 32 (get_field "prev" fields)
    round ← require_unsigned_integer (get_field "round" fields)
    phase ← require_text (get_field "phase" fields)
    message_type ← require_message_type (get_field "type" fields)
    body ← snapshot_value (get_field "body" fields)
    ok (record {
      v = envelope_version;
      game = game;
      from = from;
      seq = seq;
      prev = prev;
      round = round;
      phase = phase;
      message_type = message_type;
      body = body;
    })

  unfoldable pub parse_unsigned_envelope : Value → Result EnvelopeError UnsignedEnvelope
  unfolding parse_fields
  parse_unsigned_envelope value = do
    fields ← require_exact_map value unsigned_keys
    parse_fields fields

  unfoldable pub parse_signed_envelope : Value → Result EnvelopeError Envelope
  unfolding parse_unsigned_envelope
  parse_signed_envelope value = do
    fields ← require_exact_map value signed_keys
    envelope ← parse_unsigned_envelope (dict (copy_fields unsigned_keys fields))
    sig ← require_bytes 64 (get_field "sig" fields)
    ok (with_signature envelope sig)

  -- `parseHash256` of a digest.
  abbrev pub digest : Bytes → Result EnvelopeError Bytes
  digest b = do ensure (length b == 32) bad_field; ok b

  -- `createArtifact`.
  unfoldable pub create_artifact : Envelope → Result EnvelopeError Artifact
  create_artifact envelope = do
    canonical ← coded (encode_canonical signing.hashing.cbor (to_signed_value envelope))
    hash ← digest (hash_envelope signing.hashing canonical)
    ok (record { envelope = envelope; canonical_bytes = canonical; hash = hash })

  -- `encodeUnsignedEnvelope`.
  unfoldable pub encode_unsigned_envelope : UnsignedEnvelope → Result EnvelopeError Bytes
  encode_unsigned_envelope value = do
    envelope ← parse_unsigned_envelope (to_unsigned_value value)
    coded (encode_canonical signing.hashing.cbor (to_unsigned_value envelope))

  -- `deriveEd25519PublicKey`, `signEd25519` and `verifyEd25519`.
  unfoldable pub derive_ed25519_public_key : Bytes → Result EnvelopeError Bytes
  derive_ed25519_public_key secret = do
    ensure (length secret == 32) bad_secret
    ok (signing.public_key secret)

  unfoldable pub sign_ed25519 : Bytes → Bytes → Result EnvelopeError Bytes
  sign_ed25519 message secret = do
    ensure (length secret == 32) bad_secret
    ok (signing.sign message secret)

  unfoldable pub verify_ed25519 : Bytes → Bytes → Bytes → Bool
  verify_ed25519 signature message key =
      length signature == 64
      && length key == 32
      && signing.is_acceptable key
      && signing.verify signature message key

  -- `signEnvelope`.
  unfoldable pub sign_envelope : UnsignedEnvelope → Bytes → Result EnvelopeError Artifact
  unfolding parse_unsigned_envelope derive_ed25519_public_key sign_ed25519 create_artifact
  sign_envelope value secret = do
    envelope ← parse_unsigned_envelope (to_unsigned_value value)
    signer ← derive_ed25519_public_key secret
    ensure (bytes_equal envelope.from signer) sender_key_mismatch
    unsigned_bytes ← coded (encode_canonical signing.hashing.cbor (to_unsigned_value envelope))
    made ← sign_ed25519 (envelope_signature_input unsigned_bytes) secret
    signature ← require_bytes 64 (some (bytes made))
    create_artifact (with_signature envelope signature)

  -- What `decodeAndVerifyEnvelope` throws of what it caught.
  abbrev pub validation {ℓ} : {A : Type ℓ} → Result EnvelopeError A → Result EnvelopeError A
  validation (ok a) = ok a
  validation (err invalid_signature) = err invalid_signature
  validation (err sender_key_mismatch) = err sender_key_mismatch
  validation (err unsupported_version) = err unsupported_version
  validation (err _) = err malformed_envelope

  abbrev pub decode_envelope : Bytes → Result EnvelopeError Envelope
  decode_envelope encoded = do
    value ← coded (decode_canonical signing.hashing.cbor encoded)
    parse_signed_envelope value

  -- `decodeAndVerifyEnvelope`.
  unfoldable pub decode_and_verify_envelope : Bytes → Result EnvelopeError Artifact
  unfolding parse_signed_envelope verify_ed25519 create_artifact
  decode_and_verify_envelope encoded = do
    envelope ← validation (decode_envelope encoded)
    unsigned_bytes ←
        coded (encode_canonical signing.hashing.cbor (to_unsigned_value (unsigned envelope)))
    ensure (verify_ed25519 envelope.sig (envelope_signature_input unsigned_bytes) envelope.from)
        invalid_signature
    create_artifact envelope
