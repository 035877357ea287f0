-- ===== src/Protocol/Envelope.antt =====
-- packages/protocol/src/envelope.ts: envelopes that are signed, and read again. The library of
-- Ed25519 is a parameter, as are the hash and the library of CBOR.
pub mod Verify
pub mod Parsed
pub mod Signed
pub mod Opened
use tablefolk.Base.{
  ℕ, Bool, List, [], ◌∷◌, ◌++◌, String, Option, none, some, Result, ok, err, ◌>>=◌, ◌>>◌, ensure,
  leb, not, ◌&&◌, ◌==◌, length, any, every,
}
use text.Mathlib.Text.{◌==◌ as str_eq}
use tablefolk.Session.Bytes.{Bytes, bytes_equal}
use tablefolk.Protocol.Value.{
  Value, Fields, integer, string, bytes, dict, end, field, get_field, has_field, count_fields,
  EncodingError, max_safe_integer,
}
use tablefolk.Protocol.Canonical.{encode_canonical, decode_canonical}
use tablefolk.Protocol.Hashes.{Hashing, envelope_signature_input, hash_envelope}

-- `UnsignedEnvelope`.
pub record UnsignedEnvelope : Type 0 where
  pub v : ℕ
  pub game : Bytes
  pub from : Bytes
  pub seq : ℕ
  pub prev : Bytes
  pub round : ℕ
  pub phase : String
  pub message_type : String
  pub body : Value

-- `SignedEnvelope`.
pub record Envelope : Type 0 where
  pub v : ℕ
  pub game : Bytes
  pub from : Bytes
  pub seq : ℕ
  pub prev : Bytes
  pub round : ℕ
  pub phase : String
  pub message_type : String
  pub body : Value
  pub sig : Bytes

-- `EnvelopeArtifact`.
pub record Artifact : Type 0 where
  pub envelope : Envelope
  pub canonical_bytes : Bytes
  pub hash : Bytes

-- The codes of an `EnvelopeValidationError`, and what else is thrown.
pub data EnvelopeError : Type 0 where
  invalid_signature malformed_envelope sender_key_mismatch unsupported_version : EnvelopeError
  bad_field bad_secret : EnvelopeError
  bad_encoding : EncodingError → EnvelopeError

-- What is called of the library of Ed25519: whether a key is a strict encoding of a point in the
-- prime subgroup, the key of a secret, signing and verifying.
pub record Signing : Type 0 where
  pub hashing : Hashing
  pub is_acceptable : Bytes → Bool
  pub public_key : Bytes → Bytes
  pub sign : Bytes → Bytes → Bytes
  pub verify : Bytes → Bytes → Bytes → Bool

-- `ENVELOPE_VERSION`, `ENVELOPE_MESSAGE_TYPES`, `UNSIGNED_KEYS` and `SIGNED_KEYS`.
abbrev pub envelope_version : ℕ
envelope_version = 1

abbrev pub message_types : List String
message_types =
    "JOIN" ∷ "ROSTER" ∷ "READY" ∷ "KEY_SHARE" ∷ "RAND_COMMIT" ∷ "RAND_REVEAL" ∷ "SHUFFLE" ∷ "SHARES"
    ∷ "ACTION" ∷ "AUDIT_DISCLOSE" ∷ "WITNESS" ∷ "SYNC_REQ" ∷ "SYNC_RESP" ∷ "TIMEOUT_VOTE"
    ∷ "VIOLATION" ∷ []

abbrev pub unsigned_keys : List String
unsigned_keys = "v" ∷ "game" ∷ "from" ∷ "seq" ∷ "prev" ∷ "round" ∷ "phase" ∷ "type" ∷ "body" ∷ []

abbrev pub signed_keys : List String
signed_keys = unsigned_keys ++ ("sig" ∷ [])

-- `requireExactMap`.
unfoldable pub require_exact_map : Value → List String → Result EnvelopeError Fields
require_exact_map (dict fields) keys = do
  ensure (count_fields fields == length keys && every (has_field fields) keys) malformed_envelope
  ok fields
require_exact_map _ keys = err malformed_envelope

-- `requireUnsignedInteger`, `requireNonEmptyText` and `requireMessageType`.
unfoldable pub require_unsigned_integer : Option Value → Result EnvelopeError ℕ
require_unsigned_integer (some (integer n)) = do
  ensure (leb n max_safe_integer) malformed_envelope
  ok n
require_unsigned_integer _ = err malformed_envelope

unfoldable pub require_text : Option Value → Result EnvelopeError String
require_text (some (string s)) = do ensure (not (str_eq s "")) malformed_envelope; ok s
require_text _ = err malformed_envelope

unfoldable pub is_message_type : String → Bool
is_message_type s = any (str_eq s) message_types

unfoldable pub require_message_type : Option Value → Result EnvelopeError String
unfolding is_message_type
require_message_type (some (string s)) = do ensure (is_message_type s) malformed_envelope; ok s
require_message_type _ = err malformed_envelope

-- `parseFixedBytes`, of a value that may be anything.
unfoldable pub require_bytes : ℕ → Option Value → Result EnvelopeError Bytes
require_bytes size (some (bytes b)) = do ensure (length b == size) bad_field; ok b
require_bytes size _ = err bad_field

-- An error of `encodeCanonical` or `decodeCanonical`.
abbrev pub coded {ℓ} : {A : Type ℓ} → Result EncodingError A → Result EnvelopeError A
coded (ok a) = ok a
coded (err e) = err (bad_encoding e)

-- `toUnsignedValue` and `toSignedValue`.
abbrev pub to_unsigned_value : UnsignedEnvelope → Value
to_unsigned_value e = dict (
    field "v" (integer e.v) (
      field "game" (bytes e.game) (
        field "from" (bytes e.from) (
          field "seq" (integer e.seq) (
            field "prev" (bytes e.prev) (
              field "round" (integer e.round) (
                field "phase" (string e.phase)
                  (field "type" (string e.message_type) (field "body" e.body end)))))))))

abbrev pub to_signed_value : Envelope → Value
to_signed_value e = dict (
    field "v" (integer e.v) (
      field "game" (bytes e.game) (
        field "from" (bytes e.from) (
          field "seq" (integer e.seq) (
            field "prev" (bytes e.prev) (
              field "round" (integer e.round) (
                field "phase" (string e.phase) (
                  field "type" (string e.message_type)
                    (field "body" e.body (field "sig" (bytes e.sig) end))))))))))

-- `{ ...envelope, sig }`, and an envelope as one without its signature.
abbrev pub with_signature : UnsignedEnvelope → Bytes → Envelope
with_signature e sig = record {
  v = e.v;
  game = e.game;
  from = e.from;
  seq = e.seq;
  prev = e.prev;
  round = e.round;
  phase = e.phase;
  message_type = e.message_type;
  body = e.body;
  sig = sig;
}

abbrev pub unsigned : Envelope → UnsignedEnvelope
unsigned e = record {
  v = e.v;
  game = e.game;
  from = e.from;
  seq = e.seq;
  prev = e.prev;
  round = e.round;
  phase = e.phase;
  message_type = e.message_type;
  body = e.body;
}
