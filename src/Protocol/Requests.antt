-- ===== src/Protocol/Requests.antt =====
-- packages/protocol/src/sync.ts: the bodies of SYNC_REQ and SYNC_RESP.
pub mod Answers
use tablefolk.Base.{
  ℕ, suc, Bool, not, List, [], ◌∷◌, String, Option, none, some, Result, ok, err, ◌>>=◌, ◌>>◌,
  ensure, leb, ◌==◌, length,
}
use tablefolk.Session.Bytes.{Bytes}
use tablefolk.Protocol.Value.{
  Value, integer, bytes, array, dict, end, field, get_field, list_of, items_of,
}
use tablefolk.Protocol.Canonical.{encode_canonical, decode_canonical}
use tablefolk.Protocol.Schema.{
  SchemaError, reversed_range, empty_array, bad_envelope, expect_exact_map, expect_array,
  expect_unsigned_integer, decode_identity,
}
use tablefolk.Protocol.Envelope.{Artifact, EnvelopeError, Signing, coded}
use tablefolk.Protocol.Envelope.Verify.{decode_and_verify_envelope}

-- `SyncRequestBody`.
pub record SyncRequest : Type 0 where
  pub from : Bytes
  pub from_seq : ℕ
  pub to_seq : ℕ

abbrev pub request_keys : List String
request_keys = "from" ∷ "from_seq" ∷ "to_seq" ∷ []

abbrev pub response_keys : List String
response_keys = "envelopes" ∷ []

-- `normalizeRequest` of the file.
unfoldable pub normalize_request_body : Bytes → ℕ → ℕ → Result SchemaError SyncRequest
unfolding decode_identity expect_unsigned_integer
normalize_request_body from from_seq to_seq = do
  sender ← decode_identity (some (bytes from))
  first ← expect_unsigned_integer (some (integer from_seq))
  last ← expect_unsigned_integer (some (integer to_seq))
  ensure (leb first last) reversed_range
  ok (record { from = sender; from_seq = first; to_seq = last })

unfoldable pub encode_sync_request_body : SyncRequest → Result SchemaError Value
unfolding normalize_request_body
encode_sync_request_body body = do
  normalized ← normalize_request_body body.from body.from_seq body.to_seq
  ok (
      dict (
        field "from" (bytes normalized.from) (
          field "from_seq" (integer normalized.from_seq)
            (field "to_seq" (integer normalized.to_seq) end))))

unfoldable pub decode_sync_request_body : Value → Result SchemaError SyncRequest
unfolding normalize_request_body expect_exact_map
decode_sync_request_body value = do
  body ← expect_exact_map (some value) request_keys
  from ← decode_identity (get_field "from" body)
  from_seq ← expect_unsigned_integer (get_field "from_seq" body)
  to_seq ← expect_unsigned_integer (get_field "to_seq" body)
  normalize_request_body from from_seq to_seq

-- What is thrown where an envelope of an array is refused.
abbrev pub at_index {ℓ} : {A : Type ℓ} → ℕ → Result EnvelopeError A → Result SchemaError A
at_index index (ok a) = ok a
at_index index (err e) = err (bad_envelope index)

module _ (signing : Signing) where
  -- The body of the loop over the candidates that are written.
  unfoldable pub reopened_value : Artifact → Result EnvelopeError Value
  reopened_value candidate = do
    artifact ← decode_and_verify_envelope signing candidate.canonical_bytes
    coded (decode_canonical signing.hashing.cbor artifact.canonical_bytes)

  unfoldable pub write_envelopes : ℕ → List Artifact → Result SchemaError (List Value)
  unfolding reopened_value
  write_envelopes index [] = ok []
  write_envelopes index (candidate ∷ candidates) = do
    value ← at_index index (reopened_value candidate)
    values ← write_envelopes (suc index) candidates
    ok (value ∷ values)

  -- `encodeSyncResponseBody`.
  unfoldable pub encode_sync_response_body : List Artifact → Result SchemaError Value
  unfolding write_envelopes
  encode_sync_response_body envelopes = do
    ensure (not (length envelopes == 0)) empty_array
    values ← write_envelopes 0 envelopes
    ok (dict (field "envelopes" (array (items_of values)) end))

  -- The body of the loop over the candidates that are read.
  unfoldable pub opened_value : Value → Result EnvelopeError Artifact
  opened_value candidate = do
    encoded ← coded (encode_canonical signing.hashing.cbor candidate)
    decode_and_verify_envelope signing encoded

  unfoldable pub read_envelopes : ℕ → List Value → Result SchemaError (List Artifact)
  unfolding opened_value
  read_envelopes index [] = ok []
  read_envelopes index (candidate ∷ candidates) = do
    artifact ← at_index index (opened_value candidate)
    artifacts ← read_envelopes (suc index) candidates
    ok (artifact ∷ artifacts)

  -- `decodeSyncResponseBody`.
  unfoldable pub decode_sync_response_body : Value → Result SchemaError (List Artifact)
  unfolding read_envelopes expect_exact_map expect_array
  decode_sync_response_body value = do
    body ← expect_exact_map (some value) response_keys
    encoded ← expect_array (get_field "envelopes" body)
    ensure (not (length encoded == 0)) empty_array
    read_envelopes 0 encoded
