-- ===== src/Protocol/Requests/Answers.antt =====
-- packages/protocol/src/sync.ts: bodies that are written and read again.
use tablefolk.Base.{ℕ, suc, ◌≡◌, refl, ap, Bool, List, [], ◌∷◌, ok, arith, length, ◌==◌, All, ◌≢◌}
use tablefolk.Protocol.Value.{Value, array, dict, end, field, items_of}
use tablefolk.Protocol.Canonical.{encode_canonical, decode_canonical}
use tablefolk.Protocol.Canonical.Orders.{IsCbor}
use tablefolk.Protocol.Schema.Parts.{list_of-items_of}
use tablefolk.Protocol.Envelope.{Artifact, Signing}
use tablefolk.Protocol.Envelope.Verify.{decode_and_verify_envelope}
use tablefolk.Protocol.Envelope.Opened.{value_of_opened}
use tablefolk.Protocol.Requests.{
  SyncRequest, encode_sync_request_body, decode_sync_request_body, write_envelopes,
  encode_sync_response_body, read_envelopes, decode_sync_response_body,
}

-- A SYNC_REQ body that is written is read back as it was.
decode-encode_sync_request_body :
    (body : SyncRequest) (v : Value)
    → encode_sync_request_body body ≡ ok v
    → decode_sync_request_body v ≡ ok body
unfolding encode_sync_request_body decode_sync_request_body
decode-encode_sync_request_body body v h = ground arith

module _ (signing : Signing) where
  -- An artifact that its own bytes are opened to.
  abbrev pub IsGenuine : Artifact → Type 0
  IsGenuine a = decode_and_verify_envelope signing a.canonical_bytes ≡ ok a

  -- The value of a genuine artifact, and the artifact of that value.
  pub genuine_value :
      (a : Artifact)
      → IsCbor signing.hashing.cbor
      → IsGenuine a
      → (v : Value) × (decode_canonical signing.hashing.cbor a.canonical_bytes ≡ ok v)
        × (encode_canonical signing.hashing.cbor v ≡ ok a.canonical_bytes)
  genuine_value a lib g = value_of_opened signing a.canonical_bytes a g

  written_read :
      (index : ℕ) (envelopes : List Artifact)
      → IsCbor signing.hashing.cbor
      → All IsGenuine envelopes
      → (values : List Value) × (write_envelopes signing index envelopes ≡ ok values)
        × (read_envelopes signing index values ≡ ok envelopes)
        × (length values ≡ length envelopes)
  unfolding write_envelopes read_envelopes
  written_read index [] lib g = ([], refl, refl, refl)
  written_read index (a ∷ envelopes) lib g =
      let (v, read, written) = genuine_value a lib g.0 in
      let (values, w, r, n) = written_read (suc index) envelopes lib g.1 in
      (v ∷ values, rw (g.0, read, w) refl, rw (written, g.0, r) refl, ap suc n)

  -- Genuine envelopes are written as a SYNC_RESP body and read back as they were.
  pub decode-encode_sync_response_body :
      (envelopes : List Artifact)
      → IsCbor signing.hashing.cbor
      → envelopes ≢ []
      → All IsGenuine envelopes
      → (v : Value) × (encode_sync_response_body signing envelopes ≡ ok v)
        × (decode_sync_response_body signing v ≡ ok envelopes)
  unfolding encode_sync_response_body decode_sync_response_body
  decode-encode_sync_response_body [] lib filled g = absurd (filled refl)
  decode-encode_sync_response_body (a ∷ envelopes) lib filled g =
      let (values, w, r, n) = written_read 0 (a ∷ envelopes) lib g in
      let some_there : (length (a ∷ envelopes) == 0) ≡ Bool.false = ground arith in
      let nonempty : (length values == 0) ≡ Bool.false = ground (arith, n) in
      (
        dict (field "envelopes" (array (items_of values)) end),
        rw (some_there, w) refl,
        rw (list_of-items_of values, nonempty) r,
      )
