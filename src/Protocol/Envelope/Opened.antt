-- ===== src/Protocol/Envelope/Opened.antt =====
-- packages/protocol/src/envelope.ts: what is known of bytes that were opened as an envelope.
use tablefolk.Base.{
  ◌≡◌, refl, sym, ◌∙◌, ap, subst, true, List, [], ◌∷◌, String, Option, some, Result, ok, err, arith,
  length, ◌==◌, ◌&&◌, ensure, every, >>=-eq-ok, >>-eq-ok, ensure-eq-ok, ok-injective, eq_iff,
}
use tablefolk.Session.Bytes.{Bytes}
use tablefolk.Protocol.Value.{
  Value, Fields, integer, string, bytes, dict, end, field, get_field, has_field, count_fields,
}
use tablefolk.Protocol.Canonical.{encode_canonical, decode_canonical}
use tablefolk.Protocol.Canonical.Unique.{decode-encode_canonical}
use tablefolk.Protocol.Canonical.Orders.{
  Same, dicts, self, IsCbor, encode-decode_canonical, encode_canonical-Same, one_field, same_fields,
  SameFields, then_also,
}
use tablefolk.Protocol.Canonical.Lookups.{
  Holds, pick_all, fields_from, Distinct, Holds-append, fields_of,
}
use tablefolk.Protocol.Hashes.{envelope_signature_input}
use tablefolk.Protocol.Envelope.{
  UnsignedEnvelope, Envelope, Artifact, EnvelopeError, Signing, malformed_envelope,
  invalid_signature, unsigned_keys, signed_keys, require_exact_map, require_bytes, coded,
  to_unsigned_value, to_signed_value, with_signature, unsigned,
}
use tablefolk.Protocol.Envelope.Verify.{
  copy_fields, snapshot_value, parse_unsigned_envelope, parse_signed_envelope, verify_ed25519,
  validation, decode_envelope, decode_and_verify_envelope,
}
use tablefolk.Protocol.Envelope.Parsed.{
  IsParsed, entries, coded-eq-ok, snapshot_ok, parse_fields_ok, require_bytes_ok,
}
use tablefolk.Protocol.Envelope.Signed.{created, all_entries, unsigned_entries}

validation-eq-ok {ℓ} :
    {A : Type ℓ} (signing : Signing) (r : Result EnvelopeError A) (a : A)
    → validation signing r ≡ ok a
    → r ≡ ok a
validation-eq-ok signing (ok b) a h = cc
validation-eq-ok signing (err invalid_signature) a h = cc
validation-eq-ok signing (err e) a h = cc

-- A map whose keys were checked is a map of so many fields, with each of the keys.
exact_map_ok :
    (v : Value) (keys : List String) (fs : Fields)
    → require_exact_map v keys ≡ ok fs
    → (v ≡ dict fs) × (count_fields fs ≡ length keys) × (every (has_field fs) keys ≡ true)
unfolding require_exact_map
exact_map_ok (dict gs) keys fs h =
    let (checked, e) =
      >>-eq-ok
        (ensure (count_fields gs == length keys && every (has_field gs) keys) malformed_envelope) _
        h in
    let both =
      ensure-eq-ok (count_fields gs == length keys && every (has_field gs) keys) malformed_envelope
        checked in
    subst
      (λ x. (dict gs ≡ dict x) × (count_fields x ≡ length keys) × (every (has_field x) keys ≡ true))
      (ok-injective gs fs e) (refl, ground arith, ground arith)
exact_map_ok v keys fs h = cc

-- What a copied map holds, the map held.
copied_back :
    (keys : List String) (k : String) (v : Value) (fs : Fields)
    → get_field k (copy_fields keys fs) ≡ some v
    → get_field k fs ≡ some v
copied_back [] k v fs h = cc
copied_back (j ∷ keys) k v fs h = ground (arith, eq_iff j k, copied_back keys k v fs)

-- What a copy of a map holds, the map holds.
Holds-back :
    (keys : List String) (fs : Fields) (given : List (String × Value))
    → Holds (copy_fields keys fs) given
    → Holds fs given
Holds-back keys fs [] h = tt
Holds-back keys fs ((k, v) ∷ given) h = (copied_back keys k v fs h.0, Holds-back keys fs given h.1)

-- Another body of the same value makes the same map.
other_body :
    (e : UnsignedEnvelope) (body other : Value) (sig : Bytes)
    → Same body other
    → SameFields (fields_from (all_entries e body sig)) (fields_from (all_entries e other sig))
other_body e body other sig p = one_field "v" (self (integer e.v)) (
    one_field "game" (self (bytes e.game)) (
      one_field "from" (self (bytes e.from)) (
        one_field "seq" (self (integer e.seq)) (
          one_field "prev" (self (bytes e.prev)) (
            one_field "round" (self (integer e.round)) (
              one_field "phase" (self (string e.phase)) (
                one_field "type" (self (string e.message_type))
                  (one_field "body" p (same_fields (field "sig" (bytes sig) end))))))))))

Distinct-entries :
    (e : UnsignedEnvelope) (body : Value) (sig : Bytes) → Distinct (all_entries e body sig)
Distinct-entries e body sig = ground arith

module _ (signing : Signing) where
  -- The body that was copied is the one that was there.
  copied_body :
      (o : Option Value) (w : Value)
      → IsCbor signing.hashing.cbor
      → snapshot_value signing o ≡ ok w
      → (v : Value) × (o ≡ some v) × Same v w
  copied_body o w lib h =
      let (v, b, is, coded_as, read) = snapshot_ok signing o w h in
      let (x, again, same) = encode-decode_canonical signing.hashing.cbor lib v b coded_as in
      (v, is, subst (Same v) (ok-injective x w (sym again ∙ read)) same)

  unsigned_found :
      (fs : Fields) (e : UnsignedEnvelope) (sig : Bytes)
      → IsCbor signing.hashing.cbor
      → parse_unsigned_envelope signing (dict (copy_fields unsigned_keys fs)) ≡ ok e
      → get_field "sig" fs ≡ some (bytes sig)
      → count_fields fs ≡ 10
      → IsParsed signing e × SameFields fs (fields_from (all_entries e e.body sig))
  unfolding parse_unsigned_envelope
  unsigned_found fs e sig lib h sig_is count =
      let (gs, exact, h1) =
        >>=-eq-ok (require_exact_map (dict (copy_fields unsigned_keys fs)) unsigned_keys) _ h in
      let (copy_is, n, has) =
        exact_map_ok (dict (copy_fields unsigned_keys fs)) unsigned_keys gs exact in
      let same_map : some (copy_fields unsigned_keys fs) ≡ some gs = ap fields_of copy_is in
      let gs_is : gs ≡ copy_fields unsigned_keys fs = cc in
      let (p, there, copied) = parse_fields_ok signing gs e h1 in
      let (body, body_is, same) = copied_body (get_field "body" gs) e.body lib copied in
      let before =
        Holds-back unsigned_keys fs (entries e) (subst (λ x. Holds x (entries e)) gs_is there) in
      let body_there =
        copied_back unsigned_keys "body" body fs
          (subst (λ x. get_field "body" x ≡ some body) gs_is body_is) in
      let all =
        Holds-append fs (unsigned_entries e body) (("sig", bytes sig) ∷ [])
          (Holds-append fs (entries e) (("body", body) ∷ []) before (body_there, tt))
          (sig_is, tt) in
      (
        p,
        then_also (pick_all (all_entries e body sig) fs (Distinct-entries e body sig) all count)
            (other_body e body e.body sig same),
      )

  -- What was read of a map that was parsed as a signed envelope.
  parse_signed_ok :
      (v : Value) (env : Envelope)
      → IsCbor signing.hashing.cbor
      → parse_signed_envelope signing v ≡ ok env
      → IsParsed signing (unsigned env) × Same v (to_signed_value env) × (length env.sig ≡ 64)
  unfolding parse_signed_envelope
  parse_signed_ok v env lib h =
      let (fs, exact, h1) = >>=-eq-ok (require_exact_map v signed_keys) _ h in
      let (e, parsed, h2) =
        >>=-eq-ok (parse_unsigned_envelope signing (dict (copy_fields unsigned_keys fs))) _ h1 in
      let (sig, signature, h3) = >>=-eq-ok (require_bytes 64 (get_field "sig" fs)) _ h2 in
      let (v_is, count, has) = exact_map_ok v signed_keys fs exact in
      let (sig_is, sig_size) = require_bytes_ok 64 (get_field "sig" fs) sig signature in
      let (p, same) = unsigned_found fs e sig lib parsed sig_is count in
      subst (λ x. IsParsed signing (unsigned x) × Same v (to_signed_value x) × (length x.sig ≡ 64))
        (ok-injective (with_signature e sig) env h3)
        (
          p,
          subst (λ x. Same x (to_signed_value (with_signature e sig))) (sym v_is) (dicts same),
          sig_size,
        )

  -- Bytes that were opened as an envelope.
  pub record IsOpened (encoded : Bytes) (a : Artifact) : Type 0 where
    pub own_bytes : a.canonical_bytes ≡ encoded
    pub own_hash : a.hash ≡ signing.hashing.sha256 encoded
    pub hash_size : length a.hash ≡ 32
    pub parsed : IsParsed signing (unsigned a.envelope)
    pub sig_size : length a.envelope.sig ≡ 64
    pub message : Bytes
    pub message_is :
        encode_canonical signing.hashing.cbor (to_unsigned_value (unsigned a.envelope)) ≡ ok message
    pub sig_holds :
        verify_ed25519 signing a.envelope.sig (envelope_signature_input message) a.envelope.from
        ≡ true

  -- Bytes that are opened are those of the artifact, whose hash is theirs; its fields have the sizes
  -- and values of an envelope, and its signature holds of the bytes of the envelope without it.
  pub decode_and_verify-IsOpened :
      (encoded : Bytes) (a : Artifact)
      → IsCbor signing.hashing.cbor
      → decode_and_verify_envelope signing encoded ≡ ok a
      → IsOpened encoded a
  unfolding decode_and_verify_envelope
  decode_and_verify-IsOpened encoded a lib h =
      let (env, parsed, h1) =
        >>=-eq-ok (validation signing (decode_envelope signing encoded)) _ h in
      let (message, coded_as, h2) =
        >>=-eq-ok (coded (encode_canonical signing.hashing.cbor (to_unsigned_value (unsigned env))))
          _ h1 in
      let (holds, made) =
        >>-eq-ok
          (ensure (verify_ed25519 signing env.sig (envelope_signature_input message) env.from)
            invalid_signature)
          _ h2 in
      let (v, read, h3) =
        >>=-eq-ok (coded (decode_canonical signing.hashing.cbor encoded)) _
          (validation-eq-ok signing _ env parsed) in
      let (p, same, size) = parse_signed_ok v env lib h3 in
      let written =
        encode_canonical-Same signing.hashing.cbor lib same
          (decode-encode_canonical signing.hashing.cbor encoded v (coded-eq-ok _ v read)) in
      let (canonical, env_is, hash_is, hash_size) = created signing env a made in
      let bytes_are : a.canonical_bytes ≡ encoded = ok-injective _ _ (sym canonical ∙ written) in
      let facts : IsParsed signing (unsigned a.envelope)
          × (length a.envelope.sig ≡ 64)
          × (encode_canonical signing.hashing.cbor (to_unsigned_value (unsigned a.envelope))
              ≡ ok message)
          × (verify_ed25519 signing a.envelope.sig (envelope_signature_input message)
                a.envelope.from
              ≡ true) =
        subst
          (λ (x : Envelope).
            IsParsed signing (unsigned x)
            × (length x.sig ≡ 64)
            × (encode_canonical signing.hashing.cbor (to_unsigned_value (unsigned x)) ≡ ok message)
            × (verify_ed25519 signing x.sig (envelope_signature_input message) x.from ≡ true))
          (sym env_is)
          (p, size, coded-eq-ok _ message coded_as, ensure-eq-ok _ invalid_signature holds) in
      record {
        own_bytes = bytes_are;
        own_hash = hash_is ∙ ap signing.hashing.sha256 bytes_are;
        hash_size = hash_size;
        parsed = facts.0;
        sig_size = facts.1;
        message = message;
        message_is = facts.2;
        sig_holds = facts.3;
      }

  -- An artifact that was opened is opened again to itself from its own bytes.
  pub decode_and_verify_again :
      (encoded : Bytes) (a : Artifact)
      → IsCbor signing.hashing.cbor
      → decode_and_verify_envelope signing encoded ≡ ok a
      → decode_and_verify_envelope signing a.canonical_bytes ≡ ok a
  decode_and_verify_again encoded a lib h =
      subst (λ b. decode_and_verify_envelope signing b ≡ ok a)
        (sym (decode_and_verify-IsOpened encoded a lib h).own_bytes) h

  -- The value that an opened envelope was decoded to is encoded to its bytes.
  pub value_of_opened :
      (encoded : Bytes) (a : Artifact)
      → decode_and_verify_envelope signing encoded ≡ ok a
      → (v : Value) × (decode_canonical signing.hashing.cbor encoded ≡ ok v)
        × (encode_canonical signing.hashing.cbor v ≡ ok encoded)
  unfolding decode_and_verify_envelope
  value_of_opened encoded a h =
      let (env, parsed, h1) =
        >>=-eq-ok (validation signing (decode_envelope signing encoded)) _ h in
      let (v, read, h3) =
        >>=-eq-ok (coded (decode_canonical signing.hashing.cbor encoded)) _
          (validation-eq-ok signing _ env parsed) in
      let read' = coded-eq-ok _ v read in
      (v, read', decode-encode_canonical signing.hashing.cbor encoded v read')
