-- ===== src/Protocol/Envelope/Signed.antt =====
-- packages/protocol/src/envelope.ts: an envelope that was signed is opened.
use tablefolk.Base.{
  ◌≡◌, refl, sym, ap, subst, true, List, [], ◌∷◌, ◌++◌, String, some, ok, ok-injective, arith,
  length, ◌==◌, ensure, >>=-eq-ok, >>-eq-ok, ensure-eq-ok,
}
use tablefolk.Session.Bytes.{Bytes, IsBytes, bytes_equal}
use tablefolk.Session.Bytes.Laws.{bytes_equal_iff}
use tablefolk.Protocol.Value.{Value, Fields, bytes, dict, get_field, count_fields}
use tablefolk.Protocol.Canonical.{encode_canonical}
use tablefolk.Protocol.Canonical.Orders.{
  Same, SameFields, IsCbor, encode-decode_canonical, encode_canonical-Same,
}
use tablefolk.Protocol.Canonical.Lookups.{
  Holds, Same-dict, count_fields-Same, names_of, every-has_field, Holds-append, Holds-left,
  Holds-Same, lookup-Same, fields_from,
}
use tablefolk.Protocol.Hashes.{envelope_signature_input, hash_envelope}
use tablefolk.Protocol.Envelope.{
  UnsignedEnvelope, Envelope, Artifact, EnvelopeError, Signing, sender_key_mismatch, bad_secret,
  bad_field, require_exact_map, require_bytes, coded, to_unsigned_value, to_signed_value,
  with_signature,
}
use tablefolk.Protocol.Envelope.Verify.{
  copy_fields, snapshot_value, parse_fields, parse_unsigned_envelope, parse_signed_envelope,
  create_artifact, derive_ed25519_public_key, sign_ed25519, verify_ed25519, sign_envelope,
  decode_and_verify_envelope, digest,
}
use tablefolk.Protocol.Envelope.Parsed.{
  IsParsed, entries, coded-eq-ok, snapshot_ok, snapshot_given, parse_fields_given, parse_fields_ok,
}

-- The entries of a map that is an envelope's, without a signature and with one.
abbrev pub unsigned_entries : UnsignedEnvelope → Value → List (String × Value)
unsigned_entries e body = entries e ++ (("body", body) ∷ [])

abbrev pub all_entries : UnsignedEnvelope → Value → Bytes → List (String × Value)
all_entries e body sig = unsigned_entries e body ++ (("sig", bytes sig) ∷ [])

own_entries :
    (e : UnsignedEnvelope) (body : Value)
    → Holds (fields_from (unsigned_entries e body)) (entries e)
own_entries e body = (refl, (refl, (refl, (refl, (refl, (refl, (refl, (refl, tt))))))))

abbrev Shows : Fields → UnsignedEnvelope → Value → Bytes → Type 0
Shows gs e body sig = Holds gs (all_entries e body sig) × (count_fields gs ≡ 10)

exact_map :
    (gs : Fields) (given : List (String × Value))
    → Holds gs given
    → count_fields gs ≡ length (names_of given)
    → require_exact_map (dict gs) (names_of given) ≡ ok gs
unfolding require_exact_map
exact_map gs given h n = ground (arith, every-has_field gs given h)

copied :
    (gs : Fields) (given : List (String × Value))
    → Holds gs given
    → copy_fields (names_of given) gs ≡ fields_from given
copied gs [] h = refl
copied gs ((k, v) ∷ given) h = ground (arith, h.0, copied gs given h.1)

shown_again :
    (e : UnsignedEnvelope) (sig : Bytes) (gs : Fields) (body : Value)
    → SameFields (fields_from (all_entries e e.body sig)) gs
    → get_field "body" gs ≡ some body
    → Shows gs e body sig
shown_again e sig gs body fields body_is =
    let before =
      Holds-Same (fields_from (all_entries e e.body sig)) gs (entries e) fields
        (refl, (refl, (refl, (refl, (refl, (refl, (refl, (refl, tt)))))))) (own_all e sig) in
    let signature =
      Holds-Same (fields_from (all_entries e e.body sig)) gs (("sig", bytes sig) ∷ []) fields
        (refl, tt) (refl, tt) in
    (
      Holds-append gs (unsigned_entries e body) (("sig", bytes sig) ∷ [])
          (Holds-append gs (entries e) (("body", body) ∷ []) before (body_is, tt)) signature,
      sym (count_fields-Same fields),
    )
  where
    own_all :
        (d : UnsignedEnvelope) (s : Bytes)
        → Holds (fields_from (all_entries d d.body s)) (entries d)
    own_all d s = (refl, (refl, (refl, (refl, (refl, (refl, (refl, (refl, tt))))))))

module _ (signing : Signing) where
  pub parse_written :
      (e : UnsignedEnvelope)
      → parse_unsigned_envelope signing (to_unsigned_value e)
        ≡ parse_fields signing (fields_from (unsigned_entries e e.body))
  unfolding parse_unsigned_envelope require_exact_map
  parse_written e = refl

  -- What is parsed of an envelope that was written.
  parse_unsigned_value :
      (e made : UnsignedEnvelope)
      → parse_unsigned_envelope signing (to_unsigned_value e) ≡ ok made
      → IsParsed signing made
  parse_unsigned_value e made h =
      (parse_fields_ok signing (fields_from (unsigned_entries e e.body)) made
        (rw (← parse_written e) h)).0

  pub parse_signed_given :
      (gs : Fields) (e : UnsignedEnvelope) (body : Value) (sig : Bytes)
      → IsParsed signing e
      → Shows gs e body sig
      → snapshot_value signing (some body) ≡ ok e.body
      → length sig ≡ 64
      → parse_signed_envelope signing (dict gs) ≡ ok (with_signature e sig)
  unfolding parse_signed_envelope require_bytes
  parse_signed_given gs e body sig p s copy size =
      let whole = exact_map gs (all_entries e body sig) s.0 s.1 in
      let without_sig =
        copied gs (unsigned_entries e body)
          (Holds-left gs (unsigned_entries e body) (("sig", bytes sig) ∷ []) s.0) in
      let parsed =
        parse_fields_given signing (fields_from (unsigned_entries e body)) e p (own_entries e body)
          copy in
      let signature : get_field "sig" gs ≡ some (bytes sig) = s.0.1.1.1.1.1.1.1.1.1.0 in
      let wide : (length sig == 64) ≡ true = rw size refl in
      rw (whole, without_sig)
        (rw (parse_written (record e { body = body }), parsed, signature, wide) refl)

  -- A map that was written for an envelope is parsed to it, in any order of its keys.
  pub parse_signed-Same :
      (e : UnsignedEnvelope) (sig : Bytes) (w : Value)
      → IsCbor signing.hashing.cbor
      → IsParsed signing e
      → length sig ≡ 64
      → Same (to_signed_value (with_signature e sig)) w
      → parse_signed_envelope signing w ≡ ok (with_signature e sig)
  parse_signed-Same e sig w lib p size same =
      let (gs, is_dict, fields) = Same-dict (fields_from (all_entries e e.body sig)) same refl in
      let (body, body_is, body_same) = lookup-Same "body" e.body _ gs fields refl in
      let (v, b, v_is, coded_as, read) = snapshot_ok signing (some e.body) e.body p.body_settled in
      let same_body : e.body ≡ v = cc v_is in
      let copy =
        snapshot_given signing body e.body b
          (encode_canonical-Same signing.hashing.cbor lib body_same (rw same_body coded_as)) read in
      rw is_dict
        (parse_signed_given gs e body sig p (shown_again e sig gs body fields body_is) copy size)

  -- What signing promises: a signature that a secret makes is one under its key, which is a key.
  pub record IsSigning : Type 0 where
    pub cbor : IsCbor signing.hashing.cbor
    pub key_bytes : (secret : Bytes) → IsBytes (signing.public_key secret)
    pub acceptable : (secret : Bytes) → signing.is_acceptable (signing.public_key secret) ≡ true
    pub honest :
        (message secret : Bytes)
        → signing.verify (signing.sign message secret) message (signing.public_key secret) ≡ true

  -- What an artifact is made of.
  pub created :
      (e : Envelope) (a : Artifact)
      → create_artifact signing e ≡ ok a
      → (encode_canonical signing.hashing.cbor (to_signed_value e) ≡ ok a.canonical_bytes)
        × (a.envelope ≡ e)
        × (a.hash ≡ signing.hashing.sha256 a.canonical_bytes)
        × (length a.hash ≡ 32)
  unfolding create_artifact
  created e a h =
      let (canonical, coded_as, h1) =
        >>=-eq-ok (coded (encode_canonical signing.hashing.cbor (to_signed_value e))) _ h in
      let (hash, hashed, h2) =
        >>=-eq-ok (digest signing (hash_envelope signing.hashing canonical)) _ h1 in
      let (sized, h3) =
        >>-eq-ok (ensure (length (signing.hashing.sha256 canonical) == 32) bad_field) _ hashed in
      let hash_is : signing.hashing.sha256 canonical ≡ hash = ok-injective _ hash h3 in
      let size : length hash ≡ 32 =
        let t = ensure-eq-ok (length (signing.hashing.sha256 canonical) == 32) bad_field sized in
        ground (arith, t, ap length hash_is) in
      let made : Artifact = record { envelope = e; canonical_bytes = canonical; hash = hash } in
      subst
        (λ (x : Artifact).
          (encode_canonical signing.hashing.cbor (to_signed_value e) ≡ ok x.canonical_bytes)
          × (x.envelope ≡ e)
          × (x.hash ≡ signing.hashing.sha256 x.canonical_bytes)
          × (length x.hash ≡ 32))
        (ok-injective made a h2) (coded-eq-ok _ canonical coded_as, refl, sym hash_is, size)

  -- An artifact of a parsed envelope whose signature holds is opened to itself.
  opened_again :
      (e : UnsignedEnvelope) (sig message : Bytes) (a : Artifact)
      → IsCbor signing.hashing.cbor
      → IsParsed signing e
      → length sig ≡ 64
      → create_artifact signing (with_signature e sig) ≡ ok a
      → encode_canonical signing.hashing.cbor (to_unsigned_value e) ≡ ok message
      → verify_ed25519 signing sig (envelope_signature_input message) e.from ≡ true
      → decode_and_verify_envelope signing a.canonical_bytes ≡ ok a
  unfolding decode_and_verify_envelope
  opened_again e sig message a lib p size made coded_as holds =
      let (canonical, envelope_is, hash_is, hash_size) = created (with_signature e sig) a made in
      let (w, read, same) =
        encode-decode_canonical signing.hashing.cbor lib (to_signed_value (with_signature e sig))
          a.canonical_bytes canonical in
      rw (read, parse_signed-Same e sig w lib p size same, coded_as, holds) made

  signature_holds :
      (value e : UnsignedEnvelope) (secret signer message made sig : Bytes)
      → IsSigning
      → IsBytes e.from
      → length e.from ≡ 32
      → derive_ed25519_public_key signing secret ≡ ok signer
      → ensure {E = EnvelopeError} (bytes_equal e.from signer) sender_key_mismatch ≡ ok tt
      → sign_ed25519 signing (envelope_signature_input message) secret ≡ ok made
      → require_bytes 64 (some (bytes made)) ≡ ok sig
      → (length sig ≡ 64)
        × (verify_ed25519 signing sig (envelope_signature_input message) e.from ≡ true)
  unfolding derive_ed25519_public_key sign_ed25519 verify_ed25519 require_bytes
  signature_holds value e secret signer message made sig lib from_bytes key derived by_signer signed
        sized =
      let (long, d) = >>-eq-ok (ensure (length secret == 32) bad_secret) _ derived in
      let (long', m) = >>-eq-ok (ensure (length secret == 32) bad_secret) _ signed in
      let (wide, s) = >>-eq-ok (ensure (length made == 64) bad_field) _ sized in
      let signer_is : signing.public_key secret ≡ signer = ok-injective _ signer d in
      let made_is : signing.sign (envelope_signature_input message) secret ≡ made =
        ok-injective _ made m in
      let sig_is : made ≡ sig = ok-injective made sig s in
      let size : length sig ≡ 64 =
        let t = ensure-eq-ok (length made == 64) bad_field wide in
        ground (arith, t, ap length sig_is) in
      let from_is : e.from ≡ signing.public_key secret =
        (bytes_equal_iff e.from (signing.public_key secret) from_bytes (lib.key_bytes secret)).0
          (rw signer_is (ensure-eq-ok (bytes_equal e.from signer) sender_key_mismatch by_signer)) in
      let size' : (length sig == 64) ≡ true = rw size refl in
      let key' : (length e.from == 32) ≡ true = rw key refl in
      (
        size,
        rw (size', key')
            (rw (from_is, lib.acceptable secret, ← sig_is, ← made_is)
              (lib.honest (envelope_signature_input message) secret)),
      )

  parsed_from :
      (value e : UnsignedEnvelope)
      → parse_unsigned_envelope signing (to_unsigned_value value) ≡ ok e
      → value.from ≡ e.from
  parsed_from value e h =
      let (p, there, body) =
        parse_fields_ok signing (fields_from (unsigned_entries value value.body)) e
          (rw (← parse_written value) h) in
      let same : some (bytes value.from) ≡ some (bytes e.from) = there.1.1.0 in cc same

  -- What is signed is opened to the same artifact.
  pub decode_and_verify-sign :
      (value : UnsignedEnvelope) (secret : Bytes) (artifact : Artifact)
      → IsSigning
      → IsBytes value.from
      → sign_envelope signing value secret ≡ ok artifact
      → decode_and_verify_envelope signing artifact.canonical_bytes ≡ ok artifact
  unfolding sign_envelope
  decode_and_verify-sign value secret artifact lib from_bytes h =
      let (e, parsed, h1) =
        >>=-eq-ok (parse_unsigned_envelope signing (to_unsigned_value value)) _ h in
      let (signer, derived, h2) = >>=-eq-ok (derive_ed25519_public_key signing secret) _ h1 in
      let (by_signer, h3) =
        >>-eq-ok (ensure (bytes_equal e.from signer) sender_key_mismatch) _ h2 in
      let (message, coded_as, h4) =
        >>=-eq-ok (coded (encode_canonical signing.hashing.cbor (to_unsigned_value e))) _ h3 in
      let (made, signed, h5) =
        >>=-eq-ok (sign_ed25519 signing (envelope_signature_input message) secret) _ h4 in
      let (sig, sized, h6) = >>=-eq-ok (require_bytes 64 (some (bytes made))) _ h5 in
      let p = parse_unsigned_value value e parsed in
      let (size, holds) =
        signature_holds value e secret signer message made sig lib
          (subst IsBytes (parsed_from value e parsed) from_bytes) p.from_size derived by_signer
          signed sized in
      opened_again e sig message artifact lib.cbor p size h6 (coded-eq-ok _ message coded_as) holds
