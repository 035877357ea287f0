-- ===== src/Examples/Envelopes.antt =====
-- Runs of packages/protocol/src/envelope.ts and packages/encoding/src/canonical.ts.
use tablefolk.Base.{
  ℕ, ◌%◌, ◌≡◌, refl, true, List, [], ◌∷◌, ◌++◌, String, ok, arith, replicate, All, length,
}
use tablefolk.Session.Bytes.{Bytes, bytes_equal, difference}
use tablefolk.Session.Chain.{zero_hash}
use tablefolk.Protocol.Value.{Value, null, dict, max_safe_integer, validate_value, normalize_value}
use tablefolk.Protocol.Canonical.{same_bytes, encode_canonical, decode_canonical}
use tablefolk.Protocol.Canonical.Unique.{same_bytes_self}
use tablefolk.Protocol.Canonical.Orders.{Same, IsCbor, encode-decode_canonical}
use tablefolk.Protocol.Canonical.Lookups.{fields_from}
use tablefolk.Protocol.Envelope.{
  UnsignedEnvelope, Envelope, Artifact, Signing, with_signature, is_message_type, require_exact_map,
  require_unsigned_integer, require_text, require_message_type, require_bytes,
}
use tablefolk.Protocol.Envelope.Verify.{snapshot_value, sign_envelope, decode_and_verify_envelope}
use tablefolk.Protocol.Envelope.Signed.{
  unsigned_entries, all_entries, IsSigning, decode_and_verify-sign,
}
use tablefolk.Protocol.Envelope.Opened.{IsOpened, decode_and_verify-IsOpened}
use tablefolk.Examples.Library.{Entries, IsKnown, knowing, knowing-IsCbor, plain_eq}
use tablefolk.Examples.Setups.{replicate-IsBytes}

abbrev pub game : Bytes
game = replicate 16 1

abbrev pub alice : Bytes
alice = replicate 32 7

-- The first envelope of a chain, with a phase.
abbrev pub first_envelope : String → UnsignedEnvelope
first_envelope phase = record {
  v = 1;
  game = game;
  from = alice;
  seq = 0;
  prev = zero_hash;
  round = 0;
  phase = phase;
  message_type = "JOIN";
  body = null;
}

-- A signature is the key with the length of the message.
abbrev pub toy_sign : Bytes → Bytes → Bytes
toy_sign message key = key ++ replicate 32 (length message)

abbrev pub signature : Bytes
signature = toy_sign (replicate 16 0) alice

abbrev pub signed : String → Envelope
signed phase = with_signature (first_envelope phase) signature

-- The maps of two envelopes, without their signatures and with them.
abbrev pub table : List Entries
table =
    unsigned_entries (first_envelope "lobby") null
    ∷ all_entries (first_envelope "lobby") null signature
    ∷ unsigned_entries (first_envelope "other") null
    ∷ all_entries (first_envelope "other") null signature
    ∷ []

entries-IsKnown : All IsKnown table
unfolding plain_eq same_bytes
entries-IsKnown = ground arith

abbrev pub first_byte : Bytes → ℕ
first_byte [] = 0
first_byte (b ∷ rest) = b

abbrev pub toy_key : Bytes → Bytes
toy_key secret = replicate 32 (first_byte secret % 256)

abbrev pub toy : Signing
toy = record {
  hashing = record { cbor = knowing table; sha256 = λ b. replicate 32 (first_byte b) };
  is_acceptable = λ key. true;
  public_key = toy_key;
  sign = λ message secret. toy_sign message (toy_key secret);
  verify = λ sig message key. same_bytes sig (toy_sign message key);
}

pub toy-IsCbor : IsCbor toy.hashing.cbor
toy-IsCbor = knowing-IsCbor table entries-IsKnown

toy-IsSigning : IsSigning toy
toy-IsSigning = record {
  cbor = toy-IsCbor;
  key_bytes = λ secret. replicate-IsBytes 32 (first_byte secret % 256) (omega arith);
  acceptable = λ secret. refl;
  honest = λ message secret. same_bytes_self (toy_sign message (toy_key secret));
}

abbrev pub artifact : String → ℕ → Artifact
artifact phase n = record {
  envelope = signed phase;
  canonical_bytes = n ∷ [];
  hash = replicate 32 n;
}

first_signed : sign_envelope toy (first_envelope "lobby") alice ≡ ok (artifact "lobby" 2)
unfolding sign_envelope require_exact_map require_unsigned_integer require_text require_message_type
    require_bytes snapshot_value encode_canonical decode_canonical knowing max_safe_integer
    validate_value normalize_value same_bytes plain_eq is_message_type bytes_equal difference
first_signed = refl

decode_and_verify-sign_example : decode_and_verify_envelope toy (2 ∷ []) ≡ ok (artifact "lobby" 2)
decode_and_verify-sign_example =
    decode_and_verify-sign toy (first_envelope "lobby") alice (artifact "lobby" 2) toy-IsSigning
      (replicate-IsBytes 32 7 (omega arith)) first_signed

encoded_map :
    encode_canonical toy.hashing.cbor
      (dict (fields_from (unsigned_entries (first_envelope "lobby") null)))
    ≡ ok (1 ∷ [])
unfolding encode_canonical knowing validate_value max_safe_integer same_bytes plain_eq
encoded_map = refl

encode-decode_canonical_example :
    (w : Value) × (decode_canonical toy.hashing.cbor (1 ∷ []) ≡ ok w)
    × Same (dict (fields_from (unsigned_entries (first_envelope "lobby") null))) w
encode-decode_canonical_example =
    encode-decode_canonical toy.hashing.cbor toy-IsCbor
      (dict (fields_from (unsigned_entries (first_envelope "lobby") null))) (1 ∷ []) encoded_map

second_signed : sign_envelope toy (first_envelope "other") alice ≡ ok (artifact "other" 4)
unfolding sign_envelope require_exact_map require_unsigned_integer require_text require_message_type
    require_bytes snapshot_value encode_canonical decode_canonical knowing max_safe_integer
    validate_value normalize_value same_bytes plain_eq is_message_type bytes_equal difference
second_signed = refl

-- Both envelopes are opened to themselves.
pub first_genuine : decode_and_verify_envelope toy (2 ∷ []) ≡ ok (artifact "lobby" 2)
first_genuine =
    decode_and_verify-sign toy (first_envelope "lobby") alice (artifact "lobby" 2) toy-IsSigning
      (replicate-IsBytes 32 7 (omega arith)) first_signed

pub second_genuine : decode_and_verify_envelope toy (4 ∷ []) ≡ ok (artifact "other" 4)
second_genuine =
    decode_and_verify-sign toy (first_envelope "other") alice (artifact "other" 4) toy-IsSigning
      (replicate-IsBytes 32 7 (omega arith)) second_signed

decode_and_verify-IsOpened_example : IsOpened toy (2 ∷ []) (artifact "lobby" 2)
decode_and_verify-IsOpened_example =
    decode_and_verify-IsOpened toy (2 ∷ []) (artifact "lobby" 2) toy-IsCbor first_genuine
