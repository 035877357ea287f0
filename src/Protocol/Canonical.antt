-- ===== src/Protocol/Canonical.antt =====
-- packages/encoding/src/canonical.ts: the one encoding of a value. The library of CBOR that it calls
-- is a parameter.
pub mod Unique
pub mod Orders
pub mod Lookups
use tablefolk.Base.{
  ℕ, Bool, true, false, List, [], ◌∷◌, Option, Result, ok, err, ◌>>=◌, ◌>>◌, ensure, expect, not,
  ◌==◌, length, if◌then◌else◌,
}
use tablefolk.Session.Bytes.{Bytes}
use tablefolk.Protocol.Value.{
  Value, EncodingError, malformed, non_canonical, validate_value, normalize_value,
}

-- What is called of the library: `encode`, which may throw, and `decode`, which throws or gives what
-- is no value of the model.
pub record Cbor : Type 0 where
  pub encode : Value → Option Bytes
  pub decode : Bytes → Result EncodingError Value

-- `bytesEqual` of the file.
unfoldable pub same_bytes : Bytes → Bytes → Bool
same_bytes [] [] = true
same_bytes (a ∷ left) (b ∷ right) =
    let rest = same_bytes left right in if a == b then rest else false
same_bytes _ _ = false

-- `encodeCanonical`.
unfoldable pub encode_canonical : Cbor → Value → Result EncodingError Bytes
encode_canonical cbor value = do validate_value 0 value; expect (cbor.encode value) malformed

-- `decodeCanonical`.
unfoldable pub decode_canonical : Cbor → Bytes → Result EncodingError Value
unfolding encode_canonical
decode_canonical cbor encoded = do
  ensure (not (length encoded == 0)) malformed
  decoded ← cbor.decode encoded
  normalized ← normalize_value 0 decoded
  again ← encode_canonical cbor normalized
  ensure (same_bytes encoded again) non_canonical
  ok normalized
