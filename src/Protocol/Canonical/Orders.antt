-- ===== src/Protocol/Canonical/Orders.antt =====
-- packages/encoding/src/canonical.ts: the order of a map's keys. JavaScript maps that differ in the
-- order of their keys are the same value to the library, which writes the keys in an order of its own.
use tablefolk.Base.{
  ℕ, ◌+◌, ◌<◌, ◌≡◌, ◌≢◌, refl, false, some, String, ok, arith, length, ◌==◌, >>-eq-ok, expect,
  expect-eq-ok,
}
use tablefolk.Session.Bytes.{Bytes}
use tablefolk.Protocol.Value.{
  Value, Items, Fields, array, dict, nil, cons, field, malformed, check_depth, validate_value,
  validate_items, validate_fields,
}
use tablefolk.Protocol.Canonical.{Cbor, encode_canonical, decode_canonical}
use tablefolk.Protocol.Canonical.Unique.{normalize_valid, same_bytes_self}

-- Values that are equal but for the order of keys.
mutual
  pub data Same : Value → Value → Type 0 where
    self : (v : Value) → Same v v
    through : {u v w : Value} → Same u v → Same v w → Same u w
    arrays : {xs ys : Items} → SameItems xs ys → Same (array xs) (array ys)
    dicts : {fs gs : Fields} → SameFields fs gs → Same (dict fs) (dict gs)

  pub data SameItems : Items → Items → Type 0 where
    no_items : SameItems nil nil
    one_more :
        {v w : Value} {xs ys : Items}
        → Same v w
        → SameItems xs ys
        → SameItems (cons v xs) (cons w ys)

  pub data SameFields : Fields → Fields → Type 0 where
    same_fields : (fs : Fields) → SameFields fs fs
    one_field :
        (k : String) {v w : Value} {fs gs : Fields}
        → Same v w
        → SameFields fs gs
        → SameFields (field k v fs) (field k w gs)
    swapped :
        {k j : String}
        → k ≢ j
        → (v w : Value) (fs : Fields)
        → SameFields (field k v (field j w fs)) (field j w (field k v fs))
    then_also : {fs gs hs : Fields} → SameFields fs gs → SameFields gs hs → SameFields fs hs

-- What the library promises: it reads what it wrote, up to the order of keys, and does not heed that
-- order in writing.
pub record IsCbor (cbor : Cbor) : Type 0 where
  pub reads :
      (v : Value) (encoded : Bytes)
      → cbor.encode v ≡ some encoded
      → (w : Value) × (cbor.decode encoded ≡ ok w) × Same v w × (0 < length encoded)
  pub heedless : (v w : Value) → Same v w → cbor.encode v ≡ cbor.encode w

mutual
  unfolding validate_value

  validate-Same :
      (d : ℕ) {v w : Value} → Same v w → validate_value d v ≡ ok tt → validate_value d w ≡ ok tt
  validate-Same d (self v) h = h
  validate-Same d (through p q) h = validate-Same d q (validate-Same d p h)
  validate-Same d (arrays {xs} {ys} p) h =
      let (deep, rest) = >>-eq-ok (check_depth d) (validate_items (d + 1) xs) h in
      rw (deep, validate_items-Same (d + 1) p rest) refl
  validate-Same d (dicts {fs} {gs} p) h =
      let (deep, rest) = >>-eq-ok (check_depth d) (validate_fields (d + 1) fs) h in
      rw (deep, validate_fields-Same (d + 1) p rest) refl

  validate_items-Same :
      (d : ℕ) {xs ys : Items}
      → SameItems xs ys
      → validate_items d xs ≡ ok tt
      → validate_items d ys ≡ ok tt
  validate_items-Same d no_items h = h
  validate_items-Same d (one_more {v} {w} {xs} {ys} p ps) h =
      let (first, rest) = >>-eq-ok (validate_value d v) (validate_items d xs) h in
      rw (validate-Same d p first, validate_items-Same d ps rest) refl

  validate_fields-Same :
      (d : ℕ) {fs gs : Fields}
      → SameFields fs gs
      → validate_fields d fs ≡ ok tt
      → validate_fields d gs ≡ ok tt
  validate_fields-Same d (same_fields fs) h = h
  validate_fields-Same d (then_also p q) h = validate_fields-Same d q (validate_fields-Same d p h)
  validate_fields-Same d (one_field k {v} {w} {fs} {gs} p ps) h =
      let (first, rest) = >>-eq-ok (validate_value d v) (validate_fields d fs) h in
      rw (validate-Same d p first, validate_fields-Same d ps rest) refl
  validate_fields-Same d (swapped n v w fs) h =
      let (first, h1) = >>-eq-ok (validate_value d v) _ h in
      let (second, rest) = >>-eq-ok (validate_value d w) (validate_fields d fs) h1 in
      rw (second, first, rest) refl

module _ (cbor : Cbor) (lib : IsCbor cbor) where
  -- The encoding does not heed the order of keys.
  pub encode_canonical-Same :
      {v w : Value} {encoded : Bytes}
      → Same v w
      → encode_canonical cbor v ≡ ok encoded
      → encode_canonical cbor w ≡ ok encoded
  unfolding encode_canonical
  encode_canonical-Same {v} {w} {encoded} p h =
      let (valid, e) = >>-eq-ok (validate_value 0 v) (expect (cbor.encode v) malformed) h in
      rw (validate-Same 0 p valid, ← lib.heedless v w p) e

  -- What `encodeCanonical` gives for a value is decoded to that value, up to the order of keys.
  pub encode-decode_canonical :
      (v : Value) (encoded : Bytes)
      → encode_canonical cbor v ≡ ok encoded
      → (w : Value) × (decode_canonical cbor encoded ≡ ok w) × Same v w
  unfolding decode_canonical encode_canonical
  encode-decode_canonical v encoded h =
      let (valid, e) = >>-eq-ok (validate_value 0 v) (expect (cbor.encode v) malformed) h in
      let given = expect-eq-ok (cbor.encode v) malformed e in
      let (w, back, same, filled) = lib.reads v encoded given in
      let valid' = validate-Same 0 same valid in
      let nonempty : (length encoded == 0) ≡ false = ground arith in
      let heedless = lib.heedless v w same in
      (
        w,
        rw
            (
              nonempty,
              back,
              normalize_valid 0 w valid',
              valid',
              ← heedless,
              given,
              same_bytes_self encoded,
            )
            refl,
        same,
      )
