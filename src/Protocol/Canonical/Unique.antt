-- ===== src/Protocol/Canonical/Unique.antt =====
-- packages/encoding/src/canonical.ts: decoding against encoding.
use tablefolk.Base.{
  >>-eq-ok, >>=-eq-ok, ensure-eq-ok, ℕ, ◌+◌, ◌≡◌, refl, subst, true, [], ◌∷◌, ok, ensure, not, ◌==◌,
  length, arith, Bool-cases, ◌⊎◌, ◌≢◌, inl, inr,
}
use tablefolk.Session.Bytes.{Bytes}
use tablefolk.Protocol.Value.{
  Value, Items, Fields, null, boolean, integer, negative, string, bytes, array, dict, nil, cons,
  end, field, malformed, non_canonical, validate_value, validate_items, validate_fields,
  normalize_value, normalize_items, normalize_fields,
}
use tablefolk.Protocol.Canonical.{Cbor, same_bytes, encode_canonical, decode_canonical}

pub same_bytes_eq : (left right : Bytes) → same_bytes left right ≡ true → left ≡ right
unfolding same_bytes
same_bytes_eq [] [] h = refl
same_bytes_eq [] (b ∷ right) h = cc
same_bytes_eq (a ∷ left) [] h = cc
same_bytes_eq (a ∷ left) (b ∷ right) h = ground (arith, same_bytes_eq left right)

pub same_bytes_self : (left : Bytes) → same_bytes left left ≡ true
unfolding same_bytes
same_bytes_self [] = refl
same_bytes_self (a ∷ left) = ground (arith, same_bytes_self left)

pub Bytes-cases : (left right : Bytes) → (left ≡ right) ⊎ (left ≢ right)
Bytes-cases left right = elim (Bool-cases (same_bytes left right)) [
  | inl same ↦ inl (same_bytes_eq left right same)
  | inr differ ↦
      inr (λ e. cc (subst (λ b. same_bytes left b ≡ true) e (same_bytes_self left), differ))
]

-- Bytes that are decoded to a value are the encoding of that value.
pub decode-encode_canonical :
    (cbor : Cbor) (encoded : Bytes) (v : Value)
    → decode_canonical cbor encoded ≡ ok v
    → encode_canonical cbor v ≡ ok encoded
unfolding decode_canonical
decode-encode_canonical cbor encoded v h =
    let (filled, h1) = >>-eq-ok (ensure (not (length encoded == 0)) malformed) _ h in
    let (decoded, d, h2) = >>=-eq-ok (cbor.decode encoded) _ h1 in
    let (normalized, n, h3) = >>=-eq-ok (normalize_value 0 decoded) _ h2 in
    let (again, e, h4) = >>=-eq-ok (encode_canonical cbor normalized) _ h3 in
    let (same, h5) =
      >>-eq-ok (ensure (same_bytes encoded again) non_canonical) (ok normalized) h4 in
    let bytes_same =
      same_bytes_eq encoded again (ensure-eq-ok (same_bytes encoded again) non_canonical same) in
    let value_same : normalized ≡ v = cc h5 in rw (← value_same, bytes_same) e

mutual
  unfolding validate_value normalize_value

  pub normalize_valid :
      (d : ℕ) (v : Value) → validate_value d v ≡ ok tt → normalize_value d v ≡ ok v
  normalize_valid d null h = ground arith
  normalize_valid d (boolean b) h = ground arith
  normalize_valid d (integer n) h = ground arith
  normalize_valid d (negative n) h = ground arith
  normalize_valid d (string s) h = ground arith
  normalize_valid d (bytes b) h = ground arith
  normalize_valid d (array items) h = ground (arith, normalize_valid_items (d + 1) items)
  normalize_valid d (dict fields) h = ground (arith, normalize_valid_fields (d + 1) fields)

  normalize_valid_items :
      (d : ℕ) (items : Items) → validate_items d items ≡ ok tt → normalize_items d items ≡ ok items
  normalize_valid_items d nil h = refl
  normalize_valid_items d (cons v items) h =
      let (first, rest) = >>-eq-ok (validate_value d v) (validate_items d items) h in
      rw (normalize_valid d v first, normalize_valid_items d items rest) refl

  normalize_valid_fields :
      (d : ℕ) (fields : Fields)
      → validate_fields d fields ≡ ok tt
      → normalize_fields d fields ≡ ok fields
  normalize_valid_fields d end h = refl
  normalize_valid_fields d (field k v fields) h =
      let (first, rest) = >>-eq-ok (validate_value d v) (validate_fields d fields) h in
      rw (normalize_valid d v first, normalize_valid_fields d fields rest) refl
