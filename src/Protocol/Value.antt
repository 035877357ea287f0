-- ===== src/Protocol/Value.antt =====
-- packages/encoding/src/value.ts: the values that can be encoded, and the checks on them. A text of
-- the model has no unpaired surrogate, and a value of it no cycle.
use tablefolk.Base.{
  ℕ, ◌+◌, Bool, List, [], ◌∷◌, String, Option, none, some, Result, ok, ◌>>=◌, ◌>>◌, ensure, leb,
  ltb, not, if◌then◌else◌,
}
use text.Mathlib.Text.{◌==◌ as str_eq}
use tablefolk.Session.Bytes.{Bytes}

-- `CborValue`. A number is `integer n`, or `negative n` for -(n + 1).
mutual
  pub data Value : Type 0 where
    null : Value
    boolean : Bool → Value
    integer negative : ℕ → Value
    string : String → Value
    bytes : Bytes → Value
    array : Items → Value
    dict : Fields → Value

  pub data Items : Type 0 where
    nil : Items
    cons : Value → Items → Items

  pub data Fields : Type 0 where
    end : Fields
    field : String → Value → Fields → Fields

-- The codes of a `CanonicalCborError`.
pub data EncodingError : Type 0 where
  unsupported malformed non_canonical : EncodingError

-- `MAX_CBOR_NESTING_DEPTH` and `Number.MAX_SAFE_INTEGER`.
abbrev pub max_depth : ℕ
max_depth = 32

unfoldable pub max_safe_integer : ℕ
max_safe_integer = 9007199254740991

-- `assertDepth`.
abbrev pub check_depth : ℕ → Result EncodingError (Unit {0})
check_depth depth = ensure (not (ltb max_depth depth)) unsupported

-- `validateValue`.
unfoldable mutual
  pub validate_value : ℕ → Value → Result EncodingError (Unit {0})
  validate_value depth (integer n) = do
    check_depth depth
    ensure (leb n max_safe_integer) unsupported
  validate_value depth (negative n) = do
    check_depth depth
    ensure (ltb n max_safe_integer) unsupported
  validate_value depth (array items) = do check_depth depth; validate_items (depth + 1) items
  validate_value depth (dict fields) = do check_depth depth; validate_fields (depth + 1) fields
  validate_value depth _ = check_depth depth

  pub validate_items : ℕ → Items → Result EncodingError (Unit {0})
  validate_items depth nil = ok tt
  validate_items depth (cons v items) = do validate_value depth v; validate_items depth items

  pub validate_fields : ℕ → Fields → Result EncodingError (Unit {0})
  validate_fields depth end = ok tt
  validate_fields depth (field k v fields) = do validate_value depth v; validate_fields depth fields

-- `normalizeValue`.
unfoldable mutual
  pub normalize_value : ℕ → Value → Result EncodingError Value
  normalize_value depth (integer n) = do
    check_depth depth
    ensure (leb n max_safe_integer) unsupported
    ok (integer n)
  normalize_value depth (negative n) = do
    check_depth depth
    ensure (ltb n max_safe_integer) unsupported
    ok (negative n)
  normalize_value depth (array items) = do
    check_depth depth
    copies ← normalize_items (depth + 1) items
    ok (array copies)
  normalize_value depth (dict fields) = do
    check_depth depth
    copies ← normalize_fields (depth + 1) fields
    ok (dict copies)
  normalize_value depth v = do check_depth depth; ok v

  pub normalize_items : ℕ → Items → Result EncodingError Items
  normalize_items depth nil = ok nil
  normalize_items depth (cons v items) = do
    copy ← normalize_value depth v
    copies ← normalize_items depth items
    ok (cons copy copies)

  pub normalize_fields : ℕ → Fields → Result EncodingError Fields
  normalize_fields depth end = ok end
  normalize_fields depth (field k v fields) = do
    copy ← normalize_value depth v
    copies ← normalize_fields depth fields
    ok (field k copy copies)

-- An array as a list, and back.
abbrev pub list_of : Items → List Value
list_of nil = []
list_of (cons v items) = v ∷ list_of items

abbrev pub items_of : List Value → Items
items_of [] = nil
items_of (v ∷ values) = cons v (items_of values)

-- `value[key]`, `Object.hasOwn` and `Object.keys(value).length` of a map.
abbrev pub get_field : String → Fields → Option Value
get_field key end = none
get_field key (field k v fields) = if str_eq k key then some v else get_field key fields

abbrev pub has_field : Fields → String → Bool
has_field fields key = elim (get_field key fields) [ none ↦ Bool.false | some v ↦ Bool.true ]

abbrev pub count_fields : Fields → ℕ
count_fields end = 0
count_fields (field k v fields) = count_fields fields + 1
