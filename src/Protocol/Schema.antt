-- ===== src/Protocol/Schema.antt =====
-- packages/protocol/src/schema.ts and fields.ts: the checks on the parts of a body. A part that a map
-- does not have is `undefined`, here `none`.
pub mod Parts
use tablefolk.Base.{
  ℕ, Bool, true, false, List, [], ◌∷◌, String, Option, none, some, Result, ok, err, ◌>>=◌, ◌>>◌,
  ensure, leb, not, ◌&&◌, ◌==◌, length, every,
}
use text.Mathlib.Text.{◌==◌ as str_eq}
use tablefolk.Session.Bytes.{Bytes}
use tablefolk.Protocol.Value.{
  Value, Fields, integer, string, bytes, array, dict, get_field, has_field, count_fields, list_of,
  max_safe_integer,
}

-- `ProtocolSchemaError`, by what it says of a part.
pub data SchemaError : Type 0 where
  not_map wrong_fields not_array not_bytes bad_integer bad_text wrong_size bad_seat_count
        too_many_heads reversed_range bad_version bad_type empty_array bad_reason bad_count
        different_scope same_hash unordered bad_encoding :
      SchemaError
  duplicate_at bad_envelope : ℕ → SchemaError

-- `expectExactMap`.
unfoldable pub expect_exact_map : Option Value → List String → Result SchemaError Fields
expect_exact_map (some (dict fields)) keys = do
  ensure (count_fields fields == length keys && every (has_field fields) keys) wrong_fields
  ok fields
expect_exact_map _ keys = err not_map

unfoldable pub expect_array : Option Value → Result SchemaError (List Value)
expect_array (some (array items)) = ok (list_of items)
expect_array _ = err not_array

-- `expectByteString`.
unfoldable pub expect_bytes : Option Value → Result SchemaError Bytes
expect_bytes (some (bytes b)) = ok b
expect_bytes _ = err not_bytes

-- `expectUnsignedInteger` with the default maximum.
unfoldable pub expect_unsigned_integer : Option Value → Result SchemaError ℕ
expect_unsigned_integer (some (integer n)) = do ensure (leb n max_safe_integer) bad_integer; ok n
expect_unsigned_integer _ = err bad_integer

-- `expectUnsignedInteger` with a maximum.
unfoldable pub expect_integer_to : ℕ → Option Value → Result SchemaError ℕ
expect_integer_to maximum (some (integer n)) = do
  ensure (leb n max_safe_integer && leb n maximum) bad_integer
  ok n
expect_integer_to maximum _ = err bad_integer

-- `expectNonEmptyText`.
unfoldable pub expect_text : Option Value → Result SchemaError String
expect_text (some (string s)) = do ensure (not (str_eq s "")) bad_text; ok s
expect_text _ = err bad_text

-- `parseFixedBytes`.
unfoldable pub parse_fixed_bytes : ℕ → Bytes → Result SchemaError Bytes
parse_fixed_bytes size b = do ensure (length b == size) wrong_size; ok b

abbrev pub parse_game_id : Bytes → Result SchemaError Bytes
parse_game_id = parse_fixed_bytes 16

abbrev pub parse_identity_public_key : Bytes → Result SchemaError Bytes
parse_identity_public_key = parse_fixed_bytes 32

abbrev pub parse_hash256 : Bytes → Result SchemaError Bytes
parse_hash256 = parse_fixed_bytes 32

abbrev pub parse_ed25519_signature : Bytes → Result SchemaError Bytes
parse_ed25519_signature = parse_fixed_bytes 64

-- `decodeIdentity`, `decodeHash` and `decodeGameId`.
unfoldable pub decode_identity : Option Value → Result SchemaError Bytes
unfolding expect_bytes parse_fixed_bytes
decode_identity value = do b ← expect_bytes value; parse_identity_public_key b

unfoldable pub decode_hash : Option Value → Result SchemaError Bytes
unfolding expect_bytes parse_fixed_bytes
decode_hash value = do b ← expect_bytes value; parse_hash256 b

unfoldable pub decode_game_id : Option Value → Result SchemaError Bytes
unfolding expect_bytes parse_fixed_bytes
decode_game_id value = do b ← expect_bytes value; parse_game_id b
