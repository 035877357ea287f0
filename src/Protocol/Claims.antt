-- ===== src/Protocol/Claims.antt =====
-- packages/protocol/src/witness.ts: the body of WITNESS.
pub mod Trips
use tablefolk.Base.{
  ℕ, suc, Bool, not, List, [], ◌∷◌, String, Option, none, some, map, Result, ok, err, ◌>>=◌, ◌>>◌,
  ensure, leb, ◌==◌, length, if◌then◌else◌,
}
use tablefolk.Session.Bytes.{Bytes}
use tablefolk.Protocol.Value.{
  Value, Fields, integer, bytes, array, dict, end, field, get_field, has_field, list_of, items_of,
}
use tablefolk.Protocol.Schema.{
  SchemaError, too_many_heads, duplicate_at, expect_exact_map, expect_array,
  expect_unsigned_integer, decode_identity, decode_hash,
}
use tablefolk.Protocol.Lobby.{seen_before}

-- `WitnessHead` and `WitnessBody`.
pub record WitnessHead : Type 0 where
  pub from : Bytes
  pub seq : ℕ
  pub hash : Bytes

pub record WitnessBody : Type 0 where
  pub claimed_heads : List WitnessHead
  pub state_hash : Option Bytes

-- `MAX_WITNESS_HEADS`.
abbrev pub max_witness_heads : ℕ
max_witness_heads = 8

abbrev pub body_keys : List String
body_keys = "heads" ∷ []

abbrev pub body_with_state_keys : List String
body_with_state_keys = "heads" ∷ "state_hash" ∷ []

abbrev pub head_keys : List String
head_keys = "from" ∷ "seq" ∷ "hash" ∷ []

-- One head, from its parts.
abbrev pub head_of_parts :
    Option Value → Option Value → Option Value → Result SchemaError WitnessHead
head_of_parts from seq hash = do
  sender ← decode_identity from
  number ← expect_unsigned_integer seq
  digest ← decode_hash hash
  ok (record { from = sender; seq = number; hash = digest })

-- `rejectDuplicateSenders`, with the keys seen so far.
unfoldable pub reject_duplicate_senders :
    ℕ → List Bytes → List WitnessHead → Result SchemaError (Unit {0})
reject_duplicate_senders index seen [] = ok tt
reject_duplicate_senders index seen (head ∷ heads) = do
  ensure (not (seen_before seen head.from)) (duplicate_at index)
  reject_duplicate_senders (suc index) (head.from ∷ seen) heads

-- The loop of `normalizeHeads`.
unfoldable pub copy_heads : List WitnessHead → Result SchemaError (List WitnessHead)
copy_heads [] = ok []
copy_heads (head ∷ heads) = do
  copy ← head_of_parts (some (bytes head.from)) (some (integer head.seq)) (some (bytes head.hash))
  copies ← copy_heads heads
  ok (copy ∷ copies)

unfoldable pub normalize_heads : List WitnessHead → Result SchemaError (List WitnessHead)
unfolding copy_heads reject_duplicate_senders
normalize_heads heads = do
  ensure (leb (length heads) max_witness_heads) too_many_heads
  normalized ← copy_heads heads
  reject_duplicate_senders 0 [] normalized
  ok normalized

abbrev pub head_value : WitnessHead → Value
head_value head = dict (
    field "from" (bytes head.from)
      (field "seq" (integer head.seq) (field "hash" (bytes head.hash) end)))

abbrev pub heads_value : List WitnessHead → Value
heads_value heads = array (items_of (map head_value heads))

-- `encodeWitnessBody`.
unfoldable pub encode_witness_body : WitnessBody → Result SchemaError Value
unfolding normalize_heads
encode_witness_body body = do
  heads ← normalize_heads body.claimed_heads
  elim body.state_hash [
    | none ↦ ok (dict (field "heads" (heads_value heads) end))
    | some state_hash ↦ do
      hash ← decode_hash (some (bytes state_hash))
      ok (dict (field "heads" (heads_value heads) (field "state_hash" (bytes hash) end)))
  ]

-- `hasMapKey`.
abbrev pub has_map_key : Value → String → Bool
has_map_key (dict fields) key = has_field fields key
has_map_key _ key = Bool.false

-- The loop over the heads that are read.
unfoldable pub read_heads : List Value → Result SchemaError (List WitnessHead)
unfolding expect_exact_map
read_heads [] = ok []
read_heads (candidate ∷ candidates) = do
  head ← expect_exact_map (some candidate) head_keys
  first ← head_of_parts (get_field "from" head) (get_field "seq" head) (get_field "hash" head)
  rest ← read_heads candidates
  ok (first ∷ rest)

abbrev pub read_state_hash : Option Value → Result SchemaError (Option Bytes)
read_state_hash none = ok none
read_state_hash (some value) = do hash ← decode_hash (some value); ok (some hash)

-- `decodeWitnessBody`.
unfoldable pub decode_witness_body : Value → Result SchemaError WitnessBody
unfolding read_heads expect_exact_map reject_duplicate_senders expect_array
decode_witness_body value = do
  body ←
      expect_exact_map (some value)
        (if has_map_key value "state_hash" then body_with_state_keys else body_keys)
  encoded ← expect_array (get_field "heads" body)
  ensure (leb (length encoded) max_witness_heads) too_many_heads
  heads ← read_heads encoded
  reject_duplicate_senders 0 [] heads
  state_hash ← read_state_hash (get_field "state_hash" body)
  ok (record { claimed_heads = heads; state_hash = state_hash })
