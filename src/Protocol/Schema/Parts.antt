-- ===== src/Protocol/Schema/Parts.antt =====
-- packages/protocol/src/schema.ts: what the checks make of values that were written for them.
use tablefolk.Base.{◌≡◌, refl, List, [], ◌∷◌, ap, some, ok, arith, length}
use tablefolk.Session.Bytes.{Bytes}
use tablefolk.Protocol.Value.{Value, bytes, list_of, items_of}
use tablefolk.Protocol.Schema.{decode_identity, decode_hash, decode_game_id}

pub list_of-items_of : (values : List Value) → list_of (items_of values) ≡ values
list_of-items_of [] = refl
list_of-items_of (v ∷ values) = ap (◌∷◌ v) (list_of-items_of values)

pub decode_identity_bytes :
    (b c : Bytes) → decode_identity (some (bytes b)) ≡ ok c → (c ≡ b) × (length b ≡ 32)
unfolding decode_identity
decode_identity_bytes b c h = (ground arith, ground arith)

pub decode_identity_ok : (b : Bytes) → length b ≡ 32 → decode_identity (some (bytes b)) ≡ ok b
unfolding decode_identity
decode_identity_ok b h = ground arith

pub decode_hash_bytes :
    (b c : Bytes) → decode_hash (some (bytes b)) ≡ ok c → (c ≡ b) × (length b ≡ 32)
unfolding decode_hash
decode_hash_bytes b c h = (ground arith, ground arith)

pub decode_hash_ok : (b : Bytes) → length b ≡ 32 → decode_hash (some (bytes b)) ≡ ok b
unfolding decode_hash
decode_hash_ok b h = ground arith

pub decode_game_id_bytes :
    (b c : Bytes) → decode_game_id (some (bytes b)) ≡ ok c → (c ≡ b) × (length b ≡ 16)
unfolding decode_game_id
decode_game_id_bytes b c h = (ground arith, ground arith)

pub decode_game_id_ok : (b : Bytes) → length b ≡ 16 → decode_game_id (some (bytes b)) ≡ ok b
unfolding decode_game_id
decode_game_id_ok b h = ground arith
