-- ===== src/Protocol/Lobby.antt =====
-- packages/protocol/src/lobby.ts: the bodies of JOIN, ROSTER and READY.
pub mod Trips
use tablefolk.Base.{
  ℕ, suc, ◌+◌, Bool, List, [], ◌∷◌, String, Option, none, some, map, Result, ok, err, ◌>>=◌, ◌>>◌,
  ensure, leb, not, ◌&&◌, ◌==◌, length, any,
}
use tablefolk.Session.Bytes.{Bytes, bytes_to_hex, text_equal}
use tablefolk.Protocol.Value.{
  Value, Fields, string, bytes, array, dict, end, field, get_field, list_of, items_of,
}
use tablefolk.Protocol.Schema.{
  SchemaError, bad_seat_count, duplicate_at, expect_exact_map, expect_array, expect_text,
  decode_identity, decode_hash, decode_game_id,
}

pub record JoinBody : Type 0 where
  pub pk_id : Bytes
  pub rules_hash : Bytes
  pub client_version : String

pub record RosterBody : Type 0 where
  pub game_id : Bytes
  pub rules_hash : Bytes
  pub ice_config_hash : Bytes
  pub seats : List Bytes

pub record ReadyBody : Type 0 where
  pub roster_hash : Bytes

abbrev pub join_keys : List String
join_keys = "pk_id" ∷ "rules_hash" ∷ "client_version" ∷ []

abbrev pub roster_keys : List String
roster_keys = "game_id" ∷ "rules_hash" ∷ "ice_config_hash" ∷ "seats" ∷ []

abbrev pub ready_keys : List String
ready_keys = "roster_hash" ∷ []

-- `MAX_LOBBY_SEATS`.
abbrev pub max_lobby_seats : ℕ
max_lobby_seats = 8

unfoldable pub normalize_join_body :
    Option Value → Option Value → Option Value → Result SchemaError JoinBody
normalize_join_body pk_id rules_hash client_version = do
  identity ← decode_identity pk_id
  rules ← decode_hash rules_hash
  version ← expect_text client_version
  ok (record { pk_id = identity; rules_hash = rules; client_version = version })

unfoldable pub encode_join_body : JoinBody → Result SchemaError Value
unfolding normalize_join_body
encode_join_body body = do
  normalized ←
      normalize_join_body (some (bytes body.pk_id)) (some (bytes body.rules_hash))
        (some (string body.client_version))
  ok (
      dict (
        field "pk_id" (bytes normalized.pk_id) (
          field "rules_hash" (bytes normalized.rules_hash)
            (field "client_version" (string normalized.client_version) end))))

unfoldable pub decode_join_body : Value → Result SchemaError JoinBody
unfolding normalize_join_body expect_exact_map
decode_join_body value = do
  body ← expect_exact_map (some value) join_keys
  identity ← decode_identity (get_field "pk_id" body)
  rules ← decode_hash (get_field "rules_hash" body)
  version ← expect_text (get_field "client_version" body)
  normalize_join_body (some (bytes identity)) (some (bytes rules)) (some (string version))

-- `seen.has(bytesToHex(seat))`.
abbrev pub seen_before : List Bytes → Bytes → Bool
seen_before seen seat = any (λ s. text_equal (bytes_to_hex s) (bytes_to_hex seat)) seen

-- The loop over the seats, with the keys seen so far.
unfoldable pub normalize_seats : ℕ → List Bytes → List Value → Result SchemaError (List Bytes)
normalize_seats index seen [] = ok []
normalize_seats index seen (candidate ∷ candidates) = do
  seat ← decode_identity (some candidate)
  ensure (not (seen_before seen seat)) (duplicate_at index)
  rest ← normalize_seats (index + 1) (seat ∷ seen) candidates
  ok (seat ∷ rest)

abbrev pub fits_table : List Value → Bool
fits_table candidates = not (length candidates == 0) && leb (length candidates) max_lobby_seats

unfoldable pub normalize_roster_body :
    Option Value → Option Value → Option Value → Option Value → Result SchemaError RosterBody
normalize_roster_body game_id rules_hash ice_config_hash seats = do
  candidates ← expect_array seats
  ensure (fits_table candidates) bad_seat_count
  normalized ← normalize_seats 0 [] candidates
  game ← decode_game_id game_id
  rules ← decode_hash rules_hash
  ice ← decode_hash ice_config_hash
  ok (record { game_id = game; rules_hash = rules; ice_config_hash = ice; seats = normalized })

abbrev pub identities : List Bytes → Value
identities seats = array (items_of (map bytes seats))

abbrev pub roster_map : RosterBody → Value
roster_map body = dict (
    field "game_id" (bytes body.game_id) (
      field "rules_hash" (bytes body.rules_hash) (
        field "ice_config_hash" (bytes body.ice_config_hash)
          (field "seats" (identities body.seats) end))))

unfoldable pub encode_roster_body : RosterBody → Result SchemaError Value
unfolding normalize_roster_body
encode_roster_body body = do
  normalized ←
      normalize_roster_body (some (bytes body.game_id)) (some (bytes body.rules_hash))
        (some (bytes body.ice_config_hash)) (some (identities body.seats))
  ok (roster_map normalized)

unfoldable pub decode_roster_body : Value → Result SchemaError RosterBody
unfolding normalize_roster_body expect_exact_map
decode_roster_body value = do
  body ← expect_exact_map (some value) roster_keys
  game ← decode_game_id (get_field "game_id" body)
  rules ← decode_hash (get_field "rules_hash" body)
  ice ← decode_hash (get_field "ice_config_hash" body)
  seats ← expect_array (get_field "seats" body)
  normalize_roster_body (some (bytes game)) (some (bytes rules)) (some (bytes ice))
      (some (array (items_of seats)))

unfoldable pub encode_ready_body : ReadyBody → Result SchemaError Value
encode_ready_body body = do
  hash ← decode_hash (some (bytes body.roster_hash))
  ok (dict (field "roster_hash" (bytes hash) end))

unfoldable pub decode_ready_body : Value → Result SchemaError ReadyBody
unfolding expect_exact_map
decode_ready_body value = do
  body ← expect_exact_map (some value) ready_keys
  hash ← decode_hash (get_field "roster_hash" body)
  ok (record { roster_hash = hash })
