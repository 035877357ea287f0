-- ===== src/Protocol/Lobby/Trips.antt =====
-- packages/protocol/src/lobby.ts: bodies that are written and read again.
use tablefolk.Base.{
  ℕ, ◌≡◌, ◌+◌, sym, ◌∙◌, ap, ap₂, subst, List, [], ◌∷◌, map, some, ok, ensure, arith, length, not,
  >>=-eq-ok, >>-eq-ok,
}
use tablefolk.Session.Bytes.{Bytes}
use tablefolk.Protocol.Value.{Value, bytes, list_of, items_of}
use tablefolk.Protocol.Schema.{
  expect_exact_map, expect_array, expect_text, decode_identity, decode_hash, decode_game_id,
  duplicate_at, bad_seat_count,
}
use tablefolk.Protocol.Schema.Parts.{
  list_of-items_of, decode_identity_bytes, decode_hash_bytes, decode_hash_ok, decode_game_id_bytes,
  decode_game_id_ok,
}
use tablefolk.Protocol.Lobby.{
  seen_before, fits_table, roster_map, JoinBody, RosterBody, ReadyBody, encode_join_body,
  decode_join_body, normalize_seats, normalize_roster_body, identities, encode_roster_body,
  decode_roster_body, encode_ready_body, decode_ready_body,
}

-- A READY body that is written is read back as it was.
decode-encode_ready_body :
    (body : ReadyBody) (v : Value) → encode_ready_body body ≡ ok v → decode_ready_body v ≡ ok body
unfolding encode_ready_body decode_ready_body decode_hash
decode-encode_ready_body body v h = ground arith

-- A JOIN body that is written is read back as it was.
decode-encode_join_body :
    (body : JoinBody) (v : Value) → encode_join_body body ≡ ok v → decode_join_body v ≡ ok body
unfolding encode_join_body decode_join_body decode_hash decode_identity expect_text
decode-encode_join_body body v h = ground arith

-- Seats that are bytes are kept as they are.
normalize_seats_bytes :
    (index : ℕ) (seen seats result : List Bytes)
    → normalize_seats index seen (map bytes seats) ≡ ok result
    → result ≡ seats
unfolding normalize_seats
normalize_seats_bytes index seen [] result h = ground arith
normalize_seats_bytes index seen (seat ∷ seats) result h =
    let (same, d, h1) = >>=-eq-ok (decode_identity (some (bytes seat))) _ h in
    let (fresh, h2) = >>-eq-ok (ensure (not (seen_before seen same)) (duplicate_at index)) _ h1 in
    let (rest, r, h3) =
      >>=-eq-ok (normalize_seats (index + 1) (same ∷ seen) (map bytes seats)) _ h2 in
    let tail_same = normalize_seats_bytes (index + 1) (same ∷ seen) seats rest r in
    let head_same = (decode_identity_bytes seat same d).0 in
    let result_is : (same ∷ rest) ≡ result = cc h3 in sym result_is ∙ ap₂ ◌∷◌ head_same tail_same

-- The parts of a body that is accepted: they are those given.
normalize_roster_body_bytes :
    (body normalized : RosterBody)
    → normalize_roster_body
        (some (bytes body.game_id))
        (some (bytes body.rules_hash))
        (some (bytes body.ice_config_hash))
        (some (identities body.seats))
      ≡ ok normalized
    → (normalized ≡ body)
      × (length body.game_id ≡ 16)
      × (length body.rules_hash ≡ 32)
      × (length body.ice_config_hash ≡ 32)
unfolding normalize_roster_body expect_array
normalize_roster_body_bytes body normalized h =
    let (sized, h1) =
      >>-eq-ok (ensure (fits_table (list_of (items_of (map bytes body.seats)))) bad_seat_count) _
        h in
    let (seats, s, h2) =
      >>=-eq-ok (normalize_seats 0 [] (list_of (items_of (map bytes body.seats)))) _ h1 in
    let (game, g, h3) = >>=-eq-ok (decode_game_id (some (bytes body.game_id))) _ h2 in
    let (rules, r, h4) = >>=-eq-ok (decode_hash (some (bytes body.rules_hash))) _ h3 in
    let (ice, i, h5) = >>=-eq-ok (decode_hash (some (bytes body.ice_config_hash))) _ h4 in
    let (game_same, game_size) = decode_game_id_bytes body.game_id game g in
    let (rules_same, rules_size) = decode_hash_bytes body.rules_hash rules r in
    let (ice_same, ice_size) = decode_hash_bytes body.ice_config_hash ice i in
    let seats_same : seats ≡ body.seats =
      normalize_seats_bytes 0 [] body.seats seats
        (rw (← list_of-items_of (map bytes body.seats)) s) in
    (cc, game_size, rules_size, ice_size)

-- A ROSTER body that is written is read back as it was.
pub decode-encode_roster_body :
    (body : RosterBody) (v : Value)
    → encode_roster_body body ≡ ok v
    → decode_roster_body v ≡ ok body
unfolding encode_roster_body decode_roster_body expect_exact_map expect_array
decode-encode_roster_body body v h =
    let (normalized, n, h1) =
      >>=-eq-ok
        (normalize_roster_body (some (bytes body.game_id)) (some (bytes body.rules_hash))
          (some (bytes body.ice_config_hash)) (some (identities body.seats)))
        _ h in
    let (same, game_size, rules_size, ice_size) = normalize_roster_body_bytes body normalized n in
    let written : roster_map body ≡ v = subst (λ b. roster_map b ≡ v) same (cc h1) in
    rw
      (
        ← written,
        decode_game_id_ok body.game_id game_size,
        decode_hash_ok body.rules_hash rules_size,
        decode_hash_ok body.ice_config_hash ice_size,
        list_of-items_of (map bytes body.seats),
        n,
      )
      (ap ok same)
