-- ===== src/Protocol/Claims/Trips.antt =====
-- packages/protocol/src/witness.ts: a body that is written and read again.
use tablefolk.Base.{
  suc, ◌≡◌, refl, sym, ◌∙◌, ap, ap₂, subst, true, List, [], ◌∷◌, Option, none, some, map, ok, arith,
  length, leb, ensure, >>=-eq-ok, >>-eq-ok, ok-injective,
}
use tablefolk.Session.Bytes.{Bytes}
use tablefolk.Protocol.Value.{Value, integer, bytes, dict, end, field}
use tablefolk.Protocol.Schema.{
  expect_unsigned_integer, decode_identity, decode_hash, too_many_heads,
}
use tablefolk.Protocol.Schema.Parts.{list_of-items_of, decode_hash_bytes, decode_hash_ok}
use tablefolk.Protocol.Claims.{
  WitnessHead, WitnessBody, head_of_parts, reject_duplicate_senders, copy_heads, normalize_heads,
  max_witness_heads, head_value, heads_value, encode_witness_body, read_heads, decode_witness_body,
}

head_of_parts_same :
    (head copy : WitnessHead)
    → head_of_parts (some (bytes head.from)) (some (integer head.seq)) (some (bytes head.hash))
      ≡ ok copy
    → copy ≡ head
unfolding decode_identity decode_hash expect_unsigned_integer
head_of_parts_same head copy h = ground arith

-- Heads that are copied are the same, and read back from their values.
copied_read :
    (heads copies : List WitnessHead)
    → copy_heads heads ≡ ok copies
    → (copies ≡ heads) × (read_heads (map head_value heads) ≡ ok heads)
unfolding copy_heads read_heads
copied_read [] copies h = (sym (ok-injective [] copies h), refl)
copied_read (head ∷ heads) copies h =
    let (copy, c, h1) =
      >>=-eq-ok
        (head_of_parts (some (bytes head.from)) (some (integer head.seq)) (some (bytes head.hash)))
        _ h in
    let (rest, r, h2) = >>=-eq-ok (copy_heads heads) _ h1 in
    let same = head_of_parts_same head copy c in
    let (rest_same, rest_read) = copied_read heads rest r in
    let copies_are : copies ≡ head ∷ heads =
      sym (ok-injective (copy ∷ rest) copies h2) ∙ ap₂ ◌∷◌ same rest_same in
    let c' =
      subst
        (λ x.
          head_of_parts (some (bytes head.from)) (some (integer head.seq)) (some (bytes head.hash))
          ≡ ok x)
        same c in
    (copies_are, rw (c', rest_read) refl)

length-map : (heads : List WitnessHead) → length (map head_value heads) ≡ length heads
length-map [] = refl
length-map (head ∷ heads) = ap suc (length-map heads)

heads_settled :
    (heads normalized : List WitnessHead)
    → normalize_heads heads ≡ ok normalized
    → (normalized ≡ heads)
      × (read_heads (map head_value heads) ≡ ok heads)
      × (reject_duplicate_senders 0 [] heads ≡ ok tt)
      × (leb (length (map head_value heads)) max_witness_heads ≡ true)
unfolding normalize_heads
heads_settled heads normalized h =
    let (fits, h1) = >>-eq-ok (ensure (leb (length heads) max_witness_heads) too_many_heads) _ h in
    let (copies, c, h2) = >>=-eq-ok (copy_heads heads) _ h1 in
    let (fresh, h3) = >>-eq-ok (reject_duplicate_senders 0 [] copies) _ h2 in
    let (same, read) = copied_read heads copies c in
    (
      sym (ok-injective copies normalized h3) ∙ same,
      read,
      subst (λ x. reject_duplicate_senders 0 [] x ≡ ok tt) same fresh,
      ground (arith, fits, length-map heads),
    )

-- The two forms of a body.
abbrev bare : List WitnessHead → Value
bare heads = dict (field "heads" (heads_value heads) end)

abbrev with_state : List WitnessHead → Bytes → Value
with_state heads hash =
    dict (field "heads" (heads_value heads) (field "state_hash" (bytes hash) end))

body_trip :
    (heads : List WitnessHead) (o : Option Bytes) (v : Value)
    → encode_witness_body (record { claimed_heads = heads; state_hash = o }) ≡ ok v
    → decode_witness_body v ≡ ok (record { claimed_heads = heads; state_hash = o })
unfolding encode_witness_body decode_witness_body
body_trip heads none v h =
    let (normalized, n, h1) = >>=-eq-ok (normalize_heads heads) _ h in
    let (same, read, fresh, fits) = heads_settled heads normalized n in
    let v_is : bare normalized ≡ v = ok-injective _ v h1 in
    let written : bare heads ≡ v = subst (λ x. bare x ≡ v) same v_is in
    subst (λ x. decode_witness_body x ≡ ok (record { claimed_heads = heads; state_hash = none }))
      written (rw (list_of-items_of (map head_value heads), fits, read, fresh) refl)
body_trip heads (some state_hash) v h =
    let (normalized, n, h1) = >>=-eq-ok (normalize_heads heads) _ h in
    let (hash, d, h2) = >>=-eq-ok (decode_hash (some (bytes state_hash))) _ h1 in
    let (same, read, fresh, fits) = heads_settled heads normalized n in
    let (hash_same, size) = decode_hash_bytes state_hash hash d in
    let v_is : with_state normalized hash ≡ v = ok-injective _ v h2 in
    let written : with_state heads state_hash ≡ v =
      subst (λ x. x ≡ v) (ap₂ with_state same hash_same) v_is in
    subst
      (λ x.
        decode_witness_body x ≡ ok (record { claimed_heads = heads; state_hash = some state_hash }))
      written
      (rw
        (list_of-items_of (map head_value heads), fits, read, fresh, decode_hash_ok state_hash size)
        refl)

-- A WITNESS body that is written, with a hash of the state or without, is read back as it was.
pub decode-encode_witness_body :
    (body : WitnessBody) (v : Value)
    → encode_witness_body body ≡ ok v
    → decode_witness_body v ≡ ok body
decode-encode_witness_body body v h = body_trip body.claimed_heads body.state_hash v h
