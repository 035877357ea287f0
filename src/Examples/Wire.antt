-- ===== src/Examples/Wire.antt =====
-- Runs of packages/encoding/src/canonical.ts, packages/protocol/src/lobby.ts,
-- packages/deck/src and packages/engine/src/setup-coordinator.ts.
use tablefolk.Base.{
  ℕ, ◌≡◌, ◌<◌, refl, Bool, true, false, not, List, [], ◌∷◌, Option, none, some, Result, ok, err,
  arith, replicate, ◌+◌, ◌*◌, ◌%◌, ap, ◌≢◌, ◌↔◌,
}
use tablefolk.Session.Bytes.{Bytes}
use tablefolk.Protocol.Value.{
  Value, integer, EncodingError, malformed, validate_value, normalize_value, max_safe_integer,
}
use tablefolk.Protocol.Canonical.{Cbor, same_bytes, encode_canonical, decode_canonical}
use tablefolk.Protocol.Canonical.Unique.{decode-encode_canonical}
use tablefolk.Protocol.Schema.{decode_identity, decode_hash, decode_game_id, expect_array}
use tablefolk.Protocol.Lobby.{
  JoinBody, RosterBody, ReadyBody, encode_join_body, decode_join_body, encode_roster_body,
  decode_roster_body, encode_ready_body, decode_ready_body, normalize_seats, normalize_roster_body,
  normalize_join_body,
}
use tablefolk.Protocol.Lobby
use tablefolk.Protocol.Lobby.Trips.{decode-encode_roster_body}
use tablefolk.Protocol.Challenges.{ProofContext, WideHash, proof_challenge_scalar}
use tablefolk.Protocol.Hashes.{Hashing}
use tablefolk.Engine.Beacon.Places.{place-replicate}
use tablefolk.Engine.Setup.{Setup, keys, SetupResult, accept_key_share}
use tablefolk.Engine.Setup.Sound.{IsSetup}
use tablefolk.Engine.Setup.Keys.{accept_key_share-IsSetup}
use tablefolk.Deck.Curve.{Curve, IsCurve, multiple, multiply}
use tablefolk.Deck.Elgamal.{
  MaskedCard, initial_masked_card, aggregate_public_keys, remove_decryption_shares,
}
use tablefolk.Deck.Elgamal.Opens.{
  remask_all, all_shares, public_keys, remove_decryption_shares-remask,
}
use tablefolk.Deck.Proofs.{
  KeyShare, ProvenShare, key_proof_challenge, decryption_proof_challenge, create_game_key_share,
  verify_game_key_share, create_proven_share, verify_proven_share,
}
use tablefolk.Deck.Proofs.Complete.{verify-create_game_key_share, verify-create_proven_share}
use tablefolk.Session.Bytes.{bytes_to_hex, text_equal}

-- A library that knows numbers only.
abbrev encode_few : Value → Option Bytes
encode_few (integer n) = some (0 ∷ n ∷ [])
encode_few _ = none

abbrev decode_few : Bytes → Result EncodingError Value
decode_few (ℕ.zero ∷ n ∷ []) = ok (integer n)
decode_few _ = err malformed

abbrev few : Cbor
few = record { encode = encode_few; decode = decode_few }

abbrev five : Bytes
five = 0 ∷ 5 ∷ []

five_decoded : decode_canonical few five ≡ ok (integer 5)
unfolding decode_canonical encode_canonical normalize_value validate_value same_bytes
    max_safe_integer
five_decoded = refl

five_encoded : encode_canonical few (integer 5) ≡ ok five
unfolding encode_canonical validate_value max_safe_integer
five_encoded = refl

decode-encode_canonical_example : encode_canonical few (integer 5) ≡ ok five
decode-encode_canonical_example = decode-encode_canonical few five (integer 5) five_decoded

abbrev key : ℕ → Bytes
key n = replicate 32 n

abbrev roster : RosterBody
roster = record {
  game_id = replicate 16 1;
  rules_hash = key 2;
  ice_config_hash = key 3;
  seats = key 4 ∷ key 5 ∷ key 6 ∷ [];
}

roster_written : encode_roster_body roster ≡ ok (Lobby.roster_map roster)
unfolding encode_roster_body normalize_seats decode_identity decode_hash decode_game_id expect_array
    bytes_to_hex text_equal
roster_written = refl

decode-encode_roster_body_example : decode_roster_body (Lobby.roster_map roster) ≡ ok roster
decode-encode_roster_body_example =
    decode-encode_roster_body roster (Lobby.roster_map roster) roster_written

-- The group of two elements.
abbrev differ : Bool → Bool → Bool
differ true b = not b
differ false b = b

abbrev copies : Bool → ℕ → Bool
copies p ℕ.zero = false
copies p (ℕ.suc n) = differ p (copies p n)

abbrev pub two : Curve
two = record {
  Point = Bool;
  base = true;
  neutral = false;
  add = differ;
  subtract = differ;
  times = copies;
  equals = λ p q. not (differ p q);
  is_zero = not;
  to_bytes = λ p. [];
  order = 2;
  add_scalars = λ a b. (a + b) % 2;
  multiply_scalars = λ a b. (a * b) % 2;
}

copies-multiple : (p : Bool) (n : ℕ) → copies p n ≡ multiple two p n
unfolding multiple
copies-multiple p ℕ.zero = refl
copies-multiple p (ℕ.suc n) = ap (differ p) (copies-multiple p n)

differ_assoc : (p q r : Bool) → differ (differ p q) r ≡ differ p (differ q r)
differ_assoc p q r = ground arith

base_lem : (n : ℕ) → 0 < n → n < 2 → multiple two true n ≢ false
unfolding multiple
base_lem ℕ.zero positive low e = absurd (omega arith)
base_lem (ℕ.suc ℕ.zero) positive low e = cc
base_lem (ℕ.suc (ℕ.suc n)) positive low e = absurd (omega arith)

equals_lem : (p q : Bool) → (not (differ p q) ≡ true) ↔ (p ≡ q)
equals_lem p q = ground arith

pub two-IsCurve : IsCurve two
unfolding multiple
two-IsCurve = record {
  add_assoc = λ p q r. ground arith;
  add_comm = λ p q. ground arith;
  neutral_add = λ p. refl;
  subtract_add = λ p q. ground arith;
  times_multiple = λ p n positive low. copies-multiple p n;
  order_multiple = λ p. ground arith;
  base_multiple = base_lem;
  order_positive = omega arith;
  add_scalars_mod = λ a b. refl;
  multiply_scalars_mod = λ a b. refl;
  equals_iff = equals_lem;
  is_zero_iff = λ p. ground arith;
}

abbrev ones : List ℕ
ones = 1 ∷ []

ones_aggregate : aggregate_public_keys two (public_keys two ones) ≡ ok true
unfolding aggregate_public_keys
ones_aggregate = refl

remove_decryption_shares-remask_example :
    (card : MaskedCard two) × (shares : List Bool) × (remask_all two true
        (initial_masked_card two true)
        ones
      ≡ ok card)
    × (all_shares two card.a ones ≡ ok shares)
    × (remove_decryption_shares two card shares ≡ true)
remove_decryption_shares-remask_example =
    remove_decryption_shares-remask two ones ones true true two-IsCurve
      ((omega arith, omega arith), tt) ((omega arith, omega arith), tt) ones_aggregate

-- A library that writes every value, and a hash of 64 bytes.
abbrev pub wide : WideHash
wide = record {
  cbor = record { encode = λ v. some []; decode = λ b. err malformed };
  sha512 = λ b. replicate 64 0;
  number_of = λ b. 1;
  order = 2;
}

abbrev context : ProofContext
context = record { game_id = replicate 16 1; round = 0; phase = "setup.keys" }

abbrev pub key_share : KeyShare two wide
key_share = record { h = true; pop = record { r = true; z = 0 } }

pub key_share_made : create_game_key_share two wide context 1 1 ≡ ok key_share
unfolding create_game_key_share key_proof_challenge proof_challenge_scalar encode_canonical
    validate_value max_safe_integer
key_share_made = refl

verify-create_game_key_share_example : verify_game_key_share two wide context key_share ≡ true
verify-create_game_key_share_example =
    verify-create_game_key_share two wide context 1 1 key_share two-IsCurve refl (omega arith)
      (omega arith) key_share_made

abbrev proven_share : ProvenShare two wide
proven_share = record { s = true; proof = record { r1 = true; r2 = true; z = 0 } }

proven_share_made : create_proven_share two wide context 3 1 true 1 ≡ ok proven_share
unfolding create_proven_share decryption_proof_challenge proof_challenge_scalar encode_canonical
    validate_value max_safe_integer
proven_share_made = refl

verify-create_proven_share_example :
    verify_proven_share two wide context 3 (multiply two true 1) true proven_share ≡ true
verify-create_proven_share_example =
    verify-create_proven_share two wide context 3 1 true 1 proven_share two-IsCurve refl
      (omega arith) (omega arith) proven_share_made

-- The setup of a table of three.
abbrev pub hashing : Hashing
hashing = record { cbor = wide.cbor; sha256 = λ b. replicate 32 0 }

abbrev setup : Setup two wide
setup = record {
  game_id = replicate 16 1;
  round = 0;
  seat_count = 3;
  beacon_required = true;
  key_shares = replicate 3 none;
  state = keys;
  aggregate_key = none;
  beacon = none;
}

setup-IsSetup : IsSetup two wide hashing setup
unfolding max_safe_integer
setup-IsSetup = record {
  table = (omega arith, omega arith);
  in_round = omega arith;
  game_size = refl;
  places = refl;
  verified = λ seat share e. absurd (cc (place-replicate {A = KeyShare two wide} 3 seat));
  setup_stage = (omega arith, refl, refl);
}

accept_key_share-IsSetup_example :
    (next : Setup two wide) × (r : SetupResult) × (accept_key_share two wide setup 1 key_share
      ≡ ok (next, r))
    × IsSetup two wide hashing next
accept_key_share-IsSetup_example =
    accept_key_share-IsSetup two wide hashing setup setup-IsSetup 1 (omega arith) key_share
