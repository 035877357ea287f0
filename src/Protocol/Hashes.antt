-- ===== src/Protocol/Hashes.antt =====
-- packages/protocol/src/domains.ts and hash-inputs.ts: what is hashed. The hash and the library of
-- CBOR are parameters.
pub mod Binding
use Prim.Native.Char.{code}
use tablefolk.Base.{ℕ, Bool, String, List, [], ◌∷◌, ◌++◌, Result, ok, err, ◌>>=◌, ◌>>◌, ensure, leb}
use tablefolk.Session.Bytes.{Bytes}
use tablefolk.Protocol.Value.{EncodingError, integer, max_safe_integer}
use tablefolk.Protocol.Canonical.{Cbor, encode_canonical}

-- `sha256` takes the parts of its input as one byte string.
pub record Hashing : Type 0 where
  pub cbor : Cbor
  pub sha256 : Bytes → Bytes

pub data HashError : Type 0 where
  bad_round bad_seat : HashError
  bad_encoding : EncodingError → HashError

pub data DomainPurpose : Type 0 where
  room channel message card proof_of_possession decryption_share shuffle beacon : DomainPurpose

-- `DOMAIN_SEPARATORS`.
abbrev pub separator_text : DomainPurpose → String
separator_text room = "p2pcards/v1/room"
separator_text channel = "p2pcards/v1/chan"
separator_text message = "p2pcards/v1/msg"
separator_text card = "p2pcards/v1/card"
separator_text proof_of_possession = "p2pcards/v1/pop"
separator_text decryption_share = "p2pcards/v1/dleq"
separator_text shuffle = "p2pcards/v1/shuffle"
separator_text beacon = "p2pcards/v1/beacon"

-- `asciiToBytes`, for a text that is ASCII, as the separators are.
abbrev pub ascii_to_bytes : String → Bytes
ascii_to_bytes String.[] = []
ascii_to_bytes (String.◌∷◌ c s) = code c ∷ ascii_to_bytes s

abbrev pub domain_separator : DomainPurpose → Bytes
domain_separator purpose = ascii_to_bytes (separator_text purpose)

abbrev pub envelope_signature_input : Bytes → Bytes
envelope_signature_input unsigned = domain_separator message ++ unsigned

abbrev pub hash_envelope : Hashing → Bytes → Bytes
hash_envelope hashing signed = hashing.sha256 signed

-- `encodeCanonical` of a number.
abbrev pub encode_number : Hashing → ℕ → Result HashError Bytes
encode_number hashing n = elim (encode_canonical hashing.cbor (integer n)) [
  | ok encoded ↦ ok encoded
  | err e ↦ err (bad_encoding e)
]

-- The parts of a commitment before the secret.
unfoldable pub beacon_prefix : Hashing → Bytes → ℕ → ℕ → Result HashError Bytes
beacon_prefix hashing game_id round seat = do
  ensure (leb round max_safe_integer) bad_round
  ensure (leb seat 7) bad_seat
  round_bytes ← encode_number hashing round
  seat_bytes ← encode_number hashing seat
  ok (domain_separator beacon ++ (game_id ++ (round_bytes ++ seat_bytes)))

-- `beaconCommitment`.
unfoldable pub beacon_commitment : Hashing → Bytes → ℕ → ℕ → Bytes → Result HashError Bytes
unfolding beacon_prefix
beacon_commitment hashing game_id round seat secret = do
  before ← beacon_prefix hashing game_id round seat
  ok (hashing.sha256 (before ++ secret))
