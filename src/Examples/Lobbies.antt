-- ===== src/Examples/Lobbies.antt =====
-- Runs of packages/session/src/lobby-bootstrap.ts.
use tablefolk.Base.{ℕ, ◌≡◌, refl, [], ◌∷◌, none, some, ok, err, replicate, true, String}
use tablefolk.Session.Bytes.{Bytes, bytes_equal, difference, bytes_to_hex, text_equal}
use tablefolk.Protocol.Value.{Value, malformed, dict, field, end, bytes, string}
use tablefolk.Protocol.Schema.{
  decode_hash, decode_identity, decode_game_id, expect_exact_map, expect_array,
}
use tablefolk.Protocol.Canonical.{encode_canonical}
use tablefolk.Protocol.Envelope.{Artifact, Signing}
use tablefolk.Protocol.Lobby.{RosterBody, roster_map, decode_roster_body, encode_roster_body}
use tablefolk.Session.Chain.{zero_hash, new_chain, classify, ingest, classify_free}
use tablefolk.Session.Lobby.{hash_roster_body, current_ready}
use tablefolk.Session.Lobby.Finals.{finalize_if_ready}
use tablefolk.Session.Lobby.Rosters.{admitted, classify_roster, validate_roster_body, first_invalid}
use tablefolk.Protocol.Lobby.{normalize_roster_body, normalize_seats}
use tablefolk.Protocol.Value.{validate_value, max_safe_integer}
use tablefolk.Session.Lobby.{LobbyContext, Lobby, new_lobby}
use tablefolk.Session.Lobby.Joins.{JoinResult, bootstrap_join}
use tablefolk.Session.Lobby.Rosters.{ingest_roster, validate_roster}
use tablefolk.Session.Lobby.Sound.{IsLobby, new_lobby-IsLobby}
use tablefolk.Session.Lobby.Stays.{bootstrap_join-IsLobby}

-- A library that writes every value as one byte, and keys that are all accepted.
abbrev pub plain : Signing
plain = record {
  hashing = record {
    cbor = record { encode = λ v. some (1 ∷ []); decode = λ b. err malformed };
    sha256 = λ b. replicate 32 9;
  };
  is_acceptable = λ key. true;
  public_key = λ secret. secret;
  sign = λ message secret. replicate 64 0;
  verify = λ sig message key. true;
}

abbrev pub host : Bytes
host = replicate 32 7

abbrev pub guest : Bytes
guest = replicate 32 8

abbrev pub third : Bytes
third = replicate 32 9

abbrev pub table_game : Bytes
table_game = replicate 16 1

abbrev rules : Bytes
rules = replicate 32 3

abbrev context : LobbyContext
context = record { game_id = table_game; host = host; rules_hash = rules; ice_config_hash = rules }

abbrev pub start : Lobby
start = record {
  context = context;
  chains = (host, new_chain host) ∷ [];
  ready_by_roster = [];
  known_rosters = [];
  roster = none;
  roster_hash = none;
  roster_artifact = none;
  finalized_registry = none;
}

started : new_lobby plain context ≡ ok start
unfolding new_lobby
started = refl

start-IsLobby : IsLobby start
start-IsLobby = new_lobby-IsLobby plain context start started

abbrev pub sent : Bytes → ℕ → Bytes → String → Value → ℕ → Artifact
sent from seq prev kind body n = record {
  envelope = record {
    v = 1;
    game = table_game;
    from = from;
    seq = seq;
    prev = prev;
    round = 0;
    phase = "lobby";
    message_type = kind;
    body = body;
    sig = replicate 64 0;
  };
  canonical_bytes = n ∷ [];
  hash = replicate 32 n;
}

-- The guest's JOIN, the host's ROSTER of three, and the host's READY to it.
abbrev pub join : Artifact
join =
    sent guest 0 zero_hash "JOIN"
      (dict (
        field "pk_id" (bytes guest)
          (field "rules_hash" (bytes rules) (field "client_version" (string "1") end))))
      11

abbrev pub roster_body : RosterBody
roster_body = record {
  game_id = table_game;
  rules_hash = rules;
  ice_config_hash = rules;
  seats = host ∷ guest ∷ third ∷ [];
}

abbrev pub roster : Artifact
roster = sent host 0 zero_hash "ROSTER" (roster_map roster_body) 12

abbrev pub ready : Artifact
ready =
    sent host 1 (replicate 32 12) "READY" (dict (field "roster_hash" (bytes (replicate 32 9)) end))
      13

bootstrap_join-IsLobby_example :
    (next : Lobby) × (r : JoinResult) × (bootstrap_join start join ≡ ok (next, r)) × IsLobby next
bootstrap_join-IsLobby_example = bootstrap_join-IsLobby start join start-IsLobby

-- The lobby with the roster in force, as the ROSTER leaves it.
abbrev seated : Lobby
seated = record start {
  chains = (host, (ingest (new_chain host) roster).0) ∷ [];
  roster = some roster_body;
  roster_hash = some (replicate 32 9);
  roster_artifact = some roster;
  known_rosters = (replicate 32 9, roster_body) ∷ [];
}

-- The ROSTER brings the lobby there.
roster_taken :
    ingest_roster plain start roster
    ≡ ok (seated, admitted (ingest (new_chain host) roster).1 roster_body (replicate 32 9) true)
unfolding ingest_roster classify_roster validate_roster validate_roster_body first_invalid
    hash_roster_body encode_roster_body decode_roster_body normalize_roster_body normalize_seats
    decode_hash decode_identity decode_game_id expect_array expect_exact_map bytes_to_hex text_equal
    bytes_equal difference classify classify_free ingest encode_canonical validate_value
    max_safe_integer new_chain finalize_if_ready current_ready
roster_taken = refl
