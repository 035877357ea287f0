-- ===== src/Session/Lobby.antt =====
-- packages/session/src/lobby-bootstrap.ts: `LobbyChainRegistry`, the chains of the players who gather
-- before the roster of a session is final.
pub mod Joins
pub mod Finals
pub mod Rosters
pub mod Readies
pub mod Sound
pub mod Stays
pub mod Replayed
pub mod Formed
pub mod Unfit
pub mod Settles
pub mod Restored
pub mod History
use tablefolk.Base.{
  ℕ, ◌+◌, Bool, true, false, not, ◌&&◌, List, [], ◌∷◌, Option, none, some, Result, ok, err, ◌>>=◌,
  ◌>>◌, ensure, expect, leb, length, any, ◌==◌, if◌then◌else◌,
}
use tablefolk.Session.Bytes.{Bytes, bytes_equal, bytes_to_hex, text_equal}
use tablefolk.Protocol.Value.{Value}
use tablefolk.Protocol.Canonical.{encode_canonical}
use tablefolk.Protocol.Schema.{SchemaError, parse_fixed_bytes}
use tablefolk.Protocol.Envelope.{Artifact, Signing}
use tablefolk.Protocol.Lobby.{JoinBody, RosterBody, ReadyBody, encode_roster_body}
use tablefolk.Session.Chain.{ChainHead, ChainResult, SenderChain, new_chain, get}
use tablefolk.Session.Registry.{Registry, RegistryError, SessionResult}

-- `LobbyBootstrapContext`.
pub record LobbyContext : Type 0 where
  pub game_id : Bytes
  pub host : Bytes
  pub rules_hash : Bytes
  pub ice_config_hash : Bytes

-- `LobbyState`.
pub data LobbyState : Type 0 where
  forming collecting_ready finalized : LobbyState

-- `LobbyJoinRejectionReason`, `LobbyRosterRejectionReason` and `LobbyReadyRejectionReason`.
pub data LobbyReason : Type 0 where
  lobby_finalized wrong_game wrong_sender wrong_type wrong_phase wrong_round not_genesis
        malformed_body sender_mismatch rules_mismatch body_game_mismatch host_missing no_roster
        roster_not_finalizable not_roster_member roster_hash_mismatch sender_chain_missing
        unknown_roster_hash not_in_history unknown_sender :
      LobbyReason
  invalid_roster_identity : (index : ℕ) → LobbyReason

-- What is thrown.
pub data LobbyError : Type 0 where
  bad_context bad_roster bad_hash lost_host disappeared no_final_roster incomplete_chain
        not_contiguous :
      LobbyError
  changed : ChainResult → LobbyError
  bad_registry : RegistryError → LobbyError
  not_transferred : SessionResult → LobbyError

-- A `Map` on the texts of keys, in the order of insertion.
abbrev pub key_is : Bytes → Bytes → Bool
key_is key other = text_equal (bytes_to_hex other) (bytes_to_hex key)

module _ {A : Type 0} where
  abbrev pub key_get : Bytes → List (Bytes × A) → Option A
  key_get key [] = none
  key_get key ((other, a) ∷ table) = if key_is key other then some a else key_get key table

  abbrev pub key_set : Bytes → A → List (Bytes × A) → List (Bytes × A)
  key_set key a [] = (key, a) ∷ []
  key_set key a ((other, b) ∷ table) =
      if key_is key other then (other, a) ∷ table else (other, b) ∷ key_set key a table

-- The entries of `#readyByRoster` are the READY envelopes of a roster by the texts of their senders.
abbrev pub ReadyTable : Type 0
ReadyTable = List (Bytes × Artifact)

-- `LobbyChainRegistry`. The roster in force stands with its hash and its envelope.
pub record Lobby : Type 0 where
  pub context : LobbyContext
  pub chains : List (Bytes × SenderChain)
  pub ready_by_roster : List (Bytes × ReadyTable)
  pub known_rosters : List (Bytes × RosterBody)
  pub roster : Option RosterBody
  pub roster_hash : Option Bytes
  pub roster_artifact : Option Artifact
  pub finalized_registry : Option Registry

-- `MIN_SESSION_SEATS`.
abbrev pub min_session_seats : ℕ
min_session_seats = 3

module _ (signing : Signing) where
  -- `importEd25519PublicKey`, of a key of the right size.
  abbrev pub is_identity : Bytes → Bool
  is_identity key = signing.is_acceptable key

  abbrev pub in_context {ℓ} : {A : Type ℓ} → Result SchemaError A → Result LobbyError A
  in_context (ok a) = ok a
  in_context (err e) = err bad_context

  -- `normalizeContext`.
  unfoldable pub normalize_context : LobbyContext → Result LobbyError LobbyContext
  unfolding parse_fixed_bytes
  normalize_context context = do
    host ← in_context (parse_fixed_bytes 32 context.host)
    ensure (is_identity host) bad_context
    game_id ← in_context (parse_fixed_bytes 16 context.game_id)
    rules_hash ← in_context (parse_fixed_bytes 32 context.rules_hash)
    ice_config_hash ← in_context (parse_fixed_bytes 32 context.ice_config_hash)
    ok (record {
      game_id = game_id;
      host = host;
      rules_hash = rules_hash;
      ice_config_hash = ice_config_hash;
    })

  -- The constructor.
  unfoldable pub new_lobby : LobbyContext → Result LobbyError Lobby
  unfolding normalize_context new_chain
  new_lobby given = do
    context ← normalize_context given
    ok (record {
      context = context;
      chains = (context.host, new_chain context.host) ∷ [];
      ready_by_roster = [];
      known_rosters = [];
      roster = none;
      roster_hash = none;
      roster_artifact = none;
      finalized_registry = none;
    })

  -- `hashRosterBody`.
  unfoldable pub hash_roster_body : RosterBody → Result LobbyError Bytes
  hash_roster_body body = do
    value ← elim (encode_roster_body body) [ ok v ↦ ok v | err e ↦ err bad_roster ]
    encoded ← elim (encode_canonical signing.hashing.cbor value) [
      | ok b ↦ ok b
      | err e ↦ err bad_roster
    ]
    ensure (length (signing.hashing.sha256 encoded) == 32) bad_hash
    ok (signing.hashing.sha256 encoded)

-- The getter `state`.
unfoldable pub state_of_lobby : Lobby → LobbyState
state_of_lobby lobby = elim lobby.finalized_registry [
  | some registry ↦ finalized
  | none ↦ elim lobby.roster [
    | none ↦ forming
    | some roster ↦
        if leb min_session_seats (length roster.seats) then collecting_ready else forming
  ]
]

-- `isRosterMember`, of a sender, and of the seats that are there.
abbrev pub is_seat_of : List Bytes → Bytes → Bool
is_seat_of seats sender = any (λ seat. text_equal (bytes_to_hex seat) (bytes_to_hex sender)) seats

unfoldable pub is_roster_member : Lobby → Bytes → Bool
is_roster_member lobby sender = elim lobby.roster [
  | none ↦ false
  | some roster ↦ is_seat_of roster.seats sender
]

-- `#currentReady`.
unfoldable pub current_ready : Lobby → Option ReadyTable
current_ready lobby = elim lobby.roster_hash [
  | none ↦ none
  | some hash ↦ key_get hash lobby.ready_by_roster
]

-- The loop of the getter `readySeats`.
abbrev pub seats_ready : ℕ → Option ReadyTable → List Bytes → List ℕ
seats_ready seat ready [] = []
seats_ready seat ready (sender ∷ seats) =
    let rest = seats_ready (seat + 1) ready seats in
    elim ready [
      | none ↦ rest
      | some table ↦ elim (key_get sender table) [ none ↦ rest | some a ↦ seat ∷ rest ]
    ]

unfoldable pub ready_seats : Lobby → List ℕ
unfolding current_ready
ready_seats lobby = elim lobby.roster [
  | none ↦ []
  | some roster ↦ seats_ready 0 (current_ready lobby) roster.seats
]

-- The getters `headOf` and `get`.
unfoldable pub head_of_sender : Lobby → Bytes → Option ChainHead
head_of_sender lobby sender = elim (key_get sender lobby.chains) [
  | none ↦ none
  | some chain ↦ chain.head
]

unfoldable pub get_envelope : Lobby → Bytes → ℕ → Option Artifact
get_envelope lobby sender seq = elim (key_get sender lobby.chains) [
  | none ↦ none
  | some chain ↦ get chain seq
]
