-- ===== src/Session/Lobby/Rosters.antt =====
-- packages/session/src/lobby-bootstrap.ts: the ROSTER that the host proposes.
use text.Mathlib.Text.{◌==◌ as str_eq}
use tablefolk.Base.{
  ℕ, suc, Bool, not, List, [], ◌∷◌, Option, none, some, Result, ok, err, ◌>>=◌, expect, ◌==◌, any,
  if◌then◌else◌,
}
use tablefolk.Session.Bytes.{Bytes, bytes_equal}
use tablefolk.Protocol.Envelope.{Artifact, Signing}
use tablefolk.Protocol.Schema.{SchemaError}
use tablefolk.Protocol.Lobby.{RosterBody, decode_roster_body}
use tablefolk.Session.Chain.{ChainResult, accepted, rejected, SenderChain, classify, ingest}
use tablefolk.Session.Lobby.{
  LobbyContext, LobbyReason, lobby_finalized, wrong_game, wrong_sender, wrong_type, wrong_phase,
  wrong_round, malformed_body, body_game_mismatch, rules_mismatch, invalid_roster_identity,
  host_missing, LobbyError, lost_host, changed, key_get, key_set, Lobby, is_identity,
  hash_roster_body,
}
use tablefolk.Session.Lobby.Finals.{finalize_if_ready}

-- `LobbyRosterValidationResult`.
pub data RosterValidation : Type 0 where
  valid : RosterBody → (roster_hash : Bytes) → (ice_config_matches : Bool) → RosterValidation
  invalid : LobbyReason → RosterValidation

-- `LobbyRosterIngestResult`.
pub data RosterResult : Type 0 where
  admitted :
      ChainResult → RosterBody → (roster_hash : Bytes) → (ice_config_matches : Bool) → RosterResult
  chain_rejected : ChainResult → RosterResult
  roster_refused : LobbyReason → RosterResult

module _ (signing : Signing) where
  -- The loop over the identities of the seats.
  unfoldable pub first_invalid : ℕ → List Bytes → Option ℕ
  first_invalid index [] = none
  first_invalid index (identity ∷ seats) =
      let rest = first_invalid (suc index) seats in
      if is_identity signing identity then rest else some index

  -- The tests of the body of a ROSTER.
  unfoldable pub validate_roster_body :
      LobbyContext → Result SchemaError RosterBody → Result LobbyError RosterValidation
  unfolding hash_roster_body first_invalid
  validate_roster_body context (err e) = ok (invalid malformed_body)
  validate_roster_body context (ok body) =
      if not (bytes_equal body.game_id context.game_id)
      then ok (invalid body_game_mismatch)
      else if not (bytes_equal body.rules_hash context.rules_hash)
      then ok (invalid rules_mismatch)
      else elim (first_invalid 0 body.seats) [
        | some index ↦ ok (invalid (invalid_roster_identity index))
        | none ↦
            if not (any (λ identity. bytes_equal identity context.host) body.seats)
            then ok (invalid host_missing)
            else do
              roster_hash ← hash_roster_body signing body
              ok (valid body roster_hash (bytes_equal body.ice_config_hash context.ice_config_hash))
      ]

  -- `validateLobbyRosterEnvelope`, with its context in normal form.
  unfoldable pub validate_roster : LobbyContext → Artifact → Result LobbyError RosterValidation
  unfolding validate_roster_body
  validate_roster context received =
      if not (bytes_equal received.envelope.game context.game_id)
      then ok (invalid wrong_game)
      else if not (bytes_equal received.envelope.from context.host)
      then ok (invalid wrong_sender)
      else if not (str_eq received.envelope.message_type "ROSTER")
      then ok (invalid wrong_type)
      else if not (str_eq received.envelope.phase "lobby")
      then ok (invalid wrong_phase)
      else if not (received.envelope.round == 0)
      then ok (invalid wrong_round)
      else validate_roster_body context (decode_roster_body received.envelope.body)

  abbrev pub roster_result : ChainResult → RosterBody → Bytes → Bool → RosterResult
  roster_result (rejected why received) body roster_hash matches =
      chain_rejected (rejected why received)
  roster_result result body roster_hash matches = admitted result body roster_hash matches

  abbrev pub classify_valid_roster :
      Lobby → Artifact → RosterValidation → Result LobbyError RosterResult
  classify_valid_roster lobby received (invalid reason) = ok (roster_refused reason)
  classify_valid_roster lobby received (valid body roster_hash matches) = do
    chain ← expect (key_get lobby.context.host lobby.chains) lost_host
    ok (roster_result (classify chain received) body roster_hash matches)

  -- `classifyRoster`.
  unfoldable pub classify_roster : Lobby → Artifact → Result LobbyError RosterResult
  unfolding validate_roster
  classify_roster lobby received = elim lobby.finalized_registry [
    | some registry ↦ ok (roster_refused lobby_finalized)
    | none ↦ do
      validation ← validate_roster lobby.context received
      classify_valid_roster lobby received validation
  ]

  -- The lobby with a roster in force.
  abbrev pub with_roster : Lobby → Artifact → RosterBody → Bytes → SenderChain → Lobby
  with_roster lobby received body roster_hash chain = record lobby {
    chains = key_set lobby.context.host chain lobby.chains;
    roster = some body;
    roster_hash = some roster_hash;
    roster_artifact = some received;
    known_rosters = key_set roster_hash body lobby.known_rosters;
  }

  abbrev pub keep_roster :
      Lobby
      → Artifact
      → RosterBody
      → Bytes
      → Bool
      → SenderChain × ChainResult
      → Result LobbyError (Lobby × RosterResult)
  keep_roster lobby received body roster_hash matches (next, accepted head same) = do
    settled ← finalize_if_ready signing (with_roster lobby received body roster_hash next)
    ok (settled, admitted (accepted head same) body roster_hash matches)
  keep_roster lobby received body roster_hash matches (next, other) = err (changed other)

  abbrev pub ingest_roster_as :
      Lobby → Artifact → RosterResult → Result LobbyError (Lobby × RosterResult)
  ingest_roster_as lobby received (admitted (accepted head same) body roster_hash matches) = do
    chain ← expect (key_get lobby.context.host lobby.chains) lost_host
    keep_roster lobby received body roster_hash matches (ingest chain received)
  ingest_roster_as lobby received other = ok (lobby, other)

  -- `ingestRoster`.
  unfoldable pub ingest_roster : Lobby → Artifact → Result LobbyError (Lobby × RosterResult)
  unfolding classify_roster finalize_if_ready
  ingest_roster lobby received = do
    classification ← classify_roster lobby received
    ingest_roster_as lobby received classification
