-- ===== src/Session/Lobby/Readies.antt =====
-- packages/session/src/lobby-bootstrap.ts: the READY of a player, as it arrives and from history.
use text.Mathlib.Text.{◌==◌ as str_eq}
use tablefolk.Base.{
  ℕ, suc, ◌+◌, Bool, true, false, not, ◌&&◌, ◌||◌, List, [], ◌∷◌, Option, none, some, Result, ok,
  err, ◌>>=◌, expect, leb, ◌==◌, length, if◌then◌else◌,
}
use mathlib.Core.Option
use tablefolk.Session.Bytes.{Bytes, bytes_equal, bytes_to_hex, text_equal}
use tablefolk.Protocol.Envelope.{Artifact, Signing}
use tablefolk.Protocol.Schema.{SchemaError}
use tablefolk.Protocol.Lobby.{RosterBody, ReadyBody, decode_ready_body}
use tablefolk.Session.Chain.{
  ChainResult, accepted, duplicate, rejected, SenderChain, get, classify, ingest,
}
use tablefolk.Session.Lobby.{
  LobbyReason, lobby_finalized, wrong_game, wrong_type, wrong_phase, wrong_round, malformed_body,
  no_roster, roster_not_finalizable, not_roster_member, roster_hash_mismatch, sender_chain_missing,
  unknown_roster_hash, not_in_history, LobbyState, finalized, LobbyError, disappeared, changed,
  key_get, key_set, ReadyTable, Lobby, min_session_seats, state_of_lobby,
}
use tablefolk.Session.Lobby.Finals.{finalize_if_ready}

-- `LobbyReadyIngestResult` and `LobbyReadyRestoreResult`; the chain's result is absent from the latter.
pub record ReadyNews : Type 0 where
  pub is_duplicate : Bool
  pub seat : ℕ
  pub lobby_state : LobbyState
  pub body : ReadyBody
  pub chain_result : Option ChainResult

pub data ReadyResult : Type 0 where
  noted : ReadyNews → ReadyResult
  chain_rejected : ChainResult → ReadyResult
  ready_refused : LobbyReason → ReadyResult

-- `seats.findIndex(…)`.
abbrev pub seat_index : Bytes → List Bytes → Option ℕ
seat_index sender [] = none
seat_index sender (identity ∷ seats) =
    let rest = Option.map suc (seat_index sender seats) in
    if text_equal (bytes_to_hex identity) (bytes_to_hex sender) then some 0 else rest

-- The tests on a READY envelope that do not depend on a roster.
abbrev pub envelope_reason : Lobby → Artifact → Option LobbyReason
envelope_reason lobby received = elim lobby.finalized_registry [
  | some registry ↦ some lobby_finalized
  | none ↦
      if not (bytes_equal received.envelope.game lobby.context.game_id)
      then some wrong_game
      else if not (str_eq received.envelope.message_type "READY")
      then some wrong_type
      else if not (str_eq received.envelope.phase "lobby")
      then some wrong_phase
      else if not (received.envelope.round == 0)
      then some wrong_round
      else none
]

-- `this.#readyByRoster.get(rosterKey) ?? new Map()`.
abbrev pub ready_of : Lobby → Bytes → ReadyTable
ready_of lobby hash = elim (key_get hash lobby.ready_by_roster) [ none ↦ [] | some ready ↦ ready ]

abbrev pub has_ready : Bytes → ReadyTable → Bool
has_ready sender ready = elim (key_get sender ready) [ none ↦ false | some a ↦ true ]

abbrev pub is_taken : ChainResult → Bool
is_taken (duplicate existing received) = true
is_taken other = false

-- `classifyReady`, of the chain's result.
abbrev pub ready_news :
    Lobby → Artifact → RosterBody → Bytes → ℕ → ReadyBody → ChainResult → ReadyResult
ready_news lobby received roster hash seat body (rejected why same) =
    chain_rejected (rejected why same)
ready_news lobby received roster hash seat body result =
    let ready = ready_of lobby hash in
    let again = is_taken result || has_ready received.envelope.from ready in
    noted (record {
      is_duplicate = again;
      seat = seat;
      lobby_state =
          if not again && length ready + 1 == length roster.seats
          then finalized
          else state_of_lobby lobby;
      body = body;
      chain_result = some result;
    })

-- `classifyReady`, of a member of the roster.
abbrev pub classify_member_ready :
    Lobby → Artifact → RosterBody → Bytes → ℕ → Result SchemaError ReadyBody → ReadyResult
classify_member_ready lobby received roster hash seat (err e) = ready_refused malformed_body
classify_member_ready lobby received roster hash seat (ok body) =
    if not (bytes_equal body.roster_hash hash)
    then ready_refused roster_hash_mismatch
    else elim (key_get received.envelope.from lobby.chains) [
      | none ↦ ready_refused sender_chain_missing
      | some chain ↦ ready_news lobby received roster hash seat body (classify chain received)
    ]

abbrev pub classify_under : Lobby → Artifact → Option RosterBody → Option Bytes → ReadyResult
classify_under lobby received (some roster) (some hash) =
    if not (leb min_session_seats (length roster.seats))
    then ready_refused roster_not_finalizable
    else elim (seat_index received.envelope.from roster.seats) [
      | none ↦ ready_refused not_roster_member
      | some seat ↦
          classify_member_ready lobby received roster hash seat
            (decode_ready_body received.envelope.body)
    ]
classify_under lobby received _ _ = ready_refused no_roster

-- `classifyReady`.
unfoldable pub classify_ready : Lobby → Artifact → ReadyResult
unfolding state_of_lobby
classify_ready lobby received = elim (envelope_reason lobby received) [
  | some reason ↦ ready_refused reason
  | none ↦ classify_under lobby received lobby.roster lobby.roster_hash
]

-- The lobby with a READY of a sender under a roster.
abbrev pub with_ready : Lobby → Bytes → Bytes → Artifact → Lobby
with_ready lobby hash sender received = record lobby {
  ready_by_roster =
      key_set hash (key_set sender received (ready_of lobby hash)) lobby.ready_by_roster;
}

module _ (signing : Signing) where
  -- A READY that is new is noted, and may make the lobby final.
  abbrev pub note_ready : Lobby → Artifact → ReadyNews → Result LobbyError Lobby
  note_ready lobby received news =
      if news.is_duplicate
      then ok lobby
      else finalize_if_ready signing
          (with_ready lobby news.body.roster_hash received.envelope.from received)

  abbrev pub keep_ready :
      Lobby
      → Artifact
      → ReadyNews
      → SenderChain × ChainResult
      → Result LobbyError (Lobby × ReadyResult)
  keep_ready lobby received news (next, accepted head same) = do
    settled ←
        note_ready (record lobby { chains = key_set received.envelope.from next lobby.chains })
          received news
    ok (
      settled,
      noted (record news {
        lobby_state = state_of_lobby settled;
        chain_result = some (accepted head same);
      }),
    )
  keep_ready lobby received news (next, other) = err (changed other)

  abbrev pub ingest_ready_news :
      Lobby → Artifact → ReadyNews → Option ChainResult → Result LobbyError (Lobby × ReadyResult)
  ingest_ready_news lobby received news (some (accepted head same)) = do
    chain ← expect (key_get received.envelope.from lobby.chains) disappeared
    keep_ready lobby received news (ingest chain received)
  ingest_ready_news lobby received news other = ok (lobby, noted news)

  abbrev pub ingest_ready_as :
      Lobby → Artifact → ReadyResult → Result LobbyError (Lobby × ReadyResult)
  ingest_ready_as lobby received (noted news) =
      ingest_ready_news lobby received news news.chain_result
  ingest_ready_as lobby received other = ok (lobby, other)

  -- `ingestReady`.
  unfoldable pub ingest_ready : Lobby → Artifact → Result LobbyError (Lobby × ReadyResult)
  unfolding classify_ready finalize_if_ready
  ingest_ready lobby received = ingest_ready_as lobby received (classify_ready lobby received)

  -- `this.#rosterHash !== null && bytesEqual(…)`.
  abbrev pub is_current : Lobby → Bytes → Bool
  is_current lobby hash = elim lobby.roster_hash [
    | none ↦ false
    | some current ↦ bytes_equal hash current
  ]

  abbrev pub restore_new : Lobby → Bytes → Bytes → Artifact → Result LobbyError Lobby
  restore_new lobby hash sender historical =
      if is_current lobby hash
      then finalize_if_ready signing (with_ready lobby hash sender historical)
      else ok (with_ready lobby hash sender historical)

  -- What is restored of an envelope that is in the sender's chain.
  abbrev pub restore_historical :
      Lobby → Bytes → Artifact → ReadyBody → ℕ → Result LobbyError (Lobby × ReadyResult)
  restore_historical lobby sender historical body seat =
      let again = has_ready sender (ready_of lobby body.roster_hash) in
      do
        settled ← if again then ok lobby else restore_new lobby body.roster_hash sender historical
        ok (
          settled,
          noted (record {
            is_duplicate = again;
            seat = seat;
            lobby_state = state_of_lobby settled;
            body = body;
            chain_result = none;
          }),
        )

  abbrev pub historical_of : Lobby → Artifact → Option Artifact
  historical_of lobby received = elim (key_get received.envelope.from lobby.chains) [
    | none ↦ none
    | some chain ↦ get chain received.envelope.seq
  ]

  abbrev pub restore_found :
      Lobby → Artifact → ReadyBody → ℕ → Option Artifact → Result LobbyError (Lobby × ReadyResult)
  restore_found lobby received body seat none = ok (lobby, ready_refused not_in_history)
  restore_found lobby received body seat (some historical) =
      if not (bytes_equal historical.canonical_bytes received.canonical_bytes)
      then ok (lobby, ready_refused not_in_history)
      else restore_historical lobby received.envelope.from historical body seat

  abbrev pub restore_body :
      Lobby → Artifact → Result SchemaError ReadyBody → Result LobbyError (Lobby × ReadyResult)
  restore_body lobby received (err e) = ok (lobby, ready_refused malformed_body)
  restore_body lobby received (ok body) = elim (key_get body.roster_hash lobby.known_rosters) [
    | none ↦ ok (lobby, ready_refused unknown_roster_hash)
    | some roster ↦
        if not (leb min_session_seats (length roster.seats))
        then ok (lobby, ready_refused roster_not_finalizable)
        else elim (seat_index received.envelope.from roster.seats) [
          | none ↦ ok (lobby, ready_refused not_roster_member)
          | some seat ↦ restore_found lobby received body seat (historical_of lobby received)
        ]
  ]

  -- `restoreReadyFromHistory`.
  unfoldable pub restore_ready : Lobby → Artifact → Result LobbyError (Lobby × ReadyResult)
  unfolding finalize_if_ready
  restore_ready lobby received = elim (envelope_reason lobby received) [
    | some reason ↦ ok (lobby, ready_refused reason)
    | none ↦ restore_body lobby received (decode_ready_body received.envelope.body)
  ]
