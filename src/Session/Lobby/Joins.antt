-- ===== src/Session/Lobby/Joins.antt =====
-- packages/session/src/lobby-bootstrap.ts: ingesting an envelope of a known sender, and the JOIN by
-- which a sender becomes known.
use text.Mathlib.Text.{◌==◌ as str_eq}
use tablefolk.Base.{not, ◌&&◌, none, some, Result, ok, err, ◌>>=◌, expect, ◌==◌, if◌then◌else◌}
use tablefolk.Session.Bytes.{Bytes, bytes_equal}
use tablefolk.Protocol.Envelope.{Artifact}
use tablefolk.Protocol.Schema.{SchemaError}
use tablefolk.Protocol.Lobby.{JoinBody, decode_join_body}
use tablefolk.Session.Chain.{
  ChainResult, accepted, rejected, SenderChain, zero_hash, new_chain, classify, ingest,
}
use tablefolk.Session.Lobby.{
  LobbyContext, LobbyReason, lobby_finalized, wrong_game, wrong_type, wrong_phase, wrong_round,
  not_genesis, malformed_body, sender_mismatch, rules_mismatch, not_roster_member, unknown_sender,
  LobbyError, disappeared, changed, key_get, key_set, Lobby, is_roster_member,
}

-- `LobbyChainIngestResult`.
pub data LobbyResult : Type 0 where
  of_chain : ChainResult → LobbyResult
  refused : LobbyReason → LobbyResult

-- `classify`.
unfoldable pub classify_lobby : Lobby → Artifact → LobbyResult
classify_lobby lobby received = elim lobby.finalized_registry [
  | some registry ↦ refused lobby_finalized
  | none ↦
      if not (bytes_equal received.envelope.game lobby.context.game_id)
      then refused wrong_game
      else elim (key_get received.envelope.from lobby.chains) [
        | none ↦ refused unknown_sender
        | some chain ↦ of_chain (classify chain received)
      ]
]

-- Storing the chain that an envelope was ingested into, which is the same object in the source.
abbrev pub with_sender_chain : Lobby → Bytes → SenderChain → Lobby
with_sender_chain lobby sender chain = record lobby { chains = key_set sender chain lobby.chains }

-- `ingest` of an envelope that was classified as accepted.
abbrev pub ingest_known : Lobby → Artifact → Result LobbyError (Lobby × LobbyResult)
ingest_known lobby received = do
  chain ← expect (key_get received.envelope.from lobby.chains) disappeared
  let (next, result) = ingest chain received
  ok (with_sender_chain lobby received.envelope.from next, of_chain result)

abbrev pub ingest_as : Lobby → Artifact → LobbyResult → Result LobbyError (Lobby × LobbyResult)
ingest_as lobby received (of_chain (accepted head same)) = ingest_known lobby received
ingest_as lobby received other = ok (lobby, other)

-- `ingest`.
unfoldable pub ingest_lobby : Lobby → Artifact → Result LobbyError (Lobby × LobbyResult)
unfolding classify_lobby
ingest_lobby lobby received = ingest_as lobby received (classify_lobby lobby received)

-- The result of `validateLobbyJoinEnvelope`.
pub data JoinValidation : Type 0 where
  valid : JoinBody → JoinValidation
  invalid : LobbyReason → JoinValidation

-- The tests of the body of a JOIN.
abbrev pub validate_join_body :
    LobbyContext → Artifact → Result SchemaError JoinBody → JoinValidation
validate_join_body context received (err e) = invalid malformed_body
validate_join_body context received (ok body) =
    if not (bytes_equal body.pk_id received.envelope.from)
    then invalid sender_mismatch
    else if not (bytes_equal body.rules_hash context.rules_hash)
    then invalid rules_mismatch
    else valid body

-- `validateLobbyJoinEnvelope`, with its context in normal form.
unfoldable pub validate_join : LobbyContext → Artifact → JoinValidation
validate_join context received =
    if not (bytes_equal received.envelope.game context.game_id)
    then invalid wrong_game
    else if not (str_eq received.envelope.message_type "JOIN")
    then invalid wrong_type
    else if not (str_eq received.envelope.phase "lobby")
    then invalid wrong_phase
    else if not (received.envelope.round == 0)
    then invalid wrong_round
    else if not (received.envelope.seq == 0 && bytes_equal received.envelope.prev zero_hash)
    then invalid not_genesis
    else validate_join_body context received (decode_join_body received.envelope.body)

-- `LobbyJoinBootstrapResult`: the chain's result, with the body unless it is a rejection.
pub data JoinResult : Type 0 where
  joined : ChainResult → JoinBody → JoinResult
  chain_rejected : ChainResult → JoinResult
  join_refused : LobbyReason → JoinResult

-- `existing ?? new SenderChain(…)`.
abbrev pub chain_or_new : Lobby → Artifact → SenderChain
chain_or_new lobby received = elim (key_get received.envelope.from lobby.chains) [
  | none ↦ new_chain received.envelope.from
  | some chain ↦ chain
]

abbrev pub join_result : ChainResult → JoinBody → JoinResult
join_result (rejected why received) body = chain_rejected (rejected why received)
join_result result body = joined result body

abbrev pub classify_valid_join : Lobby → Artifact → JoinValidation → JoinResult
classify_valid_join lobby received (invalid reason) = join_refused reason
classify_valid_join lobby received (valid body) =
    join_result (classify (chain_or_new lobby received) received) body

-- `classifyBootstrapJoin`.
unfoldable pub classify_bootstrap_join : Lobby → Artifact → JoinResult
unfolding validate_join
classify_bootstrap_join lobby received = elim lobby.finalized_registry [
  | some registry ↦ join_refused lobby_finalized
  | none ↦ classify_valid_join lobby received (validate_join lobby.context received)
]

-- What `bootstrapJoin` does with the result of the chain.
abbrev pub keep_join :
    Lobby → Artifact → JoinBody → SenderChain × ChainResult → Result LobbyError (Lobby × JoinResult)
keep_join lobby received body (next, accepted head same) =
    ok (with_sender_chain lobby received.envelope.from next, joined (accepted head same) body)
keep_join lobby received body (next, other) = err (changed other)

abbrev pub bootstrap_as : Lobby → Artifact → JoinResult → Result LobbyError (Lobby × JoinResult)
bootstrap_as lobby received (joined (accepted head same) body) =
    keep_join lobby received body (ingest (chain_or_new lobby received) received)
bootstrap_as lobby received other = ok (lobby, other)

-- `bootstrapJoin`.
unfoldable pub bootstrap_join : Lobby → Artifact → Result LobbyError (Lobby × JoinResult)
unfolding classify_bootstrap_join
bootstrap_join lobby received = bootstrap_as lobby received (classify_bootstrap_join lobby received)

-- `classifyRosterMemberJoin`.
unfoldable pub classify_roster_member_join : Lobby → Artifact → JoinResult
unfolding classify_bootstrap_join is_roster_member
classify_roster_member_join lobby received =
    if not (is_roster_member lobby received.envelope.from)
    then join_refused not_roster_member
    else classify_bootstrap_join lobby received

abbrev pub bootstrap_member_as :
    Lobby → Artifact → JoinResult → Result LobbyError (Lobby × JoinResult)
bootstrap_member_as lobby received (chain_rejected result) = ok (lobby, chain_rejected result)
bootstrap_member_as lobby received (join_refused reason) = ok (lobby, join_refused reason)
bootstrap_member_as lobby received (joined result body) = bootstrap_join lobby received

-- `bootstrapRosterMemberJoin`.
unfoldable pub bootstrap_roster_member_join :
    Lobby → Artifact → Result LobbyError (Lobby × JoinResult)
unfolding classify_roster_member_join bootstrap_join
bootstrap_roster_member_join lobby received =
    bootstrap_member_as lobby received (classify_roster_member_join lobby received)
