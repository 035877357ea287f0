-- ===== src/Session/Lobby/Finals.antt =====
-- packages/session/src/lobby-bootstrap.ts: the session that a lobby becomes when all its players are
-- ready.
use tablefolk.Base.{
  ℕ, suc, ◌+◌, Bool, not, List, [], ◌∷◌, Option, none, some, Result, ok, err, ◌>>=◌, expect, leb,
  ◌==◌, length, if◌then◌else◌,
}
use tablefolk.Session.Bytes.{Bytes}
use tablefolk.Protocol.Envelope.{Signing}
use tablefolk.Protocol.Lobby.{RosterBody}
use tablefolk.Session.Chain.{accepted, SenderChain, get}
use tablefolk.Session.Registry.{
  Registry, RegistryError, SessionResult, of_chain, new_registry, ingest_session,
}
use tablefolk.Session.Lobby.{
  LobbyError, no_final_roster, incomplete_chain, not_contiguous, bad_registry, not_transferred,
  key_get, Lobby, ReadyTable, min_session_seats, current_ready,
}

abbrev pub by_registry {ℓ} : {A : Type ℓ} → Result RegistryError A → Result LobbyError A
by_registry (ok a) = ok a
by_registry (err e) = err (bad_registry e)

abbrev pub transferred : Registry × SessionResult → Result LobbyError Registry
transferred (registry, of_chain (accepted head received)) = ok registry
transferred (registry, other) = err (not_transferred other)

-- The loop over the numbers of a chain, `left` of them from `seq` on.
unfoldable pub transfer_from : ℕ → Registry → SenderChain → ℕ → Result LobbyError Registry
transfer_from ℕ.zero registry chain seq = ok registry
transfer_from (ℕ.suc left) registry chain seq = do
  artifact ← expect (get chain seq) not_contiguous
  outcome ← by_registry (ingest_session registry artifact)
  next ← transferred outcome
  transfer_from left next chain (suc seq)

-- The loop over the roster.
unfoldable pub transfer_all :
    Registry → List (Bytes × SenderChain) → List Bytes → Result LobbyError Registry
unfolding transfer_from
transfer_all registry chains [] = ok registry
transfer_all registry chains (sender ∷ seats) = do
  chain ← expect (key_get sender chains) incomplete_chain
  head ← expect chain.head incomplete_chain
  next ← transfer_from (head.seq + 1) registry chain 0
  transfer_all next chains seats

-- `ready !== null && ready.size === seats.length`.
abbrev pub all_ready : List Bytes → Option ReadyTable → Bool
all_ready seats none = Bool.false
all_ready seats (some ready) = length ready == length seats

module _ (signing : Signing) where
  -- `#buildFinalizedRegistry`.
  unfoldable pub build_finalized_registry : Lobby → Result LobbyError Registry
  unfolding transfer_all new_registry
  build_finalized_registry lobby = do
    roster ← expect lobby.roster no_final_roster
    registry ← by_registry (new_registry signing.is_acceptable lobby.context.game_id roster.seats)
    transfer_all registry lobby.chains roster.seats

  abbrev pub finalize_roster : Lobby → RosterBody → Result LobbyError Lobby
  finalize_roster lobby roster =
      if not (leb min_session_seats (length roster.seats))
      then ok lobby
      else if not (all_ready roster.seats (current_ready lobby))
      then ok lobby
      else do
        registry ← build_finalized_registry lobby
        ok (record lobby { finalized_registry = some registry })

  abbrev pub finalize_under : Lobby → Option RosterBody → Result LobbyError Lobby
  finalize_under lobby none = ok lobby
  finalize_under lobby (some roster) = finalize_roster lobby roster

  abbrev pub finalize_open : Lobby → Option Registry → Result LobbyError Lobby
  finalize_open lobby (some registry) = ok lobby
  finalize_open lobby none = finalize_under lobby lobby.roster

  -- `#finalizeIfReady`.
  unfoldable pub finalize_if_ready : Lobby → Result LobbyError Lobby
  unfolding build_finalized_registry current_ready
  finalize_if_ready lobby = finalize_open lobby lobby.finalized_registry
