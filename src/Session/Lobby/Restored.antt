-- ===== src/Session/Lobby/Restored.antt =====
-- packages/session/src/lobby-bootstrap.ts: a lobby under a ROSTER.
use tablefolk.Base.{◌≡◌, Bool, none, some, ok, err, ◌⊎◌}
use tablefolk.Session.Bytes.{Bytes}
use tablefolk.Protocol.Envelope.{Artifact, Signing}
use tablefolk.Protocol.Lobby.{RosterBody, decode_roster_body}
use tablefolk.Session.Chain.{ChainResult, accepted, SenderChain, ChainHead, classify, ingest}
use tablefolk.Session.Lobby.{Lobby, LobbyError, key_get, hash_roster_body}
use tablefolk.Session.Lobby.Rosters.{valid, RosterResult, admitted, validate_roster, with_roster}
use tablefolk.Session.Lobby.Unfit.{Unfit, Grown}

module _ (signing : Signing) (lobby : Lobby) (a : Artifact) where
  abbrev Hosted : ChainResult → RosterBody → Bytes → Bool → Type 0
  Hosted r body hash m =
      (lobby.finalized_registry ≡ none)
      × ((c : SenderChain) × (key_get lobby.context.host lobby.chains ≡ some c)
          × (classify c a ≡ r)
          × (validate_roster signing lobby.context a ≡ ok (valid body hash m)))

  abbrev Parts : Type 0
  Parts = ChainResult × RosterBody × Bytes × Bool

  abbrev parts : Parts → RosterResult → Parts
  parts p (admitted r body hash m) = (r, body, hash, m)
  parts p other = p

  -- What the check of a ROSTER throws is what hashing its body throws.
  abbrev pub HashFails : LobbyError → Type 0
  HashFails e =
      (body : RosterBody) × (decode_roster_body a.envelope.body ≡ ok body)
      × (hash_roster_body signing body ≡ err e)

  -- Why an accepted ROSTER is thrown at: with it in force the lobby is unfit.
  abbrev pub RosterFails : LobbyError → Type 0
  RosterFails e =
      (c : SenderChain) × (head : ChainHead) × (body : RosterBody) × (hash : Bytes) × (m : Bool)
      × (key_get lobby.context.host lobby.chains ≡ some c)
      × (classify c a ≡ accepted head a)
      × (validate_roster signing lobby.context a ≡ ok (valid body hash m))
      × Unfit signing (with_roster signing lobby a body hash (ingest c a).0) e

  abbrev pub RosterReason : LobbyError → Type 0
  RosterReason e = HashFails e ⊎ RosterFails e

  abbrev pub IsAdmitted : RosterResult → Type 0
  IsAdmitted r =
      (head : ChainHead) × (b : Artifact) × (body : RosterBody) × (hash : Bytes) × (m : Bool) × (r
        ≡ admitted (accepted head b) body hash m)

  -- What becomes of the lobby by a ROSTER that is accepted, or is not.
  abbrev pub RosterBecomes : Lobby → RosterResult → Type 0
  RosterBecomes next r =
      ((¬ IsAdmitted r) × (next ≡ lobby))
      ⊎ ((c : SenderChain) × (head : ChainHead) × (body : RosterBody) × (hash : Bytes) × (m : Bool)
          × (key_get lobby.context.host lobby.chains ≡ some c)
          × (classify c a ≡ accepted head a)
          × (validate_roster signing lobby.context a ≡ ok (valid body hash m))
          × (r ≡ admitted (accepted head a) body hash m)
          × Grown signing (with_roster signing lobby a body hash (ingest c a).0) next)
