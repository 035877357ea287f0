-- ===== src/Session/Lobby/Settles.antt =====
-- packages/session/src/lobby-bootstrap.ts: a lobby under READY envelopes, which may make it final.
use tablefolk.Base.{
  ◌≡◌, Option, none, some, Result, ok, err, arith, ◌⊎◌, Bool, true, false, Option-cases, inl, inr,
}
use tablefolk.Session.Bytes.{Bytes}
use tablefolk.Protocol.Envelope.{Artifact, Signing}
use tablefolk.Protocol.Lobby.{ReadyBody, decode_ready_body}
use tablefolk.Session.Chain.{ChainHead, ChainResult, accepted, SenderChain, classify, ingest}
use tablefolk.Session.Lobby.{Lobby, LobbyError, key_get, key_set}
use tablefolk.Session.Lobby.Readies.{ReadyNews, ReadyResult, noted, envelope_reason, with_ready}
use tablefolk.Session.Lobby.Sound.{IsLobby}
use tablefolk.Session.Lobby.Unfit.{Unfit, Grown}

abbrev pub chain_of : ReadyResult → Option ChainResult
chain_of (noted news) = news.chain_result
chain_of other = none

abbrev pub is_again : ReadyResult → Bool
is_again (noted news) = news.is_duplicate
is_again other = false

abbrev body_of : ReadyBody → ReadyResult → ReadyBody
body_of body (noted news) = news.body
body_of body other = body

pub reason_open :
    (lobby : Lobby) (a : Artifact)
    → envelope_reason lobby a ≡ none
    → lobby.finalized_registry ≡ none
reason_open lobby a e = elim (Option-cases lobby.finalized_registry) [
  | inl open_still ↦ open_still
  | inr (registry, final) ↦ ground arith
]

-- What a noted READY says of its sender's chain.
abbrev Known : Lobby → Artifact → ReadyNews → Type 0
Known lobby a news =
    (c : SenderChain) × (key_get a.envelope.from lobby.chains ≡ some c)
    × (news.chain_result ≡ some (classify c a))
    × (decode_ready_body a.envelope.body ≡ ok news.body)

module _ (signing : Signing) where
  -- A READY that was there already changes nothing more, and another one may make the lobby final.
  abbrev Noting : Lobby → Lobby → Bool → Result LobbyError Lobby → Type 0
  Noting kept full again m =
      ((next : Lobby) × (m ≡ ok next)
        × IsLobby next
        × (((again ≡ true) × (next ≡ kept)) ⊎ ((again ≡ false) × Grown signing full next)))
      ⊎ ((e : LobbyError) × (m ≡ err e) × Unfit signing full e)

  -- The lobby that has taken an envelope into its sender's chain, and has it as a READY.
  abbrev pub after_ready : Lobby → SenderChain → ReadyBody → Artifact → Lobby
  after_ready lobby c body a =
      with_ready (record lobby { chains = key_set a.envelope.from (ingest c a).0 lobby.chains })
        body.roster_hash a.envelope.from a

  -- Why a READY is thrown at: it is the next envelope of its sender's chain, and with it the lobby is
  -- unfit.
  abbrev pub ReadyFails : Lobby → Artifact → LobbyError → Type 0
  ReadyFails lobby a e =
      (c : SenderChain) × (head : ChainHead) × (body : ReadyBody) × (key_get a.envelope.from
          lobby.chains
        ≡ some c)
      × (classify c a ≡ accepted head a)
      × (decode_ready_body a.envelope.body ≡ ok body)
      × Unfit signing (after_ready lobby c body a) e

  abbrev pub IsAccepted : ReadyResult → Type 0
  IsAccepted r = (head : ChainHead) × (b : Artifact) × (chain_of r ≡ some (accepted head b))

  -- What becomes of a lobby by a READY that is accepted, or is not.
  abbrev pub ReadyBecomes : Lobby → Artifact → Lobby → ReadyResult → Type 0
  ReadyBecomes lobby a next r =
      ((¬ IsAccepted r) × (next ≡ lobby))
      ⊎ ((c : SenderChain) × (head : ChainHead) × (body : ReadyBody) × (key_get a.envelope.from
              lobby.chains
            ≡ some c)
          × (classify c a ≡ accepted head a)
          × (decode_ready_body a.envelope.body ≡ ok body)
          × (chain_of r ≡ some (accepted head a))
          × (((is_again r ≡ true)
                × (next ≡ record lobby {
                  chains = key_set a.envelope.from (ingest c a).0 lobby.chains;
                }))
              ⊎ ((is_again r ≡ false) × Grown signing (after_ready lobby c body a) next)))
