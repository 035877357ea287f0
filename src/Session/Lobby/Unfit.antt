-- ===== src/Session/Lobby/Unfit.antt =====
-- packages/session/src/lobby-bootstrap.ts: when `#finalizeIfReady` throws.
use tablefolk.Base.{
  ◌≡◌, refl, sym, ◌∙◌, ap, subst, Option, none, some, Result, ok, err, length, leb, All, true,
  false, Bool, Bool-cases, Result-cases, inl, inr, ◌⊎◌,
}
use tablefolk.Protocol.Envelope.{Artifact, Signing}
use tablefolk.Protocol.Lobby.{RosterBody}
use tablefolk.Session.Chain.{ChainHead, ChainResult, accepted, SenderChain, classify, ingest}
use tablefolk.Session.Chain.Links.{IsChain, classify-IsNext}
use tablefolk.Session.Registry.{Registry, new_registry}
use tablefolk.Session.Lobby.Formed.{Gathered, build_finalized_registry_lem}
use tablefolk.Session.Lobby.{Lobby, LobbyError, min_session_seats, current_ready}
use tablefolk.Session.Lobby.Finals.{
  all_ready, build_finalized_registry, finalize_under, finalize_open, finalize_if_ready,
}
use tablefolk.Session.Lobby.Sound.{AllChains, Kept, IsLobby, finalize-IsLobby}
use tablefolk.Session.Lobby.Stays.{ingest_accepted}

-- What is classified as accepted is ingested as such, with the same envelope.
pub ingest_next_accepted :
    (c : SenderChain) (a b : Artifact) (head : ChainHead)
    → IsChain c
    → classify c a ≡ accepted head b
    → (ingest c a ≡ ((ingest c a).0, accepted head a)) × (classify c a ≡ accepted head a)
ingest_next_accepted c a b head h e =
    let (grown, taken) = ingest_accepted c a b head e in
    (
      taken
          ∙ ap (λ x. (x, accepted head a))
              (sym (ap (λ (p : SenderChain × ChainResult). p.0) taken)),
      e ∙ ap (accepted head) (classify-IsNext c a b head h e).2,
    )

-- One roster does not both pass a test and fail it.
clash :
    (test : RosterBody → Bool) (x y : RosterBody)
    → some x ≡ some y
    → test x ≡ false
    → test y ≡ true
    → ⊥
clash test x y same fails passes = cc (same, fails, passes)

module _ (signing : Signing) where
  -- The lobby's roster can form a session, and each of its players has a chain for it.
  abbrev pub IsComplete : Lobby → RosterBody → Type 0
  IsComplete lobby roster =
      (fresh : Registry) × (new_registry signing.is_acceptable lobby.context.game_id roster.seats
        ≡ ok fresh)
      × All (Gathered lobby.context.game_id lobby.chains) roster.seats

  -- The roster is large enough, and all of its players are ready.
  abbrev pub IsReady : Lobby → Type 0
  IsReady lobby =
      (roster : RosterBody) × (lobby.roster ≡ some roster)
      × (leb min_session_seats (length roster.seats) ≡ true)
      × (all_ready roster.seats (current_ready lobby) ≡ true)

  -- A lobby of which no session can be built although its roster is large enough and all are ready.
  abbrev pub Unfit : Lobby → LobbyError → Type 0
  Unfit lobby e =
      (roster : RosterBody) × (lobby.roster ≡ some roster)
      × (leb min_session_seats (length roster.seats) ≡ true)
      × (all_ready roster.seats (current_ready lobby) ≡ true)
      × (build_finalized_registry signing lobby ≡ err e)
      × (¬ IsComplete lobby roster)

  -- What becomes of a lobby: the session is built of it when all are ready, and else it is left alone.
  abbrev pub Grown : Lobby → Lobby → Type 0
  Grown lobby next =
      ((¬ IsReady lobby) × (next ≡ lobby))
      ⊎ (IsReady lobby
          × (registry : Registry) × (build_finalized_registry signing lobby ≡ ok registry)
          × (next ≡ record lobby { finalized_registry = some registry }))

  -- What cannot be built is not complete.
  not-IsComplete :
      (lobby : Lobby) (roster : RosterBody) (e : LobbyError)
      → lobby.roster ≡ some roster
      → build_finalized_registry signing lobby ≡ err e
      → ¬ IsComplete lobby roster
  not-IsComplete lobby roster e there failed (fresh, formed, gathered) =
      let (next, built, game, carried) =
        build_finalized_registry_lem signing lobby roster fresh there formed gathered in
      cc (built, failed)

  abbrev Answered : Lobby → Result LobbyError Lobby → Type 0
  Answered lobby m =
      ((next : Lobby) × (m ≡ ok next) × Grown lobby next)
      ⊎ ((e : LobbyError) × (m ≡ err e) × Unfit lobby e)

  -- `#finalizeIfReady` throws for an unfit lobby only.
  finalize_answered :
      (lobby : Lobby)
      → lobby.finalized_registry ≡ none
      → Answered lobby (finalize_if_ready signing lobby)
  unfolding finalize_if_ready
  finalize_answered lobby open_still =
      subst (Answered lobby) (sym (ap (finalize_open signing lobby) open_still))
        (by_roster lobby.roster refl)
    where
      by_roster :
          (o : Option RosterBody)
          → lobby.roster ≡ o
          → Answered lobby (finalize_under signing lobby o)
      by_roster none there =
          inl (lobby, refl, inl (λ (r, other, large, ready). cc (there, other), refl))
      by_roster (some roster) there =
          elim (Bool-cases (leb min_session_seats (length roster.seats))) [
            | inr small ↦ inl (
              lobby,
              rw small refl,
              inl (
                λ (r, other, large, ready).
                    clash (λ r. leb min_session_seats (length r.seats)) roster r (sym there ∙ other)
                      small large,
                refl,
              ),
            )
            | inl large ↦ elim (Bool-cases (all_ready roster.seats (current_ready lobby))) [
              | inr waiting ↦ inl (
                lobby,
                rw (large, waiting) refl,
                inl (
                  λ (r, other, large', ready).
                      clash (λ r. all_ready r.seats (current_ready lobby)) roster r
                        (sym there ∙ other) waiting ready,
                  refl,
                ),
              )
              | inl ready ↦ elim (Result-cases (build_finalized_registry signing lobby)) [
                | inl (registry, built) ↦ inl (
                  record lobby { finalized_registry = some registry },
                  rw (large, ready, built) refl,
                  inr ((roster, there, large, ready), registry, built, refl),
                )
                | inr (e, failed) ↦ inr (
                  e,
                  rw (large, ready, failed) refl,
                  (roster, there, large, ready, failed, not-IsComplete lobby roster e there failed),
                )
              ]
            ]
          ]

  -- An answer after which the lobby is sound and what it should be, or a throw for a reason.
  abbrev pub Settled :
      {R : Type 0}
      → (Lobby → R → Type 0)
      → (LobbyError → Type 0)
      → Result LobbyError (Lobby × R)
      → Type 0
  Settled {R} Becomes Reason m =
      ((next : Lobby) × (r : R) × (m ≡ ok (next, r)) × IsLobby next × Becomes next r)
      ⊎ ((e : LobbyError) × (m ≡ err e) × Reason e)

  abbrev pub Settling : Lobby → Result LobbyError Lobby → Type 0
  Settling lobby m =
      ((next : Lobby) × (m ≡ ok next) × IsLobby next × Grown lobby next)
      ⊎ ((e : LobbyError) × (m ≡ err e) × Unfit lobby e)

  pub settling :
      (lobby : Lobby)
      → AllChains lobby.chains
      → Kept lobby.context.host lobby.chains
      → lobby.finalized_registry ≡ none
      → Settling lobby (finalize_if_ready signing lobby)
  settling lobby sound host open_still = elim (finalize_answered lobby open_still) [
    | inl (next, e, grown) ↦
        inl (next, e, finalize-IsLobby signing lobby next sound host open_still e, grown)
    | inr failed ↦ inr failed
  ]
