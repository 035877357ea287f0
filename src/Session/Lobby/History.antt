-- ===== src/Session/Lobby/History.antt =====
-- packages/session/src/lobby-bootstrap.ts: a lobby under a READY from history.
use tablefolk.Base.{
  ◌⊎◌, ℕ, ◌>>=◌, ◌≡◌, refl, sym, subst, Bool, true, false, Option, none, some, Result, ok, err,
  arith, leb, length, Bool-cases, Option-cases, inl, inr,
}
use tablefolk.Session.Bytes.{Bytes, bytes_equal}
use tablefolk.Protocol.Envelope.{Artifact, Signing}
use tablefolk.Protocol.Schema.{SchemaError}
use tablefolk.Protocol.Lobby.{ReadyBody, decode_ready_body}
use tablefolk.Session.Lobby.{
  Lobby, LobbyError, not_in_history, malformed_body, unknown_roster_hash, roster_not_finalizable,
  not_roster_member, key_get, min_session_seats, state_of_lobby,
}
use tablefolk.Session.Lobby.Readies.{
  ReadyResult, noted, ready_refused, seat_index, ready_of, has_ready, with_ready, restore_new,
  restore_historical, historical_of, restore_found, restore_body, restore_ready, is_current,
  envelope_reason,
}
use tablefolk.Session.Lobby.Sound.{Final, IsLobby}
use tablefolk.Session.Lobby.Unfit.{Unfit, Grown, Settled, settling}
use tablefolk.Session.Lobby.Settles.{reason_open}

module _ (signing : Signing) (lobby : Lobby) (a : Artifact) where
  -- A lobby with a READY from history, final if the READY is of the roster in force and the last one.
  abbrev pub Restoring : Lobby → Result LobbyError Lobby → Type 0
  Restoring full m =
      ((next : Lobby) × (m ≡ ok next) × IsLobby next × ((next ≡ full) ⊎ Grown signing full next))
      ⊎ ((e : LobbyError) × (m ≡ err e) × Unfit signing full e)

  restore_new-Restoring :
      (hash : Bytes) (old : Artifact)
      → IsLobby lobby
      → lobby.finalized_registry ≡ none
      → Restoring
          (with_ready lobby hash a.envelope.from old)
          (restore_new signing lobby hash a.envelope.from old)
  restore_new-Restoring hash old h open_still =
      let full = with_ready lobby hash a.envelope.from old in
      elim (Bool-cases (is_current signing lobby hash)) [
        | inl current ↦ elim (settling signing full h.sound h.host_kept open_still) [
          | inl (next, e, kept, grown) ↦ inl (next, rw current e, kept, inr grown)
          | inr (x, e, unfit) ↦ inr (x, rw current e, unfit)
        ]
        | inr past ↦ inl (
          full,
          rw past refl,
          record {
            sound = h.sound;
            host_kept = h.host_kept;
            final = subst (Final full) (sym open_still) tt;
          },
          inl refl,
        )
      ]

  abbrev pub RestoreBecomes : Lobby → ReadyResult → Type 0
  RestoreBecomes next r =
      (next ≡ lobby)
      ⊎ ((old : Artifact) × (body : ReadyBody) × (historical_of signing lobby a ≡ some old)
          × (decode_ready_body a.envelope.body ≡ ok body)
          × ((next ≡ with_ready lobby body.roster_hash a.envelope.from old)
              ⊎ Grown signing (with_ready lobby body.roster_hash a.envelope.from old) next))

  -- Why a READY from history is thrown at: with it the lobby is unfit.
  abbrev pub RestoreFails : LobbyError → Type 0
  RestoreFails e =
      (old : Artifact) × (body : ReadyBody) × (historical_of signing lobby a ≡ some old)
      × (decode_ready_body a.envelope.body ≡ ok body)
      × Unfit signing (with_ready lobby body.roster_hash a.envelope.from old) e

  -- A READY that is restored from a chain is answered, and the lobby stays sound; there is a throw only
  -- where the lobby with the envelope of the chain as that READY is unfit.
  pub restore_ready-Settled :
      IsLobby lobby → Settled signing RestoreBecomes RestoreFails (restore_ready signing lobby a)
  unfolding restore_ready
  restore_ready-Settled h = elim (Option-cases (envelope_reason lobby a)) [
    | inr (reason, found) ↦ inl (lobby, ready_refused reason, ground arith, h, inl refl)
    | inl fine ↦
        let same : restore_ready signing lobby a
            ≡ restore_body signing lobby a (decode_ready_body a.envelope.body) =
          ground arith in
        subst (λ m. Settled signing RestoreBecomes RestoreFails m) (sym same)
          (by_body (reason_open lobby a fine) (decode_ready_body a.envelope.body) refl)
  ]
    where
      news_of : Bool → ℕ → ReadyBody → Lobby → ReadyResult
      news_of again seat body settled = noted (record {
        is_duplicate = again;
        seat = seat;
        lobby_state = state_of_lobby settled;
        body = body;
        chain_result = none;
      })

      finish :
          (m : Result LobbyError Lobby) (old : Artifact) (again : Bool) (seat : ℕ)
          (body : ReadyBody)
          → historical_of signing lobby a ≡ some old
          → decode_ready_body a.envelope.body ≡ ok body
          → Restoring (with_ready lobby body.roster_hash a.envelope.from old) m
          → Settled signing RestoreBecomes RestoreFails
              (m >>= λ settled. ok (settled, news_of again seat body settled))
      finish m old again seat body stored given (inl (next, e, sound, becomes)) = inl (
        next,
        news_of again seat body next,
        rw e refl,
        sound,
        inr (old, body, stored, given, becomes),
      )
      finish m old again seat body stored given (inr (x, e, unfit)) =
          inr (x, rw e refl, (old, body, stored, given, unfit))

      historical_settled :
          (old : Artifact) (body : ReadyBody) (seat : ℕ)
          → lobby.finalized_registry ≡ none
          → historical_of signing lobby a ≡ some old
          → decode_ready_body a.envelope.body ≡ ok body
          → Settled signing RestoreBecomes RestoreFails
              (restore_historical signing lobby a.envelope.from old body seat)
      historical_settled old body seat open_still stored given =
          elim (Bool-cases (has_ready a.envelope.from (ready_of lobby body.roster_hash))) [
            | inl again ↦ rw again (inl (lobby, news_of true seat body lobby, refl, h, inl refl))
            | inr new ↦ rw new (
                finish (restore_new signing lobby body.roster_hash a.envelope.from old) old false
                  seat body stored given (restore_new-Restoring body.roster_hash old h open_still))
          ]

      by_history :
          (o : Option Artifact) (body : ReadyBody) (seat : ℕ)
          → lobby.finalized_registry ≡ none
          → historical_of signing lobby a ≡ o
          → decode_ready_body a.envelope.body ≡ ok body
          → Settled signing RestoreBecomes RestoreFails (restore_found signing lobby a body seat o)
      by_history none body seat open_still stored given =
          inl (lobby, ready_refused not_in_history, refl, h, inl refl)
      by_history (some old) body seat open_still stored given =
          elim (Bool-cases (bytes_equal old.canonical_bytes a.canonical_bytes)) [
            | inr other ↦ rw other (inl (lobby, ready_refused not_in_history, refl, h, inl refl))
            | inl same ↦ rw same (historical_settled old body seat open_still stored given)
          ]

      by_body :
          lobby.finalized_registry ≡ none
          → (o : Result SchemaError ReadyBody) → decode_ready_body a.envelope.body ≡ o
          → Settled signing RestoreBecomes RestoreFails (restore_body signing lobby a o)
      by_body open_still (err e) given =
          inl (lobby, ready_refused malformed_body, refl, h, inl refl)
      by_body open_still (ok body) given =
          elim (Option-cases (key_get body.roster_hash lobby.known_rosters)) [
            | inl unknown ↦
                inl (lobby, ready_refused unknown_roster_hash, ground arith, h, inl refl)
            | inr (roster, known) ↦
                elim (Bool-cases (leb min_session_seats (length roster.seats))) [
                  | inr small ↦
                      inl (lobby, ready_refused roster_not_finalizable, ground arith, h, inl refl)
                  | inl large ↦ elim (Option-cases (seat_index a.envelope.from roster.seats)) [
                    | inl stranger ↦
                        inl (lobby, ready_refused not_roster_member, ground arith, h, inl refl)
                    | inr (seat, found) ↦
                        let same : restore_body signing lobby a (ok body)
                            ≡ restore_found signing lobby a body seat
                                (historical_of signing lobby a) =
                          ground arith in
                        subst (λ m. Settled signing RestoreBecomes RestoreFails m) (sym same)
                          (by_history (historical_of signing lobby a) body seat open_still refl
                            given)
                  ]
                ]
          ]
