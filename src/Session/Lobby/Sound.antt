-- ===== src/Session/Lobby/Sound.antt =====
-- packages/session/src/lobby-bootstrap.ts: the invariant of a lobby, and what becomes of it.
use tablefolk.Base.{
  ℕ, zero, suc, ◌+◌, ◌≡◌, refl, sym, ◌∙◌, ap, subst, true, List, [], ◌∷◌, Option, none, some,
  Result, ok, err, expect, arith, length, leb, All, Bool-cases, inl, inr, >>=-eq-ok, ok-injective,
}
use tablefolk.Session.Bytes.{Bytes, bytes_to_hex}
use tablefolk.Session.Bytes.Laws.{text_equal_self}
use tablefolk.Protocol.Envelope.{Signing}
use tablefolk.Protocol.Lobby.{RosterBody}
use tablefolk.Session.Chain.{accepted, SenderChain, new_chain, get}
use tablefolk.Session.Chain.Links.{IsChain, new_chain-IsChain}
use tablefolk.Session.Registry.{
  Registry, RegistryError, SessionResult, of_chain, new_registry, ingest_session,
}
use tablefolk.Session.Registry.Keeps.{
  IsRegistry, ingest_session-IsRegistry, new_registry-IsRegistry,
}
use tablefolk.Session.Lobby.{
  Lobby, LobbyContext, not_contiguous, incomplete_chain, no_final_roster, key_is, key_get, key_set,
  min_session_seats, current_ready, normalize_context, new_lobby,
}
use tablefolk.Session.Lobby.Finals.{
  by_registry, transferred, transfer_from, transfer_all, build_finalized_registry, all_ready,
  finalize_under, finalize_open, finalize_if_ready,
}

-- Every chain that is kept is a gapless chain of hashes.
abbrev pub AllChains : List (Bytes × SenderChain) → Type 0
AllChains = All (λ (e : Bytes × SenderChain). IsChain e.1)

pub key_get-IsChain :
    (key : Bytes) (chains : List (Bytes × SenderChain)) (c : SenderChain)
    → AllChains chains
    → key_get key chains ≡ some c
    → IsChain c
key_get-IsChain key [] c h e = cc
key_get-IsChain key ((other, d) ∷ chains) c h e = ground (arith, key_get-IsChain key chains c)

pub key_set-AllChains :
    (key : Bytes) (chains : List (Bytes × SenderChain)) (c : SenderChain)
    → AllChains chains
    → IsChain c
    → AllChains (key_set key c chains)
key_set-AllChains key [] c h k = (k, tt)
key_set-AllChains key ((other, d) ∷ chains) c h k = elim (Bool-cases (key_is key other)) [
  | inl here ↦ rw here (k, h.1)
  | inr later ↦ rw later (h.0, key_set-AllChains key chains c h.1 k)
]

abbrev pub Kept : Bytes → List (Bytes × SenderChain) → Type 0
Kept key chains = (c : SenderChain) × (key_get key chains ≡ some c)

-- A chain that is there stays there when another one is stored.
pub key_set-Kept :
    (key stored : Bytes) (chains : List (Bytes × SenderChain)) (c : SenderChain)
    → Kept key chains
    → Kept key (key_set stored c chains)
key_set-Kept key stored [] c (d, e) = cc
key_set-Kept key stored ((other, b) ∷ chains) c (d, e) = elim (Bool-cases (key_is stored other)) [
  | inl here ↦ elim (Bool-cases (key_is key other)) [
    | inl found ↦ (c, rw (here, found) refl)
    | inr not_found ↦ (d, rw (here, not_found) (rw not_found at e))
  ]
  | inr later ↦ elim (Bool-cases (key_is key other)) [
    | inl found ↦ (b, rw (later, found) refl)
    | inr not_found ↦
        let (x, f) = key_set-Kept key stored chains c (d, rw not_found at e) in
        (x, rw (later, not_found) f)
  ]
]

-- A final lobby has a sound session, and a roster in force of at least three, all of whom were ready.
pub record IsFinal (lobby : Lobby) (registry : Registry) : Type 0 where
  pub session : IsRegistry registry
  pub roster : RosterBody
  pub in_force : lobby.roster ≡ some roster
  pub large : leb min_session_seats (length roster.seats) ≡ true
  pub ready : all_ready roster.seats (current_ready lobby) ≡ true

abbrev pub Final : Lobby → Option Registry → Type 0
Final lobby none = Unit {0}
Final lobby (some registry) = IsFinal lobby registry

pub record IsLobby (lobby : Lobby) : Type 0 where
  pub sound : AllChains lobby.chains
  pub host_kept : Kept lobby.context.host lobby.chains
  pub final : Final lobby lobby.finalized_registry

transfer_from-IsRegistry :
    (left : ℕ) (r next : Registry) (chain : SenderChain) (seq : ℕ)
    → IsRegistry r
    → transfer_from left r chain seq ≡ ok next
    → IsRegistry next
unfolding transfer_from
transfer_from-IsRegistry zero r next chain seq h e = subst IsRegistry (ok-injective r next e) h
transfer_from-IsRegistry (suc left) r next chain seq h e =
    let (a, there, e1) = >>=-eq-ok (expect (get chain seq) not_contiguous) _ e in
    let (outcome, given, e2) = >>=-eq-ok (by_registry (ingest_session r a)) _ e1 in
    let (r', moved, e3) = >>=-eq-ok (transferred outcome) _ e2 in
    let (kept, s, same, sound) = ingest_session-IsRegistry r a h in
    let is : (kept, s) ≡ outcome =
      ok-injective (kept, s) outcome (sym (ap by_registry same) ∙ given) in
    transfer_from-IsRegistry left r' next chain (suc seq)
      (moved_IsRegistry s r' kept sound (rw is moved)) e3
  where
    moved_IsRegistry :
        (s : SessionResult) (x k : Registry)
        → IsRegistry k
        → transferred (k, s) ≡ ok x
        → IsRegistry x
    moved_IsRegistry (of_chain (accepted head received)) x k h e =
        subst IsRegistry (ok-injective k x e) h
    moved_IsRegistry s x k h e = cc

transfer_all-IsRegistry :
    (r next : Registry) (chains : List (Bytes × SenderChain)) (seats : List Bytes)
    → IsRegistry r
    → transfer_all r chains seats ≡ ok next
    → IsRegistry next
unfolding transfer_all
transfer_all-IsRegistry r next chains [] h e = subst IsRegistry (ok-injective r next e) h
transfer_all-IsRegistry r next chains (sender ∷ seats) h e =
    let (chain, there, e1) = >>=-eq-ok (expect (key_get sender chains) incomplete_chain) _ e in
    let (head, filled, e2) = >>=-eq-ok (expect chain.head incomplete_chain) _ e1 in
    let (r', moved, e3) = >>=-eq-ok (transfer_from (head.seq + 1) r chain 0) _ e2 in
    transfer_all-IsRegistry r' next chains seats
      (transfer_from-IsRegistry (head.seq + 1) r r' chain 0 h moved) e3

by_registry-eq-ok :
    {A : Type 0} (m : Result RegistryError A) (a : A) → by_registry m ≡ ok a → m ≡ ok a
by_registry-eq-ok (ok b) a h = cc
by_registry-eq-ok (err e) a h = cc

module _ (signing : Signing) where
  build-IsRegistry :
      (lobby : Lobby) (r : Registry) → build_finalized_registry signing lobby ≡ ok r → IsRegistry r
  unfolding build_finalized_registry
  build-IsRegistry lobby r e =
      let (roster, there, e1) = >>=-eq-ok (expect lobby.roster no_final_roster) _ e in
      let (fresh, made, e2) =
        >>=-eq-ok
          (by_registry (new_registry signing.is_acceptable lobby.context.game_id roster.seats)) _
          e1 in
      transfer_all-IsRegistry fresh r lobby.chains roster.seats
        (new_registry-IsRegistry signing.is_acceptable lobby.context.game_id roster.seats fresh (
          by_registry-eq-ok (new_registry signing.is_acceptable lobby.context.game_id roster.seats)
            fresh made))
        e2

  -- A lobby whose chains are sound is sound also after it was made final, or was not.
  pub finalize-IsLobby :
      (lobby next : Lobby)
      → AllChains lobby.chains
      → Kept lobby.context.host lobby.chains
      → lobby.finalized_registry ≡ none
      → finalize_if_ready signing lobby ≡ ok next
      → IsLobby next
  unfolding finalize_if_ready current_ready
  finalize-IsLobby lobby next sound host open_still e =
      by_roster lobby.roster refl (sym (ap (finalize_open signing lobby) open_still) ∙ e)
    where
      unchanged : lobby ≡ next → IsLobby next
      unchanged same = subst IsLobby same (record {
        sound = sound;
        host_kept = host;
        final = subst (Final lobby) (sym open_still) tt;
      })

      by_roster :
          (o : Option RosterBody)
          → lobby.roster ≡ o
          → finalize_under signing lobby o ≡ ok next
          → IsLobby next
      by_roster none there h = unchanged (ok-injective lobby next h)
      by_roster (some roster) there h =
          elim (Bool-cases (leb min_session_seats (length roster.seats))) [
            | inr small ↦ unchanged (ok-injective lobby next (rw small at h))
            | inl large ↦ elim (Bool-cases (all_ready roster.seats (current_ready lobby))) [
              | inr waiting ↦ unchanged (ok-injective lobby next (rw (large, waiting) at h))
              | inl ready ↦
                  let (r, built, h1) =
                    >>=-eq-ok (build_finalized_registry signing lobby) _ (rw (large, ready) at h) in
                  let same = ok-injective (record lobby { finalized_registry = some r }) next h1 in
                  subst IsLobby same (record {
                    sound = sound;
                    host_kept = host;
                    final = record {
                      session = build-IsRegistry lobby r built;
                      roster = roster;
                      in_force = there;
                      large = large;
                      ready = ready;
                    };
                  })
            ]
          ]

  -- A lobby starts with the empty chain of its host.
  pub new_lobby-IsLobby :
      (given : LobbyContext) (lobby : Lobby) → new_lobby signing given ≡ ok lobby → IsLobby lobby
  unfolding new_lobby
  new_lobby-IsLobby given lobby e =
      let (context, normal, e1) = >>=-eq-ok (normalize_context signing given) _ e in
      subst IsLobby (ok-injective _ lobby e1) (record {
        sound = (new_chain-IsChain context.host, tt);
        host_kept = (new_chain context.host, rw (text_equal_self (bytes_to_hex context.host)) refl);
        final = tt;
      })
