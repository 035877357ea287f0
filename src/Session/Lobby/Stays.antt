-- ===== src/Session/Lobby/Stays.antt =====
-- packages/session/src/lobby-bootstrap.ts: a lobby stays sound under each of its operations.
use tablefolk.Base.{
  ◌≡◌, refl, sym, ap, subst, Option, none, some, ok, arith, Option-cases, inl, inr,
}
use tablefolk.Session.Bytes.{Bytes}
use tablefolk.Protocol.Envelope.{Artifact}
use tablefolk.Protocol.Lobby.{JoinBody}
use tablefolk.Session.Chain.{
  ChainHead, ChainResult, accepted, duplicate, rejected, SenderChain, new_chain, record_result,
  classify, ingest,
}
use tablefolk.Session.Chain.Links.{IsChain, new_chain-IsChain}
use tablefolk.Session.Chain.Ingest.{ingest-IsChain}
use tablefolk.Session.Lobby.{Lobby, key_get}
use tablefolk.Session.Lobby.Joins.{
  LobbyResult, of_chain, refused, with_sender_chain, classify_lobby, ingest_lobby, JoinResult,
  joined, chain_rejected, join_refused, chain_or_new, JoinValidation, valid, invalid, validate_join,
  join_result, classify_valid_join, classify_bootstrap_join, bootstrap_join,
}
use tablefolk.Session.Lobby.Sound.{Final, IsLobby, key_get-IsChain, key_set-AllChains, key_set-Kept}

-- What is classified as accepted is ingested as accepted.
pub ingest_accepted :
    (c : SenderChain) (a b : Artifact) (head : ChainHead)
    → classify c a ≡ accepted head b
    → (next : SenderChain) × (ingest c a ≡ (next, accepted head a))
unfolding ingest
ingest_accepted c a b head e = ((record_result c a (accepted head b)).0, rw e refl)

-- A lobby that is not final stays sound when a sound chain is stored.
store-IsLobby :
    (lobby : Lobby) (sender : Bytes) (c : SenderChain)
    → IsLobby lobby
    → lobby.finalized_registry ≡ none
    → IsChain c
    → IsLobby (with_sender_chain lobby sender c)
store-IsLobby lobby sender c h open_still k = record {
  sound = key_set-AllChains sender lobby.chains c h.sound k;
  host_kept = key_set-Kept lobby.context.host sender lobby.chains c h.host_kept;
  final = subst (Final (with_sender_chain lobby sender c)) (sym open_still) tt;
}

classify_lobby-known :
    (lobby : Lobby) (a : Artifact) (r : ChainResult)
    → classify_lobby lobby a ≡ of_chain r
    → (lobby.finalized_registry ≡ none)
      × (c : SenderChain) × (key_get a.envelope.from lobby.chains ≡ some c)
      × (classify c a ≡ r)
unfolding classify_lobby
classify_lobby-known lobby a r e = elim (Option-cases lobby.finalized_registry) [
  | inr (registry, final) ↦ ground arith
  | inl open_still ↦ elim (Option-cases (key_get a.envelope.from lobby.chains)) [
    | inl stranger ↦ ground arith
    | inr (c, found) ↦ (open_still, c, found, ground arith)
  ]
]

-- An envelope of whatever sender is answered, never thrown at, and the lobby stays sound.
pub ingest_lobby-IsLobby :
    (lobby : Lobby) (a : Artifact)
    → IsLobby lobby
    → (next : Lobby) × (r : LobbyResult) × (ingest_lobby lobby a ≡ ok (next, r)) × IsLobby next
unfolding ingest_lobby
ingest_lobby-IsLobby lobby a h = split (classify_lobby lobby a) refl
  where
    split :
        (r : LobbyResult)
        → classify_lobby lobby a ≡ r
        → (next : Lobby) × (s : LobbyResult) × (ingest_lobby lobby a ≡ ok (next, s)) × IsLobby next
    split (refused reason) e = (lobby, refused reason, rw e refl, h)
    split (of_chain (duplicate old new)) e = (lobby, of_chain (duplicate old new), rw e refl, h)
    split (of_chain (rejected why b)) e = (lobby, of_chain (rejected why b), rw e refl, h)
    split (of_chain (accepted head b)) e =
        let (open_still, c, found, accepts) = classify_lobby-known lobby a (accepted head b) e in
        let (grown, taken) = ingest_accepted c a b head accepts in
        let sound : IsChain grown =
          subst IsChain (ap (λ (p : SenderChain × ChainResult). p.0) taken)
            (ingest-IsChain c a (key_get-IsChain a.envelope.from lobby.chains c h.sound found)) in
        (
          with_sender_chain lobby a.envelope.from grown,
          of_chain (accepted head a),
          rw e (rw found (rw taken refl)),
          store-IsLobby lobby a.envelope.from grown h open_still sound,
        )

chain_or_new-IsChain :
    (lobby : Lobby) (a : Artifact) → IsLobby lobby → IsChain (chain_or_new lobby a)
chain_or_new-IsChain lobby a h = known (key_get a.envelope.from lobby.chains) refl
  where
    known :
        (o : Option SenderChain)
        → key_get a.envelope.from lobby.chains ≡ o
        → IsChain (elim o [ none ↦ new_chain a.envelope.from | some chain ↦ chain ])
    known none e = new_chain-IsChain a.envelope.from
    known (some c) e = key_get-IsChain a.envelope.from lobby.chains c h.sound e

join_result-accepted :
    (r : ChainResult) (body other : JoinBody) (head : ChainHead) (b : Artifact)
    → join_result r body ≡ joined (accepted head b) other
    → r ≡ accepted head b
join_result-accepted (accepted head' b') body other head b e = cc
join_result-accepted (duplicate old new) body other head b e = cc
join_result-accepted (rejected why b') body other head b e = cc

classify_bootstrap_join-accepted :
    (lobby : Lobby) (a b : Artifact) (head : ChainHead) (body : JoinBody)
    → classify_bootstrap_join lobby a ≡ joined (accepted head b) body
    → (lobby.finalized_registry ≡ none) × (classify (chain_or_new lobby a) a ≡ accepted head b)
unfolding classify_bootstrap_join
classify_bootstrap_join-accepted lobby a b head body e =
    elim (Option-cases lobby.finalized_registry) [
      | inr (registry, final) ↦ ground arith
      | inl open_still ↦ (open_still, judged (validate_join lobby.context a) (ground arith))
    ]
  where
    judged :
        (v : JoinValidation)
        → classify_valid_join lobby a v ≡ joined (accepted head b) body
        → classify (chain_or_new lobby a) a ≡ accepted head b
    judged (invalid reason) f = cc
    judged (valid given) f =
        join_result-accepted (classify (chain_or_new lobby a) a) given body head b f

-- A JOIN is answered, never thrown at, and the lobby stays sound.
pub bootstrap_join-IsLobby :
    (lobby : Lobby) (a : Artifact)
    → IsLobby lobby
    → (next : Lobby) × (r : JoinResult) × (bootstrap_join lobby a ≡ ok (next, r)) × IsLobby next
unfolding bootstrap_join
bootstrap_join-IsLobby lobby a h = split (classify_bootstrap_join lobby a) refl
  where
    split :
        (r : JoinResult)
        → classify_bootstrap_join lobby a ≡ r
        → (next : Lobby) × (s : JoinResult) × (bootstrap_join lobby a ≡ ok (next, s)) × IsLobby next
    split (join_refused reason) e = (lobby, join_refused reason, rw e refl, h)
    split (chain_rejected r) e = (lobby, chain_rejected r, rw e refl, h)
    split (joined (duplicate old new) body) e =
        (lobby, joined (duplicate old new) body, rw e refl, h)
    split (joined (rejected why b) body) e = (lobby, joined (rejected why b) body, rw e refl, h)
    split (joined (accepted head b) body) e =
        let (open_still, accepts) = classify_bootstrap_join-accepted lobby a b head body e in
        let (grown, taken) = ingest_accepted (chain_or_new lobby a) a b head accepts in
        let sound : IsChain grown =
          subst IsChain (ap (λ (p : SenderChain × ChainResult). p.0) taken)
            (ingest-IsChain (chain_or_new lobby a) a (chain_or_new-IsChain lobby a h)) in
        (
          with_sender_chain lobby a.envelope.from grown,
          joined (accepted head a) body,
          rw e (rw taken refl),
          store-IsLobby lobby a.envelope.from grown h open_still sound,
        )
