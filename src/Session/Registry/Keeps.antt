-- ===== src/Session/Registry/Keeps.antt =====
-- packages/session/src/chain-registry.ts: what `ingest` does to the chains of a session.
use tablefolk.Base.{
  ℕ, suc, ◌≡◌, refl, sym, ap, ap₂, ◌∙◌, subst, ◌⊎◌, inl, inr, Bool, true, false, List, [], ◌∷◌,
  none, some, ok, arith, All, Bool-cases, Option-cases, Result-cases,
}
use tablefolk.Session.Bytes.{Bytes, bytes_equal}
use tablefolk.Session.Chain.{
  Artifact, ChainResult, SenderChain, accepted, duplicate, rejected, new_chain, classify, ingest,
}
use tablefolk.Session.Chain.Links.{IsChain, new_chain-IsChain}
use tablefolk.Session.Chain.Ingest.{ingest-IsChain}
use tablefolk.Session.Registry.{
  RosterEntry, Registry, SessionResult, of_chain, wrong_game, unknown_sender, has_key, entry_for,
  with_chain, new_entries, new_registry, classify_session, ingest_into, ingest_session,
}

-- Every chain of the roster is a gapless chain of hashes.
abbrev pub IsRegistry : Registry → Type 0
IsRegistry r = All (λ e. IsChain e.chain) r.entries

new_entries-IsRegistry :
    (valid_key : Bytes → Bool) (seat : ℕ) (before entries : List RosterEntry) (roster : List Bytes)
    → new_entries valid_key seat before roster ≡ ok entries
    → All (λ e. IsChain e.chain) entries
unfolding new_entries
new_entries-IsRegistry valid_key seat before entries [] h =
    let none_left : [] ≡ entries = ground arith in subst (All (λ e. IsChain e.chain)) none_left tt
new_entries-IsRegistry valid_key seat before entries (sender ∷ roster) h =
    let entry : RosterEntry = record { seat = seat; sender = sender; chain = new_chain sender } in
    elim (Result-cases (new_entries valid_key (suc seat) (entry ∷ before) roster)) [
      | inr (x, f) ↦ ground arith
      | inl (rest, f) ↦
          let same : entry ∷ rest ≡ entries = ground arith in
          subst (All (λ e. IsChain e.chain)) same (
            new_chain-IsChain sender,
            new_entries-IsRegistry valid_key (suc seat) (entry ∷ before) rest roster f,
          )
    ]

entry_for-IsChain :
    (sender : Bytes) (entries : List RosterEntry) (e : RosterEntry)
    → All (λ e. IsChain e.chain) entries
    → entry_for sender entries ≡ some e
    → IsChain e.chain
entry_for-IsChain sender [] e h f = cc
entry_for-IsChain sender (x ∷ entries) e h f = ground (arith, entry_for-IsChain sender entries e)

with_chain-IsRegistry :
    (sender : Bytes) (c : SenderChain) (entries : List RosterEntry)
    → All (λ e. IsChain e.chain) entries
    → IsChain c
    → All (λ e. IsChain e.chain) (with_chain sender c entries)
with_chain-IsRegistry sender c [] h k = tt
with_chain-IsRegistry sender c (x ∷ entries) h k = elim (Bool-cases (has_key sender x)) [
  | inl here ↦ rw here (k, h.1)
  | inr later ↦ rw later (h.0, with_chain-IsRegistry sender c entries h.1 k)
]

pub with_chain_same :
    (sender : Bytes) (entries : List RosterEntry) (e : RosterEntry)
    → entry_for sender entries ≡ some e
    → with_chain sender e.chain entries ≡ entries
with_chain_same sender [] e f = refl
with_chain_same sender (x ∷ entries) e f = elim (Bool-cases (has_key sender x)) [
  | inl here ↦ let same : x ≡ e = ground arith in rw (here, ← same) refl
  | inr later ↦ rw later (ap (◌∷◌ x) (with_chain_same sender entries e (ground arith)))
]

-- The session with one chain replaced by its own ingestion of an envelope.
abbrev pub ingested : Registry → Artifact → RosterEntry → Registry
ingested r a e = record r { entries = with_chain a.envelope.from (ingest e.chain a).0 r.entries }

-- An envelope of the session's game by a player of the roster is ingested into that player's chain,
-- with the chain's result, and nothing else changes.
pub ingest_session_known :
    (r : Registry) (a : Artifact) (e : RosterEntry)
    → bytes_equal a.envelope.game r.game_id ≡ true
    → entry_for a.envelope.from r.entries ≡ some e
    → ingest_session r a ≡ ok (ingested r a e, of_chain (ingest e.chain a).1)
unfolding ingest_session classify_session ingest_into
ingest_session_known r a e same_game found = split (classify e.chain a) refl
  where
    unchanged : (x : ChainResult) → ingest e.chain a ≡ (e.chain, x) → ingested r a e ≡ r
    unchanged x f =
        ap (λ l. record r { entries = l })
          (ap (λ (p : SenderChain × ChainResult). with_chain a.envelope.from p.0 r.entries) f
            ∙ with_chain_same a.envelope.from r.entries e found)

    refused :
        (x : ChainResult)
        → ingest_session r a ≡ ok (r, of_chain x)
        → ingest e.chain a ≡ (e.chain, x)
        → ingest_session r a ≡ ok (ingested r a e, of_chain (ingest e.chain a).1)
    refused x same kept =
        same
        ∙ ap₂ (λ (s : Registry) (y : ChainResult). ok (s, of_chain y)) (sym (unchanged x kept))
            (sym (ap (λ (p : SenderChain × ChainResult). p.1) kept))

    split :
        (x : ChainResult)
        → classify e.chain a ≡ x
        → ingest_session r a ≡ ok (ingested r a e, of_chain (ingest e.chain a).1)
    split (accepted head b) f = rw (same_game, found, f, found) refl
    split (duplicate b c) f =
        refused (duplicate b c) (rw (same_game, found, f) refl) (unfold ingest in rw f refl)
    split (rejected why b) f =
        refused (rejected why b) (rw (same_game, found, f) refl) (unfold ingest in rw f refl)

-- Any other envelope changes nothing.
pub ingest_session_other :
    (r : Registry) (a : Artifact)
    → (bytes_equal a.envelope.game r.game_id ≡ false) ⊎ (entry_for a.envelope.from r.entries ≡ none)
    → (s : SessionResult) × (ingest_session r a ≡ ok (r, s))
unfolding ingest_session classify_session
ingest_session_other r a h = elim (Bool-cases (bytes_equal a.envelope.game r.game_id)) [
  | inr other_game ↦ (wrong_game r.game_id a.envelope.game a, rw other_game refl)
  | inl same_game ↦ (unknown_sender a.envelope.from a, ground arith)
]

-- No envelope makes an ingestion throw, and the chains of the session stay gapless.
pub ingest_session-IsRegistry :
    (r : Registry) (a : Artifact)
    → IsRegistry r
    → (next : Registry) × (s : SessionResult) × (ingest_session r a ≡ ok (next, s))
      × IsRegistry next
ingest_session-IsRegistry r a h = elim (Option-cases (entry_for a.envelope.from r.entries)) [
  | inl stranger ↦ let (s, e) = ingest_session_other r a (inr stranger) in (r, s, e, h)
  | inr (entry, found) ↦ elim (Bool-cases (bytes_equal a.envelope.game r.game_id)) [
    | inr other_game ↦ let (s, e) = ingest_session_other r a (inl other_game) in (r, s, e, h)
    | inl same_game ↦ (
      ingested r a entry,
      of_chain (ingest entry.chain a).1,
      ingest_session_known r a entry same_game found,
      with_chain-IsRegistry a.envelope.from (ingest entry.chain a).0 r.entries h (
          ingest-IsChain entry.chain a (entry_for-IsChain a.envelope.from r.entries entry h found)),
    )
  ]
]

-- A session starts with empty chains.
pub new_registry-IsRegistry :
    (valid_key : Bytes → Bool) (game_id : Bytes) (roster : List Bytes) (r : Registry)
    → new_registry valid_key game_id roster ≡ ok r
    → IsRegistry r
unfolding new_registry
new_registry-IsRegistry valid_key game_id roster r h =
    elim (Result-cases (new_entries valid_key 0 [] roster)) [
      | inr (x, f) ↦ ground arith
      | inl (entries, f) ↦
          let same : entries ≡ r.entries = ground arith in
          subst (All (λ e. IsChain e.chain)) same
            (new_entries-IsRegistry valid_key 0 [] entries roster f)
    ]
