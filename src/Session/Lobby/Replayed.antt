-- ===== src/Session/Lobby/Replayed.antt =====
-- packages/session/src/lobby-bootstrap.ts: how a player's chain is put into the session that a lobby
-- becomes.
use mathlib.Core.List.{append-nil, append_assoc}
use tablefolk.Base.{
  ℕ, suc, ◌+◌, ◌≡◌, refl, sym, ◌∙◌, ap, ap₂, subst, true, List, [], ◌∷◌, ◌++◌, some, ok, arith,
  length, length-append, All, Bool-cases, inl, inr,
}
use tablefolk.Session.Bytes.{Bytes, bytes_equal}
use tablefolk.Session.Chain.{
  Accepted, ChainResult, accepted, map_get, SenderChain, zero_hash, get, new_chain,
}
use tablefolk.Session.Chain.Links.{IsChain, IsNext, Links, last_hash, head_of, new_chain-IsChain}
use tablefolk.Session.Chain.Ingest.{entry_of, extended, extended-IsChain, ingest_next}
use tablefolk.Session.Registry.{
  RosterEntry, Registry, of_chain, has_key, entry_for, with_chain, ingest_session,
}
use tablefolk.Session.Registry.Keeps.{ingest_session_known, with_chain_same}
use tablefolk.Session.Lobby.Finals.{transfer_from}

-- What stands in the middle of a linked list.
record Middle (sender : Bytes) (n : ℕ) (prev : Bytes) (before : List (ℕ × Accepted)) (k : ℕ)
    (e : Accepted) (after : List (ℕ × Accepted)) : Type 0 where
  under : k ≡ e.artifact.envelope.seq
  numbered : e.artifact.envelope.seq ≡ n + length before
  by_sender : bytes_equal e.artifact.envelope.from sender ≡ true
  linked : bytes_equal e.artifact.envelope.prev (last_hash prev before) ≡ true
  hashed : e.hash ≡ e.artifact.hash
  found : (p : ℕ) → p ≡ n + length before → map_get p (before ++ (k, e) ∷ after) ≡ some e

Links-Middle :
    (sender : Bytes) (n : ℕ) (prev : Bytes) (before : List (ℕ × Accepted)) (k : ℕ) (e : Accepted)
    (after : List (ℕ × Accepted))
    → Links sender n prev (before ++ (k, e) ∷ after)
    → Middle sender n prev before k e after
Links-Middle sender n prev [] k e after h = record {
  under = ground arith;
  numbered = omega (arith, h.1);
  by_sender = h.2;
  linked = h.3;
  hashed = h.4;
  found = λ p at_end. ground (arith, h.0);
}
Links-Middle sender n prev ((j, d) ∷ before) k e after h =
    let m = Links-Middle sender (suc n) d.hash before k e after h.5 in
    record {
      under = m.under;
      numbered = omega (arith, m.numbered);
      by_sender = m.by_sender;
      linked = m.linked;
      hashed = m.hashed;
      found = λ p at_end. ground (arith, h.0, m.found p (omega arith));
    }

-- An entry whose chain was replaced is found with the other chain.
pub entry_for-with_chain :
    (sender : Bytes) (c : SenderChain) (entries : List RosterEntry) (e : RosterEntry)
    → entry_for sender entries ≡ some e
    → entry_for sender (with_chain sender c entries) ≡ some (record e { chain = c })
entry_for-with_chain sender c [] e f = cc
entry_for-with_chain sender c (x ∷ entries) e f = elim (Bool-cases (has_key sender x)) [
  | inl here ↦ let same : x ≡ e = ground arith in rw (here, here, ← same) refl
  | inr later ↦ rw (later, later) (entry_for-with_chain sender c entries e (ground arith))
]

-- The last chain that an entry was given is the one that stays.
with_chain_twice :
    (sender : Bytes) (c d : SenderChain) (entries : List RosterEntry)
    → with_chain sender d (with_chain sender c entries) ≡ with_chain sender d entries
with_chain_twice sender c d [] = refl
with_chain_twice sender c d (x ∷ entries) = elim (Bool-cases (has_key sender x)) [
  | inl here ↦ rw (here, here) refl
  | inr later ↦ rw (later, later) (ap (◌∷◌ x) (with_chain_twice sender c d entries))
]

-- An accepted envelope of the player's, in the session's game.
abbrev pub Own : Bytes → Bytes → ℕ × Accepted → Type 0
Own game sender (k, e) =
    (e.artifact.envelope.from ≡ sender) × (bytes_equal e.artifact.envelope.game game ≡ true)

module _ (c : SenderChain) (chained : IsChain c) where
  -- The session with the player's chain in it, from some number of it on.
  unfoldable pub Transferred : Registry → ℕ → ℕ → Type 0
  Transferred r left seq =
      (d : SenderChain) × (transfer_from left r c seq
        ≡ ok (record r { entries = with_chain c.sender d r.entries }))
      × (d.entries ≡ c.entries)
      × IsChain d

  module _ (r : Registry) (x : RosterEntry) (k : ℕ) (e : Accepted) (rest : List (ℕ × Accepted))
      (split : c.entries ≡ x.chain.entries ++ (k, e) ∷ rest) (sound : IsChain x.chain)
      (owned : x.chain.sender ≡ c.sender) where
    middle : Middle c.sender 0 zero_hash x.chain.entries k e rest
    middle =
        Links-Middle c.sender 0 zero_hash x.chain.entries k e rest
          (subst (Links c.sender 0 zero_hash) split chained.links)

    stored : get c (length x.chain.entries) ≡ some e.artifact
    unfolding get
    stored =
        let there : map_get (length x.chain.entries) c.entries ≡ some e =
          rw split (middle.found (length x.chain.entries) (omega arith)) in
        rw (get, there) refl

    middle-IsNext : IsNext x.chain e.artifact
    middle-IsNext = record {
      by_sender = rw owned middle.by_sender;
      numbered = omega (arith, middle.numbered);
      linked = middle.linked;
    }

    -- The chain in the session has the envelope after the ones before it.
    split_next : c.entries ≡ (extended x.chain e.artifact).entries ++ rest
    split_next =
        let same : (k, e) ≡ (e.artifact.envelope.seq, entry_of e.artifact) =
          ap₂ (λ (i : ℕ) (h : Bytes). (i, record { artifact = e.artifact; hash = h })) middle.under
            middle.hashed in
        split
        ∙ ap (λ (p : ℕ × Accepted). x.chain.entries ++ p ∷ rest) same
        ∙ sym (
            append_assoc x.chain.entries ((e.artifact.envelope.seq, entry_of e.artifact) ∷ []) rest)

    ingested_next :
        entry_for c.sender r.entries ≡ some x
        → Own r.game_id c.sender (k, e)
        → ingest_session r e.artifact
          ≡ ok (
            record r { entries = with_chain c.sender (extended x.chain e.artifact) r.entries },
            of_chain (accepted (head_of x.chain e.artifact) e.artifact),
          )
    ingested_next found own =
        ingest_session_known r e.artifact x own.1
          (subst (λ s. entry_for s r.entries ≡ some x) (sym own.0) found)
        ∙ ap₂
            (λ (s : Bytes) (p : SenderChain × ChainResult).
              ok (record r { entries = with_chain s p.0 r.entries }, of_chain p.1))
            own.0 (ingest_next x.chain e.artifact sound middle-IsNext)

  replay :
      (rest : List (ℕ × Accepted)) (r : Registry) (x : RosterEntry)
      → c.entries ≡ x.chain.entries ++ rest
      → IsChain x.chain
      → x.chain.sender ≡ c.sender
      → entry_for c.sender r.entries ≡ some x
      → All (Own r.game_id c.sender) rest
      → Transferred r (length rest) (length x.chain.entries)
  unfolding Transferred transfer_from
  replay [] r x split sound owned found own = (
    x.chain,
    ap (λ l. ok (record r { entries = l })) (sym (with_chain_same c.sender r.entries x found)),
    sym (split ∙ append-nil x.chain.entries),
    sound,
  )
  replay ((k, e) ∷ rest) r x split sound owned found own =
      let next = extended x.chain e.artifact in
      let at = ingested_next r x k e rest split sound owned found own.0 in
      let there = stored r x k e rest split sound owned in
      let one = middle-IsNext r x k e rest split sound owned in
      let (d, run, same, chain) =
        replay rest (record r { entries = with_chain c.sender next r.entries })
          (record x { chain = next }) (split_next r x k e rest split sound owned)
          (extended-IsChain x.chain e.artifact sound one) owned
          (entry_for-with_chain c.sender next r.entries x found) own.1 in
      (
        d,
        rw (there, at)
            (ap
                (transfer_from (length rest)
                  (record r { entries = with_chain c.sender next r.entries }) c)
                (omega (
                  arith,
                  length-append x.chain.entries
                      ((e.artifact.envelope.seq, entry_of e.artifact) ∷ []),
                ))
              ∙ run
              ∙ ap (λ l. ok (record r { entries = l }))
                  (with_chain_twice c.sender next d r.entries)),
        same,
        chain,
      )

  -- A gapless chain of a player of the session, whose envelopes are of its game and who has none in
  -- it yet, is put into the session whole: nothing is thrown, the player's chain there has the same
  -- envelopes, and the other players' chains are as they were.
  pub transfer_from_lem :
      (r : Registry) (x : RosterEntry)
      → entry_for c.sender r.entries ≡ some x
      → x.chain ≡ new_chain c.sender
      → All (Own r.game_id c.sender) c.entries
      → Transferred r (length c.entries) 0
  unfolding new_chain
  transfer_from_lem r x found fresh own =
      subst (λ d. Transferred r (length c.entries) (length d.entries)) fresh
        (replay c.entries r x (ap (λ d. d.entries ++ c.entries) (sym fresh))
          (subst IsChain (sym fresh) (new_chain-IsChain c.sender)) (ap (λ d. d.sender) fresh) found
          own)
