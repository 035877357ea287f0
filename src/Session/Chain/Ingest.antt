-- ===== src/Session/Chain/Ingest.antt =====
-- packages/session/src/sender-chain.ts: what `ingest` does to a chain.
use tablefolk.Base.{
  ltb, ℕ, ◌≡◌, refl, sym, ap, subst, ◌≢◌, ◌⊎◌, inl, inr, true, [], ◌∷◌, ◌++◌, some, arith, length,
  length-append, Bool-cases, Option-cases,
}
use tablefolk.Session.Bytes.{IsBytes, bytes_equal}
use tablefolk.Session.Bytes.Laws.{bytes_equal_iff}
use tablefolk.Session.Chain.{
  Artifact, Accepted, ChainResult, accepted, duplicate, rejected, equivocation, map_get,
  SenderChain, zero_hash, get, classify, ingest,
}
use tablefolk.Session.Chain.Links.{
  IsChain, IsNext, head_of, classify_next, classify-IsNext, map_get-above, map_get-some,
  map_get-concat, map_set_new, Links-concat, last_hash-concat,
}

abbrev pub entry_of : Artifact → Accepted
entry_of a = record { artifact = a; hash = a.hash }

-- The chain with one more envelope.
abbrev pub extended : SenderChain → Artifact → SenderChain
extended c a = record c {
  entries = c.entries ++ (a.envelope.seq, entry_of a) ∷ [];
  head = some (head_of c a);
}

pub extended-IsChain :
    (c : SenderChain) (a : Artifact) → IsChain c → IsNext c a → IsChain (extended c a)
extended-IsChain c a h n = record {
  links =
      Links-concat c.sender 0 zero_hash c.entries a.envelope.seq (entry_of a) h.links
        (omega (arith, n.numbered)) refl n.by_sender n.linked refl;
  head_seq = omega (arith, n.numbered, length-append c.entries ((a.envelope.seq, entry_of a) ∷ []));
  head_hash = sym (last_hash-concat zero_hash c.entries a.envelope.seq (entry_of a));
}

-- The next envelope of a chain is appended to it and becomes its head.
pub ingest_next :
    (c : SenderChain) (a : Artifact)
    → IsChain c
    → IsNext c a
    → ingest c a ≡ (extended c a, accepted (head_of c a) a)
unfolding ingest
ingest_next c a h n =
    let free =
      map_get-above c.sender 0 a.envelope.seq zero_hash c.entries h.links
        (omega (arith, n.numbered)) in
    rw (classify_next c a h n) (
      ap (λ e. (record c { entries = e; head = some (head_of c a) }, accepted (head_of c a) a))
        (map_set_new a.envelope.seq (entry_of a) c.entries free))

-- Either the envelope is the next one and the chain is extended by it, or nothing changes.
ingest_cases :
    (c : SenderChain) (a : Artifact)
    → IsChain c
    → (IsNext c a × ((ingest c a).0 ≡ extended c a)) ⊎ ((ingest c a).0 ≡ c)
ingest_cases c a h = split (classify c a) refl
  where
    split :
        (r : ChainResult)
        → classify c a ≡ r
        → (IsNext c a × ((ingest c a).0 ≡ extended c a)) ⊎ ((ingest c a).0 ≡ c)
    split (accepted head b) e =
        let n = (classify-IsNext c a b head h e).0 in
        inl (n, ap (λ (p : SenderChain × ChainResult). p.0) (ingest_next c a h n))
    split (duplicate x b) e = inr (unfold ingest in rw e)
    split (rejected x b) e = inr (unfold ingest in rw e)

-- Whatever envelope arrives, a gapless chain of hashes stays one.
pub ingest-IsChain : (c : SenderChain) (a : Artifact) → IsChain c → IsChain (ingest c a).0
ingest-IsChain c a h = elim (ingest_cases c a h) [
  | inl (n, e) ↦ subst IsChain (sym e) (extended-IsChain c a h n)
  | inr e ↦ subst IsChain (sym e) h
]

get-extended :
    (c : SenderChain) (a : Artifact) (k : ℕ) (x : Artifact)
    → IsChain c
    → IsNext c a
    → get c k ≡ some x
    → get (extended c a) k ≡ some x
unfolding get
get-extended c a k x h n e =
    let free =
      map_get-above c.sender 0 a.envelope.seq zero_hash c.entries h.links
        (omega (arith, n.numbered)) in
    ground (arith, free, map_get-concat c.entries a.envelope.seq (entry_of a) k free)

-- An envelope that was accepted under a sequence number stays there, whatever arrives later.
get-ingest :
    (c : SenderChain) (a : Artifact) (k : ℕ) (x : Artifact)
    → IsChain c
    → get c k ≡ some x
    → get (ingest c a).0 k ≡ some x
get-ingest c a k x h e = elim (ingest_cases c a h) [
  | inl (n, f) ↦ subst (λ d. get d k ≡ some x) (sym f) (get-extended c a k x h n e)
  | inr f ↦ subst (λ d. get d k ≡ some x) (sym f) e
]

get-entry :
    (c : SenderChain) (k : ℕ) (x : Artifact)
    → IsChain c
    → get c k ≡ some x
    → (d : Accepted) × (map_get k c.entries ≡ some d) × (d.artifact ≡ x) × (d.hash ≡ x.hash)
unfolding get
get-entry c k x h e = elim (Option-cases (map_get k c.entries)) [
  | inl f ↦ ground arith
  | inr (d, f) ↦ (d, f, ground arith, entry_hash d f (ground arith))
]
  where
    entry_hash : (d : Accepted) → map_get k c.entries ≡ some d → d.artifact ≡ x → d.hash ≡ x.hash
    entry_hash d f g = elim (Bool-cases (ltb k (length c.entries))) [
      | inl inside ↦
          let (d', found, same, numbered) =
            map_get-some c.sender 0 k zero_hash c.entries h.links (omega arith) (ground arith) in
          ground arith
      | inr outside ↦ ground (arith, map_get-above c.sender 0 k zero_hash c.entries h.links)
    ]

-- A second envelope of the chain's sender under a number that is taken changes nothing. With the
-- hash of the first one it is a duplicate, and with another it is reported as an equivocation,
-- together with the first one.
pub ingest_taken :
    (c : SenderChain) (a b : Artifact)
    → IsChain c
    → get c b.envelope.seq ≡ some a
    → bytes_equal b.envelope.from c.sender ≡ true
    → IsBytes a.hash
    → IsBytes b.hash
    → ((a.hash ≡ b.hash) × (ingest c b ≡ (c, duplicate a b)))
      ⊎ ((a.hash ≢ b.hash) × (ingest c b ≡ (c, rejected (equivocation a) b)))
unfolding ingest classify
ingest_taken c a b h e f ha hb =
    let (d, found, art, hash) = get-entry c b.envelope.seq a h e in
    elim (Bool-cases (bytes_equal a.hash b.hash)) [
      | inl same ↦ inl ((bytes_equal_iff a.hash b.hash ha hb).0 same, ground arith)
      | inr differ ↦ inr (λ p. cc ((bytes_equal_iff a.hash b.hash ha hb).1 p), ground arith)
    ]
