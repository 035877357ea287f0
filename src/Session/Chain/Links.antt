-- ===== src/Session/Chain/Links.antt =====
-- packages/session/src/sender-chain.ts: chains linked by hashes, and what `classify` accepts.
use tablefolk.Base.{
  ℕ, suc, ◌+◌, ◌≤◌, ◌<◌, ◌≡◌, refl, ◌↔◌, inl, inr, true, List, [], ◌∷◌, ◌++◌, none, some, arith,
  length, ◌==◌, if◌then◌else◌, Bool-cases, Option-cases,
}
use tablefolk.Session.Bytes.{Bytes, bytes_equal}
use tablefolk.Session.Chain.{
  Artifact, ChainHead, Accepted, accepted, map_get, map_set, SenderChain, zero_hash, new_chain,
  expected_seq, expected_prev, classify,
}

-- Envelopes of one sender, numbered from `n` on, the first one after `prev`.
abbrev pub Links : Bytes → ℕ → Bytes → List (ℕ × Accepted) → Type 0
Links sender n prev [] = Unit
Links sender n prev ((k, e) ∷ rest) =
    (k ≡ n)
    × (e.artifact.envelope.seq ≡ n)
    × (bytes_equal e.artifact.envelope.from sender ≡ true)
    × (bytes_equal e.artifact.envelope.prev prev ≡ true)
    × (e.hash ≡ e.artifact.hash)
    × Links sender (suc n) e.hash rest

abbrev pub last_hash : Bytes → List (ℕ × Accepted) → Bytes
last_hash prev [] = prev
last_hash prev ((k, e) ∷ rest) = last_hash e.hash rest

pub record IsChain (c : SenderChain) : Type 0 where
  pub links : Links c.sender 0 zero_hash c.entries
  pub head_seq : expected_seq c.head ≡ length c.entries
  pub head_hash : expected_prev c.head ≡ last_hash zero_hash c.entries

pub new_chain-IsChain : (sender : Bytes) → IsChain (new_chain sender)
unfolding new_chain
new_chain-IsChain sender = record { links = tt; head_seq = refl; head_hash = refl }

module _ (sender : Bytes) where
  map_get-below :
      (n k : ℕ) (prev : Bytes) (l : List (ℕ × Accepted))
      → Links sender n prev l
      → k < n
      → map_get k l ≡ none
  map_get-below n k prev [] h m = refl
  map_get-below n k prev ((j, e) ∷ l) h m = ground (arith, map_get-below (suc n) k e.hash l h.5)

  pub map_get-above :
      (n k : ℕ) (prev : Bytes) (l : List (ℕ × Accepted))
      → Links sender n prev l
      → n + length l ≤ k
      → map_get k l ≡ none
  map_get-above n k prev [] h m = refl
  map_get-above n k prev ((j, e) ∷ l) h m = ground (arith, map_get-above (suc n) k e.hash l h.5)

  pub map_get-some :
      (n k : ℕ) (prev : Bytes) (l : List (ℕ × Accepted))
      → Links sender n prev l
      → n ≤ k
      → k < n + length l
      → (e : Accepted) × (map_get k l ≡ some e)
        × (e.hash ≡ e.artifact.hash)
        × (e.artifact.envelope.seq ≡ k)
  map_get-some n k prev [] h m o = absurd (omega arith)
  map_get-some n k prev ((j, e) ∷ l) h m o = elim (Bool-cases (j == k)) [
    | inl here ↦ (e, rw here, h.4, ground arith)
    | inr later ↦
        let (f, found, same, numbered) =
          map_get-some (suc n) k e.hash l h.5 (ground arith) (omega arith) in
        (f, rw later found, same, numbered)
  ]

  pub Links-concat :
      (n : ℕ) (prev : Bytes) (l : List (ℕ × Accepted)) (k : ℕ) (e : Accepted)
      → Links sender n prev l
      → k ≡ n + length l
      → e.artifact.envelope.seq ≡ k
      → bytes_equal e.artifact.envelope.from sender ≡ true
      → bytes_equal e.artifact.envelope.prev (last_hash prev l) ≡ true
      → e.hash ≡ e.artifact.hash
      → Links sender n prev (l ++ (k, e) ∷ [])
  Links-concat n prev [] k e h m s f p q = (omega arith, omega arith, f, p, q, tt)
  Links-concat n prev ((j, d) ∷ l) k e h m s f p q =
      (h.0, h.1, h.2, h.3, h.4, Links-concat (suc n) d.hash l k e h.5 (omega arith) s f p q)

pub map_set_new :
    (k : ℕ) (v : Accepted) (l : List (ℕ × Accepted))
    → map_get k l ≡ none
    → map_set k v l ≡ l ++ (k, v) ∷ []
map_set_new k v [] h = refl
map_set_new k v ((j, w) ∷ l) h = ground (arith, map_set_new k v l)

pub last_hash-concat :
    (prev : Bytes) (l : List (ℕ × Accepted)) (k : ℕ) (e : Accepted)
    → last_hash prev (l ++ (k, e) ∷ []) ≡ e.hash
last_hash-concat prev [] k e = refl
last_hash-concat prev ((j, d) ∷ l) k e = last_hash-concat d.hash l k e

pub map_get-concat :
    (l : List (ℕ × Accepted)) (k : ℕ) (e : Accepted) (j : ℕ)
    → map_get k l ≡ none
    → map_get j (l ++ (k, e) ∷ []) ≡ (if k == j then some e else map_get j l)
map_get-concat [] k e j h = refl
map_get-concat ((i, d) ∷ l) k e j h = ground (arith, map_get-concat l k e j)

-- The next envelope of a chain: by its sender, with the next number, after the head.
pub record IsNext (c : SenderChain) (a : Artifact) : Type 0 where
  pub by_sender : bytes_equal a.envelope.from c.sender ≡ true
  pub numbered : a.envelope.seq ≡ length c.entries
  pub linked : bytes_equal a.envelope.prev (last_hash zero_hash c.entries) ≡ true

abbrev pub head_of : SenderChain → Artifact → ChainHead
head_of c a = record { from = c.sender; seq = a.envelope.seq; hash = a.hash }

pub classify_next :
    (c : SenderChain) (a : Artifact)
    → IsChain c
    → IsNext c a
    → classify c a ≡ accepted (head_of c a) a
unfolding classify
classify_next c a h n = ground (
  arith,
  h.head_seq,
  rw (← h.head_hash) at n.linked,
  map_get-above c.sender 0 a.envelope.seq zero_hash c.entries h.links,
)

pub classify-IsNext :
    (c : SenderChain) (a b : Artifact) (head : ChainHead)
    → IsChain c
    → classify c a ≡ accepted head b
    → IsNext c a × (head ≡ head_of c a) × (b ≡ a)
unfolding classify
classify-IsNext c a b head h e = elim (Option-cases (map_get a.envelope.seq c.entries)) [
  | inr (x, f) ↦ ground arith
  | inl f ↦ (
    record {
      by_sender = ground arith;
      numbered = ground (arith, h.head_seq);
      linked = rw (← h.head_hash) (ground arith);
    },
    ground arith,
    ground arith,
  )
]

-- An envelope is accepted exactly when it comes from the chain's sender, bears the number of
-- envelopes accepted so far, and names the hash of the last of them, or the zero hash at the start.
pub classify_iff :
    (c : SenderChain) (a : Artifact)
    → IsChain c
    → ((head : ChainHead) × (b : Artifact) × (classify c a ≡ accepted head b)) ↔ IsNext c a
classify_iff c a h = (
  λ (head, b, e). (classify-IsNext c a b head h e).0,
  λ n. (head_of c a, a, classify_next c a h n),
)
