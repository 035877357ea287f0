-- ===== src/Session/Registry/Ranges.antt =====
-- packages/session/src/chain-registry.ts: what `readRange` reads from a chain.
use tablefolk.Base.{
  ℕ, zero, suc, ◌+◌, ◌-◌, ◌≤◌, ◌<◌, ◌≡◌, refl, sym, subst, inl, inr, List, [], ◌∷◌, none, some, ok,
  arith, ltb, Option-cases, length, if◌then◌else◌,
}
use tablefolk.Session.Bytes.{Bytes}
use tablefolk.Session.Chain.{Artifact, ChainHead, expected_seq, SenderChain, zero_hash, get}
use tablefolk.Session.Chain.Links.{IsChain, map_get-some}
use tablefolk.Session.Registry.{
  RosterEntry, Registry, complete, missing, entry_for, read_from, read_chain, read_range,
}

-- Envelopes with consecutive numbers, from one on.
abbrev pub Consecutive : ℕ → List Artifact → Type 0
Consecutive n [] = Unit
Consecutive n (a ∷ envelopes) = (a.envelope.seq ≡ n) × Consecutive (suc n) envelopes

pub get_below :
    (c : SenderChain) (n : ℕ)
    → IsChain c
    → n < length c.entries
    → (a : Artifact) × (get c n ≡ some a) × (a.envelope.seq ≡ n)
unfolding get
get_below c n h l =
    let (e, found, same, numbered) =
      map_get-some c.sender 0 n zero_hash c.entries h.links (omega arith) (omega arith) in
    (e.artifact, ground arith, numbered)

read_from_complete :
    (c : SenderChain) (n left : ℕ)
    → IsChain c
    → n + left ≤ length c.entries
    → (l : List Artifact) × (read_from c n left ≡ complete l) × (length l ≡ left) × Consecutive n l
unfolding read_from
read_from_complete c n zero h l = ([], refl, refl, tt)
read_from_complete c n (suc left) h l =
    let (a, found, numbered) = get_below c n h (omega arith) in
    let (rest, read, size, rows) = read_from_complete c (suc n) left h (omega arith) in
    (a ∷ rest, ground arith, omega arith, (numbered, rows))

-- The length of a chain, as its head tells it.
pub length-none : (c : SenderChain) → IsChain c → c.head ≡ none → length c.entries ≡ 0
length-none c h none_yet = sym (subst (λ o. expected_seq o ≡ length c.entries) none_yet h.head_seq)

pub length-some :
    (c : SenderChain) (head : ChainHead)
    → IsChain c
    → c.head ≡ some head
    → length c.entries ≡ head.seq + 1
length-some c head h some_head =
    sym (subst (λ o. expected_seq o ≡ length c.entries) some_head h.head_seq)

-- A range of a chain that was accepted as a whole is read as a whole: as many envelopes as the
-- range has numbers, with those numbers in order.
pub read_range_complete :
    (r : Registry) (sender : Bytes) (from_seq to_seq : ℕ) (e : RosterEntry)
    → entry_for sender r.entries ≡ some e
    → IsChain e.chain
    → from_seq ≤ to_seq
    → to_seq < length e.chain.entries
    → (l : List Artifact) × (read_range r sender from_seq to_seq ≡ ok (complete l))
      × (length l ≡ to_seq + 1 - from_seq)
      × Consecutive from_seq l
unfolding read_range read_chain
read_range_complete r sender from_seq to_seq e f h l m = elim (Option-cases e.chain.head) [
  | inl none_yet ↦ absurd (omega (arith, length-none e.chain h none_yet))
  | inr (head, some_head) ↦
      let (envelopes, read, size, rows) =
        read_from_complete e.chain from_seq (to_seq + 1 - from_seq) h (omega arith) in
      (envelopes, ground (arith, length-some e.chain head h some_head), size, rows)
]

-- A range that goes beyond the accepted envelopes is missing, from its own start or from the first
-- number that the chain does not have.
pub read_range_missing :
    (r : Registry) (sender : Bytes) (from_seq to_seq : ℕ) (e : RosterEntry)
    → entry_for sender r.entries ≡ some e
    → IsChain e.chain
    → from_seq ≤ to_seq
    → length e.chain.entries ≤ to_seq
    → read_range r sender from_seq to_seq
      ≡ ok (
          missing
            (if ltb from_seq (length e.chain.entries) then length e.chain.entries else from_seq))
unfolding read_range read_chain
read_range_missing r sender from_seq to_seq e f h l m = elim (Option-cases e.chain.head) [
  | inl none_yet ↦ ground (arith, length-none e.chain h none_yet)
  | inr (head, some_head) ↦ ground (arith, length-some e.chain head h some_head)
]
