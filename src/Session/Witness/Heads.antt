-- ===== src/Session/Witness/Heads.antt =====
-- packages/session/src/witness.ts and sync-plan.ts: a claimed head against the chain it is of.
use tablefolk.Base.{
  ℕ, suc, ◌+◌, ◌-◌, ◌≤◌, ◌<◌, ◌≡◌, ◌≢◌, ◌⊎◌, refl, sym, ap, subst, false, List, [], ◌∷◌, Option,
  none, some, Result, ok, err, arith, length, ltb, ◌==◌, All, Option-cases, inl, inr, Bool-cases,
  >>=-eq-ok, any, ◌>>=◌,
}
use tablefolk.Session.Bytes.{Bytes, IsBytes, bytes_equal}
use tablefolk.Session.Bytes.Laws.{bytes_equal_iff}
use tablefolk.Session.Chain.{Artifact, ChainHead, get}
use tablefolk.Session.Chain.Links.{IsChain}
use tablefolk.Session.Registry.{
  Registry, RosterEntry, entry_for, seat_of, heads, RegistryError, SyncRange, missing,
  unknown_sender, complete, read_range, read_chain, read_from,
}
use tablefolk.Session.Registry.Ranges.{get_below, length-none, length-some}
use tablefolk.Session.Sync.{SyncRequest}
use tablefolk.Session.Witness.{
  with_outcome, out_of_order, local_head, unassessed, copy_witness_head, Assessment, assessed,
  compare_range, assess_heads, assess_witness, local_heads, WitnessBody, WitnessHead, WitnessError,
  HeadOutcome, need_sync, conflict, matching, stale, compare_hash, assess_head, plan_requests,
}

-- One envelope that a chain has is read.
read_one :
    (registry : Registry) (sender : Bytes) (n : ℕ) (e : RosterEntry) (a : Artifact)
    → entry_for sender registry.entries ≡ some e
    → IsChain e.chain
    → n < length e.chain.entries
    → get e.chain n ≡ some a
    → read_range registry sender n n ≡ ok (complete (a ∷ []))
unfolding read_range read_chain read_from
read_one registry sender n e a found h low taken =
    let one : n + 1 - n ≡ 1 = omega arith in
    let once : read_from e.chain n 1 ≡ complete (a ∷ []) = ground arith in
    elim (Option-cases e.chain.head) [
      | inl none_yet ↦ absurd (omega (arith, length-none e.chain h none_yet))
      | inr (head, some_head) ↦
          let whole : read_from e.chain n (n + 1 - n) ≡ complete (a ∷ []) =
            subst (λ k. read_from e.chain n k ≡ complete (a ∷ [])) (sym one) once in
          ground (arith, length-some e.chain head h some_head)
    ]

-- What is answered to a claim about a number that the chain has, by the envelope under that number.
abbrev pub Compared :
    Result WitnessError HeadOutcome → ℕ → WitnessHead → ℕ → ChainHead → Artifact → Type 0
Compared answer seat claimed size head a =
    ((a.hash ≢ claimed.hash) × (answer ≡ ok (conflict seat claimed a claimed.seq claimed.seq)))
    ⊎ (((a.hash ≡ claimed.hash)
          × (claimed.seq + 1 ≡ size)
          × (answer ≡ ok (matching seat claimed head)))
        ⊎ ((a.hash ≡ claimed.hash)
            × (claimed.seq + 1 < size)
            × (answer ≡ ok (stale seat claimed head))))

compare_hash-Compared :
    (seat : ℕ) (claimed : WitnessHead) (size : ℕ) (head : ChainHead) (a : Artifact)
    → IsBytes claimed.hash
    → IsBytes a.hash
    → head.seq + 1 ≡ size
    → claimed.seq < size
    → Compared (ok (compare_hash seat claimed head a)) seat claimed size head a
compare_hash-Compared seat claimed size head a c_bytes a_bytes last below =
    let by_value = bytes_equal_iff a.hash claimed.hash a_bytes c_bytes in
    elim (Bool-cases (bytes_equal a.hash claimed.hash)) [
      | inr differ ↦ inl (λ e. cc (by_value.1 e), rw differ refl)
      | inl same ↦ elim (Bool-cases (claimed.seq == head.seq)) [
        | inl newest ↦ inr (inl (by_value.0 same, ground arith, rw (same, newest) refl))
        | inr older ↦ inr (inr (by_value.0 same, ground arith, rw (same, older) refl))
      ]
    ]

-- A claim about a chain is assessed without a throw. A number that the chain does not have is to be
-- asked for from the first missing one on. Of a number that it has, another hash than that of the
-- envelope accepted under it is a conflict, which is reported with that envelope; the same hash makes
-- the claim a matching one under the last number of the chain, and a stale one under an earlier
-- number. The hash that is claimed and those of the chain are byte strings.
pub assess_head_lem :
    (registry : Registry) (seat : ℕ) (claimed : WitnessHead) (e : RosterEntry)
    → entry_for claimed.from registry.entries ≡ some e
    → IsChain e.chain
    → IsBytes claimed.hash
    → ((n : ℕ) (a : Artifact) → get e.chain n ≡ some a → IsBytes a.hash)
    → ((length e.chain.entries ≤ claimed.seq)
        × (assess_head registry seat claimed e.chain.head
            ≡ ok (need_sync seat claimed (length e.chain.entries) claimed.seq)))
      ⊎ ((claimed.seq < length e.chain.entries)
          × (head : ChainHead) × (a : Artifact) × (e.chain.head ≡ some head)
          × (get e.chain claimed.seq ≡ some a)
          × Compared
              (assess_head registry seat claimed e.chain.head)
              seat
              claimed
              (length e.chain.entries)
              head
              a)
unfolding assess_head
assess_head_lem registry seat claimed e found h c_bytes of_bytes =
    elim (Bool-cases (ltb claimed.seq (length e.chain.entries))) [
      | inr beyond ↦ inl (
        ground arith,
        elim (Option-cases e.chain.head) [
          | inl none_yet ↦ rw none_yet (
              ap (λ n. ok (need_sync seat claimed n claimed.seq))
                (sym (length-none e.chain h none_yet)))
          | inr (head, some_head) ↦ ground (arith, length-some e.chain head h some_head)
        ],
      )
      | inl below ↦
          let (a, taken, numbered) = get_below e.chain claimed.seq h (ground arith) in
          let read = read_one registry claimed.from claimed.seq e a found h (ground arith) taken in
          elim (Option-cases e.chain.head) [
            | inl none_yet ↦ absurd (ground (arith, length-none e.chain h none_yet))
            | inr (head, some_head) ↦
                let size = length-some e.chain head h some_head in
                let not_beyond : ltb head.seq claimed.seq ≡ false = ground arith in
                let answer : assess_head registry seat claimed e.chain.head
                    ≡ ok (compare_hash seat claimed head a) =
                  rw (some_head, not_beyond, read) refl in
                inr (
                  ground arith,
                  head,
                  a,
                  some_head,
                  taken,
                  subst (λ m. Compared m seat claimed (length e.chain.entries) head a) (sym answer)
                      (compare_hash-Compared seat claimed (length e.chain.entries) head a c_bytes
                        (of_bytes claimed.seq a taken) (sym size) (ground arith)),
                )
          ]
    ]

-- A request of at least one envelope and no more than a limit.
abbrev pub Planned : ℕ → SyncRequest → Type 0
Planned most request =
    (request.from_seq ≤ request.to_seq) × (request.to_seq - request.from_seq < most)

-- What is to be asked for, as an assessment gives it.
abbrev pub Claims : HeadOutcome → Type 0
Claims (need_sync seat claimed from_seq to_seq) = from_seq ≤ to_seq
Claims (conflict seat claimed a from_seq to_seq) = from_seq ≤ to_seq
Claims other = Unit

compare_hash-Claims :
    (seat : ℕ) (claimed : WitnessHead) (head : ChainHead) (a : Artifact)
    → Claims (compare_hash seat claimed head a)
compare_hash-Claims seat claimed head a = elim (Bool-cases (bytes_equal a.hash claimed.hash)) [
  | inr differ ↦ rw differ (omega arith)
  | inl same ↦ elim (Bool-cases (claimed.seq == head.seq)) [
    | inl current ↦ rw (same, current) tt
    | inr old ↦ rw (same, old) tt
  ]
]

plan_requests-Planned :
    (most : ℕ) (outcomes : List HeadOutcome)
    → 1 ≤ most
    → All Claims outcomes
    → All (Planned most) (plan_requests most outcomes)
      × (length (plan_requests most outcomes) ≤ length outcomes)
unfolding plan_requests
plan_requests-Planned most [] h c = (tt, omega arith)
plan_requests-Planned most (need_sync seat claimed f t ∷ outcomes) h c =
    let (rest, size) = plan_requests-Planned most outcomes h c.1 in
    (((ground arith, ground arith), rest), omega arith)
plan_requests-Planned most (conflict seat claimed a f t ∷ outcomes) h c =
    let (rest, size) = plan_requests-Planned most outcomes h c.1 in
    (((ground arith, ground arith), rest), omega arith)
plan_requests-Planned most (matching seat claimed head ∷ outcomes) h c =
    let (rest, size) = plan_requests-Planned most outcomes h c.1 in (rest, omega arith)
plan_requests-Planned most (stale seat claimed head ∷ outcomes) h c =
    let (rest, size) = plan_requests-Planned most outcomes h c.1 in (rest, omega arith)

compare_range-Claims :
    (seat : ℕ) (claimed : WitnessHead) (head : ChainHead) (r : Result RegistryError SyncRange)
    (outcome : HeadOutcome)
    → compare_range seat claimed head r ≡ ok outcome
    → Claims outcome
compare_range-Claims seat claimed head (ok (complete (a ∷ envelopes))) outcome h =
    let is : compare_hash seat claimed head a ≡ outcome = cc h in
    subst Claims is (compare_hash-Claims seat claimed head a)
compare_range-Claims seat claimed head (ok (complete [])) outcome h = cc
compare_range-Claims seat claimed head (ok (missing n)) outcome h = cc
compare_range-Claims seat claimed head (ok unknown_sender) outcome h = cc
compare_range-Claims seat claimed head (err e) outcome h = cc

assess_head-Claims :
    (registry : Registry) (seat : ℕ) (claimed : WitnessHead) (local : Option ChainHead)
    (outcome : HeadOutcome)
    → assess_head registry seat claimed local ≡ ok outcome
    → Claims outcome
unfolding assess_head
assess_head-Claims registry seat claimed none outcome h =
    let is : need_sync seat claimed 0 claimed.seq ≡ outcome = cc h in subst Claims is (omega arith)
assess_head-Claims registry seat claimed (some head) outcome h =
    elim (Bool-cases (ltb head.seq claimed.seq)) [
      | inl ahead ↦
          let is : need_sync seat claimed (head.seq + 1) claimed.seq ≡ outcome = ground arith in
          subst Claims is (ground arith)
      | inr known ↦
          compare_range-Claims seat claimed head
            (read_range registry claimed.from claimed.seq claimed.seq) outcome (ground arith)
    ]

with_outcome_lem :
    (outcome : HeadOutcome) (others : Assessment) (outcomes : List HeadOutcome)
    → with_outcome outcome others ≡ assessed outcomes
    → (l : List HeadOutcome) × (others ≡ assessed l) × ((outcome ∷ l) ≡ outcomes)
with_outcome_lem outcome (assessed l) outcomes h = (l, refl, cc h)
with_outcome_lem outcome (unassessed reason index) outcomes h = cc

assess_heads-Claims :
    (registry : Registry) (locals : List (ℕ × ChainHead)) (index : ℕ) (seen : List ℕ)
    (previous : Option ℕ) (claims : List WitnessHead) (outcomes : List HeadOutcome)
    → assess_heads registry locals index seen previous claims ≡ ok (assessed outcomes)
    → All Claims outcomes
unfolding assess_heads
assess_heads-Claims registry locals index seen previous [] outcomes h =
    let none_left : [] ≡ outcomes = ground arith in subst (All Claims) none_left tt
assess_heads-Claims registry locals index seen previous (candidate ∷ rest) outcomes h =
    let (claimed, copied, h1) = >>=-eq-ok (copy_witness_head candidate) _ h in
    elim (Option-cases (seat_of registry claimed.from)) [
      | inl stranger ↦ absurd (ground arith)
      | inr (seat, known) ↦
          let later = assess_heads registry locals (suc index) (seat ∷ seen) (some seat) rest in
          let here = assess_head registry seat claimed (local_head seat locals) in
          elim (Bool-cases (any (λ s. s == seat) seen)) [
            | inl again ↦ absurd (ground arith)
            | inr first ↦ elim (Bool-cases (out_of_order seat previous)) [
              | inl wrong ↦ absurd (ground arith)
              | inr right ↦
                  let h2 : (here >>= λ outcome.
                  later >>= λ others. ok (with_outcome outcome others))
                      ≡ ok (assessed outcomes) =
                    ground arith in
                  let (outcome, o, h3) = >>=-eq-ok here _ h2 in
                  let (others, l, h4) = >>=-eq-ok later _ h3 in
                  let (tail, t, all) = with_outcome_lem outcome others outcomes (cc h4) in
                  subst (All Claims) all (
                    assess_head-Claims registry seat claimed (local_head seat locals) outcome o,
                    assess_heads-Claims registry locals (suc index) (seat ∷ seen) (some seat) rest
                        tail (subst (λ a. later ≡ ok a) t l),
                  )
            ]
          ]
    ]

-- What is planned from an assessment of a witness, with a limit of at least one envelope: each request
-- asks for at least one envelope and for no more than the limit, and there is at most one request for
-- each outcome.
pub assess_witness-Planned :
    (registry : Registry) (body : WitnessBody) (outcomes : List HeadOutcome) (most : ℕ)
    → assess_witness registry body ≡ ok (assessed outcomes)
    → 1 ≤ most
    → All (Planned most) (plan_requests most outcomes)
      × (length (plan_requests most outcomes) ≤ length outcomes)
unfolding assess_witness
assess_witness-Planned registry body outcomes most h some_limit =
    let (locals, found, h1) = >>=-eq-ok (local_heads registry (heads registry) []) _ h in
    plan_requests-Planned most outcomes some_limit
      (assess_heads-Claims registry locals 0 [] none body.claimed_heads outcomes h1)
