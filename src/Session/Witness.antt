-- ===== src/Session/Witness.antt =====
-- packages/session/src/witness.ts and sync-plan.ts: what another player says of the chains, against
-- one's own, and what to ask for.
pub mod Heads
use tablefolk.Base.{
  ℕ, suc, ◌+◌, ◌-◌, min, Bool, true, false, not, List, [], ◌∷◌, Option, none, some, map, Result, ok,
  err, ◌>>=◌, ◌>>◌, ensure, expect, leb, ltb, ◌==◌, if◌then◌else◌, any,
}
use tablefolk.Session.Bytes.{Bytes, bytes_equal}
use tablefolk.Protocol.Value.{max_safe_integer}
use tablefolk.Protocol.Schema.{
  SchemaError, parse_fixed_bytes, parse_identity_public_key, parse_hash256,
}
pub use tablefolk.Protocol.Claims.{WitnessHead, WitnessBody}
use tablefolk.Session.Chain.{Artifact, ChainHead}
use tablefolk.Session.Registry.{
  Registry, RegistryError, SyncRange, complete, heads, seat_of, read_range,
}
use tablefolk.Session.Sync.{SyncRequest}

-- `WitnessHeadOutcome`.
pub data HeadOutcome : Type 0 where
  matching stale : (seat : ℕ) → WitnessHead → ChainHead → HeadOutcome
  need_sync : (seat : ℕ) → WitnessHead → (from_seq to_seq : ℕ) → HeadOutcome
  conflict : (seat : ℕ) → WitnessHead → Artifact → (from_seq to_seq : ℕ) → HeadOutcome

pub data WitnessReason : Type 0 where
  duplicate_sender non_roster_order unknown_witness : WitnessReason

-- `WitnessAssessment`.
pub data Assessment : Type 0 where
  assessed : List HeadOutcome → Assessment
  unassessed : WitnessReason → (index : ℕ) → Assessment

-- What is thrown.
pub data WitnessError : Type 0 where
  head_outside_roster unreadable bad_sequence : WitnessError
  bad_part : SchemaError → WitnessError
  bad_read : RegistryError → WitnessError

abbrev pub parsed {ℓ} : {A : Type ℓ} → Result SchemaError A → Result WitnessError A
parsed (ok a) = ok a
parsed (err e) = err (bad_part e)

-- `copyWitnessHead`.
unfoldable pub copy_witness_head : WitnessHead → Result WitnessError WitnessHead
unfolding parse_fixed_bytes
copy_witness_head head = do
  ensure (leb head.seq max_safe_integer) bad_sequence
  from ← parsed (parse_identity_public_key head.from)
  hash ← parsed (parse_hash256 head.hash)
  ok (record { from = from; seq = head.seq; hash = hash })

-- `currentWitnessBody`.
unfoldable pub current_heads : List ChainHead → Result WitnessError (List WitnessHead)
unfolding parse_fixed_bytes
current_heads [] = ok []
current_heads (head ∷ rest) = do
  from ← parsed (parse_identity_public_key head.from)
  hash ← parsed (parse_hash256 head.hash)
  others ← current_heads rest
  ok (record { from = from; seq = head.seq; hash = hash } ∷ others)

unfoldable pub current_witness_body : Registry → Option Bytes → Result WitnessError WitnessBody
unfolding current_heads heads parse_fixed_bytes
current_witness_body registry none = do
  current ← current_heads (heads registry)
  ok (record { claimed_heads = current; state_hash = none })
current_witness_body registry (some state_hash) = do
  current ← current_heads (heads registry)
  hash ← parsed (parse_hash256 state_hash)
  ok (record { claimed_heads = current; state_hash = some hash })

-- `localHeads`: the heads by seat, the last one first.
unfoldable pub local_heads :
    Registry → List ChainHead → List (ℕ × ChainHead) → Result WitnessError (List (ℕ × ChainHead))
unfolding seat_of
local_heads registry [] found = ok found
local_heads registry (head ∷ rest) found = do
  seat ← expect (seat_of registry head.from) head_outside_roster
  local_heads registry rest ((seat, head) ∷ found)

abbrev pub local_head : ℕ → List (ℕ × ChainHead) → Option ChainHead
local_head seat [] = none
local_head seat ((s, head) ∷ locals) = if s == seat then some head else local_head seat locals

-- A claimed head at or below the local one.
abbrev pub compare_hash : ℕ → WitnessHead → ChainHead → Artifact → HeadOutcome
compare_hash seat claimed head artifact =
    if not (bytes_equal artifact.hash claimed.hash)
    then conflict seat claimed artifact claimed.seq claimed.seq
    else if claimed.seq == head.seq
    then matching seat claimed head
    else stale seat claimed head

abbrev pub compare_range :
    ℕ → WitnessHead → ChainHead → Result RegistryError SyncRange → Result WitnessError HeadOutcome
compare_range seat claimed head (ok (complete (a ∷ envelopes))) =
    ok (compare_hash seat claimed head a)
compare_range seat claimed head (err e) = err (bad_read e)
compare_range seat claimed head other = err unreadable

-- One round of the loop of `assessWitness`, from the local head on.
unfoldable pub assess_head :
    Registry → ℕ → WitnessHead → Option ChainHead → Result WitnessError HeadOutcome
unfolding read_range
assess_head registry seat claimed none = ok (need_sync seat claimed 0 claimed.seq)
assess_head registry seat claimed (some head) =
    if ltb head.seq claimed.seq
    then ok (need_sync seat claimed (head.seq + 1) claimed.seq)
    else compare_range seat claimed head (read_range registry claimed.from claimed.seq claimed.seq)

abbrev pub with_outcome : HeadOutcome → Assessment → Assessment
with_outcome outcome (assessed outcomes) = assessed (outcome ∷ outcomes)
with_outcome outcome other = other

abbrev pub out_of_order : ℕ → Option ℕ → Bool
out_of_order seat none = false
out_of_order seat (some previous) = ltb seat previous

-- The loop, with the seats seen so far and the previous one.
unfoldable pub assess_heads :
    Registry
    → List (ℕ × ChainHead)
    → ℕ
    → List ℕ
    → Option ℕ
    → List WitnessHead
    → Result WitnessError Assessment
unfolding copy_witness_head seat_of assess_head
assess_heads registry locals index seen previous [] = ok (assessed [])
assess_heads registry locals index seen previous (candidate ∷ rest) = do
  claimed ← copy_witness_head candidate
  elim (seat_of registry claimed.from) [
    | none ↦ ok (unassessed unknown_witness index)
    | some seat ↦
        let later = assess_heads registry locals (suc index) (seat ∷ seen) (some seat) rest in
        if any (λ s. s == seat) seen
        then ok (unassessed duplicate_sender index)
        else if out_of_order seat previous
        then ok (unassessed non_roster_order index)
        else (assess_head registry seat claimed (local_head seat locals) >>= λ outcome.
            later >>= λ others. ok (with_outcome outcome others))
  ]

-- `assessWitness`.
unfoldable pub assess_witness : Registry → WitnessBody → Result WitnessError Assessment
unfolding local_heads heads assess_heads
assess_witness registry body = do
  locals ← local_heads registry (heads registry) []
  assess_heads registry locals 0 [] none body.claimed_heads

-- The requests of `planWitnessSyncRequests`, at most so many envelopes each.
abbrev pub request_for : ℕ → WitnessHead → ℕ → ℕ → SyncRequest
request_for most claimed from_seq to_seq = record {
  from = claimed.from;
  from_seq = from_seq;
  to_seq = from_seq + min (to_seq - from_seq) (most - 1);
}

unfoldable pub plan_requests : ℕ → List HeadOutcome → List SyncRequest
plan_requests most [] = []
plan_requests most (need_sync seat claimed from_seq to_seq ∷ outcomes) =
    request_for most claimed from_seq to_seq ∷ plan_requests most outcomes
plan_requests most (conflict seat claimed artifact from_seq to_seq ∷ outcomes) =
    request_for most claimed from_seq to_seq ∷ plan_requests most outcomes
plan_requests most (matching seat claimed head ∷ outcomes) = plan_requests most outcomes
plan_requests most (stale seat claimed head ∷ outcomes) = plan_requests most outcomes
