-- ===== src/Session/Chain.antt =====
-- packages/session/src/sender-chain.ts: the chain of one sender's signed envelopes.
pub mod Links
pub mod Ingest
use tablefolk.Base.{
  ℕ, ◌+◌, Bool, true, false, not, List, [], ◌∷◌, ◌++◌, Option, none, some, ◌==◌, if◌then◌else◌,
  length, replicate,
}
use tablefolk.Session.Bytes.{Bytes, bytes_equal}
pub use tablefolk.Protocol.Envelope.{Envelope, Artifact}

pub record ChainHead : Type 0 where
  pub from : Bytes
  pub seq : ℕ
  pub hash : Bytes

-- An entry of the map `#accepted`.
pub record Accepted : Type 0 where
  pub artifact : Artifact
  pub hash : Bytes

pub data ChainRejection : Type 0 where
  wrong_sender : (expected actual : Bytes) → ChainRejection
  gap : (expected_seq actual_seq : ℕ) → ChainRejection
  broken_prev : (expected_prev actual_prev : Bytes) → ChainRejection
  equivocation : (existing : Artifact) → ChainRejection

-- `ChainIngestResult`; each has the artifact `received`.
pub data ChainResult : Type 0 where
  accepted : ChainHead → Artifact → ChainResult
  duplicate : (existing received : Artifact) → ChainResult
  rejected : ChainRejection → Artifact → ChainResult

-- A JavaScript map on numbers, in the order of insertion.
abbrev pub map_get : ℕ → List (ℕ × Accepted) → Option Accepted
map_get k [] = none
map_get k ((j, v) ∷ m) = if j == k then some v else map_get k m

abbrev pub map_set : ℕ → Accepted → List (ℕ × Accepted) → List (ℕ × Accepted)
map_set k v [] = (k, v) ∷ []
map_set k v ((j, w) ∷ m) = if j == k then (j, v) ∷ m else (j, w) ∷ map_set k v m

-- `SenderChain`.
pub record SenderChain : Type 0 where
  pub sender : Bytes
  pub entries : List (ℕ × Accepted)
  pub head : Option ChainHead

-- `ZERO_HASH`.
abbrev pub zero_hash : Bytes
zero_hash = replicate 32 0

unfoldable pub new_chain : Bytes → SenderChain
new_chain sender = record { sender = sender; entries = []; head = none }

-- The getters `size` and `get`.
unfoldable pub size : SenderChain → ℕ
size chain = length chain.entries

unfoldable pub get : SenderChain → ℕ → Option Artifact
get chain seq = elim (map_get seq chain.entries) [ none ↦ none | some e ↦ some e.artifact ]

abbrev pub expected_seq : Option ChainHead → ℕ
expected_seq none = 0
expected_seq (some head) = head.seq + 1

abbrev pub expected_prev : Option ChainHead → Bytes
expected_prev none = zero_hash
expected_prev (some head) = head.hash

-- `classify` from the second check on: a sequence number that is taken.
abbrev pub classify_taken : Accepted → Artifact → ChainResult
classify_taken existing received =
    if bytes_equal existing.hash received.hash
    then duplicate existing.artifact received
    else rejected (equivocation existing.artifact) received

-- The sequence number is free.
unfoldable pub classify_free : SenderChain → Artifact → ChainResult
classify_free chain received =
    let envelope = received.envelope in
    if not (envelope.seq == expected_seq chain.head)
    then rejected (gap (expected_seq chain.head) envelope.seq) received
    else if not (bytes_equal envelope.prev (expected_prev chain.head))
    then rejected (broken_prev (expected_prev chain.head) envelope.prev) received
    else accepted (record { from = chain.sender; seq = envelope.seq; hash = received.hash })
        received

unfoldable pub classify : SenderChain → Artifact → ChainResult
unfolding classify_free
classify chain received =
    if not (bytes_equal received.envelope.from chain.sender)
    then rejected (wrong_sender chain.sender received.envelope.from) received
    else elim (map_get received.envelope.seq chain.entries) [
      | some existing ↦ classify_taken existing received
      | none ↦ classify_free chain received
    ]

-- `ingest`, from the result of `classify` on.
abbrev pub record_result : SenderChain → Artifact → ChainResult → SenderChain × ChainResult
record_result chain received (accepted head same) = (
  record chain {
    entries =
        map_set received.envelope.seq (record { artifact = received; hash = received.hash })
          chain.entries;
    head = some head;
  },
  accepted head received,
)
record_result chain received other = (chain, other)

unfoldable pub ingest : SenderChain → Artifact → SenderChain × ChainResult
unfolding classify
ingest chain received = record_result chain received (classify chain received)
