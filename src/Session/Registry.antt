-- ===== src/Session/Registry.antt =====
-- packages/session/src/chain-registry.ts: the chains of a session's roster. `bySender` holds the
-- entries of the roster under the texts of their keys, so one list stands for both.
pub mod Keeps
pub mod Ranges
use tablefolk.Base.{
  ℕ, suc, ◌+◌, ◌-◌, Bool, not, ◌&&◌, List, [], ◌∷◌, Option, none, some, Result, ok, err, ◌>>=◌,
  ◌>>◌, ensure, expect, leb, ltb, if◌then◌else◌, any, find, length,
}
use mathlib.Core.Option
use tablefolk.Session.Bytes.{Bytes, bytes_equal, bytes_to_hex, text_equal}
use tablefolk.Session.Chain.{
  Artifact, ChainHead, ChainResult, accepted, SenderChain, new_chain, get, classify, ingest,
}

pub record RosterEntry : Type 0 where
  pub seat : ℕ
  pub sender : Bytes
  pub chain : SenderChain

-- `SessionChainRegistry`.
pub record Registry : Type 0 where
  pub game_id : Bytes
  pub entries : List RosterEntry

-- `SessionIngestResult`.
pub data SessionResult : Type 0 where
  of_chain : ChainResult → SessionResult
  wrong_game : (expected actual : Bytes) → Artifact → SessionResult
  unknown_sender : (sender : Bytes) → Artifact → SessionResult

pub data SyncRange : Type 0 where
  complete : List Artifact → SyncRange
  missing : (first : ℕ) → SyncRange
  unknown_sender : SyncRange

pub data RegistryError : Type 0 where
  roster_size : RegistryError
  invalid_key duplicate_identity : (seat : ℕ) → RegistryError
  reversed_range sender_disappeared : RegistryError

abbrev pub has_key : Bytes → RosterEntry → Bool
has_key sender entry = text_equal (bytes_to_hex entry.sender) (bytes_to_hex sender)

-- `this.#bySender.get(bytesToHex(sender))`.
abbrev pub entry_for : Bytes → List RosterEntry → Option RosterEntry
entry_for sender entries = find (has_key sender) entries

-- The chain of an entry is an object that the roster and the table share.
abbrev pub with_chain : Bytes → SenderChain → List RosterEntry → List RosterEntry
with_chain sender chain [] = []
with_chain sender chain (entry ∷ entries) =
    if has_key sender entry
    then record entry { chain = chain } ∷ entries
    else entry ∷ with_chain sender chain entries

-- The entries from a seat on, with those before. Whether a key is one of Ed25519's is decided by
-- the cryptographic library.
unfoldable pub new_entries :
    (Bytes → Bool) → ℕ → List RosterEntry → List Bytes → Result RegistryError (List RosterEntry)
unfolding new_chain
new_entries valid_key seat before [] = ok []
new_entries valid_key seat before (sender ∷ roster) = do
  ensure (valid_key sender) (invalid_key seat)
  ensure (not (any (has_key sender) before)) (duplicate_identity seat)
  let entry : RosterEntry = record { seat = seat; sender = sender; chain = new_chain sender }
  rest ← new_entries valid_key (suc seat) (entry ∷ before) roster
  ok (entry ∷ rest)

-- The constructor.
unfoldable pub new_registry : (Bytes → Bool) → Bytes → List Bytes → Result RegistryError Registry
new_registry valid_key game_id roster = do
  ensure (leb 3 (length roster) && leb (length roster) 8) roster_size
  entries ← new_entries valid_key 0 [] roster
  ok (record { game_id = game_id; entries = entries })

unfoldable pub seat_of : Registry → Bytes → Option ℕ
seat_of registry sender = Option.map (λ e. e.seat) (entry_for sender registry.entries)

unfoldable pub classify_session : Registry → Artifact → SessionResult
classify_session registry received =
    let envelope = received.envelope in
    if not (bytes_equal envelope.game registry.game_id)
    then wrong_game registry.game_id envelope.game received
    else elim (entry_for envelope.from registry.entries) [
      | none ↦ unknown_sender envelope.from received
      | some entry ↦ of_chain (classify entry.chain received)
    ]

-- `ingest` of an accepted envelope.
unfoldable pub ingest_into : Registry → Artifact → Result RegistryError (Registry × SessionResult)
ingest_into registry received = do
  entry ← expect (entry_for received.envelope.from registry.entries) sender_disappeared
  let (chain, result) = ingest entry.chain received
  ok (
    record registry { entries = with_chain received.envelope.from chain registry.entries },
    of_chain result,
  )

abbrev pub ingest_classified :
    Registry → Artifact → SessionResult → Result RegistryError (Registry × SessionResult)
ingest_classified registry received (of_chain (accepted head same)) = ingest_into registry received
ingest_classified registry received other = ok (registry, other)

unfoldable pub ingest_session :
    Registry → Artifact → Result RegistryError (Registry × SessionResult)
ingest_session registry received =
    ingest_classified registry received (classify_session registry received)

abbrev pub heads_of : List RosterEntry → List ChainHead
heads_of [] = []
heads_of (entry ∷ entries) =
    let rest = heads_of entries in elim entry.chain.head [ none ↦ rest | some head ↦ head ∷ rest ]

unfoldable pub heads : Registry → List ChainHead
heads registry = heads_of registry.entries

abbrev pub with_first : Artifact → SyncRange → SyncRange
with_first a (complete envelopes) = complete (a ∷ envelopes)
with_first a other = other

-- The loop of `readRange`, `left` envelopes from a sequence number on.
unfoldable pub read_from : SenderChain → ℕ → ℕ → SyncRange
read_from chain seq ℕ.zero = complete []
read_from chain seq (ℕ.suc left) =
    let rest = read_from chain (suc seq) left in
    elim (get chain seq) [ none ↦ missing seq | some a ↦ with_first a rest ]

unfoldable pub read_chain : SenderChain → ℕ → ℕ → SyncRange
read_chain chain from_seq to_seq = elim chain.head [
  | none ↦ missing from_seq
  | some head ↦
      if ltb head.seq from_seq
      then missing from_seq
      else if ltb head.seq to_seq
      then missing (head.seq + 1)
      else read_from chain from_seq (to_seq + 1 - from_seq)
]

-- `readRange`.
unfoldable pub read_range : Registry → Bytes → ℕ → ℕ → Result RegistryError SyncRange
unfolding read_chain
read_range registry sender from_seq to_seq = do
  ensure (leb from_seq to_seq) reversed_range
  ok (elim (entry_for sender registry.entries) [
    | none ↦ unknown_sender
    | some entry ↦ read_chain entry.chain from_seq to_seq
  ])
