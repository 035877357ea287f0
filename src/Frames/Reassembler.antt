-- ===== src/Frames/Reassembler.antt =====
-- packages/transport/src/frame.ts: `FrameReassembler`. The clock's reading is an argument, in whole
-- milliseconds. The timer, which only calls `expire`, is left out.
pub mod Table
pub mod Accounts
use tablefolk.Base.{
  ℕ, zero, suc, ◌+◌, ◌-◌, ◌/◌, Bool, true, false, not, List, [], ◌∷◌, ◌++◌, Option, none, some,
  Result, ok, err, ◌>>=◌, ◌>>◌, ensure, expect, leb, ltb, ◌==◌, if◌then◌else◌, length, replicate,
  take, drop, every,
}
use tablefolk.Session.Bytes.{Bytes}
use tablefolk.Frames.{DataFrame, FrameError, missing_chunk, payload_overrun, normalize_frame}

-- The options, as the constructor has checked them.
pub record Limits : Type 0 where
  pub timeout_ms : ℕ
  pub max_message_bytes : ℕ
  pub max_pending_bytes : ℕ
  pub max_pending_groups : ℕ
  pub max_frames_per_message : ℕ

-- `PendingFrameGroup`; `chunks` is a map on indices in the order of insertion.
pub record PendingGroup : Type 0 where
  pub id : ℕ
  pub count : ℕ
  pub created_at : ℕ
  pub chunks : List (ℕ × Bytes)
  pub byte_length : ℕ

-- The groups are a map on identifiers in the order of insertion.
pub record Reassembler : Type 0 where
  pub groups : List (ℕ × PendingGroup)
  pub pending_bytes : ℕ

pub data Reason : Type 0 where
  capacity_exceeded chunk_conflict count_mismatch frame_count_exceeded message_too_large : Reason

-- `FrameReassemblyResult`.
pub data Reassembly : Type 0 where
  incomplete duplicate : (id received count : ℕ) → Reassembly
  complete : (id : ℕ) → Bytes → Reassembly
  rejected : (id : ℕ) → Reason → Reassembly

-- The methods `get`, `set` and `delete` of a JavaScript map on numbers.
module _ {A : Type 0} where
  abbrev pub lookup : ℕ → List (ℕ × A) → Option A
  lookup k [] = none
  lookup k ((j, v) ∷ m) = if j == k then some v else lookup k m

  abbrev pub insert : ℕ → A → List (ℕ × A) → List (ℕ × A)
  insert k v [] = (k, v) ∷ []
  insert k v ((j, w) ∷ m) = if j == k then (j, v) ∷ m else (j, w) ∷ insert k v m

  abbrev pub remove : ℕ → List (ℕ × A) → List (ℕ × A)
  remove k [] = []
  remove k ((j, w) ∷ m) = if j == k then m else (j, w) ∷ remove k m

abbrev pub new_reassembler : Reassembler
new_reassembler = record { groups = []; pending_bytes = 0 }

-- `equalBytes`.
unfoldable pub equal_bytes : Bytes → Bytes → Bool
equal_bytes [] [] = true
equal_bytes (a ∷ left) (b ∷ right) =
    let rest = equal_bytes left right in if a == b then rest else false
equal_bytes _ _ = false

-- `#delete`.
unfoldable pub delete : Reassembler → ℕ → Reassembler
delete r id = elim (lookup id r.groups) [
  | none ↦ r
  | some group ↦ record {
    groups = remove id r.groups;
    pending_bytes = r.pending_bytes - group.byte_length;
  }
]

-- The loop of `expire` over the groups that there were at its start, with the identifiers of those
-- that are gone.
unfoldable pub expire_groups : ℕ → ℕ → Reassembler → List (ℕ × PendingGroup) → Reassembler × List ℕ
unfolding delete
expire_groups timeout_ms now r [] = (r, [])
expire_groups timeout_ms now r ((id, group) ∷ groups) =
    let due = leb (group.created_at + timeout_ms) now in
    let (next, expired) = expire_groups timeout_ms now (if due then delete r id else r) groups in
    (next, if due then id ∷ expired else expired)

-- `expire`, before it sorts the identifiers that it returns.
unfoldable pub expire : Limits → Reassembler → ℕ → Reassembler × List ℕ
expire limits r now = expire_groups limits.timeout_ms now r r.groups

-- The loop that fills the payload: `payload.set(part, offset)` throws past the end.
unfoldable pub fill : List (ℕ × Bytes) → ℕ → ℕ → ℕ → Bytes → Result FrameError Bytes
fill chunks index zero offset payload = ok payload
fill chunks index (suc left) offset payload = do
  part ← expect (lookup index chunks) missing_chunk
  ensure (leb (offset + length part) (length payload)) payload_overrun
  fill chunks (index + 1) left (offset + length part)
      (take offset payload ++ part ++ drop (offset + length part) payload)

-- A group with its new chunk: it is kept until it has all of them.
unfoldable pub finish_group :
    Reassembler → ℕ → PendingGroup → Result FrameError (Reassembler × Reassembly)
unfolding delete
finish_group r id group =
    if not (length group.chunks == group.count)
    then ok (r, incomplete id (length group.chunks) group.count)
    else do
      payload ← fill group.chunks 0 group.count 0 (replicate group.byte_length 0)
      ok (delete r id, complete id payload)

unfoldable pub with_chunk : PendingGroup → DataFrame → PendingGroup
with_chunk group frame = record group {
  chunks = insert frame.index frame.bytes group.chunks;
  byte_length = group.byte_length + length frame.bytes;
}

-- A chunk that the group does not have yet. The group object is the one that the map holds.
unfoldable pub add_chunk :
    Limits → Reassembler → PendingGroup → DataFrame → Result FrameError (Reassembler × Reassembly)
unfolding delete with_chunk
add_chunk limits r group frame =
    if ltb limits.max_message_bytes (group.byte_length + length frame.bytes)
    then ok (delete r frame.id, rejected frame.id message_too_large)
    else if ltb limits.max_pending_bytes (r.pending_bytes + length frame.bytes)
    then ok (
      if length group.chunks == 0 then delete r frame.id else r,
      rejected frame.id capacity_exceeded,
    )
    else finish_group
        (record {
          groups = insert frame.id (with_chunk group frame) r.groups;
          pending_bytes = r.pending_bytes + length frame.bytes;
        })
        frame.id (with_chunk group frame)

unfoldable pub accept_chunk :
    Limits → Reassembler → PendingGroup → DataFrame → Result FrameError (Reassembler × Reassembly)
unfolding delete
accept_chunk limits r group frame = elim (lookup frame.index group.chunks) [
  | none ↦ add_chunk limits r group frame
  | some existing ↦
      if not (equal_bytes existing frame.bytes)
      then ok (delete r frame.id, rejected frame.id chunk_conflict)
      else ok (r, duplicate frame.id (length group.chunks) group.count)
]

unfoldable pub new_group : DataFrame → ℕ → PendingGroup
new_group frame now = record {
  id = frame.id;
  count = frame.count;
  created_at = now;
  chunks = [];
  byte_length = 0;
}

-- `accept`, from the check on the number of frames on.
unfoldable pub accept_frame :
    Limits → Reassembler → DataFrame → ℕ → Result FrameError (Reassembler × Reassembly)
unfolding delete new_group
accept_frame limits r frame now =
    if ltb limits.max_frames_per_message frame.count
    then ok (delete r frame.id, rejected frame.id frame_count_exceeded)
    else elim (lookup frame.id r.groups) [
      | none ↦
          if leb limits.max_pending_groups (length r.groups)
          then ok (r, rejected frame.id capacity_exceeded)
          else accept_chunk limits
              (record r { groups = insert frame.id (new_group frame now) r.groups })
              (new_group frame now) frame
      | some group ↦
          if not (group.count == frame.count)
          then ok (delete r frame.id, rejected frame.id count_mismatch)
          else accept_chunk limits r group frame
    ]

-- `accept`.
unfoldable pub accept :
    Limits → Reassembler → DataFrame → ℕ → Result FrameError (Reassembler × Reassembly)
accept limits r candidate now = do
  frame ← normalize_frame candidate
  accept_frame limits (expire limits r now).0 frame now
