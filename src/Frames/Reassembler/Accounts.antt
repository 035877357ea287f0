-- ===== src/Frames/Reassembler/Accounts.antt =====
-- packages/transport/src/frame.ts: the accounts of `FrameReassembler` and its limits.
use tablefolk.Base.{
  ℕ, suc, ◌+◌, ◌-◌, ◌≤◌, ◌≡◌, refl, sym, subst, replicate, Bool-cases, Option-cases, Result-cases,
  inl, inr, List, [], ◌∷◌, none, some, Result, ok, err, arith, length, All, ◌==◌, leb, ltb,
}
use tablefolk.Session.Bytes.{Bytes}
use tablefolk.Frames.{DataFrame, FrameError, normalize_frame}
use tablefolk.Frames.Reassembler.{
  Limits, PendingGroup, Reassembler, Reassembly, lookup, insert, remove, new_reassembler, delete,
  expire_groups, expire, fill, finish_group, with_chunk, add_chunk, accept_chunk, new_group,
  accept_frame, accept, equal_bytes,
}
use tablefolk.Frames.Reassembler.Table.{
  total, total-remove, total-insert_new, total-insert_old, length-remove, length-insert,
  length-insert_old, lookup-insert, All-remove, All-insert, All-lookup,
}

abbrev chunk_size : Bytes → ℕ
chunk_size = length

abbrev group_size : PendingGroup → ℕ
group_size g = g.byte_length

-- A group that counts its bytes, at most those of a message.
abbrev pub Counted : Limits → PendingGroup → Type 0
Counted limits g =
    (g.byte_length ≡ total chunk_size g.chunks) × (g.byte_length ≤ limits.max_message_bytes)

pub record IsBounded (limits : Limits) (r : Reassembler) : Type 0 where
  pub counted : r.pending_bytes ≡ total group_size r.groups
  pub within : r.pending_bytes ≤ limits.max_pending_bytes
  pub few : length r.groups ≤ limits.max_pending_groups
  pub groups : All (λ p. Counted limits p.1) r.groups

-- A result whose reassembler keeps the bounds, or a frame that is refused.
abbrev pub Bounds : Limits → Result FrameError (Reassembler × Reassembly) → Type 0
Bounds limits (ok p) = IsBounded limits p.0
Bounds limits (err e) = Unit

module _ (limits : Limits) where
  delete_absent : (r : Reassembler) (id : ℕ) → lookup id r.groups ≡ none → delete r id ≡ r
  unfolding delete
  delete_absent r id absent = rw (absent, delete) refl

  abbrev without : Reassembler → ℕ → PendingGroup → Reassembler
  without r id g = record {
    groups = remove id r.groups;
    pending_bytes = r.pending_bytes - g.byte_length;
  }

  delete_present :
      (r : Reassembler) (id : ℕ) (g : PendingGroup)
      → lookup id r.groups ≡ some g
      → delete r id ≡ without r id g
  unfolding delete
  delete_present r id g present = rw (present, delete) refl

  delete-IsBounded :
      (r : Reassembler) (id : ℕ) → IsBounded limits r → IsBounded limits (delete r id)
  delete-IsBounded r id h = elim (Option-cases (lookup id r.groups)) [
    | inl absent ↦ subst (IsBounded limits) (sym (delete_absent r id absent)) h
    | inr (g, present) ↦ subst (IsBounded limits) (sym (delete_present r id g present)) (record {
      counted = omega (arith, h.counted, total-remove group_size id r.groups g present);
      within = omega (arith, h.within);
      few = omega (arith, h.few, length-remove id r.groups);
      groups = All-remove (Counted limits) id r.groups h.groups;
    })
  ]

  expire_groups-IsBounded :
      (now : ℕ) (r : Reassembler) (groups : List (ℕ × PendingGroup))
      → IsBounded limits r
      → IsBounded limits (expire_groups limits.timeout_ms now r groups).0
  unfolding expire_groups
  expire_groups-IsBounded now r [] h = h
  expire_groups-IsBounded now r ((id, g) ∷ groups) h =
      elim (Bool-cases (leb (g.created_at + limits.timeout_ms) now)) [
        | inl due ↦
            rw due (expire_groups-IsBounded now (delete r id) groups (delete-IsBounded r id h))
        | inr kept ↦ rw kept (expire_groups-IsBounded now r groups h)
      ]

  finish_group-IsBounded :
      (r : Reassembler) (id : ℕ) (g : PendingGroup)
      → IsBounded limits r
      → Bounds limits (finish_group r id g)
  unfolding finish_group
  finish_group-IsBounded r id g h = elim (Bool-cases (length g.chunks == g.count)) [
    | inr some_left ↦ rw some_left h
    | inl all_there ↦ elim (Result-cases (fill g.chunks 0 g.count 0 (replicate g.byte_length 0))) [
      | inl (payload, e) ↦ rw (all_there, e) (delete-IsBounded r id h)
      | inr (x, e) ↦ rw (all_there, e) tt
    ]
  ]

  added :
      (r : Reassembler) (g : PendingGroup) (frame : DataFrame)
      → lookup frame.id r.groups ≡ some g
      → lookup frame.index g.chunks ≡ none
      → IsBounded limits r
      → g.byte_length + length frame.bytes ≤ limits.max_message_bytes
      → r.pending_bytes + length frame.bytes ≤ limits.max_pending_bytes
      → IsBounded limits (record {
        groups = insert frame.id (with_chunk g frame) r.groups;
        pending_bytes = r.pending_bytes + length frame.bytes;
      })
  unfolding with_chunk
  added r g frame present fresh h fits room =
      let old = All-lookup (Counted limits) frame.id r.groups g h.groups present in
      record {
        counted = omega (
          arith,
          h.counted,
          total-insert_old group_size frame.id r.groups (with_chunk g frame) g present,
        );
        within = room;
        few =
            omega
              (arith, h.few, length-insert_old frame.id r.groups (with_chunk g frame) g present);
        groups = All-insert (Counted limits) frame.id r.groups (with_chunk g frame) h.groups (
          omega (arith, old.0, total-insert_new chunk_size frame.index g.chunks frame.bytes fresh),
          fits,
        );
      }

  add_chunk-IsBounded :
      (r : Reassembler) (g : PendingGroup) (frame : DataFrame)
      → lookup frame.id r.groups ≡ some g
      → lookup frame.index g.chunks ≡ none
      → IsBounded limits r
      → Bounds limits (add_chunk limits r g frame)
  unfolding add_chunk with_chunk
  add_chunk-IsBounded r g frame present fresh h =
      elim (Bool-cases (ltb limits.max_message_bytes (g.byte_length + length frame.bytes))) [
        | inl too_large ↦ rw too_large (delete-IsBounded r frame.id h)
        | inr fits ↦
            elim (Bool-cases
              (ltb limits.max_pending_bytes (r.pending_bytes + length frame.bytes))) [
                | inl full ↦ elim (Bool-cases (length g.chunks == 0)) [
                  | inl empty ↦ rw (fits, full, empty) (delete-IsBounded r frame.id h)
                  | inr started ↦ rw (fits, full, started) h
                ]
                | inr room ↦
                    rw (fits, room)
                      (finish_group-IsBounded _ frame.id (with_chunk g frame)
                        (added r g frame present fresh h (ground arith) (ground arith)))
              ]
      ]

  accept_chunk-IsBounded :
      (r : Reassembler) (g : PendingGroup) (frame : DataFrame)
      → lookup frame.id r.groups ≡ some g
      → IsBounded limits r
      → Bounds limits (accept_chunk limits r g frame)
  unfolding accept_chunk
  accept_chunk-IsBounded r g frame present h = elim (Option-cases (lookup frame.index g.chunks)) [
    | inl fresh ↦ rw (fresh, accept_chunk) (add_chunk-IsBounded r g frame present fresh h)
    | inr (existing, there) ↦ elim (Bool-cases (equal_bytes existing frame.bytes)) [
      | inl same ↦ rw (there, same, accept_chunk) h
      | inr conflict ↦ rw (there, conflict, accept_chunk) (delete-IsBounded r frame.id h)
    ]
  ]

  abbrev opened : Reassembler → DataFrame → ℕ → Reassembler
  opened r frame now = record r { groups = insert frame.id (new_group frame now) r.groups }

  opened-IsBounded :
      (r : Reassembler) (frame : DataFrame) (now : ℕ)
      → lookup frame.id r.groups ≡ none
      → suc (length r.groups) ≤ limits.max_pending_groups
      → IsBounded limits r
      → IsBounded limits (opened r frame now)
  unfolding new_group
  opened-IsBounded r frame now absent room h = record {
    counted = omega (
      arith,
      h.counted,
      total-insert_new group_size frame.id r.groups (new_group frame now) absent,
    );
    within = h.within;
    few = omega (arith, length-insert frame.id r.groups (new_group frame now));
    groups =
        All-insert (Counted limits) frame.id r.groups (new_group frame now) h.groups
          (refl, omega arith);
  }

  accept_frame-IsBounded :
      (r : Reassembler) (frame : DataFrame) (now : ℕ)
      → IsBounded limits r
      → Bounds limits (accept_frame limits r frame now)
  unfolding accept_frame
  accept_frame-IsBounded r frame now h =
      elim (Bool-cases (ltb limits.max_frames_per_message frame.count)) [
        | inl too_many ↦ rw too_many (delete-IsBounded r frame.id h)
        | inr few ↦ elim (Option-cases (lookup frame.id r.groups)) [
          | inl absent ↦ elim (Bool-cases (leb limits.max_pending_groups (length r.groups))) [
            | inl full ↦ rw (few, absent, full) h
            | inr room ↦
                rw (few, absent, room)
                  (accept_chunk-IsBounded (opened r frame now) (new_group frame now) frame
                    (lookup-insert frame.id r.groups (new_group frame now))
                    (opened-IsBounded r frame now absent (ground arith) h))
          ]
          | inr (g, present) ↦ elim (Bool-cases (g.count == frame.count)) [
            | inl same ↦ rw (few, present, same) (accept_chunk-IsBounded r g frame present h)
            | inr other ↦ rw (few, present, other) (delete-IsBounded r frame.id h)
          ]
        ]
      ]

-- Whatever frame arrives at whatever time, the reassembler goes on counting its pending bytes as
-- those of its groups, and stays within its limits on pending bytes, groups and message bytes.
pub accept-IsBounded :
    (limits : Limits) (r : Reassembler) (frame : DataFrame) (now : ℕ)
    → IsBounded limits r
    → Bounds limits (accept limits r frame now)
unfolding accept expire
accept-IsBounded limits r frame now h = elim (Result-cases (normalize_frame frame)) [
  | inr (x, e) ↦ rw e tt
  | inl (normal, e) ↦ rw e (
      accept_frame-IsBounded limits (expire limits r now).0 normal now
        (expire_groups-IsBounded limits now r r.groups h))
]

-- A new reassembler keeps nothing.
pub new_reassembler-IsBounded : (limits : Limits) → IsBounded limits new_reassembler
new_reassembler-IsBounded limits = record {
  counted = refl;
  within = omega arith;
  few = omega arith;
  groups = tt;
}
