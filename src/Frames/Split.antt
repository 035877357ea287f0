-- ===== src/Frames/Split.antt =====
-- packages/transport/src/frame.ts: the frames that `splitDataFrames` gives.
use native.Mathlib.Nat.{add-zero}
use tablefolk.Base.{
  ℕ, zero, suc, ◌+◌, ◌-◌, ◌*◌, ◌≤◌, ◌<◌, ◌≡◌, refl, sym, subst, ◌∙◌, ◌↔◌, ap, Bool-cases, inl, inr,
  min, List, [], ◌∷◌, ◌++◌, ok, arith, length, take, drop, leb,
}
use tablefolk.Session.Bytes.{Bytes}
use tablefolk.Frames.{
  DataFrame, normalize_frame, part, slice, frames_from, frame_count, split_data_frames,
  max_frame_payload, max_frame_count, max_frame_id,
}

-- The bytes of some frames, one after the other.
abbrev pub joined : List DataFrame → Bytes
joined [] = []
joined (f ∷ frames) = f.bytes ++ joined frames

length-drop : (n : ℕ) (xs : Bytes) → length (drop n xs) ≡ length xs - n
length-drop zero xs = omega arith
length-drop (suc n) [] = omega arith
length-drop (suc n) (x ∷ xs) = omega (arith, length-drop n xs)

length-take : (n : ℕ) (xs : Bytes) → length (take n xs) ≡ min n (length xs)
length-take zero xs = omega arith
length-take (suc n) [] = omega arith
length-take (suc n) (x ∷ xs) = omega (arith, length-take n xs)

take-nil : (n : ℕ) → take n [] ≡ (let l : Bytes = [] in l)
take-nil zero = refl
take-nil (suc n) = refl

drop-nil : (n : ℕ) → drop n [] ≡ (let l : Bytes = [] in l)
drop-nil zero = refl
drop-nil (suc n) = refl

drop_all : (n : ℕ) (xs : Bytes) → length xs ≤ n → drop n xs ≡ []
drop_all zero [] h = refl
drop_all zero (x ∷ xs) h = absurd (omega arith)
drop_all (suc n) [] h = refl
drop_all (suc n) (x ∷ xs) h = drop_all n xs (omega arith)

take-min : (b : ℕ) (xs : Bytes) → take (min (length xs) b) xs ++ drop b xs ≡ xs
take-min zero xs = let e : min (length xs) 0 ≡ 0 = omega arith in rw e
take-min (suc b) [] = let e : min 0 (suc b) ≡ 0 = omega arith in rw e
take-min (suc b) (x ∷ xs) =
    let e : min (suc (length xs)) (suc b) ≡ suc (min (length xs) b) = omega arith in
    rw e (ap (◌∷◌ x) (take-min b xs))

slice-append-drop :
    (a b : ℕ) (xs : Bytes) → a ≤ b → slice a (min (length xs) b) xs ++ drop b xs ≡ drop a xs
slice-append-drop zero b xs h =
    let e : min (length xs) b - 0 ≡ min (length xs) b = omega arith in rw e (take-min b xs)
slice-append-drop (suc a) zero xs h = absurd (omega arith)
slice-append-drop (suc a) (suc b) [] h = rw (take-nil (min 0 (suc b) - suc a))
slice-append-drop (suc a) (suc b) (x ∷ xs) h =
    let e : min (suc (length xs)) (suc b) - suc a ≡ min (length xs) b - a = omega arith in
    rw e (slice-append-drop a b xs (omega arith))

frames_from-joined :
    (payload : Bytes) (id count index left : ℕ)
    → length payload ≤ (index + left) * max_frame_payload
    → joined (frames_from payload id count index left) ≡ drop (index * max_frame_payload) payload
unfolding frames_from
frames_from-joined payload id count index zero h =
    sym (drop_all (index * max_frame_payload) payload (rw (add-zero index) at h))
frames_from-joined payload id count index (suc left) h =
    ap (λ l. part payload index ++ l)
      (frames_from-joined payload id count (index + 1) left (omega arith))
    ∙ slice-append-drop (index * max_frame_payload) ((index + 1) * max_frame_payload) payload
        (omega arith)

-- Enough frames are cut for the payload.
frame_count-enough : (size : ℕ) → size ≤ frame_count size * max_frame_payload
unfolding frame_count max_frame_payload
frame_count-enough size = omega arith

-- No more than needed, and at least one.
frame_count-least :
    (size : ℕ)
    → (1 ≤ frame_count size)
      × (1 < frame_count size → (frame_count size - 1) * max_frame_payload < size)
unfolding frame_count max_frame_payload
frame_count-least size = (omega arith, λ h. omega arith)

frame_count-fits :
    (size : ℕ) → (frame_count size ≤ max_frame_count) ↔ (size ≤ max_frame_count * max_frame_payload)
unfolding frame_count max_frame_payload max_frame_count
frame_count-fits size = (λ h. omega arith, λ h. omega arith)

-- Numbered frames of one count, none too long, and none empty among several.
abbrev pub Numbered : ℕ → ℕ → ℕ → List DataFrame → Type 0
Numbered id count index [] = Unit
Numbered id count index (f ∷ frames) =
    (f.id ≡ id)
    × (f.index ≡ index)
    × (f.count ≡ count)
    × (normalize_frame f ≡ ok f)
    × Numbered id count (index + 1) frames

part-length : (payload : Bytes) (index : ℕ) → (length (part payload index) ≤ max_frame_payload)
part-length payload index = omega (
  arith,
  length-take (min (length payload) ((index + 1) * max_frame_payload) - index * max_frame_payload)
      (drop (index * max_frame_payload) payload),
)

part_full :
    (payload : Bytes) (index : ℕ)
    → index * max_frame_payload < length payload
    → 0 < length (part payload index)
unfolding max_frame_payload
part_full payload index h = omega (
  arith,
  length-take (min (length payload) ((index + 1) * max_frame_payload) - index * max_frame_payload)
      (drop (index * max_frame_payload) payload),
  length-drop (index * max_frame_payload) payload,
)

part_nonempty :
    (payload : Bytes) (index count : ℕ)
    → index < count
    → (1 < count → (count - 1) * max_frame_payload < length payload)
    → 1 < count
    → 0 < length (part payload index)
unfolding max_frame_payload
part_nonempty payload index count c h several = part_full payload index (omega (arith, h several))

part-normal :
    (payload : Bytes) (id count index : ℕ)
    → id ≤ max_frame_id
    → count ≤ max_frame_count
    → index < count
    → (1 < count → (count - 1) * max_frame_payload < length payload)
    → normalize_frame (record { id = id; index = index; count = count; bytes = part payload index })
      ≡ ok (record { id = id; index = index; count = count; bytes = part payload index })
unfolding normalize_frame
part-normal payload id count index a b c h =
    ground (arith, part-length payload index, part_nonempty payload index count c h)

frames_from-Numbered :
    (payload : Bytes) (id count index left : ℕ)
    → id ≤ max_frame_id
    → count ≤ max_frame_count
    → index + left ≡ count
    → (1 < count → (count - 1) * max_frame_payload < length payload)
    → Numbered id count index (frames_from payload id count index left)
unfolding frames_from
frames_from-Numbered payload id count index zero a b e h = tt
frames_from-Numbered payload id count index (suc left) a b e h = (
  refl,
  refl,
  refl,
  part-normal payload id count index a b (omega arith) h,
  frames_from-Numbered payload id count (index + 1) left a b (omega arith) h,
)

frames_from-length :
    (payload : Bytes) (id count index left : ℕ)
    → length (frames_from payload id count index left) ≡ left
unfolding frames_from
frames_from-length payload id count index zero = refl
frames_from-length payload id count index (suc left) =
    ap suc (frames_from-length payload id count (index + 1) left)

-- A payload is cut, if at all, into frames that the receiver accepts, numbered from 0 under one
-- identifier and count; their bytes, one after the other, are the payload.
pub split_round_trip :
    (payload : Bytes) (id : ℕ) (frames : List DataFrame)
    → split_data_frames payload id ≡ ok frames
    → (joined frames ≡ payload)
      × Numbered id (frame_count (length payload)) 0 frames
      × (length frames ≡ frame_count (length payload))
unfolding split_data_frames
split_round_trip payload id frames h = elim (Bool-cases (leb id max_frame_id)) [
  | inr too_large ↦ ground arith
  | inl fits ↦ elim (Bool-cases (leb (frame_count (length payload)) max_frame_count)) [
    | inr too_many ↦ ground arith
    | inl few ↦
        let same : frames_from payload id (frame_count (length payload)) 0
              (frame_count (length payload))
            ≡ frames =
          ground arith in
        subst
          (λ f.
            (joined f ≡ payload)
            × Numbered id (frame_count (length payload)) 0 f
            × (length f ≡ frame_count (length payload)))
          same
          (
            frames_from-joined payload id (frame_count (length payload)) 0
                  (frame_count (length payload))
                  (omega (arith, frame_count-enough (length payload)))
                ∙ (let start : 0 * max_frame_payload ≡ 0 = omega arith in
                    ap (λ n. drop n payload) start),
            frames_from-Numbered payload id (frame_count (length payload)) 0
                (frame_count (length payload)) (ground arith) (ground arith) (omega arith)
                (frame_count-least (length payload)).1,
            frames_from-length payload id (frame_count (length payload)) 0
                (frame_count (length payload)),
          )
  ]
]

-- A payload is cut exactly when its identifier is at most 4294967295 and it needs at most 65535
-- frames.
pub split_iff :
    (payload : Bytes) (id : ℕ)
    → ((frames : List DataFrame) × (split_data_frames payload id ≡ ok frames))
      ↔ ((id ≤ max_frame_id) × (length payload ≤ max_frame_count * max_frame_payload))
unfolding split_data_frames
split_iff payload id = (
  λ (frames, e). elim (Bool-cases (leb id max_frame_id)) [
    | inr too_large ↦ ground arith
    | inl fits ↦ elim (Bool-cases (leb (frame_count (length payload)) max_frame_count)) [
      | inr too_many ↦ ground arith
      | inl few ↦ (ground arith, (frame_count-fits (length payload)).0 (ground arith))
    ]
  ],
  λ (a, b).
      let few = (frame_count-fits (length payload)).1 b in
      (
        frames_from payload id (frame_count (length payload)) 0 (frame_count (length payload)),
        ground arith,
      ),
)
