-- ===== src/Frames.antt =====
-- packages/transport/src/frame.ts: payloads cut into frames, and put together again.
pub mod Split
pub mod Reassembler
use tablefolk.Base.{
  ℕ, ◌+◌, ◌-◌, ◌*◌, ◌/◌, Bool, true, false, ◌&&◌, not, List, [], ◌∷◌, Result, ok, ◌>>=◌, ◌>>◌,
  ensure, ltb, leb, ◌==◌, length, take, drop,
}
use Prim.Native.Nat.{min, max}
use tablefolk.Session.Bytes.{Bytes}

-- `DataFrame`.
pub record DataFrame : Type 0 where
  pub id : ℕ
  pub index : ℕ
  pub count : ℕ
  pub bytes : Bytes

-- The `ProtocolSchemaError`s and `RangeError`s of the module.
pub data FrameError : Type 0 where
  id_too_large index_too_large count_too_large no_frames index_not_below_count bytes_too_long
        empty_part too_many_frames missing_chunk payload_overrun :
      FrameError

-- `MAX_FRAME_PAYLOAD_BYTES`, `MAX_FRAME_COUNT` and `MAX_FRAME_ID`.
unfoldable pub max_frame_payload : ℕ
max_frame_payload = 16384

unfoldable pub max_frame_count : ℕ
max_frame_count = 65535

unfoldable pub max_frame_id : ℕ
max_frame_id = 4294967295

-- `normalizeFrame`.
unfoldable pub normalize_frame : DataFrame → Result FrameError DataFrame
normalize_frame frame = do
  ensure (leb frame.id max_frame_id) id_too_large
  ensure (leb frame.index max_frame_count) index_too_large
  ensure (leb frame.count max_frame_count) count_too_large
  ensure (not (frame.count == 0)) no_frames
  ensure (ltb frame.index frame.count) index_not_below_count
  ensure (leb (length frame.bytes) max_frame_payload) bytes_too_long
  ensure (not (ltb 1 frame.count && length frame.bytes == 0)) empty_part
  ok frame

-- `slice(from, to)` of a byte array.
abbrev pub slice : ℕ → ℕ → Bytes → Bytes
slice from to bytes = take (to - from) (drop from bytes)

abbrev pub part : Bytes → ℕ → Bytes
part payload index =
    slice (index * max_frame_payload) (min (length payload) ((index + 1) * max_frame_payload))
      payload

-- The frames from `index` on, `left` of them.
unfoldable pub frames_from : Bytes → ℕ → ℕ → ℕ → ℕ → List DataFrame
frames_from payload id count index ℕ.zero = []
frames_from payload id count index (ℕ.suc left) =
    record { id = id; index = index; count = count; bytes = part payload index }
    ∷ frames_from payload id count (index + 1) left

-- `Math.max(1, Math.ceil(length / MAX_FRAME_PAYLOAD_BYTES))`.
unfoldable pub frame_count : ℕ → ℕ
frame_count size = max 1 ((size + (max_frame_payload - 1)) / max_frame_payload)

-- `splitDataFrames`.
unfoldable pub split_data_frames : Bytes → ℕ → Result FrameError (List DataFrame)
split_data_frames payload id = do
  ensure (leb id max_frame_id) id_too_large
  ensure (leb (frame_count (length payload)) max_frame_count) too_many_frames
  ok (frames_from payload id (frame_count (length payload)) 0 (frame_count (length payload)))
