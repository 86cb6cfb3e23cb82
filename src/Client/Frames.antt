-- ===== src/Client/Frames.antt =====
-- The webcam: frames that arrive in chunks, and the requests for the next one.
use robocol.Prelude.{
  ℕ, zero, suc, ◌+◌, ◌-◌, ◌*◌, ◌/◌, ◌%◌, ◌^◌, Bool, true, false, ◌||◌, List, [], ◌∷◌, Option, none,
  some, ◌==◌, leb, ltb, length, set, get_or, replicate, if◌then◌else◌,
}
use robocol.Prelude.Text.{codes, bytes_eq}
use robocol.Wire.{Bytes}
use robocol.Wire.Trim.{trim}
use robocol.Base64.{decode}
use robocol.Cmd.{Json, frame_chunk_size, request_frame}
use robocol.Packets.Command.{create}
use robocol.Client.State.{
  Event, Clock, Worker, PartialFrame, is_due, max_concurrent_frames, max_frame_bytes,
}
use robocol.Client.Commands.{queue_command}

-- `usize::try_from` of an `i32`, which refuses the negative ones.
unfoldable pub try_usize : ℕ → Option ℕ
try_usize n = if ltb n (2 ^ 31) then some n else none

-- The key order of the `BTreeMap<i32, _>`, on bit patterns.
unfoldable pub i32_lt : ℕ → ℕ → Bool
i32_lt a b = ltb ((a + 2 ^ 31) % 2 ^ 32) ((b + 2 ^ 31) % 2 ^ 32)

abbrev pub FrameMap : Type 0
FrameMap = List (ℕ × PartialFrame)

unfoldable pub insert : ℕ → PartialFrame → FrameMap → FrameMap
unfolding i32_lt
insert num f [] = (num, f) ∷ []
insert num f ((n, g) ∷ m) =
    if n == num
    then (num, f) ∷ m
    else if i32_lt num n
    then (num, f) ∷ (n, g) ∷ m
    else (n, g) ∷ insert num f m

unfoldable pub get : ℕ → FrameMap → Option PartialFrame
get num [] = none
get num ((n, g) ∷ m) = if n == num then some g else get num m

-- `get_mut` and a write through it.
unfoldable pub update : ℕ → PartialFrame → FrameMap → FrameMap
update num f [] = []
update num f ((n, g) ∷ m) = if n == num then (n, f) ∷ m else (n, g) ∷ update num f m

unfoldable pub remove : ℕ → FrameMap → FrameMap
remove num [] = []
remove num ((n, g) ∷ m) = if n == num then m else (n, g) ∷ remove num m

-- `retain(|&n, _| n > num)`.
unfoldable pub retain_after : ℕ → FrameMap → FrameMap
unfolding i32_lt
retain_after num [] = []
retain_after num ((n, g) ∷ m) =
    let rest = retain_after num m in if i32_lt num n then (n, g) ∷ rest else rest

-- The loop that removes the first key while there are too many.
unfoldable pub evict : FrameMap → FrameMap
evict [] = []
evict (x ∷ m) =
    let rest = evict m in if leb (length (x ∷ m)) max_concurrent_frames then x ∷ m else rest

unfoldable pub send_webcam_request : Clock → Worker → Worker
unfolding queue_command create
send_webcam_request clk w =
    queue_command clk (create request_frame [] 0) (record w { last_webcam_request = some clk.now })

unfoldable pub request_webcam_frame_paced : Clock → Worker → Worker
unfolding send_webcam_request is_due
request_webcam_frame_paced clk w =
    if is_due w.last_webcam_request w.cfg.webcam_min_frame_interval clk
    then send_webcam_request clk w
    else record w { webcam_pending_request = true }

unfoldable pub handle_stream_change : Clock → Bytes → Worker → Worker × Event
unfolding request_webcam_frame_paced
handle_stream_change clk extra w =
    let available = bytes_eq (trim extra) (codes "true") in
    let w' = record w { webcam_available = available } in
    (
      if available
          then request_webcam_frame_paced clk w'
          else record w' { webcam_frames = []; webcam_pending_request = false },
      Event.webcam_available available,
    )

-- `length.div_ceil(FRAME_CHUNK_SIZE)`.
unfoldable pub chunk_count : ℕ → ℕ
chunk_count length = (length + (frame_chunk_size - 1)) / frame_chunk_size

unfoldable pub empty_frame : ℕ → PartialFrame
unfolding chunk_count
empty_frame length = record {
  content = replicate length 0;
  received = replicate (chunk_count length) false;
  remaining = chunk_count length;
}

unfoldable pub begin_frame : ℕ → ℕ → Worker → Worker
unfolding insert evict empty_frame
begin_frame num length w =
    if ltb max_frame_bytes length
    then w
    else record w { webcam_frames = evict (insert num (empty_frame length) w.webcam_frames) }

unfoldable pub handle_frame_begin : Json → Bytes → Worker → Worker
unfolding begin_frame try_usize
handle_frame_begin json extra w = elim (json.frame_begin extra) [
  | none ↦ w
  | some begin ↦ elim (try_usize begin.length) [
    | none ↦ w
    | some length ↦ begin_frame begin.frame_num length w
  ]
]

-- The bytes of `bs` over those of `buf` from `off` on, as far as `buf` reaches.
unfoldable pub patch : Bytes → ℕ → Bytes → Bytes
patch [] off bs = []
patch (x ∷ xs) (suc off) bs = x ∷ patch xs off bs
patch (x ∷ xs) zero [] = x ∷ xs
patch (x ∷ xs) zero (b ∷ bs) = b ∷ patch xs zero bs

-- The guards on a chunk, and the frame with the chunk in its place. `patch` stands for a write that would
-- panic where its range leaves the buffer, which `accept_chunk-write_at` in Client/Assembly/Accepted is about.
unfoldable pub accept_chunk : PartialFrame → ℕ → Bytes → Option PartialFrame
unfolding patch
accept_chunk f index bytes =
    if leb (length f.received) index || get_or f.received index true
    then none
    else if ltb (length f.content) (index * frame_chunk_size + length bytes)
    then none
    else some (record {
      content = patch f.content (index * frame_chunk_size) bytes;
      received = set f.received index true;
      remaining = f.remaining - 1;
    })

-- What follows once a chunk is in: nothing yet, or the frame is whole.
unfoldable pub finish_chunk : Clock → ℕ → PartialFrame → Worker → Worker × Option Event
unfolding update remove retain_after request_webcam_frame_paced
finish_chunk clk num f w =
    if ltb 0 f.remaining
    then (record w { webcam_frames = update num f w.webcam_frames }, none)
    else let w' = record w { webcam_frames = retain_after num (remove num w.webcam_frames) } in
      (
        if w'.webcam_available then request_webcam_frame_paced clk w' else w',
        some (Event.webcam_frame f.content),
      )

unfoldable pub store_chunk : Clock → ℕ → ℕ → Bytes → Worker → Worker × Option Event
unfolding get accept_chunk finish_chunk
store_chunk clk num index bytes w = elim (get num w.webcam_frames) [
  | none ↦ (w, none)
  | some f ↦ elim (accept_chunk f index bytes) [
    | none ↦ (w, none)
    | some f' ↦ finish_chunk clk num f' w
  ]
]

unfoldable pub handle_frame_chunk : Json → Clock → Bytes → Worker → Worker × Option Event
unfolding store_chunk try_usize decode
handle_frame_chunk json clk extra w = elim (json.frame_chunk extra) [
  | none ↦ (w, none)
  | some chunk ↦ elim (decode chunk.encoded_data) [
    | none ↦ (w, none)
    | some bytes ↦ elim (try_usize chunk.chunk_num) [
      | none ↦ (w, none)
      | some index ↦ store_chunk clk chunk.frame_num index bytes w
    ]
  ]
]
