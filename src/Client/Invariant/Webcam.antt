-- ===== src/Client/Invariant/Webcam.antt =====
-- The invariant over the webcam's methods.
use robocol.Prelude.{
  ℕ, zero, suc, ◌≤◌, ◌<◌, ◌≡◌, refl, ap, Bool, true, false, List, [], ◌∷◌, Option, none, some,
  arith, length, set, get_or, replicate, All, ltb, if◌then◌else◌, Option-cases, Bool-cases, inl,
  inr,
}
use robocol.Wire.{Bytes}
use robocol.Base64.{decode}
use robocol.Prelude.Text.{bytes_eq, codes}
use robocol.Wire.Trim.{trim}
use robocol.Cmd.{Json, request_frame}
use robocol.Packets.Command.{create}
use robocol.Client.State.{Clock, Worker, PartialFrame, max_frame_bytes}
use robocol.Client.Frames.{
  FrameMap, insert, get, update, remove, retain_after, evict, send_webcam_request,
  request_webcam_frame_paced, handle_stream_change, empty_frame, chunk_count, begin_frame,
  handle_frame_begin, try_usize, accept_chunk, finish_chunk, store_chunk, handle_frame_chunk,
}
use robocol.Client.Invariant.{IsValid, IsPartial, missing, queue_command-IsValid}

keep_frames :
    (w : Worker) (m : FrameMap)
    → IsValid w
    → length m ≤ 5
    → All IsPartial m
    → IsValid (record w { webcam_frames = m })
keep_frames w m v h a = ground arith

pub send_webcam_request-IsValid :
    (clk : Clock) (w : Worker) → IsValid w → IsValid (send_webcam_request clk w)
unfolding send_webcam_request
send_webcam_request-IsValid clk w v =
    queue_command-IsValid clk (create request_frame [] 0)
      (record w { last_webcam_request = some clk.now }) (ground arith)

pub request_webcam_frame_paced-IsValid :
    (clk : Clock) (w : Worker) → IsValid w → IsValid (request_webcam_frame_paced clk w)
unfolding request_webcam_frame_paced
request_webcam_frame_paced-IsValid clk w v = ground (arith, send_webcam_request-IsValid clk w)

missing-replicate : (n : ℕ) → missing (replicate n false) ≡ n
missing-replicate zero = refl
missing-replicate (suc n) = ap suc (missing-replicate n)

-- A chunk that is stored was missing.
pub missing-set :
    (r : List Bool) (i : ℕ)
    → i < length r
    → get_or r i true ≡ false
    → missing r ≡ suc (missing (set r i true))
missing-set [] i h e = absurd (omega arith)
missing-set (true ∷ r) zero h e = cc
missing-set (false ∷ r) zero h e = refl
missing-set (true ∷ r) (suc i) h e = missing-set r i (omega arith) e
missing-set (false ∷ r) (suc i) h e = ap suc (missing-set r i (omega arith) e)

pub accept_chunk-IsPartial :
    (f g : PartialFrame) (index : ℕ) (bytes : Bytes)
    → f.remaining ≡ missing f.received
    → accept_chunk f index bytes ≡ some g
    → g.remaining ≡ missing g.received
unfolding accept_chunk
accept_chunk-IsPartial f g index bytes h e = ground (arith, missing-set f.received index)

insert-IsPartial :
    (n : ℕ) (f : PartialFrame) (m : FrameMap)
    → IsPartial (n, f)
    → All IsPartial m
    → All IsPartial (insert n f m)
unfolding insert
insert-IsPartial n f [] h a = (h, tt)
insert-IsPartial n f ((k, g) ∷ m) h (b, a) = ground (arith, insert-IsPartial n f m h a)

update-IsPartial :
    (n : ℕ) (f : PartialFrame) (m : FrameMap)
    → IsPartial (n, f)
    → All IsPartial m
    → All IsPartial (update n f m) × (length (update n f m) ≡ length m)
unfolding update
update-IsPartial n f [] h a = (tt, refl)
update-IsPartial n f ((k, g) ∷ m) h (b, a) = ground (arith, update-IsPartial n f m h a)

remove-IsPartial :
    (n : ℕ) (m : FrameMap)
    → All IsPartial m
    → All IsPartial (remove n m) × (length (remove n m) ≤ length m)
unfolding remove
remove-IsPartial n [] a = (tt, omega arith)
remove-IsPartial n ((k, g) ∷ m) (b, a) = ground (arith, remove-IsPartial n m a)

retain_after-IsPartial :
    (n : ℕ) (m : FrameMap)
    → All IsPartial m
    → All IsPartial (retain_after n m) × (length (retain_after n m) ≤ length m)
unfolding retain_after
retain_after-IsPartial n [] a = (tt, omega arith)
retain_after-IsPartial n ((k, g) ∷ m) (b, a) = ground (arith, retain_after-IsPartial n m a)

evict-IsPartial :
    (m : FrameMap) → All IsPartial m → All IsPartial (evict m) × (length (evict m) ≤ 5)
unfolding evict
evict-IsPartial [] a = (tt, omega arith)
evict-IsPartial (x ∷ m) (b, a) = ground (arith, evict-IsPartial m a)

get-IsPartial :
    (n : ℕ) (m : FrameMap) (f : PartialFrame)
    → All IsPartial m
    → get n m ≡ some f
    → f.remaining ≡ missing f.received
unfolding get
get-IsPartial n [] f a e = cc
get-IsPartial n ((k, g) ∷ m) f (b, a) e = ground (arith, get-IsPartial n m f a)

pub empty_frame-IsPartial : (n len : ℕ) → IsPartial (n, empty_frame len)
unfolding empty_frame
empty_frame-IsPartial n len = omega (arith, missing-replicate (chunk_count len))

begin_frame-IsValid : (n len : ℕ) (w : Worker) → IsValid w → IsValid (begin_frame n len w)
unfolding begin_frame
begin_frame-IsValid n len w v =
    let (kept, few) = evict-IsPartial (insert n (empty_frame len) w.webcam_frames) (
      insert-IsPartial n (empty_frame len) w.webcam_frames (empty_frame-IsPartial n len)
        v.frames_partial) in
    elim (Bool-cases (ltb max_frame_bytes len)) [
      | inl big ↦ rw big v
      | inr fits ↦ rw fits (keep_frames w _ v few kept)
    ]

pub handle_frame_begin-IsValid :
    (json : Json) (extra : Bytes) (w : Worker)
    → IsValid w
    → IsValid (handle_frame_begin json extra w)
unfolding handle_frame_begin
handle_frame_begin-IsValid json extra w v = elim (Option-cases (json.frame_begin extra)) [
  | inl e ↦ rw (e, handle_frame_begin) v
  | inr (begin, e) ↦
      rw (e, handle_frame_begin) (begin-IsValid (try_usize begin.length) begin.frame_num)
]
  where
    begin-IsValid :
        (o : Option ℕ) (n : ℕ)
        → IsValid (elim o as (λ _. Worker) [ none ↦ w | some len ↦ begin_frame n len w ])
    begin-IsValid none n = v
    begin-IsValid (some len) n = begin_frame-IsValid n len w v

paced_if-IsValid :
    (b : Bool) (clk : Clock) (w : Worker)
    → IsValid w
    → IsValid (if b then request_webcam_frame_paced clk w else w)
paced_if-IsValid true clk w v = request_webcam_frame_paced-IsValid clk w v
paced_if-IsValid false clk w v = v

finish_chunk-IsValid :
    (clk : Clock) (n : ℕ) (f : PartialFrame) (w : Worker)
    → IsValid w
    → f.remaining ≡ missing f.received
    → IsValid (finish_chunk clk n f w).0
unfolding finish_chunk
finish_chunk-IsValid clk n f w v h =
    let (updated, same) = update-IsPartial n f w.webcam_frames h v.frames_partial in
    let (removed, fewer) = remove-IsPartial n w.webcam_frames v.frames_partial in
    let (later, fewest) = retain_after-IsPartial n (remove n w.webcam_frames) removed in
    elim (Bool-cases (ltb 0 f.remaining)) [
      | inl more ↦ rw more (keep_frames w _ v (omega arith) updated)
      | inr whole ↦
          rw whole
            (paced_if-IsValid w.webcam_available clk _ (keep_frames w _ v (omega arith) later))
    ]

store_chunk-IsValid :
    (clk : Clock) (n index : ℕ) (bytes : Bytes) (w : Worker)
    → IsValid w
    → IsValid (store_chunk clk n index bytes w).0
unfolding store_chunk
store_chunk-IsValid clk n index bytes w v = elim (Option-cases (get n w.webcam_frames)) [
  | inl e ↦ rw (e, store_chunk) v
  | inr (f, e) ↦ elim (Option-cases (accept_chunk f index bytes)) [
    | inl x ↦ rw (e, store_chunk, x) v
    | inr (g, x) ↦
        rw (e, store_chunk, x)
          (finish_chunk-IsValid clk n g w v (
            accept_chunk-IsPartial f g index bytes
              (get-IsPartial n w.webcam_frames f v.frames_partial e) x))
  ]
]

pub handle_frame_chunk-IsValid :
    (json : Json) (clk : Clock) (extra : Bytes) (w : Worker)
    → IsValid w
    → IsValid (handle_frame_chunk json clk extra w).0
unfolding handle_frame_chunk
handle_frame_chunk-IsValid json clk extra w v = elim (Option-cases (json.frame_chunk extra)) [
  | inl e ↦ rw (e, handle_frame_chunk) v
  | inr (chunk, e) ↦ elim (Option-cases (decode chunk.encoded_data)) [
    | inl d ↦ rw (e, handle_frame_chunk, d) v
    | inr (bytes, d) ↦ elim (Option-cases (try_usize chunk.chunk_num)) [
      | inl u ↦ rw (e, handle_frame_chunk, d, u) v
      | inr (index, u) ↦
          rw (e, handle_frame_chunk, d, u) (store_chunk-IsValid clk chunk.frame_num index bytes w v)
    ]
  ]
]

pub handle_stream_change-IsValid :
    (clk : Clock) (extra : Bytes) (w : Worker)
    → IsValid w
    → IsValid (handle_stream_change clk extra w).0
unfolding handle_stream_change
handle_stream_change-IsValid clk extra w v =
    available-IsValid (bytes_eq (trim extra) (codes "true"))
  where
    available-IsValid :
        (b : Bool)
        → IsValid (
            if b
            then request_webcam_frame_paced clk (record w { webcam_available = b })
            else record w {
              webcam_available = b;
              webcam_frames = [];
              webcam_pending_request = false;
            })
    available-IsValid true =
        request_webcam_frame_paced-IsValid clk (record w { webcam_available = true }) (ground arith)
    available-IsValid false = ground arith
