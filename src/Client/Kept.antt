-- ===== src/Client/Kept.antt =====
-- The peer and the record of the requests seen, over the dispatch of a command.
use robocol.Prelude.{
  ℕ, ◌≡◌, refl, ◌∙◌, Bool, true, false, List, [], ◌∷◌, Option, none, some, arith, ltb,
  if◌then◌else◌, Option-cases, Bool-cases, inl, inr,
}
use robocol.Wire.{Bytes}
use robocol.Cmd.{Json}
use robocol.Cmd
use robocol.Prelude.Text.{codes, bytes_eq}
use robocol.Wire.Trim.{trim}
use robocol.Base64.{decode}
use robocol.Packets.Command.{Command, create}
use robocol.Client.State.{Event, Clock, Worker, PendingCommand, PartialFrame, emit}
use robocol.Client.Commands.{drop_oldest, make_room, push_pending, queue_command}
use robocol.Client.Frames.{
  begin_frame, try_usize, get, accept_chunk, send_webcam_request, request_webcam_frame_paced,
  handle_stream_change, handle_frame_begin, finish_chunk, store_chunk, handle_frame_chunk, remove,
  retain_after,
}
use robocol.Client.Receive.{notice, webcam_command, dispatch, emit_option}

-- The part of the state that the dispatch of a command leaves alone.
abbrev pub Kept : Worker → Worker → Type 0
Kept w w' = (w'.peer ≡ w.peer) × (w'.seen ≡ w.seen)

Kept-trans : (a b c : Worker) → Kept a b → Kept b c → Kept a c
Kept-trans a b c (p, s) (p', s') = (p' ∙ p, s' ∙ s)

pub emit-Kept : (e : Event) (w : Worker) → Kept w (emit e w).0
unfolding emit
emit-Kept e w = ground arith

drop_oldest-Kept : (ps : List PendingCommand) (w : Worker) → Kept w (drop_oldest ps w)
unfolding drop_oldest
drop_oldest-Kept [] w = (refl, refl)
drop_oldest-Kept (p ∷ ps) w =
    emit-Kept (Event.command_dropped p.command.name) (record w { pending = ps })

pub queue_command-Kept : (clk : Clock) (c : Command) (w : Worker) → Kept w (queue_command clk c w)
unfolding queue_command make_room push_pending
queue_command-Kept clk c w = ground (arith, drop_oldest-Kept w.pending w)

send_webcam_request-Kept : (clk : Clock) (w : Worker) → Kept w (send_webcam_request clk w)
unfolding send_webcam_request
send_webcam_request-Kept clk w =
    queue_command-Kept clk (create Cmd.request_frame [] 0)
      (record w { last_webcam_request = some clk.now })

pub request_webcam_frame_paced-Kept :
    (clk : Clock) (w : Worker) → Kept w (request_webcam_frame_paced clk w)
unfolding request_webcam_frame_paced
request_webcam_frame_paced-Kept clk w = ground (arith, send_webcam_request-Kept clk w)

handle_stream_change-Kept :
    (clk : Clock) (extra : Bytes) (w : Worker) → Kept w (handle_stream_change clk extra w).0
unfolding handle_stream_change
handle_stream_change-Kept clk extra w = available-Kept (bytes_eq (trim extra) (codes "true"))
  where
    available-Kept :
        (b : Bool)
        → Kept w (
            if b
            then request_webcam_frame_paced clk (record w { webcam_available = b })
            else record w {
              webcam_available = b;
              webcam_frames = [];
              webcam_pending_request = false;
            })
    available-Kept true = request_webcam_frame_paced-Kept clk (record w { webcam_available = true })
    available-Kept false = (refl, refl)

begin_frame-Kept : (n len : ℕ) (w : Worker) → Kept w (begin_frame n len w)
unfolding begin_frame
begin_frame-Kept n len w = ground arith

handle_frame_begin-Kept :
    (json : Json) (extra : Bytes) (w : Worker) → Kept w (handle_frame_begin json extra w)
unfolding handle_frame_begin
handle_frame_begin-Kept json extra w = elim (Option-cases (json.frame_begin extra)) [
  | inl e ↦ rw (e, handle_frame_begin) (refl, refl)
  | inr (begin, e) ↦ elim (Option-cases (try_usize begin.length)) [
    | inl u ↦ rw (e, handle_frame_begin, u) (refl, refl)
    | inr (len, u) ↦ rw (e, handle_frame_begin, u) (begin_frame-Kept begin.frame_num len w)
  ]
]

paced_if-Kept :
    (b : Bool) (clk : Clock) (w : Worker)
    → Kept w (if b then request_webcam_frame_paced clk w else w)
paced_if-Kept true clk w = request_webcam_frame_paced-Kept clk w
paced_if-Kept false clk w = (refl, refl)

finish_chunk-Kept :
    (clk : Clock) (n : ℕ) (f : PartialFrame) (w : Worker) → Kept w (finish_chunk clk n f w).0
unfolding finish_chunk
finish_chunk-Kept clk n f w = elim (Bool-cases (ltb 0 f.remaining)) [
  | inl more ↦ rw more (refl, refl)
  | inr whole ↦ rw whole (
      paced_if-Kept w.webcam_available clk
        (record w { webcam_frames = retain_after n (remove n w.webcam_frames) }))
]

store_chunk-Kept :
    (clk : Clock) (n index : ℕ) (bytes : Bytes) (w : Worker)
    → Kept w (store_chunk clk n index bytes w).0
unfolding store_chunk
store_chunk-Kept clk n index bytes w = elim (Option-cases (get n w.webcam_frames)) [
  | inl e ↦ rw (e, store_chunk) (refl, refl)
  | inr (f, e) ↦ elim (Option-cases (accept_chunk f index bytes)) [
    | inl x ↦ rw (e, store_chunk, x) (refl, refl)
    | inr (g, x) ↦ rw (e, store_chunk, x) (finish_chunk-Kept clk n g w)
  ]
]

handle_frame_chunk-Kept :
    (json : Json) (clk : Clock) (extra : Bytes) (w : Worker)
    → Kept w (handle_frame_chunk json clk extra w).0
unfolding handle_frame_chunk
handle_frame_chunk-Kept json clk extra w = elim (Option-cases (json.frame_chunk extra)) [
  | inl e ↦ rw (e, handle_frame_chunk) (refl, refl)
  | inr (chunk, e) ↦ elim (Option-cases (decode chunk.encoded_data)) [
    | inl d ↦ rw (e, handle_frame_chunk, d) (refl, refl)
    | inr (bytes, d) ↦ elim (Option-cases (try_usize chunk.chunk_num)) [
      | inl u ↦ rw (e, handle_frame_chunk, d, u) (refl, refl)
      | inr (index, u) ↦
          rw (e, handle_frame_chunk, d, u) (store_chunk-Kept clk chunk.frame_num index bytes w)
    ]
  ]
]

webcam_command-Kept :
    (json : Json) (clk : Clock) (c : Command) (w : Worker) → Kept w (webcam_command json clk c w).0
unfolding webcam_command
webcam_command-Kept json clk c w = ground (
  arith,
  handle_stream_change-Kept clk c.extra w,
  handle_frame_begin-Kept json c.extra w,
  handle_frame_chunk-Kept json clk c.extra w,
)

pub dispatch-Kept :
    (json : Json) (clk : Clock) (c : Command) (w : Worker) → Kept w (dispatch json clk c w).0
unfolding dispatch
dispatch-Kept json clk c w = elim (Option-cases (notice json c)) [
  | inl e ↦ rw (e, dispatch) (webcam_command-Kept json clk c w)
  | inr (event, e) ↦ rw (e, dispatch) (refl, refl)
]

pub emit_option-Kept : (r : Worker × Option Event) → Kept r.0 (emit_option r).0
emit_option-Kept (w, none) = (refl, refl)
emit_option-Kept (w, some e) = emit-Kept e w

-- A command that is taken: what comes of it, and the event for it.
pub answer-Kept :
    (json : Json) (clk : Clock) (c : Command) (w : Worker)
    → Kept w (emit_option (dispatch json clk c w)).0
answer-Kept json clk c w =
    Kept-trans w (dispatch json clk c w).0 (emit_option (dispatch json clk c w)).0
      (dispatch-Kept json clk c w) (emit_option-Kept (dispatch json clk c w))
