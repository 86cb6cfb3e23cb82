-- ===== src/Client/Invariant/Always.antt =====
-- The invariant over the rounds of `run`.
use robocol.Prelude.{
  ℕ, false, List, [], ◌∷◌, Option, some, arith, Option-cases, Bool-cases, inl, inr,
}
use robocol.Cmd.{Json}
use robocol.Client.State.{Event, Clock, ClientConfig, Worker, start}
use robocol.Client.Run.{
  Control, Incoming, Round, lose_peer, handle_control, drain, handle_incoming, check_timeout,
  heartbeat, pace_webcam, housekeeping, round, run,
}
use robocol.Client.Invariant.{
  IsValid, emit-IsValid, drop_peer-IsValid, queue_command-IsValid, retransmit_pending-IsValid,
  transmit_gamepad-IsValid, tick-IsValid,
}
use robocol.Client.Invariant.Webcam.{
  send_webcam_request-IsValid, request_webcam_frame_paced-IsValid,
}
use robocol.Client.Invariant.Receiving.{and_then-IsValid, with_discovering, handle_datagram-IsValid}

lose_peer-IsValid : (w : Worker) → IsValid w → IsValid (lose_peer w).0
unfolding lose_peer
lose_peer-IsValid w v = elim (Option-cases w.peer) [
  | inl e ↦ rw (e, lose_peer) v
  | inr (q, e) ↦ rw (e, lose_peer) (emit-IsValid Event.disconnected _ (drop_peer-IsValid w v))
]

handle_control-IsValid :
    (clk : Clock) (c : Control) (w : Worker) → IsValid w → IsValid (handle_control clk c w).0
unfolding handle_control
handle_control-IsValid clk (Control.send_command c) w v = queue_command-IsValid clk c w v
handle_control-IsValid clk (Control.send_gamepad g) w v = transmit_gamepad-IsValid clk g w v
handle_control-IsValid clk Control.connect w v = ground arith
handle_control-IsValid clk Control.disconnect w v =
    lose_peer-IsValid (record w { discovering = false }) (with_discovering w false v)
handle_control-IsValid clk Control.shutdown w v = v

drain-IsValid :
    (clk : Clock) (cs : List Control) (w : Worker) → IsValid w → IsValid (drain clk cs w).0
unfolding drain
drain-IsValid clk [] w v = v
drain-IsValid clk (c ∷ cs) w v =
    let kept = handle_control-IsValid clk c w v in
    elim (Bool-cases (handle_control clk c w).1) [
      | inl e ↦ rw e (drain-IsValid clk cs (handle_control clk c w).0 kept)
      | inr e ↦ rw e kept
    ]

handle_incoming-IsValid :
    (json : Json) (clk : Clock) (i : Incoming) (w : Worker)
    → IsValid w
    → IsValid (handle_incoming json clk i w).0
unfolding handle_incoming
handle_incoming-IsValid json clk (Incoming.datagram buf from) w v =
    handle_datagram-IsValid json clk buf from w v
handle_incoming-IsValid json clk Incoming.quiet w v = v
handle_incoming-IsValid json clk Incoming.failed w v = emit-IsValid _ w v

check_timeout-IsValid : (clk : Clock) (w : Worker) → IsValid w → IsValid (check_timeout clk w).0
unfolding check_timeout
check_timeout-IsValid clk w v = ground (arith, lose_peer-IsValid w v)

with_last_beat : (w : Worker) (t : Option ℕ) → IsValid w → IsValid (record w { last_beat = t })
with_last_beat w t v = ground arith

heartbeat-IsValid : (clk : Clock) (w : Worker) → IsValid w → IsValid (heartbeat clk w)
unfolding heartbeat
heartbeat-IsValid clk w v = ground (arith, tick-IsValid clk _ (with_last_beat w (some clk.now) v))

no_frames : (w : Worker) → IsValid w → IsValid (record w { webcam_frames = [] })
no_frames w v = ground arith

no_request : (w : Worker) → IsValid w → IsValid (record w { webcam_pending_request = false })
no_request w v = ground arith

pace_webcam-IsValid : (clk : Clock) (w : Worker) → IsValid w → IsValid (pace_webcam clk w)
unfolding pace_webcam
pace_webcam-IsValid clk w v = ground (
  arith,
  send_webcam_request-IsValid clk _ (no_request w v),
  request_webcam_frame_paced-IsValid clk _ (no_frames w v),
)

housekeeping-IsValid : (clk : Clock) (w : Worker) → IsValid w → IsValid (housekeeping clk w).0
unfolding housekeeping
housekeeping-IsValid clk w v =
    and_then-IsValid (check_timeout clk w) _ (check_timeout-IsValid clk w v) (λ u vu.
      retransmit_pending-IsValid clk _ (pace_webcam-IsValid clk _ (heartbeat-IsValid clk u vu)))

round-IsValid : (json : Json) (r : Round) (w : Worker) → IsValid w → IsValid (round json r w).0
unfolding round
round-IsValid json r w v =
    and_then-IsValid (drain r.before r.controls w) _ (drain-IsValid r.before r.controls w v)
      (λ u vu.
        and_then-IsValid (handle_incoming json r.after r.incoming u) (housekeeping r.after)
          (handle_incoming-IsValid json r.after r.incoming u vu) (housekeeping-IsValid r.after))

pub run-IsValid :
    (json : Json) (rs : List Round) (w : Worker) → IsValid w → IsValid (run json rs w).0
unfolding run
run-IsValid json [] w v = v
run-IsValid json (r ∷ rs) w v =
    let kept = round-IsValid json r w v in
    elim (Bool-cases (round json r w).1) [
      | inl e ↦ rw e (run-IsValid json rs (round json r w).0 kept)
      | inr e ↦ rw e kept
    ]

start-IsValid : (cfg : ClientConfig) (h : Option ℕ) (clk : Clock) → IsValid (start cfg h clk)
unfolding start
start-IsValid cfg h clk = omega arith

-- From the start, through any messages, datagrams, clock readings and JSON, the worker keeps at most 64
-- commands in its queue, remembers at most 64 requests and assembles at most 5 frames, each of which
-- counts its missing chunks rightly, and its sequence number stays 16 bits wide.
pub run-start-IsValid :
    (json : Json) (cfg : ClientConfig) (h : Option ℕ) (clk : Clock) (rs : List Round)
    → IsValid (run json rs (start cfg h clk)).0
run-start-IsValid json cfg h clk rs =
    run-IsValid json rs (start cfg h clk) (start-IsValid cfg h clk)
