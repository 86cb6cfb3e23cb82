-- ===== src/Client/Run.antt =====
-- `Worker::run`: one round of the loop, and many.
use robocol.Prelude.{
  ℕ, Bool, true, false, not, ◌&&◌, List, [], ◌∷◌, Option, none, some, ltb, if◌then◌else◌,
}
use robocol.Wire.{Bytes}
use robocol.Cmd.{Json}
use robocol.Packets.Command.{Command}
use robocol.Packets.Gamepad.{Gamepad}
use robocol.Client.State.{
  SocketAddr, Event, Problem, Clock, Worker, emit, drop_peer, is_due, elapsed, webcam_stall_timeout,
}
use robocol.Client.Commands.{queue_command, transmit_gamepad, tick, retransmit_pending}
use robocol.Client.Frames.{send_webcam_request, request_webcam_frame_paced}
use robocol.Client.Receive.{handle_datagram, and_then}

pub data Control : Type 0 where
  send_command : Command → Control
  send_gamepad : Gamepad → Control
  connect disconnect shutdown : Control

-- What `recv_from` gives: a datagram, nothing in time, or another error.
pub data Incoming : Type 0 where
  datagram : Bytes → SocketAddr → Incoming
  quiet failed : Incoming

-- The peer is let go, and the host is told if there was one.
unfoldable pub lose_peer : Worker → Worker × Bool
unfolding drop_peer emit
lose_peer w = elim w.peer [ none ↦ (w, true) | some peer ↦ emit Event.disconnected (drop_peer w) ]

unfoldable pub handle_control : Clock → Control → Worker → Worker × Bool
unfolding queue_command transmit_gamepad lose_peer
handle_control clk (send_command c) w = (queue_command clk c w, true)
handle_control clk (send_gamepad g) w = (transmit_gamepad clk g w, true)
handle_control clk connect w = (record w { discovering = true; last_beat = none }, true)
handle_control clk disconnect w = lose_peer (record w { discovering = false })
handle_control clk shutdown w = (w, false)

-- The inner loop, over the messages that are waiting.
unfoldable pub drain : Clock → List Control → Worker → Worker × Bool
unfolding handle_control
drain clk [] w = (w, true)
drain clk (c ∷ cs) w =
    let (w', alive) = handle_control clk c w in
    let rest = drain clk cs w' in if alive then rest else (w', false)

unfoldable pub handle_incoming : Json → Clock → Incoming → Worker → Worker × Bool
unfolding handle_datagram emit
handle_incoming json clk (datagram buf from) w = handle_datagram json clk buf from w
handle_incoming json clk quiet w = (w, true)
handle_incoming json clk failed w = emit (Event.protocol_error Problem.socket_recv_failed) w

unfoldable pub check_timeout : Clock → Worker → Worker × Bool
unfolding lose_peer
check_timeout clk w =
    if ltb w.cfg.disconnect_timeout (elapsed clk w.last_rx) then lose_peer w else (w, true)

unfoldable pub heartbeat : Clock → Worker → Worker
unfolding tick is_due
heartbeat clk w =
    if is_due w.last_beat w.cfg.heartbeat_interval clk
    then tick clk (record w { last_beat = some clk.now })
    else w

-- `last.is_some_and(|t| t.elapsed() >= WEBCAM_STALL_TIMEOUT)`.
unfoldable pub is_stalled : Option ℕ → Clock → Bool
unfolding is_due
is_stalled none clk = false
is_stalled (some t) clk = is_due (some t) webcam_stall_timeout clk

unfoldable pub pace_webcam : Clock → Worker → Worker
unfolding is_due is_stalled send_webcam_request request_webcam_frame_paced
pace_webcam clk w =
    if w.webcam_pending_request && is_due w.last_webcam_request w.cfg.webcam_min_frame_interval clk
    then send_webcam_request clk (record w { webcam_pending_request = false })
    else if w.webcam_available
        && (not w.webcam_pending_request && is_stalled w.last_webcam_request clk)
    then request_webcam_frame_paced clk (record w { webcam_frames = [] })
    else w

-- The rest of the round, after the socket.
unfoldable pub housekeeping : Clock → Worker → Worker × Bool
unfolding check_timeout heartbeat pace_webcam retransmit_pending
housekeeping clk w =
    and_then (check_timeout clk w)
      (λ w'. retransmit_pending clk (pace_webcam clk (heartbeat clk w')))

-- A round: the messages that wait, the clocks before and after `recv_from`, and what that gives.
pub record Round : Type 0 where
  pub controls : List Control
  pub before : Clock
  pub incoming : Incoming
  pub after : Clock

unfoldable pub round : Json → Round → Worker → Worker × Bool
unfolding drain handle_incoming housekeeping
round json r w =
    and_then (drain r.before r.controls w)
      (λ w'. and_then (handle_incoming json r.after r.incoming w') (housekeeping r.after))

unfoldable pub run : Json → List Round → Worker → Worker × Bool
unfolding round
run json [] w = (w, true)
run json (r ∷ rs) w =
    let (w', alive) = round json r w in
    let rest = run json rs w' in if alive then rest else (w', false)
