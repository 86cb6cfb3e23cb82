-- ===== src/Client/Invariant/Receiving.antt =====
-- The invariant over `handle_datagram` and `handle_command`.
use robocol.Prelude.{
  ℕ, ◌≤◌, Bool, true, false, not, List, [], ◌∷◌, Option, none, some, Result, ok, err, panicked,
  arith, length, length-append, Option-cases, Bool-cases, inl, inr,
}
use robocol.Wire.{Bytes}
use robocol.Cmd
use robocol.Cmd.{Json}
use robocol.Packets.Command.{Command, create, ack_of}
use robocol.Packets.Packet.{Packet}
use robocol.Packets.Packet
use robocol.Client.State.{
  SocketAddr, Event, Problem, Clock, PendingCommand, Worker, emit, addr_eq, send_to,
  update_robot_state,
}
use robocol.Client.Receive.{
  retain_unacked, handle_ack, is_seen, is_frame, remember, notice, webcam_command, dispatch,
  emit_option, handle_request, handle_command, and_then, handle_packet, is_busy, greet, adopt,
  receive, decode_datagram, handle_datagram,
}
use robocol.Client.Invariant.{
  IsValid, emit-IsValid, update_robot_state-IsValid, send_to-IsValid, keep_pending,
  queue_command-IsValid,
}
use robocol.Client.Invariant.Webcam.{
  handle_stream_change-IsValid, handle_frame_begin-IsValid, handle_frame_chunk-IsValid,
}

length-retain_unacked :
    (ack : Command) (ps : List PendingCommand) → length (retain_unacked ack ps) ≤ length ps
unfolding retain_unacked
length-retain_unacked ack [] = omega arith
length-retain_unacked ack (p ∷ ps) = ground (arith, length-retain_unacked ack ps)

handle_ack-IsValid :
    (clk : Clock) (c : Command) (w : Worker) → IsValid w → IsValid (handle_ack clk c w)
unfolding handle_ack
handle_ack-IsValid clk c w v = ground (
  arith,
  length-retain_unacked c w.pending,
  keep_pending w (retain_unacked c w.pending) v,
  queue_command-IsValid clk (create Cmd.restart_robot [] 0)
      (record w { pending = retain_unacked c w.pending }),
)

length-remember :
    (name : Bytes) (t : ℕ) (seen : List (Bytes × ℕ))
    → length seen ≤ 64
    → length (remember name t seen) ≤ 64
unfolding remember
length-remember name t [] h = ground arith
length-remember name t (x ∷ xs) h = ground (arith, length-append xs ((name, t) ∷ []))

webcam_command-IsValid :
    (json : Json) (clk : Clock) (c : Command) (w : Worker)
    → IsValid w
    → IsValid (webcam_command json clk c w).0
unfolding webcam_command
webcam_command-IsValid json clk c w v = ground (
  arith,
  handle_stream_change-IsValid clk c.extra w v,
  handle_frame_begin-IsValid json c.extra w v,
  handle_frame_chunk-IsValid json clk c.extra w v,
)

dispatch-IsValid :
    (json : Json) (clk : Clock) (c : Command) (w : Worker)
    → IsValid w
    → IsValid (dispatch json clk c w).0
unfolding dispatch
dispatch-IsValid json clk c w v = elim (Option-cases (notice json c)) [
  | inl e ↦ rw (e, dispatch) (webcam_command-IsValid json clk c w v)
  | inr (n, e) ↦ rw (e, dispatch) v
]

emit_option-IsValid : (r : Worker × Option Event) → IsValid r.0 → IsValid (emit_option r).0
emit_option-IsValid (w, none) v = v
emit_option-IsValid (w, some e) v = emit-IsValid e w v

handle_request-IsValid :
    (json : Json) (clk : Clock) (c : Command) (from : SocketAddr) (w : Worker)
    → IsValid w
    → IsValid (handle_request json clk c from w).0
unfolding handle_request
handle_request-IsValid json clk c from w v = elim (Bool-cases (is_frame c.name)) [
  | inl e ↦
      rw e (emit_option-IsValid (dispatch json clk c acked) (dispatch-IsValid json clk c acked va))
  | inr n ↦ elim (Bool-cases (is_seen c.name c.timestamp acked.seen)) [
    | inl s ↦ rw (n, s) va
    | inr s ↦
        rw (n, s)
          (emit_option-IsValid (dispatch json clk c new) (dispatch-IsValid json clk c new vn))
  ]
]
  where
    acked : Worker
    acked = send_to from (Packet.command (ack_of c)) w

    va : IsValid acked
    va = send_to-IsValid from (Packet.command (ack_of c)) w v

    new : Worker
    new = record acked { seen = remember c.name c.timestamp acked.seen }

    vn : IsValid new
    vn = ground (arith, length-remember c.name c.timestamp acked.seen va.seen_bounded)

handle_command-IsValid :
    (json : Json) (clk : Clock) (c : Command) (from : SocketAddr) (w : Worker)
    → IsValid w
    → IsValid (handle_command json clk c from w).0
unfolding handle_command
handle_command-IsValid json clk c from w v =
    ground (arith, handle_ack-IsValid clk c w v, handle_request-IsValid json clk c from w v)

pub and_then-IsValid :
    (r : Worker × Bool) (f : Worker → Worker × Bool)
    → IsValid r.0
    → ((w : Worker) → IsValid w → IsValid (f w).0)
    → IsValid (and_then r f).0
and_then-IsValid (w, false) f v k = v
and_then-IsValid (w, true) f v k = k w v

handle_packet-IsValid :
    (json : Json) (clk : Clock) (p : Packet) (from : SocketAddr) (w : Worker)
    → IsValid w
    → IsValid (handle_packet json clk p from w).0
unfolding handle_packet
handle_packet-IsValid json clk (Packet.heartbeat h) from w v =
    update_robot_state-IsValid h.robot_state w v
handle_packet-IsValid json clk (Packet.gamepad g) from w v = v
handle_packet-IsValid json clk (Packet.peer_discovery p) from w v = v
handle_packet-IsValid json clk (Packet.command c) from w v =
    handle_command-IsValid json clk c from w v
handle_packet-IsValid json clk (Packet.telemetry t) from w v =
    and_then-IsValid (update_robot_state t.robot_state w) (emit (Event.telemetry t))
      (update_robot_state-IsValid t.robot_state w v) (emit-IsValid (Event.telemetry t))
handle_packet-IsValid json clk (Packet.keep_alive k) from w v = v

greet-IsValid : (clk : Clock) (w : Worker) → IsValid w → IsValid (greet clk w)
unfolding greet
greet-IsValid clk w v = queue_command-IsValid clk (create Cmd.request_op_mode_list [] 0) _ (
    queue_command-IsValid clk (create Cmd.request_configurations [] 0) _
      (queue_command-IsValid clk (create Cmd.request_active_config [] 0) w v))

with_peer : (w : Worker) (o : Option SocketAddr) → IsValid w → IsValid (record w { peer = o })
with_peer w o v = ground arith

pub with_discovering : (w : Worker) (b : Bool) → IsValid w → IsValid (record w { discovering = b })
with_discovering w b v = ground arith

adopt-IsValid :
    (json : Json) (clk : Clock) (p : Packet) (from : SocketAddr) (w : Worker)
    → IsValid w
    → IsValid (adopt json clk p from w).0
unfolding adopt
adopt-IsValid json clk p from w v = elim (Bool-cases (is_busy p)) [
  | inl e ↦ rw e (emit-IsValid (Event.peer_busy from) _ (with_discovering w false v))
  | inr e ↦ rw e (
      and_then-IsValid (emit (Event.connected from) (record w { peer = some from }))
        (λ w'. handle_packet json clk p from (greet clk w'))
        (emit-IsValid (Event.connected from) _ (with_peer w (some from) v))
        (λ u vu. handle_packet-IsValid json clk p from (greet clk u) (greet-IsValid clk u vu)))
]

receive-IsValid :
    (json : Json) (clk : Clock) (p : Packet) (from : SocketAddr) (w : Worker)
    → IsValid w
    → IsValid (receive json clk p from w).0
unfolding receive
receive-IsValid json clk p from w v = elim (Option-cases w.peer) [
  | inl e ↦ rw (e, receive) (adopt-IsValid json clk p from w v)
  | inr (q, e) ↦ rw (e, receive) (handle_packet-IsValid json clk p from w v)
]

decode_datagram-IsValid :
    (json : Json) (clk : Clock) (buf : Bytes) (from : SocketAddr) (w : Worker)
    → IsValid w
    → IsValid (decode_datagram json clk buf from w).0
unfolding decode_datagram
decode_datagram-IsValid json clk buf from w v = go (Packet.parse buf)
  where
    go :
        (r : Result Packet)
        → IsValid
            (elim r as (λ _. Worker × Bool) [
              | ok p ↦ receive json clk p from w
              | err e ↦ emit (Event.protocol_error (Problem.undecodable e)) w
              | panicked ↦ (w, false)
            ]).0
    go (ok p) = receive-IsValid json clk p from w v
    go (err e) = emit-IsValid (Event.protocol_error (Problem.undecodable e)) w v
    go panicked = v

with_last_rx : (w : Worker) (t : ℕ) → IsValid w → IsValid (record w { last_rx = t })
with_last_rx w t v = ground arith

pub handle_datagram-IsValid :
    (json : Json) (clk : Clock) (buf : Bytes) (from : SocketAddr) (w : Worker)
    → IsValid w
    → IsValid (handle_datagram json clk buf from w).0
unfolding handle_datagram
handle_datagram-IsValid json clk buf from w v = elim (Option-cases w.peer) [
  | inl e ↦ elim (Bool-cases (not w.discovering)) [
    | inl d ↦ rw (e, handle_datagram, d) v
    | inr d ↦
        rw (e, handle_datagram, d)
          (decode_datagram-IsValid json clk buf from _ (with_last_rx w clk.now v))
  ]
  | inr (q, e) ↦ elim (Bool-cases (not (addr_eq q from))) [
    | inl d ↦ rw (e, handle_datagram, d) (emit-IsValid _ w v)
    | inr d ↦
        rw (e, handle_datagram, d)
          (decode_datagram-IsValid json clk buf from _ (with_last_rx w clk.now v))
  ]
]
