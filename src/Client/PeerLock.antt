-- ===== src/Client/PeerLock.antt =====
-- The peer that the worker is locked to, over the datagrams that arrive.
use robocol.Prelude.{
  ◌≡◌, refl, ◌∙◌, Bool, true, false, List, [], ◌∷◌, none, some, Result, ok, err, panicked, arith,
  All, Bool-cases, inl, inr,
}
use robocol.Wire.{Bytes}
use robocol.Cmd.{Json}
use robocol.Cmd
use robocol.Types.{RobotState}
use robocol.Packets.Command.{Command, create, ack_of}
use robocol.Packets.Packet.{Packet}
use robocol.Packets.Packet
use robocol.Client.State.{
  SocketAddr, Event, Problem, Clock, Worker, addr_eq, emit, send_to, update_robot_state,
}
use robocol.Client.Receive.{
  handle_ack, retain_unacked, handle_request, handle_command, and_then, handle_packet, receive,
  decode_datagram, handle_datagram, is_frame, is_seen, remember,
}
use robocol.Client.Kept.{emit-Kept, queue_command-Kept, answer-Kept}

handle_request-peer :
    (json : Json) (clk : Clock) (c : Command) (from : SocketAddr) (w : Worker)
    → (handle_request json clk c from w).0.peer ≡ w.peer
unfolding handle_request send_to
handle_request-peer json clk c from w =
    let acked = send_to from (Packet.command (ack_of c)) w in
    elim (Bool-cases (is_frame c.name)) [
      | inl frame ↦ rw frame ((answer-Kept json clk c acked).0)
      | inr other ↦ elim (Bool-cases (is_seen c.name c.timestamp w.seen)) [
        | inl old ↦ rw (other, old) refl
        | inr new ↦
            rw (other, new)
              (answer-Kept json clk c
                (record acked { seen = remember c.name c.timestamp w.seen })).0
      ]
    ]

handle_command-peer :
    (json : Json) (clk : Clock) (c : Command) (from : SocketAddr) (w : Worker)
    → (handle_command json clk c from w).0.peer ≡ w.peer
unfolding handle_command handle_ack
handle_command-peer json clk c from w = ground (
  arith,
  handle_request-peer json clk c from w,
  queue_command-Kept clk (create Cmd.restart_robot [] 0)
      (record w { pending = retain_unacked c w.pending }),
)

update_robot_state-peer : (s : RobotState) (w : Worker) → (update_robot_state s w).0.peer ≡ w.peer
unfolding update_robot_state emit
update_robot_state-peer s w = ground arith

and_then-peer :
    (r : Worker × Bool) (f : Worker → Worker × Bool)
    → ((w : Worker) → (f w).0.peer ≡ w.peer)
    → (and_then r f).0.peer ≡ r.0.peer
and_then-peer (w, true) f h = h w
and_then-peer (w, false) f h = refl

handle_packet-peer :
    (json : Json) (clk : Clock) (p : Packet) (from : SocketAddr) (w : Worker)
    → (handle_packet json clk p from w).0.peer ≡ w.peer
unfolding handle_packet
handle_packet-peer json clk (Packet.heartbeat h) from w = update_robot_state-peer h.robot_state w
handle_packet-peer json clk (Packet.gamepad g) from w = refl
handle_packet-peer json clk (Packet.peer_discovery p) from w = refl
handle_packet-peer json clk (Packet.command c) from w = handle_command-peer json clk c from w
handle_packet-peer json clk (Packet.telemetry t) from w =
    and_then-peer (update_robot_state t.robot_state w) (emit (Event.telemetry t))
      (λ w'. (emit-Kept (Event.telemetry t) w').0)
    ∙ update_robot_state-peer t.robot_state w
handle_packet-peer json clk (Packet.keep_alive k) from w = refl

receive-peer :
    (json : Json) (clk : Clock) (p : Packet) (from peer : SocketAddr) (w : Worker)
    → w.peer ≡ some peer
    → (receive json clk p from w).0.peer ≡ some peer
unfolding receive
receive-peer json clk p from peer w locked = ground (arith, handle_packet-peer json clk p from w)

decode_datagram-peer :
    (json : Json) (clk : Clock) (buf : Bytes) (from peer : SocketAddr) (w : Worker)
    → w.peer ≡ some peer
    → (decode_datagram json clk buf from w).0.peer ≡ some peer
unfolding decode_datagram
decode_datagram-peer json clk buf from peer w locked = parsed (Packet.parse buf)
  where
    parsed :
        (r : Result Packet)
        → (elim r as (λ _. Worker × Bool) [
          | ok p ↦ receive json clk p from w
          | err e ↦ emit (Event.protocol_error (Problem.undecodable e)) w
          | panicked ↦ (w, false)
        ]).0.peer
          ≡ some peer
    parsed (ok p) = receive-peer json clk p from peer w locked
    parsed (err e) = (emit-Kept (Event.protocol_error (Problem.undecodable e)) w).0 ∙ locked
    parsed panicked = locked

abbrev pub datagrams : Json → Clock → List (Bytes × SocketAddr) → Worker → Worker
datagrams json clk [] w = w
datagrams json clk ((buf, from) ∷ rest) w =
    datagrams json clk rest (handle_datagram json clk buf from w).0

handle_datagram-peer :
    (json : Json) (clk : Clock) (buf : Bytes) (from peer : SocketAddr) (w : Worker)
    → w.peer ≡ some peer
    → (handle_datagram json clk buf from w).0.peer ≡ some peer
unfolding handle_datagram
handle_datagram-peer json clk buf from peer w locked = elim (Bool-cases (addr_eq peer from)) [
  | inl same ↦
      ground
        (arith, decode_datagram-peer json clk buf from peer (record w { last_rx = clk.now }) locked)
  | inr other ↦
      ground (arith, emit-Kept (Event.protocol_error (Problem.ignored_packet from peer)) w)
]

-- While the worker has a peer, no datagrams, from whatever addresses, take the peer away or replace it.
pub datagrams-peer :
    (json : Json) (clk : Clock) (ds : List (Bytes × SocketAddr)) (peer : SocketAddr) (w : Worker)
    → w.peer ≡ some peer
    → (datagrams json clk ds w).peer ≡ some peer
datagrams-peer json clk [] peer w locked = locked
datagrams-peer json clk ((buf, from) ∷ ds) peer w locked =
    datagrams-peer json clk ds peer (handle_datagram json clk buf from w).0
      (handle_datagram-peer json clk buf from peer w locked)

-- The state without what the host is told.
abbrev pub quiet : Worker → Worker
quiet w = record w { events = []; hangs_up = none }

stranger_step :
    (json : Json) (clk : Clock) (buf : Bytes) (from peer : SocketAddr) (w : Worker)
    → w.peer ≡ some peer
    → addr_eq peer from ≡ false
    → quiet (handle_datagram json clk buf from w).0 ≡ quiet w
unfolding handle_datagram emit
stranger_step json clk buf from peer w locked other = ground arith

-- While the worker has a peer, datagrams that all come from other addresses change nothing of its state but
-- the events for the host: no command is taken, nothing is answered and the clock of the timeout runs on.
pub datagrams-strangers :
    (json : Json) (clk : Clock) (ds : List (Bytes × SocketAddr)) (peer : SocketAddr) (w : Worker)
    → w.peer ≡ some peer
    → All (λ (d : Bytes × SocketAddr). addr_eq peer d.1 ≡ false) ds
    → quiet (datagrams json clk ds w) ≡ quiet w
datagrams-strangers json clk [] peer w locked others = refl
datagrams-strangers json clk ((buf, from) ∷ ds) peer w locked (other, others) =
    datagrams-strangers json clk ds peer (handle_datagram json clk buf from w).0
      (handle_datagram-peer json clk buf from peer w locked) others
    ∙ stranger_step json clk buf from peer w locked other
