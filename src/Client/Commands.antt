-- ===== src/Client/Commands.antt =====
-- Commands on their way out: `queue_command`, `retransmit_pending`, `transmit_gamepad` and `tick`.
use robocol.Prelude.{
  ℕ, ◌+◌, Bool, true, false, not, List, [], ◌∷◌, ◌++◌, none, some, ◌==◌, leb, length, if◌then◌else◌,
}
use robocol.Wire.{Bytes}
use robocol.Types.{RobotState}
use robocol.Packets.Command.{Command}
use robocol.Packets.Gamepad.{Gamepad}
use robocol.Packets.Heartbeat
use robocol.Packets.PeerDiscovery
use robocol.Packets.Packet.{Packet}
use robocol.Client.State.{
  SocketAddr, Event, PendingCommand, Clock, Worker, emit, send_to, next_seq, is_due,
  max_pending_commands,
}

unfoldable pub stamped : Clock → Command → Command
stamped clk c = if c.timestamp == 0 then record c { timestamp = clk.nanos } else c

-- `self.pending.remove(0)`, with the event for it; the event's fate is ignored.
unfoldable pub drop_oldest : List PendingCommand → Worker → Worker
unfolding emit
drop_oldest [] w = w
drop_oldest (p ∷ ps) w = (emit (Event.command_dropped p.command.name) (record w { pending = ps })).0

unfoldable pub make_room : Worker → Worker
unfolding drop_oldest
make_room w = if leb max_pending_commands (length w.pending) then drop_oldest w.pending w else w

unfoldable pub push_pending : Command → Worker → Worker
push_pending c w = record w {
  pending = w.pending ++ (record { command = c; last_sent = none; attempts = 0 }) ∷ [];
}

unfoldable pub queue_command : Clock → Command → Worker → Worker
unfolding stamped make_room push_pending
queue_command clk c w = push_pending (stamped clk c) (make_room w)

-- What `retain_mut` leaves, what it copies for sending and the names that it gives up.
pub record Scan : Type 0 where
  pub kept : List PendingCommand
  pub to_send : List Command
  pub dropped : List Bytes

-- One entry: too early to send again, given up, or sent once more.
unfoldable pub scan_one : ℕ → ℕ → Clock → PendingCommand → Scan → Scan
unfolding is_due
scan_one retry max_attempts clk p rest =
    if not (is_due p.last_sent retry clk)
    then record rest { kept = p ∷ rest.kept }
    else if leb max_attempts p.attempts
    then record rest { dropped = p.command.name ∷ rest.dropped }
    else record rest {
      kept = (record p { attempts = p.attempts + 1; last_sent = some clk.now }) ∷ rest.kept;
      to_send = p.command ∷ rest.to_send;
    }

unfoldable pub scan : ℕ → ℕ → Clock → List PendingCommand → Scan
unfolding scan_one
scan retry max_attempts clk [] = record { kept = []; to_send = []; dropped = [] }
scan retry max_attempts clk (p ∷ ps) =
    scan_one retry max_attempts clk p (scan retry max_attempts clk ps)

unfoldable pub send_all : SocketAddr → List Command → Worker → Worker
unfolding next_seq send_to
send_all peer [] w = w
send_all peer (c ∷ cs) w =
    let w' = next_seq w in
    send_all peer cs (send_to peer (Packet.command (record c { seq = w'.seq })) w')

-- The first event that nobody takes ends the loop, and the worker with it.
unfoldable pub report_dropped : List Bytes → Worker → Worker × Bool
unfolding emit
report_dropped [] w = (w, true)
report_dropped (name ∷ names) w =
    let (w', alive) = emit (Event.command_dropped name) w in
    let rest = report_dropped names w' in if alive then rest else (w', false)

unfoldable pub retransmit_to : SocketAddr → Clock → Worker → Worker × Bool
unfolding scan send_all report_dropped
retransmit_to peer clk w =
    let s = scan w.cfg.command_retry_interval w.cfg.command_max_attempts clk w.pending in
    report_dropped s.dropped (send_all peer s.to_send (record w { pending = s.kept }))

unfoldable pub retransmit_pending : Clock → Worker → Worker × Bool
unfolding retransmit_to
retransmit_pending clk w = elim w.peer [ none ↦ (w, true) | some peer ↦ retransmit_to peer clk w ]

unfoldable pub transmit_to : SocketAddr → Clock → Gamepad → Worker → Worker
unfolding next_seq send_to
transmit_to peer clk g w =
    let w' = next_seq w in
    let g' = record g { seq = w'.seq } in
    send_to peer
      (Packet.gamepad (if g.timestamp == 0 then record g' { timestamp = clk.millis } else g')) w'

unfoldable pub transmit_gamepad : Clock → Gamepad → Worker → Worker
unfolding transmit_to
transmit_gamepad clk g w = elim w.peer [ none ↦ w | some peer ↦ transmit_to peer clk g w ]

unfoldable pub discover : List ℕ → ℕ → Worker → Worker
unfolding send_to
discover [] port w = w
discover (ip ∷ ips) port w =
    discover ips port
      (send_to (record { ip = ip; port = port }) (Packet.peer_discovery PeerDiscovery.default) w)

unfoldable pub beat : SocketAddr → Clock → Worker → Worker
unfolding next_seq send_to
beat peer clk w =
    let w' = next_seq w in
    send_to peer
      (Packet.heartbeat (record Heartbeat.default {
        seq = w'.seq;
        timestamp = clk.nanos;
        robot_state = RobotState.not_started;
        t0 = clk.millis;
      }))
      w'

unfoldable pub tick : Clock → Worker → Worker
unfolding discover beat
tick clk w = elim w.peer [
  | none ↦ if not w.discovering then w else discover w.cfg.peer_addrs w.cfg.peer_port w
  | some peer ↦ beat peer clk w
]
