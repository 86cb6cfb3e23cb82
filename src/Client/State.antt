-- ===== src/Client/State.antt =====
-- The worker's state, its two outputs (datagrams sent, events raised) and the methods that touch little.
-- `Instant`s and `Duration`s are nanoseconds; a reading of the clocks is an argument.
use robocol.Prelude.{
  ℕ, zero, suc, ◌+◌, ◌-◌, ◌*◌, ◌%◌, ◌^◌, Bool, true, false, ◌&&◌, List, [], ◌∷◌, ◌++◌, Option, none,
  some, Error, ◌==◌, leb, if◌then◌else◌,
}
use robocol.Wire.{Bytes}
use robocol.Types.{RobotState}
use robocol.Cmd.{OpModeMeta}
use robocol.Packets.Command.{Command}
use robocol.Packets.Telemetry.{Telemetry}
use robocol.Packets.Packet.{Packet}

-- An IP address is a number; a socket address has a port too.
pub record SocketAddr : Type 0 where
  pub ip : ℕ
  pub port : ℕ

unfoldable pub addr_eq : SocketAddr → SocketAddr → Bool
addr_eq a b = (a.ip == b.ip) && (a.port == b.port)

pub record ClientConfig : Type 0 where
  pub bind_port : ℕ
  pub peer_addrs : List ℕ
  pub peer_port : ℕ
  pub heartbeat_interval : ℕ
  pub disconnect_timeout : ℕ
  pub command_retry_interval : ℕ
  pub command_max_attempts : ℕ
  pub webcam_min_frame_interval : ℕ

-- The reasons that `ProtocolError` puts into words.
pub data Problem : Type 0 where
  socket_recv_failed : Problem
  ignored_packet : SocketAddr → SocketAddr → Problem
  undecodable : Error → Problem

pub data Event : Type 0 where
  connected : SocketAddr → Event
  disconnected : Event
  peer_busy : SocketAddr → Event
  robot_state : RobotState → Event
  telemetry : Telemetry → Event
  op_mode_list : List OpModeMeta → Event
  op_mode_inited : Bytes → Event
  op_mode_running : Bytes → Event
  active_configuration : Bytes → Event
  configuration_list : Bytes → Event
  configuration : Bytes → Event
  user_device_list : Bytes → Event
  scan_result : Bytes → Event
  lynx_modules : Bytes → Event
  stacktrace : Bytes → Event
  command : Bytes → Bytes → Event
  command_dropped : Bytes → Event
  protocol_error : Problem → Event
  webcam_available : Bool → Event
  webcam_frame : Bytes → Event

pub record PendingCommand : Type 0 where
  pub command : Command
  pub last_sent : Option ℕ
  pub attempts : ℕ

pub record PartialFrame : Type 0 where
  pub content : Bytes
  pub received : List Bool
  pub remaining : ℕ

abbrev pub max_concurrent_frames : ℕ
max_concurrent_frames = 5

abbrev pub max_pending_commands : ℕ
max_pending_commands = 64

abbrev pub max_frame_bytes : ℕ
max_frame_bytes = 16 * 1024 * 1024

abbrev pub webcam_stall_timeout : ℕ
webcam_stall_timeout = 500_000_000

-- One reading: the monotonic clock, and the wall clock in nanoseconds and in milliseconds.
pub record Clock : Type 0 where
  pub now : ℕ
  pub nanos : ℕ
  pub millis : ℕ

-- `sent` logs each datagram as its destination and the packet that was serialized into it. `events` is
-- what the channel took. `hangs_up` says how many more events it takes before the receiver is dropped.
pub record Worker : Type 0 where
  pub cfg : ClientConfig
  pub peer : Option SocketAddr
  pub discovering : Bool
  pub robot_state : Option RobotState
  pub last_rx : ℕ
  pub last_beat : Option ℕ
  pub seq : ℕ
  pub pending : List PendingCommand
  pub seen : List (Bytes × ℕ)
  pub webcam_available : Bool
  pub webcam_frames : List (ℕ × PartialFrame)
  pub webcam_pending_request : Bool
  pub last_webcam_request : Option ℕ
  pub sent : List (SocketAddr × Packet)
  pub events : List Event
  pub hangs_up : Option ℕ

-- The fields that `RobocolClient::start` gives the worker.
unfoldable pub start : ClientConfig → Option ℕ → Clock → Worker
start cfg hangs_up clk = record {
  cfg = cfg;
  peer = none;
  discovering = true;
  robot_state = none;
  last_rx = clk.now;
  last_beat = none;
  seq = 0;
  pending = [];
  seen = [];
  webcam_available = false;
  webcam_frames = [];
  webcam_pending_request = false;
  last_webcam_request = none;
  sent = [];
  events = [];
  hangs_up = hangs_up;
}

-- `self.events.send(event).is_ok()`.
unfoldable pub emit : Event → Worker → Worker × Bool
emit e w = elim w.hangs_up [
  | none ↦ (record w { events = w.events ++ e ∷ [] }, true)
  | some zero ↦ (w, false)
  | some (suc n) ↦ (record w { events = w.events ++ e ∷ []; hangs_up = some n }, true)
]

-- `let _ = self.socket.send_to(…)`.
unfoldable pub send_to : SocketAddr → Packet → Worker → Worker
send_to addr p w = record w { sent = w.sent ++ (addr, p) ∷ [] }

-- `self.seq.wrapping_add(1)`, which is then the sequence number.
unfoldable pub next_seq : Worker → Worker
next_seq w = record w { seq = (w.seq + 1) % 2 ^ 16 }

unfoldable pub drop_peer : Worker → Worker
drop_peer w = record w {
  peer = none;
  robot_state = none;
  pending = [];
  seen = [];
  webcam_frames = [];
  webcam_available = false;
  webcam_pending_request = false;
}

-- `t.elapsed()`: an `Instant` that is not yet reached counts as 0.
abbrev pub elapsed : Clock → ℕ → ℕ
elapsed clk t = clk.now - t

-- `last.is_none_or(|t| t.elapsed() >= interval)`.
unfoldable pub is_due : Option ℕ → ℕ → Clock → Bool
is_due none interval clk = true
is_due (some t) interval clk = leb interval (elapsed clk t)

unfoldable pub state_eq : RobotState → RobotState → Bool
state_eq RobotState.unknown RobotState.unknown = true
state_eq RobotState.not_started RobotState.not_started = true
state_eq RobotState.init RobotState.init = true
state_eq RobotState.running RobotState.running = true
state_eq RobotState.stopped RobotState.stopped = true
state_eq RobotState.emergency_stop RobotState.emergency_stop = true
state_eq a b = false

-- `self.robot_state == Some(state)`.
unfoldable pub is_state : Option RobotState → RobotState → Bool
unfolding state_eq
is_state none s = false
is_state (some r) s = state_eq r s

unfoldable pub update_robot_state : RobotState → Worker → Worker × Bool
unfolding emit is_state
update_robot_state s w =
    if is_state w.robot_state s
    then (w, true)
    else emit (Event.robot_state s) (record w { robot_state = some s })
