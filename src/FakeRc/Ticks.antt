-- ===== src/FakeRc/Ticks.antt =====
-- What the simulated controller sends of its own accord: `telemetry_tick`, `push_field_demo`,
-- `rc_battery_tick` and `crash_tick`.
use robocol.Prelude.{
  ℕ, zero, suc, ◌+◌, Bool, true, false, not, ◌||◌, List, [], ◌∷◌, ◌++◌, Option, none, some, ltb,
  if◌then◌else◌,
}
use robocol.Prelude.Text.{codes, bytes_eq}
use robocol.Wire.{Bytes}
use robocol.Types.{RobotState}
use robocol.Cmd
use robocol.Packets.Telemetry.{Telemetry, insert, push_line}
use robocol.Packets.Packet.{Packet}
use robocol.Client.State.{Clock, elapsed, state_eq}
use robocol.FakeRc.Outside.{pos, Floats, Outside}
use robocol.FakeRc.Canned.{crash_stacktrace}
use robocol.FakeRc.State.{FakeRc, next_seq, send, send_command, uptime}
use robocol.FakeRc.Webcam.{set_webcam_available}

abbrev pub crash_opmode : Bytes
crash_opmode = codes "Crash Test"

abbrev pub crash_delay : ℕ
crash_delay = 2_000_000_000

abbrev pub battery_level_key : Bytes
battery_level_key = codes "$Robot$Battery$Level$"

abbrev pub system_key_prefix : Bytes
system_key_prefix = codes "$System$"

abbrev pub rc_battery_status_key : Bytes
rc_battery_status_key = codes "$RobotController$Battery$Status$"

-- ` x={x:.1} y={y:.1}`.
unfoldable pub at_point : Floats → ℕ → ℕ → Bytes
at_point f x y = codes " x=" ++ f.fixed 1 x ++ codes " y=" ++ f.fixed 1 y

-- The game pieces from number `i` on, `n` of them.
unfoldable pub push_pieces : Floats → ℕ → ℕ → ℕ → Telemetry → Telemetry
unfolding push_line at_point
push_pieces f time zero i t = t
push_pieces f time (suc n) i t =
    let phase = f.add (f.mul time (f.literal 3 1)) (f.mul (f.of_int (pos i)) (f.literal 16 1)) in
    let x = f.add (f.literal 720 1) (f.mul (f.literal 550 1) (f.cos phase)) in
    let y =
      f.add (f.literal 720 1) (f.mul (f.literal 550 1) (f.sin (f.mul phase (f.literal 7 1)))) in
    let h = f.rem (f.to_degrees phase) (f.literal 3600 1) in
    push_pieces f time n (i + 1) (
      push_line t
        (codes "#f point \"Game Pieces\"" ++ at_point f x y ++ codes " h=" ++ f.fixed 1 h))

unfoldable pub push_field_demo : Floats → ℕ → Telemetry → Telemetry
unfolding push_line at_point push_pieces
push_field_demo f time t =
    let angle = f.mul time (f.literal 4 1) in
    let x = f.add (f.literal 720 1) (f.mul (f.literal 400 1) (f.cos angle)) in
    let y = f.add (f.literal 720 1) (f.mul (f.literal 400 1) (f.sin angle)) in
    let heading = f.rem (f.to_degrees angle) (f.literal 3600 1) in
    let dx = f.mul (f.neg (f.literal 180 1)) (f.sin angle) in
    let dy = f.mul (f.literal 180 1) (f.cos angle) in
    let robot = codes "#f robot Robot" ++ at_point f x y ++ codes " h=" ++ f.fixed 1 heading in
    let velocity =
      codes "#f vec Velocity"
      ++ at_point f x y
      ++ codes " dx="
      ++ f.fixed 1 dx
      ++ codes " dy="
      ++ f.fixed 1 dy
      ++ codes " unit=in/s" in
    let t = push_line t robot in
    let t = push_line t (codes "#f zone Launch pts=0,0;48,0;48,24;0,24") in
    let t = push_line t (codes "#f zone Depot pts=96,120;144,120;144,144;96,144") in
    push_pieces f time 4 0 (push_line t velocity)

unfoldable pub init_lines : FakeRc → Telemetry → Telemetry
unfolding push_line
init_lines rc t =
    push_line
      (push_line
        (push_line (push_line t (codes "00 OpMode : " ++ rc.opmode))
          (codes "01 Alliance : " ++ rc.alliance))
        (codes "02 Start Position : " ++ rc.start_position))
      (codes "03 Hint : X toggles alliance, Y toggles start")

-- `a + b * (elapsed * c).sin()`.
unfoldable pub wave : Floats → ℕ → ℕ → ℕ → ℕ → ℕ
wave f time a b c = f.add a (f.mul b (f.sin (f.mul time c)))

unfoldable pub driving_numbers : Floats → ℕ → FakeRc → List (Bytes × ℕ) → List (Bytes × ℕ)
unfolding insert wave
driving_numbers f time rc m =
    let m =
      insert (codes "flywheel_rpm")
        (wave f time (f.literal 28000 1) (f.literal 3000 1) (f.literal 20 1)) m in
    let m = insert (codes "target_rpm") (f.literal 30000 1) m in
    let m =
      insert (codes "heading_deg")
        (f.sub (f.rem (f.mul time (f.literal 250 1)) (f.literal 3600 1)) (f.literal 1800 1)) m in
    let m =
      insert (codes "drive_power") (wave f time (f.literal 5 1) (f.literal 5 1) (f.literal 7 1))
        m in
    insert (codes "left_stick_y") rc.left_stick_y m

unfoldable pub driving : Floats → ℕ → FakeRc → Telemetry → Telemetry
unfolding push_line driving_numbers wave push_field_demo
driving f time rc t =
    let t = push_line t (codes "State : DRIVING") in
    let t = record t { numbers = driving_numbers f time rc t.numbers } in
    push_field_demo f time (
      push_line t (
        codes "Servo Bus Current : "
        ++ f.fixed 2 (wave f time (f.literal 16 1) (f.literal 8 1) (f.literal 13 1))
        ++ codes " A"))

unfoldable pub op_mode_lines : Floats → ℕ → FakeRc → RobotState → Telemetry → Telemetry
unfolding init_lines driving
op_mode_lines f time rc RobotState.init t = init_lines rc t
op_mode_lines f time rc RobotState.running t = driving f time rc t
op_mode_lines f time rc s t = t

-- The telemetry that a tick sends, before the lines of the op mode.
unfoldable pub base_telemetry : Floats → ℕ → Clock → FakeRc → Telemetry
unfolding uptime
base_telemetry f time clk rc = record {
  seq = rc.seq;
  timestamp = uptime clk rc;
  is_sorted = true;
  robot_state = rc.state;
  tag = codes "TELEMETRY_DATA";
  strings =
      (battery_level_key, f.fixed 2 (f.sub (f.literal 128 1) (f.mul time (f.literal 5 4))))
      ∷ (system_key_prefix ++ codes "i2c", codes "1 device on the I2C bus")
      ∷ [];
  numbers = [];
}

unfoldable pub telemetry_tick : Outside → Clock → FakeRc → FakeRc
unfolding next_seq send base_telemetry op_mode_lines
telemetry_tick out clk rc =
    let rc' = next_seq rc in
    let f = out.floats in
    let time = f.seconds (elapsed clk rc.started) in
    send (Packet.telemetry (op_mode_lines f time rc' rc'.state (base_telemetry f time clk rc'))) rc'

unfoldable pub rc_battery_tick : Clock → FakeRc → FakeRc
unfolding next_seq send uptime
rc_battery_tick clk rc =
    let rc' = next_seq rc in
    send
      (Packet.telemetry (record {
        seq = rc'.seq;
        timestamp = uptime clk rc';
        is_sorted = true;
        robot_state = rc'.state;
        tag = rc_battery_status_key;
        strings = (rc_battery_status_key, codes "100.0|true") ∷ [];
        numbers = [];
      }))
      rc'

-- `is_none_or(|t| t.elapsed() < CRASH_DELAY)`.
unfoldable pub not_yet : Option ℕ → Clock → Bool
not_yet none clk = true
not_yet (some t) clk = ltb (elapsed clk t) crash_delay

-- What a crash does.
unfoldable pub crash : Clock → FakeRc → FakeRc
unfolding send_command set_webcam_available
crash clk rc =
    let shown =
      send_command clk Cmd.show_stacktrace crash_stacktrace (record rc { run_started = none }) in
    send_command clk Cmd.notify_init_op_mode Cmd.default_op_mode
      (set_webcam_available clk false (record shown { state = RobotState.stopped; opmode = [] }))

unfoldable pub crash_tick : Clock → FakeRc → FakeRc
unfolding state_eq not_yet crash
crash_tick clk rc =
    if not (bytes_eq rc.opmode crash_opmode) || not (state_eq rc.state RobotState.running)
    then rc
    else if not_yet rc.run_started clk
    then rc
    else crash clk rc
