-- ===== src/FakeRc/Run.antt =====
-- `main` of fake_rc/src/main.rs: a datagram that arrives, the gamepad, and one turn of the loop.
use robocol.Prelude.{
  ℕ, Bool, false, not, ◌&&◌, List, [], ◌∷◌, Option, none, some, Result, ok, err, panicked, ◌==◌,
  leb, take, if◌then◌else◌,
}
use robocol.Prelude.Text.{codes, bytes_eq}
use robocol.Wire.{Bytes}
use robocol.Types.{RobotState}
use robocol.Packets.Gamepad.{Gamepad}
use robocol.Packets.Heartbeat.{Heartbeat}
use robocol.Packets.PeerDiscovery
use robocol.Packets.PeerDiscovery.{PeerType}
use robocol.Packets.Packet.{Packet}
use robocol.Packets.Packet
use robocol.Client.State.{SocketAddr, Clock, addr_eq, elapsed, state_eq}
use robocol.FakeRc.Outside.{Outside}
use robocol.FakeRc.State.{FakeRc, held_against, next_seq, send_to}
use robocol.FakeRc.Commands.{handle_command}
use robocol.FakeRc.Ticks.{telemetry_tick, rc_battery_tick, crash_tick}

-- `rc.ds == Some(from)`.
unfoldable pub is_ds : SocketAddr → FakeRc → Bool
unfolding addr_eq
is_ds from rc = elim rc.ds [ none ↦ false | some ds ↦ addr_eq ds from ]

-- The other one of two words.
unfoldable pub toggle : Bytes → Bytes → Bytes → Bytes
toggle a b text = if bytes_eq text a then b else a

-- A button that was not held before toggles a choice.
unfoldable pub press_x : Gamepad → FakeRc → FakeRc
unfolding toggle
press_x g rc =
    if g.x && not rc.prev_x
    then record rc { alliance = toggle (codes "RED") (codes "BLUE") rc.alliance }
    else rc

unfoldable pub press_y : Gamepad → FakeRc → FakeRc
unfolding toggle
press_y g rc =
    if g.y && not rc.prev_y
    then record rc { start_position = toggle (codes "LEFT") (codes "RIGHT") rc.start_position }
    else rc

unfoldable pub handle_gamepad : Gamepad → FakeRc → FakeRc
unfolding state_eq press_x press_y
handle_gamepad g rc =
    if not (g.user == 1)
    then rc
    else record (if state_eq rc.state RobotState.init then press_y g (press_x g rc) else rc) {
      left_stick_y = g.left_stick_y;
      prev_x = g.x;
      prev_y = g.y;
    }

unfoldable pub handle_discovery : Clock → SocketAddr → FakeRc → FakeRc
unfolding held_against send_to
handle_discovery clk from rc =
    if held_against clk from rc
    then send_to from
        (Packet.peer_discovery (record PeerDiscovery.default {
          peer_type = PeerType.not_connected_due_to_preexisting_connection;
        }))
        rc
    else send_to from (Packet.peer_discovery PeerDiscovery.default) (record rc { ds = some from })

unfoldable pub echo_heartbeat : SocketAddr → Heartbeat → FakeRc → FakeRc
unfolding next_seq send_to
echo_heartbeat from hb rc =
    let rc' = next_seq rc in
    send_to from (Packet.heartbeat (record hb { robot_state = rc.state; seq = rc'.seq })) rc'

unfoldable pub handle_packet : Outside → Clock → Packet → SocketAddr → FakeRc → FakeRc
unfolding is_ds handle_gamepad handle_discovery echo_heartbeat handle_command
handle_packet out clk (Packet.peer_discovery p) from rc = handle_discovery clk from rc
handle_packet out clk (Packet.heartbeat hb) from rc =
    if is_ds from rc then echo_heartbeat from hb rc else rc
handle_packet out clk (Packet.command c) from rc =
    if is_ds from rc then handle_command out clk c rc else rc
handle_packet out clk (Packet.gamepad g) from rc = handle_gamepad g rc
handle_packet out clk p from rc = rc

unfoldable pub see : Clock → SocketAddr → FakeRc → FakeRc
unfolding is_ds
see clk from rc = if is_ds from rc then record rc { ds_seen = clk.now } else rc

-- What does not parse is only printed.
unfoldable pub dispatch : Outside → Clock → Result Packet → SocketAddr → FakeRc → FakeRc
unfolding handle_packet
dispatch out clk (ok p) from rc = handle_packet out clk p from rc
dispatch out clk (err e) from rc = rc
dispatch out clk panicked from rc = rc

-- A datagram, of which the buffer takes 4096 bytes.
unfoldable pub handle_datagram : Outside → Clock → Bytes → SocketAddr → FakeRc → FakeRc
unfolding dispatch see
handle_datagram out clk buf from rc =
    dispatch out clk (Packet.parse (take 4096 buf)) from (see clk from rc)

-- The controller, and the last ticks of the loop.
pub record Loop : Type 0 where
  pub rc : FakeRc
  pub last_telemetry : ℕ
  pub last_rc_battery : ℕ

unfoldable pub tick_telemetry : Outside → Clock → Loop → Loop
unfolding telemetry_tick
tick_telemetry out clk l =
    if leb 100_000_000 (elapsed clk l.last_telemetry)
    then record l { rc = telemetry_tick out clk l.rc; last_telemetry = clk.now }
    else l

unfoldable pub tick_rc_battery : Clock → Loop → Loop
unfolding rc_battery_tick
tick_rc_battery clk l =
    if leb 1_000_000_000 (elapsed clk l.last_rc_battery)
    then record l { rc = rc_battery_tick clk l.rc; last_rc_battery = clk.now }
    else l

-- What `recv_from` brings within its 25 ms: a datagram, or nothing.
unfoldable pub receive : Outside → Clock → Option (Bytes × SocketAddr) → FakeRc → FakeRc
unfolding handle_datagram
receive out clk none rc = rc
receive out clk (some (buf, from)) rc = handle_datagram out clk buf from rc

unfoldable pub turn : Outside → Clock → Option (Bytes × SocketAddr) → Loop → Loop
unfolding receive crash_tick tick_telemetry tick_rc_battery
turn out clk received l =
    tick_rc_battery clk
      (tick_telemetry out clk (record l { rc = crash_tick clk (receive out clk received l.rc) }))

-- The loop over the turns that a run takes.
unfoldable pub turns : Outside → List (Clock × Option (Bytes × SocketAddr)) → Loop → Loop
unfolding turn
turns out [] l = l
turns out ((clk, received) ∷ rest) l = turns out rest (turn out clk received l)
