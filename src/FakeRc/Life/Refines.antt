-- ===== src/FakeRc/Life/Refines.antt =====
-- The methods of the simulated controller as steps of the machine, up to a run of the main loop.
use robocol.Prelude.{
  ◌≡◌, refl, sym, subst, ◌∙◌, Bool, true, false, if◌then◌else◌, List, [], ◌∷◌, ◌++◌, Option, none,
  some, Result, ok, err, panicked, arith, Bool-cases, inl, inr, take,
}
use robocol.Prelude.Text.{bytes_eq, bytes_eq_iff}
use robocol.Wire.{Bytes}
use robocol.Types.{RobotState}
use robocol.Cmd
use robocol.Packets.Command.{Command, ack_of}
use robocol.Packets.Packet.{Packet}
use robocol.Packets.Packet
use robocol.Client.State.{SocketAddr, Clock, state_eq}
use robocol.FakeRc.Outside.{Outside}
use robocol.FakeRc.Canned.{opmodes}
use robocol.FakeRc.State.{FakeRc, send}
use robocol.FakeRc.Commands.{
  init_op_mode, run_op_mode, restart_robot, request_frame, config_command, obey, handle_command,
}
use robocol.FakeRc.Ticks
use robocol.FakeRc.Ticks.{crash_opmode, crash_tick}
use robocol.FakeRc.Run.{
  Loop, dispatch, handle_packet, handle_datagram, see, is_ds, receive, turn, turns, tick_telemetry,
  tick_rc_battery,
}
use robocol.FakeRc.Life.{Life, life, IsRequest, Step, Reach, told_in, told_over}
use robocol.FakeRc.Life.Quiet.{
  send-life, send_command-life, set_webcam_available-life, send_webcam_frame-life,
  notify_active-life, save_configuration-life, delete_configuration-life,
  activate_configuration-life, apply_activation-life, telemetry_tick-life, rc_battery_tick-life,
  handle_gamepad-life, handle_discovery-life, echo_heartbeat-life, see-life,
}

stays : (cs : List Command) {k l : Life} → l ≡ k → Reach cs k l
stays [] {k = k} e = subst (λ l. Reach [] k l) (sym e) Reach.here
stays (c ∷ cs) e = Reach.ignored (stays cs e)

one : {c : Command} {k l m : Life} → Step (some c) k l → m ≡ l → Reach (c ∷ []) k m
one s e = Reach.told s (stays [] e)

pub Reach-trans :
    {cs ds : List Command} {k l m : Life} → Reach cs k l → Reach ds l m → Reach (cs ++ ds) k m
Reach-trans Reach.here r = r
Reach-trans (Reach.told s q) r = Reach.told s (Reach-trans q r)
Reach-trans (Reach.ignored q) r = Reach.ignored (Reach-trans q r)
Reach-trans (Reach.alone s q) r = Reach.alone s (Reach-trans q r)

-- Steps that no command asks for, at the end.
Reach-quiet : {cs : List Command} {k l m : Life} → Reach cs k l → Reach [] l m → Reach cs k m
Reach-quiet Reach.here r = r
Reach-quiet (Reach.told s q) r = Reach.told s (Reach-quiet q r)
Reach-quiet (Reach.ignored q) r = Reach.ignored (Reach-quiet q r)
Reach-quiet (Reach.alone s q) r = Reach.alone s (Reach-quiet q r)

-- From a state that looks the same.
from_same : {cs : List Command} {k l m : Life} → l ≡ k → Reach cs l m → Reach cs k m
from_same {cs = cs} {m = m} e r = subst (λ k. Reach cs k m) e r

init_op_mode-Reach :
    (clk : Clock) (c : Command) (rc : FakeRc)
    → IsRequest Cmd.init_op_mode c
    → Reach (c ∷ []) (life rc) (life (init_op_mode clk c.extra rc))
unfolding init_op_mode
init_op_mode-Reach clk c rc asked = elim (Bool-cases (bytes_eq c.extra Cmd.default_op_mode)) [
  | inl stop ↦
      one (Step.stop c asked ((bytes_eq_iff c.extra Cmd.default_op_mode).0 stop))
        (rw stop (grind (arith, send_command-life, set_webcam_available-life)))
  | inr other ↦
      one (Step.select c asked (λ e. ground (arith, bytes_eq_iff c.extra Cmd.default_op_mode)))
        (rw other (grind (arith, send_command-life, set_webcam_available-life)))
]

run_op_mode-Reach :
    (clk : Clock) (c : Command) (rc : FakeRc)
    → IsRequest Cmd.run_op_mode c
    → Reach (c ∷ []) (life rc) (life (run_op_mode clk c.extra rc))
unfolding run_op_mode
run_op_mode-Reach clk c rc asked = one (Step.run c asked) (grind (arith, send_command-life))

restart_robot-Reach :
    (out : Outside) (clk : Clock) (c : Command) (rc : FakeRc)
    → IsRequest Cmd.restart_robot c
    → Reach (c ∷ []) (life rc) (life (restart_robot out clk rc))
unfolding restart_robot
restart_robot-Reach out clk c rc asked =
    one (Step.restart c asked) (grind (arith, apply_activation-life, set_webcam_available-life))

config_command-life :
    (out : Outside) (clk : Clock) (c : Command) (rc : FakeRc)
    → life (config_command out clk c rc) ≡ life rc
unfolding config_command
config_command-life out clk c rc = grind (
  arith, notify_active-life, send_command-life, activate_configuration-life,
  save_configuration-life, delete_configuration-life,
)

request_frame-life :
    (out : Outside) (clk : Clock) (rc : FakeRc) → life (request_frame out clk rc) ≡ life rc
unfolding request_frame
request_frame-life out clk rc = ground (arith, send_webcam_frame-life out clk rc)

obey-Reach :
    (out : Outside) (clk : Clock) (c : Command) (rc : FakeRc)
    → c.acknowledged ≡ false
    → Reach (c ∷ []) (life rc) (life (obey out clk c rc))
unfolding obey
obey-Reach out clk c rc new = elim (Bool-cases (bytes_eq c.name Cmd.request_op_mode_list)) [
  | inl a ↦ rw a (stays (c ∷ []) (send_command-life clk Cmd.notify_op_mode_list opmodes rc))
  | inr a ↦ elim (Bool-cases (bytes_eq c.name Cmd.init_op_mode)) [
    | inl b ↦ rw (a, b) (init_op_mode-Reach clk c rc (asked Cmd.init_op_mode b))
    | inr b ↦ elim (Bool-cases (bytes_eq c.name Cmd.run_op_mode)) [
      | inl d ↦ rw (a, b, d) (run_op_mode-Reach clk c rc (asked Cmd.run_op_mode d))
      | inr d ↦ elim (Bool-cases (bytes_eq c.name Cmd.restart_robot)) [
        | inl e ↦ rw (a, b, d, e) (restart_robot-Reach out clk c rc (asked Cmd.restart_robot e))
        | inr e ↦
            stays (c ∷ [])
              (ground (arith, request_frame-life out clk rc, config_command-life out clk c rc))
      ]
    ]
  ]
]
  where
    asked : (name : Bytes) → bytes_eq c.name name ≡ true → IsRequest name c
    asked name h = record { named = (bytes_eq_iff c.name name).0 h; new = new }

unless_Reach :
    {cs : List Command} {k : Life} (b : Bool) (p q : FakeRc)
    → Reach cs k (life p)
    → (b ≡ false → Reach cs k (life q))
    → Reach cs k (life (if b then p else q))
unless_Reach true p q h later = h
unless_Reach false p q h later = later refl

handle_command-Reach :
    (out : Outside) (clk : Clock) (c : Command) (rc : FakeRc)
    → Reach (c ∷ []) (life rc) (life (handle_command out clk c rc))
unfolding handle_command
handle_command-Reach out clk c rc = unless_Reach c.acknowledged _ _ (stays (c ∷ []) refl) (λ new.
    from_same (send-life (Packet.command (ack_of c)) rc)
      (obey-Reach out clk c (send (Packet.command (ack_of c)) rc) new))

handle_packet-Reach :
    (out : Outside) (clk : Clock) (p : Packet) (from : SocketAddr) (rc : FakeRc)
    → Reach (told_in (ok p)) (life rc) (life (handle_packet out clk p from rc))
unfolding handle_packet
handle_packet-Reach out clk (Packet.peer_discovery p) from rc =
    stays [] (handle_discovery-life clk from rc)
handle_packet-Reach out clk (Packet.heartbeat hb) from rc =
    stays [] (ground (arith, echo_heartbeat-life from hb rc))
handle_packet-Reach out clk (Packet.command c) from rc = elim (Bool-cases (is_ds from rc)) [
  | inl ds ↦ rw ds (handle_command-Reach out clk c rc)
  | inr other ↦ rw other (stays (c ∷ []) refl)
]
handle_packet-Reach out clk (Packet.gamepad g) from rc = stays [] (handle_gamepad-life g rc)
handle_packet-Reach out clk (Packet.telemetry t) from rc = Reach.here
handle_packet-Reach out clk (Packet.keep_alive k) from rc = Reach.here

dispatch-Reach :
    (out : Outside) (clk : Clock) (r : Result Packet) (from : SocketAddr) (rc : FakeRc)
    → Reach (told_in r) (life rc) (life (dispatch out clk r from rc))
unfolding dispatch
dispatch-Reach out clk (ok p) from rc = handle_packet-Reach out clk p from rc
dispatch-Reach out clk (err e) from rc = Reach.here
dispatch-Reach out clk panicked from rc = Reach.here

handle_datagram-Reach :
    (out : Outside) (clk : Clock) (buf : Bytes) (from : SocketAddr) (rc : FakeRc)
    → Reach
        (told_in (Packet.parse (take 4096 buf)))
        (life rc)
        (life (handle_datagram out clk buf from rc))
unfolding handle_datagram
handle_datagram-Reach out clk buf from rc =
    from_same (see-life clk from rc)
      (dispatch-Reach out clk (Packet.parse (take 4096 buf)) from (see clk from rc))

state_eq_running : (s : RobotState) → state_eq s RobotState.running ≡ true → s ≡ RobotState.running
unfolding state_eq
state_eq_running RobotState.running e = refl
state_eq_running RobotState.unknown e = cc
state_eq_running RobotState.not_started e = cc
state_eq_running RobotState.init e = cc
state_eq_running RobotState.stopped e = cc
state_eq_running RobotState.emergency_stop e = cc

crash-Reach :
    (clk : Clock) (rc : FakeRc)
    → rc.opmode ≡ crash_opmode
    → rc.state ≡ RobotState.running
    → Reach [] (life rc) (life (Ticks.crash clk rc))
unfolding Ticks.crash
crash-Reach clk rc name running = from_same (rw (name, running) refl) (
    Reach.alone (Step.crash {b = rc.webcam_available})
      (stays [] (grind (arith, send_command-life, set_webcam_available-life))))

crash_tick-Reach : (clk : Clock) (rc : FakeRc) → Reach [] (life rc) (life (crash_tick clk rc))
unfolding crash_tick
crash_tick-Reach clk rc = elim (Bool-cases (bytes_eq rc.opmode crash_opmode)) [
  | inr other ↦ rw other Reach.here
  | inl name ↦ elim (Bool-cases (state_eq rc.state RobotState.running)) [
    | inr other ↦ rw (name, other) Reach.here
    | inl running ↦ elim (Bool-cases (Ticks.not_yet rc.run_started clk)) [
      | inl early ↦ rw (name, running, early) Reach.here
      | inr late ↦
          rw (name, running, late)
            (crash-Reach clk rc ((bytes_eq_iff rc.opmode crash_opmode).0 name)
              (state_eq_running rc.state running))
    ]
  ]
]

tick_telemetry-life :
    (out : Outside) (clk : Clock) (l : Loop) → life (tick_telemetry out clk l).rc ≡ life l.rc
unfolding tick_telemetry
tick_telemetry-life out clk l = ground (arith, telemetry_tick-life out clk l.rc)

tick_rc_battery-life : (clk : Clock) (l : Loop) → life (tick_rc_battery clk l).rc ≡ life l.rc
unfolding tick_rc_battery
tick_rc_battery-life clk l = ground (arith, rc_battery_tick-life clk l.rc)

-- The ticks of a turn, behind what arrived.
turn_quiet :
    {cs : List Command} {k : Life} (out : Outside) (clk : Clock)
    (received : Option (Bytes × SocketAddr)) (l : Loop)
    → Reach cs k (life (receive out clk received l.rc))
    → Reach cs k (life (turn out clk received l).rc)
unfolding turn
turn_quiet out clk received l arrived =
    let after = receive out clk received l.rc in
    let crashed = record l { rc = crash_tick clk after } in
    Reach-quiet arrived (
      Reach-quiet (crash_tick-Reach clk after) (
        stays [] (
          tick_rc_battery-life clk (tick_telemetry out clk crashed)
          ∙ tick_telemetry-life out clk crashed)))

-- Whatever arrives in the turns of the main loop, and whatever ticks fall due, the state, the op mode's name
-- and the webcam's flag move only by the steps of the machine: while the commands of the run come in, each
-- asks for one step at most, and that is the choice of the op mode that it names, a stop, a start or a restart,
-- as its name says, if it is no acknowledgement; besides there is only the crash of the crashing op mode while
-- it runs.
pub turns-Reach :
    (out : Outside) (run : List (Clock × Option (Bytes × SocketAddr))) (l : Loop)
    → Reach (told_over run) (life l.rc) (life (turns out run l).rc)
unfolding turns receive
turns-Reach out [] l = Reach.here
turns-Reach out ((clk, none) ∷ run) l =
    Reach-trans {cs = []} (turn_quiet out clk none l Reach.here)
      (turns-Reach out run (turn out clk none l))
turns-Reach out ((clk, some (buf, from)) ∷ run) l =
    Reach-trans
      (turn_quiet out clk (some (buf, from)) l (handle_datagram-Reach out clk buf from l.rc))
      (turns-Reach out run (turn out clk (some (buf, from)) l))
