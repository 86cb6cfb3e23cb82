-- ===== src/FakeRc/Life/Sound.antt =====
-- What every state that the simulated controller reaches has in common.
use robocol.Prelude.{◌≢◌, Bool, true, List}
use robocol.Prelude.{ℕ, Option}
use robocol.Wire.{Bytes}
use robocol.Types.{RobotState}
use robocol.Cmd
use robocol.Packets.Command.{Command}
use robocol.Client.State.{SocketAddr, Clock}
use robocol.FakeRc.Outside.{Outside}
use robocol.FakeRc.State.{start}
use robocol.FakeRc.Run.{turns}
use robocol.FakeRc.Life.{Life, life, idle, Step, Reach}
use robocol.FakeRc.Life.Refines.{turns-Reach}

-- No op mode and no webcam while none is chosen; a chosen one has a name of its own and the webcam; the
-- states that only a real robot has do not occur.
pub data IsSound : Life → Type 0 where
  not_started : IsSound (idle RobotState.not_started)
  stopped : IsSound (idle RobotState.stopped)
  chosen :
      (name : Bytes)
      → name ≢ Cmd.default_op_mode
      → IsSound (record { state = RobotState.init; opmode = name; webcam = true })
  running :
      (name : Bytes) (b : Bool)
      → IsSound (record { state = RobotState.running; opmode = name; webcam = b })

Step-IsSound : {c : Option Command} {k l : Life} → Step c k l → IsSound l
Step-IsSound (Step.select c asked own) = IsSound.chosen c.extra own
Step-IsSound (Step.stop c asked e) = IsSound.stopped
Step-IsSound (Step.run {l = l} c asked) = IsSound.running c.extra l.webcam
Step-IsSound (Step.restart c asked) = IsSound.not_started
Step-IsSound Step.crash = IsSound.stopped

Reach-IsSound : {cs : List Command} {k l : Life} → Reach cs k l → IsSound k → IsSound l
Reach-IsSound Reach.here s = s
Reach-IsSound (Reach.told step r) s = Reach-IsSound r (Step-IsSound step)
Reach-IsSound (Reach.ignored r) s = Reach-IsSound r s
Reach-IsSound (Reach.alone step r) s = Reach-IsSound r (Step-IsSound step)

-- After any turns of the main loop from the start: before a start and after a stop there is no op mode and no
-- webcam, an op mode under `INIT` is not the stop op mode and has the webcam, and the state is one of these or
-- running.
pub turns-IsSound :
    (out : Outside) (phantom : Option ℕ) (clk : Clock)
    (run : List (Clock × Option (Bytes × SocketAddr)))
    → IsSound (
        life
          (turns out run (record {
            rc = start phantom clk;
            last_telemetry = clk.now;
            last_rc_battery = clk.now;
          })).rc)
unfolding start
turns-IsSound out phantom clk run = Reach-IsSound (turns-Reach out run _) IsSound.not_started
