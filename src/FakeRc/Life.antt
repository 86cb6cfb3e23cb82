-- ===== src/FakeRc/Life.antt =====
-- The life of an op mode on the simulated controller: an abstract state machine, and the code's steps in it.
use robocol.Prelude.{
  ◌≡◌, ◌≢◌, Bool, true, false, List, [], ◌∷◌, ◌++◌, Option, none, some, Result, ok, err, panicked,
  take,
}
use robocol.Wire.{Bytes}
use robocol.Types.{RobotState}
use robocol.Cmd
use robocol.Packets.Command.{Command}
use robocol.Packets.Packet.{Packet}
use robocol.Packets.Packet
use robocol.Client.State.{SocketAddr, Clock}
use robocol.FakeRc.State.{FakeRc}
use robocol.FakeRc.Ticks.{crash_opmode}
pub mod Quiet
pub mod Refines
pub mod Sound

-- What a driver sees: the state, the op mode that is named in it, and whether the webcam can be asked.
pub record Life : Type 0 where
  pub state : RobotState
  pub opmode : Bytes
  pub webcam : Bool

abbrev pub life : FakeRc → Life
life rc = record { state = rc.state; opmode = rc.opmode; webcam = rc.webcam_available }

-- No op mode, in the state `s`.
abbrev pub idle : RobotState → Life
idle s = record { state = s; opmode = []; webcam = false }

-- A request, and not the acknowledgement of one.
pub record IsRequest (name : Bytes) (c : Command) : Type 0 where
  pub named : c.name ≡ name
  pub new : c.acknowledged ≡ false

-- The steps of the machine, each with the command that asks for it; for the crash there is none.
pub data Step : Option Command → Life → Life → Type 0 where
  select :
      {l : Life} (c : Command)
      → IsRequest Cmd.init_op_mode c
      → c.extra ≢ Cmd.default_op_mode
      → Step (some c) l (record { state = RobotState.init; opmode = c.extra; webcam = true })
  stop :
      {l : Life} (c : Command)
      → IsRequest Cmd.init_op_mode c
      → c.extra ≡ Cmd.default_op_mode
      → Step (some c) l (idle RobotState.stopped)
  run :
      {l : Life} (c : Command)
      → IsRequest Cmd.run_op_mode c
      → Step (some c) l (record { state = RobotState.running; opmode = c.extra; webcam = l.webcam })
  restart :
      {l : Life} (c : Command)
      → IsRequest Cmd.restart_robot c
      → Step (some c) l (idle RobotState.not_started)
  crash :
      {b : Bool}
      → Step none
          (record { state = RobotState.running; opmode = crash_opmode; webcam = b })
          (idle RobotState.stopped)

-- The steps while these commands come in, in their order: a command asks for one step at most, and only a
-- crash comes without one.
pub data Reach : List Command → Life → Life → Type 0 where
  here : {l : Life} → Reach [] l l
  told :
      {c : Command} {cs : List Command} {k l m : Life}
      → Step (some c) k l
      → Reach cs l m
      → Reach (c ∷ cs) k m
  ignored : {c : Command} {cs : List Command} {k m : Life} → Reach cs k m → Reach (c ∷ cs) k m
  alone : {cs : List Command} {k l m : Life} → Step none k l → Reach cs l m → Reach cs k m

-- The command that a packet is, if it is one.
abbrev pub told_in : Result Packet → List Command
told_in (ok (Packet.command c)) = c ∷ []
told_in (ok (Packet.heartbeat h)) = []
told_in (ok (Packet.gamepad g)) = []
told_in (ok (Packet.peer_discovery p)) = []
told_in (ok (Packet.telemetry t)) = []
told_in (ok (Packet.keep_alive k)) = []
told_in (err e) = []
told_in panicked = []

-- The commands that come in over the turns of a run.
abbrev pub told_over : List (Clock × Option (Bytes × SocketAddr)) → List Command
told_over [] = []
told_over ((clk, none) ∷ rest) = told_over rest
told_over ((clk, some (buf, from)) ∷ rest) =
    told_in (Packet.parse (take 4096 buf)) ++ told_over rest
