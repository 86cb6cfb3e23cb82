-- ===== src/DsCli.antt =====
-- ds_cli/src/main.rs: the driver station on a terminal. What `main` is given is a sequence of lines and events.
pub mod Remembered
pub mod Listed
use robocol.Prelude.{ℕ, List, [], ◌∷◌, ◌++◌, map, Option, none, some, if◌then◌else◌}
use robocol.Prelude.Text.{bytes_eq, codes}
use robocol.Wire.{Bytes}
use robocol.Wire.Trim.{trim}
use robocol.Cmd.{Json, ConfigMeta, parse_config_list}
use robocol.Video.Text.{split_once}
use robocol.Packets.Gamepad
use robocol.Packets.Gamepad.{Gamepad}
use robocol.Client.State.{Event}
use robocol.Client.Run.{Control}
use robocol.Client.Api

-- The bits of the `f32` -0.5.
abbrev pub forward_stick : ℕ
forward_stick = 0xbf000000

-- In milliseconds.
abbrev pub pulse : ℕ
pulse = 300

-- The first words that the loop knows; `nothing` is the empty one.
pub data Word : Type 0 where
  list init run stop restart connect disconnect active_config configs config save_config : Word
  activate_config delete_config device_types scan lynx_modules w quit nothing other : Word

abbrev pub words : List (Bytes × Word)
words =
    (codes "list", Word.list)
    ∷ (codes "init", Word.init)
    ∷ (codes "run", Word.run)
    ∷ (codes "stop", Word.stop)
    ∷ (codes "restart", Word.restart)
    ∷ (codes "connect", Word.connect)
    ∷ (codes "disconnect", Word.disconnect)
    ∷ (codes "active-config", Word.active_config)
    ∷ (codes "configs", Word.configs)
    ∷ (codes "config", Word.config)
    ∷ (codes "save-config", Word.save_config)
    ∷ (codes "activate-config", Word.activate_config)
    ∷ (codes "delete-config", Word.delete_config)
    ∷ (codes "device-types", Word.device_types)
    ∷ (codes "scan", Word.scan)
    ∷ (codes "lynx-modules", Word.lynx_modules)
    ∷ (codes "w", Word.w)
    ∷ (codes "quit", Word.quit)
    ∷ (codes "exit", Word.quit)
    ∷ ([], Word.nothing)
    ∷ []

unfoldable pub word_in : List (Bytes × Word) → Bytes → Word
unfolding bytes_eq
word_in [] text = Word.other
word_in ((name, word) ∷ rest) text =
    let later = word_in rest text in if bytes_eq name text then word else later

-- What `println!` tells the user.
pub data Complaint : Type 0 where
  nothing_inited missing_argument missing_serial : Complaint
  unknown_config unknown_command : Bytes → Complaint

-- What the program does, in order: it tells the user something, prints the text of an event, puts a message
-- into the client's channel, or sleeps.
pub data Step : Type 0 where
  complain : Complaint → Step
  print : Bytes → Step
  send : Control → Step
  sleep : ℕ → Step

-- The variables of `main` and of the thread that prints the events.
pub record Console : Type 0 where
  pub known_configs : List ConfigMeta
  pub last_inited : Bytes
  pub last_telemetry : Bytes

abbrev pub start : Console
start = record { known_configs = []; last_inited = []; last_telemetry = [] }

unfoldable pub find_config : List ConfigMeta → Bytes → Option ConfigMeta
unfolding bytes_eq
find_config [] name = none
find_config (c ∷ known) name =
    let rest = find_config known name in if bytes_eq c.name name then some c else rest

abbrev pub sends : List Control → List Step
sends controls = map Step.send controls

-- A request about the configuration of a name, which has to be known.
unfoldable pub with_config : (ConfigMeta → List Control) → List ConfigMeta → Bytes → List Step
unfolding find_config
with_config request known name = elim (find_config known name) [
  | none ↦ Step.complain (Complaint.unknown_config name) ∷ []
  | some meta ↦ sends (request meta)
]

-- `run` without a name runs the op mode that was inited last.
unfoldable pub run_named : Bytes → List Step
unfolding Api.run_opmode
run_named [] = Step.complain Complaint.nothing_inited ∷ []
run_named (b ∷ name) = sends (Api.run_opmode (b ∷ name))

abbrev pub unwrap_or : Bytes → Option Bytes → Bytes
unwrap_or default none = default
unwrap_or default (some name) = name

abbrev pub pulse_forward : List Step
pulse_forward =
    sends (Api.send_gamepad (record Gamepad.default { left_stick_y = forward_stick }))
    ++ Step.sleep pulse ∷ sends (Api.send_gamepad Gamepad.default)

-- A line's first word, and what is behind the first space: `line.trim().splitn(2, ' ')`.
unfoldable pub split_line : Bytes → Bytes × Option Bytes
unfolding trim split_once
split_line line = elim (split_once 32 (trim line)) [
  | none ↦ (trim line, none)
  | some (first, argument) ↦ (first, some argument)
]

-- The arm for a first word, as it was typed, and an argument; `none` breaks the loop.
unfoldable pub act : Json → Word → Bytes → Option Bytes → Console → Option (List Step × Console)
unfolding with_config run_named
act json Word.list first argument c = some (sends Api.request_opmode_list, c)
act json Word.init first (some name) c =
    some (sends (Api.init_opmode name), record c { last_inited = name })
act json Word.run first argument c = some (run_named (unwrap_or c.last_inited argument), c)
act json Word.stop first argument c = some (sends Api.stop_opmode, c)
act json Word.restart first argument c = some (sends Api.restart_robot, c)
act json Word.connect first argument c = some (sends Api.connect, c)
act json Word.disconnect first argument c = some (sends Api.disconnect, c)
act json Word.active_config first argument c = some (sends Api.request_active_config, c)
act json Word.configs first argument c = some (sends Api.request_configurations, c)
act json Word.config first (some name) c =
    some (with_config (Api.request_particular_configuration json) c.known_configs name, c)
act json Word.save_config first (some text) c = some (sends (Api.save_configuration text), c)
act json Word.activate_config first (some name) c =
    some (with_config (Api.activate_configuration json) c.known_configs name, c)
act json Word.delete_config first (some name) c =
    some (with_config (Api.delete_configuration json) c.known_configs name, c)
act json Word.config first none c = some (Step.complain Complaint.missing_argument ∷ [], c)
act json Word.save_config first none c = some (Step.complain Complaint.missing_argument ∷ [], c)
act json Word.activate_config first none c = some (Step.complain Complaint.missing_argument ∷ [], c)
act json Word.delete_config first none c = some (Step.complain Complaint.missing_argument ∷ [], c)
act json Word.device_types first argument c = some (sends Api.request_user_device_types, c)
act json Word.scan first argument c = some (sends Api.scan, c)
act json Word.lynx_modules first (some serial) c =
    some (sends (Api.discover_lynx_modules serial), c)
act json Word.lynx_modules first none c = some (Step.complain Complaint.missing_serial ∷ [], c)
act json Word.w first argument c = some (pulse_forward, c)
act json Word.quit first argument c = none
act json Word.nothing first argument c = some ([], c)
act json Word.init first none c = some (Step.complain (Complaint.unknown_command first) ∷ [], c)
act json Word.other first argument c =
    some (Step.complain (Complaint.unknown_command first) ∷ [], c)

unfoldable pub typed : Json → Bytes → Console → Option (List Step × Console)
unfolding split_line word_in act
typed json line c =
    let (first, argument) = split_line line in act json (word_in words first) first argument c

-- The thread that prints the events. `show` gives the text of an event; a telemetry is printed unless its text
-- is that of the last one.
unfoldable pub heard : Json → (Event → Bytes) → Event → Console → List Step × Console
unfolding parse_config_list bytes_eq
heard json show (Event.configuration_list extra) c = (
  Step.print (show (Event.configuration_list extra)) ∷ [],
  record c { known_configs = parse_config_list json extra },
)
heard json show (Event.telemetry t) c =
    let text = show (Event.telemetry t) in
    if bytes_eq text c.last_telemetry
    then ([], c)
    else (Step.print text ∷ [], record c { last_telemetry = text })
heard json show event c = (Step.print (show event) ∷ [], c)

-- What comes to the two threads, in the order in which it is handled.
pub data Input : Type 0 where
  line : Bytes → Input
  event : Event → Input

unfoldable pub input : Json → (Event → Bytes) → Input → Console → Option (List Step × Console)
unfolding typed heard
input json show (Input.line text) c = typed json text c
input json show (Input.event e) c = some (heard json show e c)

abbrev pub after : List Step → List Step × Option Console → List Step × Option Console
after steps (later, c) = (steps ++ later, c)

-- A session, and the console at its end, unless the user quits.
unfoldable pub session : Json → (Event → Bytes) → List Input → Console → List Step × Option Console
unfolding input
session json show [] c = ([], some c)
session json show (i ∷ is) c = elim (input json show i c) [
  | none ↦ ([], none)
  | some (steps, c') ↦ after steps (session json show is c')
]
