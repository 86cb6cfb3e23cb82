-- ===== src/Client/Api.antt =====
-- The methods of `RobocolClient`: each puts one message, or none, into the worker's channel.
use robocol.Prelude.{List, [], ◌∷◌, none, some}
use robocol.Wire.{Bytes}
use robocol.Cmd
use robocol.Cmd.{Json, ConfigMeta}
use robocol.Packets.Command.{create}
use robocol.Packets.Gamepad.{Gamepad}
use robocol.Client.Run.{Control}

unfoldable pub connect : List Control
connect = Control.connect ∷ []

unfoldable pub disconnect : List Control
disconnect = Control.disconnect ∷ []

unfoldable pub send_command : Bytes → Bytes → List Control
unfolding create
send_command name extra = Control.send_command (create name extra 0) ∷ []

unfoldable pub send_gamepad : Gamepad → List Control
send_gamepad g = Control.send_gamepad g ∷ []

unfoldable pub request_opmode_list : List Control
unfolding send_command
request_opmode_list = send_command Cmd.request_op_mode_list []

unfoldable pub init_opmode : Bytes → List Control
unfolding send_command
init_opmode name = send_command Cmd.init_op_mode name

unfoldable pub run_opmode : Bytes → List Control
unfolding send_command
run_opmode name = send_command Cmd.run_op_mode name

-- A running OpMode is stopped by starting the idle one.
unfoldable pub stop_opmode : List Control
unfolding init_opmode
stop_opmode = init_opmode Cmd.default_op_mode

unfoldable pub restart_robot : List Control
unfolding send_command
restart_robot = send_command Cmd.restart_robot []

unfoldable pub request_active_config : List Control
unfolding send_command
request_active_config = send_command Cmd.request_active_config []

unfoldable pub request_configurations : List Control
unfolding send_command
request_configurations = send_command Cmd.request_configurations []

unfoldable pub request_user_device_types : List Control
unfolding send_command
request_user_device_types = send_command Cmd.request_user_device_types []

unfoldable pub scan : List Control
unfolding send_command
scan = send_command Cmd.scan []

unfoldable pub request_webcam_frame : List Control
unfolding send_command
request_webcam_frame = send_command Cmd.request_frame []

-- Nothing is sent for a configuration that does not serialize.
unfoldable pub send_config_command : Json → Bytes → ConfigMeta → List Control
unfolding send_command
send_config_command json name config = elim (json.config_string config) [
  | none ↦ []
  | some text ↦ send_command name text
]

unfoldable pub request_particular_configuration : Json → ConfigMeta → List Control
unfolding send_config_command
request_particular_configuration json config =
    send_config_command json Cmd.request_particular_configuration config

unfoldable pub activate_configuration : Json → ConfigMeta → List Control
unfolding send_config_command
activate_configuration json config = send_config_command json Cmd.activate_configuration config

unfoldable pub delete_configuration : Json → ConfigMeta → List Control
unfolding send_config_command
delete_configuration json config = send_config_command json Cmd.delete_configuration config

unfoldable pub save_configuration : Bytes → List Control
unfolding send_command
save_configuration config_json = send_command Cmd.save_configuration config_json

unfoldable pub discover_lynx_modules : Bytes → List Control
unfolding send_command
discover_lynx_modules serial = send_command Cmd.discover_lynx_modules serial
