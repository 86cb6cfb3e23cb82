-- ===== src/FakeRc/Commands.antt =====
-- `FakeRc::handle_command`.
use robocol.Prelude.{true, false, [], none, some, if◌then◌else◌}
use robocol.Prelude.Text.{bytes_eq}
use robocol.Wire.{Bytes}
use robocol.Types.{RobotState}
use robocol.Cmd
use robocol.Packets.Command.{Command, ack_of}
use robocol.Packets.Packet.{Packet}
use robocol.Client.State.{Clock}
use robocol.FakeRc.Outside.{Outside}
use robocol.FakeRc.Canned.{opmodes, scan_report, user_device_types}
use robocol.FakeRc.State.{FakeRc, send, send_command}
use robocol.FakeRc.Webcam.{set_webcam_available, send_webcam_frame}
use robocol.FakeRc.Configs

unfoldable pub init_op_mode : Clock → Bytes → FakeRc → FakeRc
unfolding set_webcam_available send_command
init_op_mode clk extra rc = send_command clk Cmd.notify_init_op_mode extra (
    if bytes_eq extra Cmd.default_op_mode
    then set_webcam_available clk false
        (record rc { run_started = none; state = RobotState.stopped; opmode = [] })
    else set_webcam_available clk true
        (record rc { run_started = none; state = RobotState.init; opmode = extra }))

unfoldable pub run_op_mode : Clock → Bytes → FakeRc → FakeRc
unfolding send_command
run_op_mode clk extra rc =
    send_command clk Cmd.notify_run_op_mode extra
      (record rc { state = RobotState.running; opmode = extra; run_started = some clk.now })

unfoldable pub restart_robot : Outside → Clock → FakeRc → FakeRc
unfolding set_webcam_available Configs.apply_activation
restart_robot out clk rc =
    Configs.apply_activation out clk
      (set_webcam_available clk false (record rc { state = RobotState.not_started; opmode = [] }))

unfoldable pub request_frame : Outside → Clock → FakeRc → FakeRc
unfolding send_webcam_frame
request_frame out clk rc = if rc.webcam_available then send_webcam_frame out clk rc else rc

-- The arms of the match from `REQUEST_ACTIVE_CONFIG` on.
unfoldable pub config_command : Outside → Clock → Command → FakeRc → FakeRc
unfolding send_command Configs.notify_active Configs.particular_xml Configs.activate_configuration
    Configs.save_configuration Configs.delete_configuration
config_command out clk c rc =
    if bytes_eq c.name Cmd.request_active_config
    then Configs.notify_active out clk rc.active_config rc
    else if bytes_eq c.name Cmd.request_configurations
    then send_command clk Cmd.request_configurations_resp (out.config_metas_string rc.configs) rc
    else if bytes_eq c.name Cmd.request_particular_configuration
    then send_command clk Cmd.request_particular_configuration_resp
        (Configs.particular_xml out c.extra rc) rc
    else if bytes_eq c.name Cmd.request_user_device_types
    then send_command clk Cmd.notify_user_device_list user_device_types rc
    else if bytes_eq c.name Cmd.scan
    then send_command clk Cmd.scan_resp scan_report rc
    else if bytes_eq c.name Cmd.activate_configuration
    then Configs.activate_configuration out c.extra rc
    else if bytes_eq c.name Cmd.save_configuration
    then Configs.save_configuration out clk c.extra rc
    else if bytes_eq c.name Cmd.delete_configuration
    then Configs.delete_configuration out c.extra rc
    else rc

unfoldable pub obey : Outside → Clock → Command → FakeRc → FakeRc
unfolding send_command init_op_mode run_op_mode restart_robot request_frame config_command
obey out clk c rc =
    if bytes_eq c.name Cmd.request_op_mode_list
    then send_command clk Cmd.notify_op_mode_list opmodes rc
    else if bytes_eq c.name Cmd.init_op_mode
    then init_op_mode clk c.extra rc
    else if bytes_eq c.name Cmd.run_op_mode
    then run_op_mode clk c.extra rc
    else if bytes_eq c.name Cmd.restart_robot
    then restart_robot out clk rc
    else if bytes_eq c.name Cmd.request_frame
    then request_frame out clk rc
    else config_command out clk c rc

unfoldable pub handle_command : Outside → Clock → Command → FakeRc → FakeRc
unfolding send ack_of obey
handle_command out clk c rc =
    if c.acknowledged then rc else obey out clk c (send (Packet.command (ack_of c)) rc)
