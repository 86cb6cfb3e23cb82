-- ===== src/FakeRc/Replies.antt =====
-- What the simulated controller sends to its driver station in answer to a command.
pub mod Log
use robocol.Prelude.{
  ℕ, ◌+◌, ◌%◌, ◌^◌, ◌≡◌, Bool, true, false, List, [], ◌∷◌, ◌++◌, Option, none, some, length, arith,
  Bool-cases, ◌==◌, inl, inr, if◌then◌else◌, sym, subst,
}
use robocol.Prelude.Text.{codes, bytes_eq}
use robocol.Wire.{Bytes}
use robocol.Cmd
use robocol.Cmd.{ConfigMeta, frame_chunk_size}
use robocol.Types.{RobotState}
use robocol.Packets.Command.{Command, ack_of}
use robocol.Packets.Packet.{Packet}
use robocol.Client.State.{SocketAddr, Clock}
use robocol.Video.Text.{split_once}
use robocol.FakeRc.Outside.{Outside}
use robocol.FakeRc.State.{FakeRc, send, send_to}
use robocol.FakeRc.Webcam.{
  same, set_webcam_available, chunks, send_chunks, sign_extend, begin_frame, send_frame,
  send_webcam_frame,
}
use robocol.FakeRc.Configs.{
  notify_active, with_id, save_parsed, store_config, save_configuration, delete_configuration,
  activate_configuration, apply_activation, save_split, delete_parsed, activate_parsed, apply_taken,
  delete,
}
use robocol.FakeRc.Commands.{
  init_op_mode, run_op_mode, restart_robot, request_frame, config_command, obey, handle_command,
}
use Log.{addressed, Sends, nothing, Sends-trans, send_command-Sends, then_command, either_Sends}

module _ (ds : SocketAddr) where
  set_webcam_available-Sends :
      (clk : Clock) (b : Bool) (rc : FakeRc)
      → rc.ds ≡ some ds
      → Sends ds rc.sent rc.seq (set_webcam_available clk b rc)
  unfolding set_webcam_available
  set_webcam_available-Sends clk b rc held =
      either_Sends ds (same rc.webcam_available b) (nothing ds rc held) (
        send_command-Sends ds clk Cmd.stream_change (codes (if b then "true" else "false"))
          (record rc { webcam_available = b }) held)

  send_chunks-Sends :
      (out : Outside) (clk : Clock) (num i : ℕ) (cs : List Bytes) (rc : FakeRc)
      → rc.ds ≡ some ds
      → Sends ds rc.sent rc.seq (send_chunks out clk num i cs rc)
  unfolding send_chunks
  send_chunks-Sends out clk num i [] rc held = nothing ds rc held
  send_chunks-Sends out clk num i (c ∷ cs) rc held =
      let first = send_command-Sends ds clk _ _ rc held in
      Sends-trans ds _ first (send_chunks-Sends out clk num (i + 1) cs _ first.held)

  send_frame-Sends :
      (out : Outside) (clk : Clock) (num : ℕ) (jpeg : Bytes) (rc : FakeRc)
      → rc.ds ≡ some ds
      → Sends ds rc.sent rc.seq (send_frame out clk num jpeg rc)
  unfolding send_frame begin_frame
  send_frame-Sends out clk num jpeg rc held =
      let begun = begin_frame out clk num jpeg rc in
      let first =
        send_command-Sends ds clk Cmd.receive_frame_begin
          (out.frame_begin_string (record { frame_num = num; length = length jpeg % 2 ^ 32 })) rc
          held in
      Sends-trans ds begun first (
        send_chunks-Sends out clk num 0 (chunks frame_chunk_size (length jpeg) jpeg) begun
          first.held)

  send_webcam_frame-Sends :
      (out : Outside) (clk : Clock) (rc : FakeRc)
      → rc.ds ≡ some ds
      → Sends ds rc.sent rc.seq (send_webcam_frame out clk rc)
  unfolding send_webcam_frame
  send_webcam_frame-Sends out clk rc held =
      send_frame-Sends out clk rc.webcam_frame_num
        (out.render_frame (codes "webcam") (sign_extend rc.webcam_frame_num))
        (record rc { webcam_frame_num = (rc.webcam_frame_num + 1) % 2 ^ 32 }) held

  with_id-Sends :
      (meta : ConfigMeta) (rc : FakeRc)
      → rc.ds ≡ some ds
      → Sends ds rc.sent rc.seq (with_id meta rc).1
  unfolding with_id
  with_id-Sends meta rc held = elim (Bool-cases (meta.resource_id == 0)) [
    | inl new ↦ rw new (nothing ds (record rc { next_resource_id = _ }) held)
    | inr old ↦ rw old (nothing ds rc held)
  ]

  save_parsed-Sends :
      (out : Outside) (clk : Clock) (m : Option ConfigMeta) (xml : Bytes) (rc : FakeRc)
      → rc.ds ≡ some ds
      → Sends ds rc.sent rc.seq (save_parsed out clk m xml rc)
  unfolding save_parsed store_config notify_active
  save_parsed-Sends out clk none xml rc held = nothing ds rc held
  save_parsed-Sends out clk (some meta) xml rc held =
      let given = with_id-Sends meta rc held in
      Sends-trans ds (with_id meta rc).1 given (
        send_command-Sends ds clk _ _
          (record ((with_id meta rc).1) { saved_xml = _; configs = _; active_config = _ })
          given.held)

  save_split-Sends :
      (out : Outside) (clk : Clock) (parts : Option (Bytes × Bytes)) (rc : FakeRc)
      → rc.ds ≡ some ds
      → Sends ds rc.sent rc.seq (save_split out clk parts rc)
  unfolding save_split
  save_split-Sends out clk none rc held = nothing ds rc held
  save_split-Sends out clk (some (meta_json, xml)) rc held =
      save_parsed-Sends out clk (out.config_meta meta_json) xml rc held

  delete_parsed-Sends :
      (m : Option ConfigMeta) (rc : FakeRc)
      → rc.ds ≡ some ds
      → Sends ds rc.sent rc.seq (delete_parsed m rc)
  unfolding delete_parsed
  delete_parsed-Sends none rc held = nothing ds rc held
  delete_parsed-Sends (some meta) rc held =
      nothing ds (record rc { configs = delete meta rc.configs }) held

  activate_parsed-Sends :
      (m : Option ConfigMeta) (rc : FakeRc)
      → rc.ds ≡ some ds
      → Sends ds rc.sent rc.seq (activate_parsed m rc)
  unfolding activate_parsed
  activate_parsed-Sends none rc held = nothing ds rc held
  activate_parsed-Sends (some meta) rc held =
      nothing ds (record rc { pending_activation = some meta }) held

  apply_taken-Sends :
      (out : Outside) (clk : Clock) (m : Option ConfigMeta) (rc : FakeRc)
      → rc.ds ≡ some ds
      → Sends ds rc.sent rc.seq (apply_taken out clk m rc)
  unfolding apply_taken notify_active
  apply_taken-Sends out clk none rc held = nothing ds rc held
  apply_taken-Sends out clk (some meta) rc held =
      send_command-Sends ds clk Cmd.notify_active_configuration (out.config_meta_string meta)
        (record rc { active_config = meta }) held

  init_op_mode-Sends :
      (clk : Clock) (extra : Bytes) (rc : FakeRc)
      → rc.ds ≡ some ds
      → Sends ds rc.sent rc.seq (init_op_mode clk extra rc)
  unfolding init_op_mode
  init_op_mode-Sends clk extra rc held = elim (Bool-cases (bytes_eq extra Cmd.default_op_mode)) [
    | inl stop ↦ rw stop (
        then_command ds clk Cmd.notify_init_op_mode extra (
          set_webcam_available-Sends clk false
            (record rc { run_started = none; state = RobotState.stopped; opmode = [] }) held))
    | inr other ↦ rw other (
        then_command ds clk Cmd.notify_init_op_mode extra (
          set_webcam_available-Sends clk true
            (record rc { run_started = none; state = RobotState.init; opmode = extra }) held))
  ]

  restart_robot-Sends :
      (out : Outside) (clk : Clock) (rc : FakeRc)
      → rc.ds ≡ some ds
      → Sends ds rc.sent rc.seq (restart_robot out clk rc)
  unfolding restart_robot apply_activation
  restart_robot-Sends out clk rc held =
      let idle = record rc { state = RobotState.not_started; opmode = [] } in
      let off = set_webcam_available-Sends clk false idle held in
      let quiet = set_webcam_available clk false idle in
      Sends-trans ds quiet off (
        apply_taken-Sends out clk quiet.pending_activation
          (record quiet { pending_activation = none }) off.held)

  request_frame-Sends :
      (out : Outside) (clk : Clock) (rc : FakeRc)
      → rc.ds ≡ some ds
      → Sends ds rc.sent rc.seq (request_frame out clk rc)
  unfolding request_frame
  request_frame-Sends out clk rc held =
      either_Sends ds rc.webcam_available (send_webcam_frame-Sends out clk rc held)
        (nothing ds rc held)

  config_command-Sends :
      (out : Outside) (clk : Clock) (c : Command) (rc : FakeRc)
      → rc.ds ≡ some ds
      → Sends ds rc.sent rc.seq (config_command out clk c rc)
  unfolding config_command notify_active activate_configuration delete_configuration
      save_configuration
  config_command-Sends out clk c rc held =
      either_Sends ds (bytes_eq c.name Cmd.request_active_config)
        (send_command-Sends ds clk _ _ rc held)
        (either_Sends ds (bytes_eq c.name Cmd.request_configurations)
          (send_command-Sends ds clk _ _ rc held)
          (either_Sends ds (bytes_eq c.name Cmd.request_particular_configuration)
            (send_command-Sends ds clk _ _ rc held)
            (either_Sends ds (bytes_eq c.name Cmd.request_user_device_types)
              (send_command-Sends ds clk _ _ rc held)
              (either_Sends ds (bytes_eq c.name Cmd.scan) (send_command-Sends ds clk _ _ rc held) (
                either_Sends ds (bytes_eq c.name Cmd.activate_configuration)
                  (activate_parsed-Sends (out.config_meta c.extra) rc held)
                  (either_Sends ds (bytes_eq c.name Cmd.save_configuration)
                    (save_split-Sends out clk (split_once b';' c.extra) rc held)
                    (either_Sends ds (bytes_eq c.name Cmd.delete_configuration)
                      (delete_parsed-Sends (out.config_meta c.extra) rc held)
                      (nothing ds rc held))))))))

  obey-Sends :
      (out : Outside) (clk : Clock) (c : Command) (rc : FakeRc)
      → rc.ds ≡ some ds
      → Sends ds rc.sent rc.seq (obey out clk c rc)
  unfolding obey run_op_mode
  obey-Sends out clk c rc held =
      either_Sends ds (bytes_eq c.name Cmd.request_op_mode_list)
        (send_command-Sends ds clk _ _ rc held)
        (either_Sends ds (bytes_eq c.name Cmd.init_op_mode) (init_op_mode-Sends clk c.extra rc held)
          (either_Sends ds (bytes_eq c.name Cmd.run_op_mode)
            (send_command-Sends ds clk Cmd.notify_run_op_mode c.extra
              (record rc {
                state = RobotState.running;
                opmode = c.extra;
                run_started = some clk.now;
              })
              held)
            (either_Sends ds (bytes_eq c.name Cmd.restart_robot)
              (restart_robot-Sends out clk rc held)
              (either_Sends ds (bytes_eq c.name Cmd.request_frame)
                (request_frame-Sends out clk rc held) (config_command-Sends out clk c rc held)))))

pub send_held :
    (ds : SocketAddr) (p : Packet) (rc : FakeRc)
    → rc.ds ≡ some ds
    → send p rc ≡ record rc { sent = rc.sent ++ (ds, p) ∷ [] }
unfolding send send_to
send_held ds p rc held = ground arith

-- A command that is no acknowledgement is acknowledged to the driver station first. What follows it are
-- commands to the driver station alone, none of them an acknowledgement, whose sequence numbers go up by one
-- modulo 2^16 from the last one used; the driver station stays.
pub handle_command-Sends :
    (out : Outside) (clk : Clock) (c : Command) (ds : SocketAddr) (rc : FakeRc)
    → c.acknowledged ≡ false
    → rc.ds ≡ some ds
    → Sends ds (rc.sent ++ addressed ds (ack_of c) ∷ []) rc.seq (handle_command out clk c rc)
unfolding handle_command
handle_command-Sends out clk c ds rc new held =
    let ack = Packet.command (ack_of c) in
    let acked = record rc { sent = rc.sent ++ (ds, ack) ∷ [] } in
    rw new (
      subst (λ x. Sends ds acked.sent rc.seq (obey out clk c x)) (sym (send_held ds ack rc held))
        (obey-Sends ds out clk c acked held))
