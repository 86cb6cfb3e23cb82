-- ===== src/FakeRc/Life/Quiet.antt =====
-- The operations of the simulated controller that leave the life of the op mode alone.
use robocol.Prelude.{
  ℕ, ◌+◌, ◌≡◌, refl, ◌∙◌, Bool, List, [], ◌∷◌, Option, none, some, arith, if◌then◌else◌,
}
use robocol.Wire.{Bytes}
use robocol.Cmd
use robocol.Cmd.{ConfigMeta}
use robocol.Prelude.Text.{codes}
use robocol.Packets.Gamepad.{Gamepad}
use robocol.Packets.Heartbeat.{Heartbeat}
use robocol.Packets.Packet.{Packet}
use robocol.Client.State.{SocketAddr, Clock}
use robocol.Video.Text.{split_once}
use robocol.FakeRc.Outside.{Outside}
use robocol.FakeRc.State.{FakeRc, send, send_to, send_command, next_seq}
use robocol.FakeRc.Webcam.{
  set_webcam_available, send_chunks, begin_frame, send_frame, send_webcam_frame,
}
use robocol.FakeRc.Configs.{
  notify_active, with_id, save_parsed, store_config, save_configuration, delete_configuration,
  activate_configuration, apply_activation, save_split, delete_parsed, activate_parsed, apply_taken,
}
use robocol.FakeRc.Ticks.{telemetry_tick, rc_battery_tick}
use robocol.FakeRc.Run.{handle_gamepad, press_x, press_y, handle_discovery, echo_heartbeat, see}
use robocol.FakeRc.Life.{life}

pub send-life : (p : Packet) (rc : FakeRc) → life (send p rc) ≡ life rc
unfolding send send_to
send-life p rc = ground arith

pub send_command-life :
    (clk : Clock) (name extra : Bytes) (rc : FakeRc)
    → life (send_command clk name extra rc) ≡ life rc
unfolding send_command next_seq
send_command-life clk name extra rc = send-life _ _

pub set_webcam_available-life :
    (clk : Clock) (b : Bool) (rc : FakeRc)
    → life (set_webcam_available clk b rc) ≡ record (life rc) { webcam = b }
unfolding set_webcam_available
set_webcam_available-life clk b rc = ground (
  arith,
  send_command-life clk Cmd.stream_change (codes (if b then "true" else "false"))
      (record rc { webcam_available = b }),
)

send_chunks-life :
    (out : Outside) (clk : Clock) (num i : ℕ) (cs : List Bytes) (rc : FakeRc)
    → life (send_chunks out clk num i cs rc) ≡ life rc
unfolding send_chunks
send_chunks-life out clk num i [] rc = refl
send_chunks-life out clk num i (c ∷ cs) rc =
    send_chunks-life out clk num (i + 1) cs _ ∙ send_command-life clk _ _ rc

pub send_webcam_frame-life :
    (out : Outside) (clk : Clock) (rc : FakeRc) → life (send_webcam_frame out clk rc) ≡ life rc
unfolding send_webcam_frame send_frame begin_frame
send_webcam_frame-life out clk rc = grind (arith, send_chunks-life, send_command-life)

pub notify_active-life :
    (out : Outside) (clk : Clock) (meta : ConfigMeta) (rc : FakeRc)
    → life (notify_active out clk meta rc) ≡ life rc
unfolding notify_active
notify_active-life out clk meta rc = send_command-life clk _ _ rc

with_id-life : (meta : ConfigMeta) (rc : FakeRc) → life (with_id meta rc).1 ≡ life rc
unfolding with_id
with_id-life meta rc = ground arith

save_parsed-life :
    (out : Outside) (clk : Clock) (m : Option ConfigMeta) (xml : Bytes) (rc : FakeRc)
    → life (save_parsed out clk m xml rc) ≡ life rc
unfolding save_parsed store_config
save_parsed-life out clk none xml rc = refl
save_parsed-life out clk (some meta) xml rc = notify_active-life out clk _ _ ∙ with_id-life meta rc

save_split-life :
    (out : Outside) (clk : Clock) (parts : Option (Bytes × Bytes)) (rc : FakeRc)
    → life (save_split out clk parts rc) ≡ life rc
unfolding save_split
save_split-life out clk none rc = refl
save_split-life out clk (some (meta_json, xml)) rc =
    save_parsed-life out clk (out.config_meta meta_json) xml rc

pub save_configuration-life :
    (out : Outside) (clk : Clock) (extra : Bytes) (rc : FakeRc)
    → life (save_configuration out clk extra rc) ≡ life rc
unfolding save_configuration
save_configuration-life out clk extra rc = save_split-life out clk (split_once b';' extra) rc

delete_parsed-life : (m : Option ConfigMeta) (rc : FakeRc) → life (delete_parsed m rc) ≡ life rc
unfolding delete_parsed
delete_parsed-life none rc = refl
delete_parsed-life (some meta) rc = refl

pub delete_configuration-life :
    (out : Outside) (extra : Bytes) (rc : FakeRc)
    → life (delete_configuration out extra rc) ≡ life rc
unfolding delete_configuration
delete_configuration-life out extra rc = delete_parsed-life (out.config_meta extra) rc

activate_parsed-life : (m : Option ConfigMeta) (rc : FakeRc) → life (activate_parsed m rc) ≡ life rc
unfolding activate_parsed
activate_parsed-life none rc = refl
activate_parsed-life (some meta) rc = refl

pub activate_configuration-life :
    (out : Outside) (extra : Bytes) (rc : FakeRc)
    → life (activate_configuration out extra rc) ≡ life rc
unfolding activate_configuration
activate_configuration-life out extra rc = activate_parsed-life (out.config_meta extra) rc

apply_taken-life :
    (out : Outside) (clk : Clock) (m : Option ConfigMeta) (rc : FakeRc)
    → life (apply_taken out clk m rc) ≡ life rc
unfolding apply_taken
apply_taken-life out clk none rc = refl
apply_taken-life out clk (some meta) rc =
    notify_active-life out clk meta (record rc { active_config = meta })

pub apply_activation-life :
    (out : Outside) (clk : Clock) (rc : FakeRc) → life (apply_activation out clk rc) ≡ life rc
unfolding apply_activation
apply_activation-life out clk rc =
    apply_taken-life out clk rc.pending_activation (record rc { pending_activation = none })

pub telemetry_tick-life :
    (out : Outside) (clk : Clock) (rc : FakeRc) → life (telemetry_tick out clk rc) ≡ life rc
unfolding telemetry_tick next_seq
telemetry_tick-life out clk rc = send-life _ _

pub rc_battery_tick-life : (clk : Clock) (rc : FakeRc) → life (rc_battery_tick clk rc) ≡ life rc
unfolding rc_battery_tick next_seq
rc_battery_tick-life clk rc = send-life _ _

pub handle_gamepad-life : (g : Gamepad) (rc : FakeRc) → life (handle_gamepad g rc) ≡ life rc
unfolding handle_gamepad press_x press_y
handle_gamepad-life g rc = ground arith

pub handle_discovery-life :
    (clk : Clock) (from : SocketAddr) (rc : FakeRc) → life (handle_discovery clk from rc) ≡ life rc
unfolding handle_discovery send_to
handle_discovery-life clk from rc = ground arith

pub echo_heartbeat-life :
    (from : SocketAddr) (hb : Heartbeat) (rc : FakeRc) → life (echo_heartbeat from hb rc) ≡ life rc
unfolding echo_heartbeat send_to next_seq
echo_heartbeat-life from hb rc = refl

pub see-life : (clk : Clock) (from : SocketAddr) (rc : FakeRc) → life (see clk from rc) ≡ life rc
unfolding see
see-life clk from rc = ground arith
