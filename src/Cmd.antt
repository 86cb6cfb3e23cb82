-- ===== src/Cmd.antt =====
-- robocol/src/cmd.rs: the command names, and the payloads that are JSON. `serde_json` is a parameter: a
-- record of the readers and writers that the source derives.
use robocol.Prelude.{ℕ, List, [], Option, none, some, map, Bool}
use robocol.Prelude.Text.{codes}
use robocol.Wire.{Bytes}

abbrev pub request_op_mode_list : Bytes
request_op_mode_list = codes "CMD_REQUEST_OP_MODE_LIST"

abbrev pub init_op_mode : Bytes
init_op_mode = codes "CMD_INIT_OP_MODE"

abbrev pub run_op_mode : Bytes
run_op_mode = codes "CMD_RUN_OP_MODE"

abbrev pub request_active_config : Bytes
request_active_config = codes "CMD_REQUEST_ACTIVE_CONFIG"

abbrev pub request_configurations : Bytes
request_configurations = codes "CMD_REQUEST_CONFIGURATIONS"

abbrev pub request_particular_configuration : Bytes
request_particular_configuration = codes "CMD_REQUEST_PARTICULAR_CONFIGURATION"

abbrev pub request_user_device_types : Bytes
request_user_device_types = codes "CMD_REQUEST_USER_DEVICE_TYPES"

abbrev pub save_configuration : Bytes
save_configuration = codes "CMD_SAVE_CONFIGURATION"

abbrev pub activate_configuration : Bytes
activate_configuration = codes "CMD_ACTIVATE_CONFIGURATION"

abbrev pub delete_configuration : Bytes
delete_configuration = codes "CMD_DELETE_CONFIGURATION"

abbrev pub restart_robot : Bytes
restart_robot = codes "CMD_RESTART_ROBOT"

abbrev pub scan : Bytes
scan = codes "CMD_SCAN"

abbrev pub discover_lynx_modules : Bytes
discover_lynx_modules = codes "CMD_DISCOVER_LYNX_MODULES"

abbrev pub request_frame : Bytes
request_frame = codes "CMD_REQUEST_FRAME"

abbrev pub notify_op_mode_list : Bytes
notify_op_mode_list = codes "CMD_NOTIFY_OP_MODE_LIST"

abbrev pub notify_init_op_mode : Bytes
notify_init_op_mode = codes "CMD_NOTIFY_INIT_OP_MODE"

abbrev pub notify_run_op_mode : Bytes
notify_run_op_mode = codes "CMD_NOTIFY_RUN_OP_MODE"

abbrev pub notify_active_configuration : Bytes
notify_active_configuration = codes "CMD_NOTIFY_ACTIVE_CONFIGURATION"

abbrev pub notify_user_device_list : Bytes
notify_user_device_list = codes "CMD_NOTIFY_USER_DEVICE_LIST"

abbrev pub request_configurations_resp : Bytes
request_configurations_resp = codes "CMD_REQUEST_CONFIGURATIONS_RESP"

abbrev pub request_particular_configuration_resp : Bytes
request_particular_configuration_resp = codes "CMD_REQUEST_PARTICULAR_CONFIGURATION_RESP"

abbrev pub scan_resp : Bytes
scan_resp = codes "CMD_SCAN_RESP"

abbrev pub discover_lynx_modules_resp : Bytes
discover_lynx_modules_resp = codes "CMD_DISCOVER_LYNX_MODULES_RESP"

abbrev pub show_stacktrace : Bytes
show_stacktrace = codes "CMD_SHOW_STACKTRACE"

abbrev pub stream_change : Bytes
stream_change = codes "CMD_STREAM_CHANGE"

abbrev pub receive_frame_begin : Bytes
receive_frame_begin = codes "CMD_RECEIVE_FRAME_BEGIN"

abbrev pub receive_frame_chunk : Bytes
receive_frame_chunk = codes "CMD_RECEIVE_FRAME_CHUNK"

abbrev pub default_op_mode : Bytes
default_op_mode = codes "$Stop$Robot$"

abbrev pub frame_chunk_size : ℕ
frame_chunk_size = 4096

-- `i32` fields are 32-bit patterns.
pub record FrameBegin : Type 0 where
  pub frame_num : ℕ
  pub length : ℕ

pub record FrameChunk : Type 0 where
  pub frame_num : ℕ
  pub chunk_num : ℕ
  pub encoded_data : Bytes

pub record OpModeMeta : Type 0 where
  pub name : Bytes
  pub flavor : Bytes
  pub group : Bytes

pub record ConfigMeta : Type 0 where
  pub is_dirty : Bool
  pub location : Bytes
  pub name : Bytes
  pub resource_id : ℕ

-- What the source has `serde_json` do; `none` is its error.
pub record Json : Type 0 where
  pub frame_begin : Bytes → Option FrameBegin
  pub frame_chunk : Bytes → Option FrameChunk
  pub op_mode_metas : Bytes → Option (List OpModeMeta)
  pub names : Bytes → Option (List Bytes)
  pub config_metas : Bytes → Option (List ConfigMeta)
  pub config_string : ConfigMeta → Option Bytes

unfoldable pub parse_config_list : Json → Bytes → List ConfigMeta
parse_config_list json extra = elim (json.config_metas extra) [ some l ↦ l | none ↦ [] ]

-- The object form, or else an array of names, or else nothing.
unfoldable pub parse_opmode_list : Json → Bytes → List OpModeMeta
parse_opmode_list json extra = elim (json.op_mode_metas extra) [
  | some metas ↦ metas
  | none ↦ elim (json.names extra) [
    | some l ↦ map (λ name. record { name = name; flavor = []; group = [] }) l
    | none ↦ []
  ]
]
