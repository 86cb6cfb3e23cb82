-- ===== src/Types.antt =====
-- robocol/src/types.rs: the enumerations that the packets share.
use robocol.Prelude.{ℕ, ◌≡◌, refl, ◌==◌, if◌then◌else◌}

pub data RobotState : Type 0 where
  unknown not_started init running stopped emergency_stop : RobotState

-- `b as i8` is 0, …, 4 just where `b` is.
unfoldable pub robot_state_from_byte : ℕ → RobotState
robot_state_from_byte b =
    if b == 0
    then RobotState.not_started
    else if b == 1
    then RobotState.init
    else if b == 2
    then RobotState.running
    else if b == 3
    then RobotState.stopped
    else if b == 4
    then RobotState.emergency_stop
    else RobotState.unknown

-- `(-1i8) as u8` is 255.
unfoldable pub robot_state_to_byte : RobotState → ℕ
robot_state_to_byte RobotState.unknown = 255
robot_state_to_byte RobotState.not_started = 0
robot_state_to_byte RobotState.init = 1
robot_state_to_byte RobotState.running = 2
robot_state_to_byte RobotState.stopped = 3
robot_state_to_byte RobotState.emergency_stop = 4

pub robot_state_from_byte-to_byte :
    (s : RobotState) → robot_state_from_byte (robot_state_to_byte s) ≡ s
unfolding robot_state_from_byte robot_state_to_byte
robot_state_from_byte-to_byte RobotState.unknown = refl
robot_state_from_byte-to_byte s = refl

pub data GamepadType : Type 0 where
  unknown logitech_f310 xbox360 sony_ps4 sony_ps4_kernel : GamepadType

-- `gamepad_type as u8`.
unfoldable pub gamepad_type_to_byte : GamepadType → ℕ
gamepad_type_to_byte GamepadType.unknown = 0
gamepad_type_to_byte GamepadType.logitech_f310 = 1
gamepad_type_to_byte GamepadType.xbox360 = 2
gamepad_type_to_byte GamepadType.sony_ps4 = 3
gamepad_type_to_byte GamepadType.sony_ps4_kernel = 4

-- -2, as a 32-bit pattern.
abbrev pub gamepad_id_synthetic : ℕ
gamepad_id_synthetic = 0xffff_fffe
