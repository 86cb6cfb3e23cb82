-- ===== src/Packets/Gamepad.antt =====
-- robocol/src/packets/gamepad.rs. The sticks, triggers and fingers are `f32` bits.
use robocol.Prelude.{
  ℕ, zero, suc, ◌+◌, ◌*◌, ◌<◌, ◌^◌, ◌≡◌, refl, Bool, true, false, not, List, [], ◌∷◌, ◌++◌, Result,
  ok, ◌>>=◌, ◌==◌, if◌then◌else◌, bit_and, bit_or, or_else,
}
use robocol.Wire.{
  Bytes, with_header, put_u8, put_i32, put_i64, put_f32, put_u32, get_u16, get_u8, get_i32, get_i64,
  get_u32, get_f32,
}
use robocol.Types.{GamepadType, gamepad_type_to_byte, gamepad_id_synthetic}
use robocol.Packets.Uid.{uid_gamepad}
mod Flags
pub mod RoundTrip
use Flags.{bit}

pub record Gamepad : Type 0 where
  pub seq : ℕ
  pub version : ℕ
  pub user : ℕ
  pub id : ℕ
  pub timestamp : ℕ
  pub gamepad_type : GamepadType
  pub left_stick_x : ℕ
  pub left_stick_y : ℕ
  pub right_stick_x : ℕ
  pub right_stick_y : ℕ
  pub left_trigger : ℕ
  pub right_trigger : ℕ
  pub dpad_up : Bool
  pub dpad_down : Bool
  pub dpad_left : Bool
  pub dpad_right : Bool
  pub a : Bool
  pub b : Bool
  pub x : Bool
  pub y : Bool
  pub guide : Bool
  pub start : Bool
  pub back : Bool
  pub left_bumper : Bool
  pub right_bumper : Bool
  pub left_stick_button : Bool
  pub right_stick_button : Bool
  pub touchpad : Bool
  pub touchpad_finger_1 : Bool
  pub touchpad_finger_2 : Bool
  pub touchpad_finger_1_x : ℕ
  pub touchpad_finger_1_y : ℕ
  pub touchpad_finger_2_x : ℕ
  pub touchpad_finger_2_y : ℕ

abbrev pub default : Gamepad
default = record {
  seq = 0;
  version = 5;
  user = 1;
  id = gamepad_id_synthetic;
  timestamp = 0;
  gamepad_type = GamepadType.unknown;
  left_stick_x = 0;
  left_stick_y = 0;
  right_stick_x = 0;
  right_stick_y = 0;
  left_trigger = 0;
  right_trigger = 0;
  dpad_up = false;
  dpad_down = false;
  dpad_left = false;
  dpad_right = false;
  a = false;
  b = false;
  x = false;
  y = false;
  guide = false;
  start = false;
  back = false;
  left_bumper = false;
  right_bumper = false;
  left_stick_button = false;
  right_stick_button = false;
  touchpad = false;
  touchpad_finger_1 = false;
  touchpad_finger_2 = false;
  touchpad_finger_1_x = 0;
  touchpad_finger_1_y = 0;
  touchpad_finger_2_x = 0;
  touchpad_finger_2_y = 0;
}

abbrev pub total_len : ℕ
total_len = 65

unfoldable pub buttons_bitfield : Gamepad → ℕ
buttons_bitfield g =
    let v : ℕ = 0 in
    let v = bit_or v (bit g.touchpad_finger_1 * 2 ^ 17) in
    let v = bit_or v (bit g.touchpad_finger_2 * 2 ^ 16) in
    let v = bit_or v (bit g.touchpad * 2 ^ 15) in
    let v = bit_or v (bit g.left_stick_button * 2 ^ 14) in
    let v = bit_or v (bit g.right_stick_button * 2 ^ 13) in
    let v = bit_or v (bit g.dpad_up * 2 ^ 12) in
    let v = bit_or v (bit g.dpad_down * 2 ^ 11) in
    let v = bit_or v (bit g.dpad_left * 2 ^ 10) in
    let v = bit_or v (bit g.dpad_right * 2 ^ 9) in
    let v = bit_or v (bit g.a * 2 ^ 8) in
    let v = bit_or v (bit g.b * 2 ^ 7) in
    let v = bit_or v (bit g.x * 2 ^ 6) in
    let v = bit_or v (bit g.y * 2 ^ 5) in
    let v = bit_or v (bit g.guide * 2 ^ 4) in
    let v = bit_or v (bit g.start * 2 ^ 3) in
    let v = bit_or v (bit g.back * 2 ^ 2) in
    let v = bit_or v (bit g.left_bumper * 2 ^ 1) in bit_or v (bit g.right_bumper)

unfoldable pub serialize : Gamepad → Result Bytes
unfolding put_u8 put_i32 put_i64 put_f32 put_u32
serialize g = do
  buf ← with_header uid_gamepad 60 g.seq
  buf ← put_u8 buf 5 g.version
  buf ← put_i32 buf 6 g.id
  buf ← put_i64 buf 10 g.timestamp
  buf ← put_f32 buf 18 g.left_stick_x
  buf ← put_f32 buf 22 g.left_stick_y
  buf ← put_f32 buf 26 g.right_stick_x
  buf ← put_f32 buf 30 g.right_stick_y
  buf ← put_f32 buf 34 g.left_trigger
  buf ← put_f32 buf 38 g.right_trigger
  buf ← put_u32 buf 42 (buttons_bitfield g)
  buf ← put_u8 buf 46 g.user
  buf ← put_u8 buf 47 (gamepad_type_to_byte g.gamepad_type)
  buf ← put_u8 buf 48 (gamepad_type_to_byte g.gamepad_type)
  buf ← put_f32 buf 49 g.touchpad_finger_1_x
  buf ← put_f32 buf 53 g.touchpad_finger_1_y
  buf ← put_f32 buf 57 g.touchpad_finger_2_x
  put_f32 buf 61 g.touchpad_finger_2_y

-- `buttons & (1 << k) != 0`.
unfoldable pub has_bit : ℕ → ℕ → Bool
has_bit buttons k = not (bit_and buttons (2 ^ k) == 0)

-- The `match` of `parse` on the type byte.
unfoldable pub gamepad_type_from_byte : ℕ → GamepadType
gamepad_type_from_byte t =
    if t == 1
    then GamepadType.logitech_f310
    else if t == 2
    then GamepadType.xbox360
    else if t == 3
    then GamepadType.sony_ps4
    else if t == 4
    then GamepadType.sony_ps4_kernel
    else GamepadType.unknown

unfoldable pub parse : Bytes → Result Gamepad
unfolding get_u8 get_u16 get_i32 get_i64 get_u32 get_f32
parse buf = do
  buttons ← get_u32 buf 42
  type_byte ← or_else (get_u8 buf 48) (get_u8 buf 47)
  seq ← get_u16 buf 3
  version ← get_u8 buf 5
  id ← get_i32 buf 6
  timestamp ← get_i64 buf 10
  left_stick_x ← get_f32 buf 18
  left_stick_y ← get_f32 buf 22
  right_stick_x ← get_f32 buf 26
  right_stick_y ← get_f32 buf 30
  left_trigger ← get_f32 buf 34
  right_trigger ← get_f32 buf 38
  user ← get_u8 buf 46
  touchpad_finger_1_x ← get_f32 buf 49
  touchpad_finger_1_y ← get_f32 buf 53
  touchpad_finger_2_x ← get_f32 buf 57
  touchpad_finger_2_y ← get_f32 buf 61
  ok (record {
    seq = seq;
    version = version;
    user = user;
    id = id;
    timestamp = timestamp;
    gamepad_type = gamepad_type_from_byte type_byte;
    left_stick_x = left_stick_x;
    left_stick_y = left_stick_y;
    right_stick_x = right_stick_x;
    right_stick_y = right_stick_y;
    left_trigger = left_trigger;
    right_trigger = right_trigger;
    dpad_up = has_bit buttons 12;
    dpad_down = has_bit buttons 11;
    dpad_left = has_bit buttons 10;
    dpad_right = has_bit buttons 9;
    a = has_bit buttons 8;
    b = has_bit buttons 7;
    x = has_bit buttons 6;
    y = has_bit buttons 5;
    guide = has_bit buttons 4;
    start = has_bit buttons 3;
    back = has_bit buttons 2;
    left_bumper = has_bit buttons 1;
    right_bumper = has_bit buttons 0;
    left_stick_button = has_bit buttons 14;
    right_stick_button = has_bit buttons 13;
    touchpad = has_bit buttons 15;
    touchpad_finger_1 = has_bit buttons 17;
    touchpad_finger_2 = has_bit buttons 16;
    touchpad_finger_1_x = touchpad_finger_1_x;
    touchpad_finger_1_y = touchpad_finger_1_y;
    touchpad_finger_2_x = touchpad_finger_2_x;
    touchpad_finger_2_y = touchpad_finger_2_y;
  })
