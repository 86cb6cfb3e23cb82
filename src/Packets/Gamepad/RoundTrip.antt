-- ===== src/Packets/Gamepad/RoundTrip.antt =====
-- robocol/src/packets/gamepad.rs: the packet written and read back.
use robocol.Prelude.{
  ℕ, suc, sym, ap, some, get_elem?, length, take, drop, take-get-drop, ◌*◌, ◌<◌, ◌^◌, ◌≡◌, refl,
  Bool, List, [], ◌∷◌, ◌++◌, ok, arith,
}
use robocol.Wire.{Bytes, to_be_bytes, from_be_bytes-to_be_bytes, from_be_bytes-byte}
use robocol.Wire.Layout.{header, with_header-layout}
use robocol.Types.{GamepadType, gamepad_type_to_byte}
use robocol.Packets.Uid.{uid_gamepad}
use robocol.Packets.Gamepad.{
  Gamepad, buttons_bitfield, has_bit, gamepad_type_from_byte, serialize, parse,
}
use robocol.Packets.Gamepad.Flags.{bit, or_down-horner, horner, bit_and-horner, horner-lt}

pub record IsValid (g : Gamepad) : Type 0 where
  pub seq_u16 : g.seq < 2 ^ 16
  pub id_i32 : g.id < 2 ^ 32
  pub timestamp_i64 : g.timestamp < 2 ^ 64
  pub left_stick_x_f32 : g.left_stick_x < 2 ^ 32
  pub left_stick_y_f32 : g.left_stick_y < 2 ^ 32
  pub right_stick_x_f32 : g.right_stick_x < 2 ^ 32
  pub right_stick_y_f32 : g.right_stick_y < 2 ^ 32
  pub left_trigger_f32 : g.left_trigger < 2 ^ 32
  pub right_trigger_f32 : g.right_trigger < 2 ^ 32
  pub touchpad_finger_1_x_f32 : g.touchpad_finger_1_x < 2 ^ 32
  pub touchpad_finger_1_y_f32 : g.touchpad_finger_1_y < 2 ^ 32
  pub touchpad_finger_2_x_f32 : g.touchpad_finger_2_x < 2 ^ 32
  pub touchpad_finger_2_y_f32 : g.touchpad_finger_2_y < 2 ^ 32

abbrev flags : Gamepad → List Bool
flags g =
    g.touchpad_finger_1 ∷ g.touchpad_finger_2 ∷ g.touchpad ∷ g.left_stick_button
    ∷ g.right_stick_button ∷ g.dpad_up ∷ g.dpad_down ∷ g.dpad_left ∷ g.dpad_right ∷ g.a ∷ g.b ∷ g.x
    ∷ g.y ∷ g.guide ∷ g.start ∷ g.back ∷ g.left_bumper ∷ g.right_bumper ∷ []

in_place : (f : Bool) → bit f * 1 ≡ bit f
in_place f = omega arith

buttons_bitfield-horner : (g : Gamepad) → buttons_bitfield g ≡ horner 0 (flags g)
unfolding buttons_bitfield
buttons_bitfield-horner g = rw (← in_place g.right_bumper) (or_down-horner 0 (flags g))

buttons_bitfield-lt : (g : Gamepad) → buttons_bitfield g < 2 ^ 32
buttons_bitfield-lt g = omega (arith, buttons_bitfield-horner g, horner-lt (flags g))

gamepad_type_from_byte-to_byte :
    (t : GamepadType) → gamepad_type_from_byte (gamepad_type_to_byte t) ≡ t
unfolding gamepad_type_from_byte gamepad_type_to_byte
gamepad_type_from_byte-to_byte GamepadType.unknown = refl
gamepad_type_from_byte-to_byte t = refl

-- The n-th flag is read back by the bit that stands for it.
has_flag :
    (g : Gamepad) (n k : ℕ) (f : Bool)
    → get_elem? (flags g) n ≡ some f
    → length (drop (suc n) (flags g)) ≡ k
    → has_bit (buttons_bitfield g) k ≡ f
unfolding has_bit
has_flag g n k f at_n behind =
    rw (buttons_bitfield-horner g, ap (horner 0) (take-get-drop (flags g) n f at_n), sym behind)
      (bit_and-horner (take n (flags g)) f (drop (suc n) (flags g)))

abbrev pub layout : Gamepad → Bytes
layout g =
    header uid_gamepad 60 g.seq
    ++ (g.version
        ∷ (to_be_bytes 4 g.id
            ++ (to_be_bytes 8 g.timestamp
                ++ (to_be_bytes 4 g.left_stick_x
                    ++ (to_be_bytes 4 g.left_stick_y
                        ++ (to_be_bytes 4 g.right_stick_x
                            ++ (to_be_bytes 4 g.right_stick_y
                                ++ (to_be_bytes 4 g.left_trigger
                                    ++ (to_be_bytes 4 g.right_trigger
                                        ++ (to_be_bytes 4 (buttons_bitfield g)
                                            ++ ((g.user
                                                  ∷ gamepad_type_to_byte g.gamepad_type
                                                  ∷ gamepad_type_to_byte g.gamepad_type
                                                  ∷ [])
                                                ++ (to_be_bytes 4 g.touchpad_finger_1_x
                                                    ++ (to_be_bytes 4 g.touchpad_finger_1_y
                                                        ++ (to_be_bytes 4 g.touchpad_finger_2_x
                                                            ++ to_be_bytes 4
                                                            g.touchpad_finger_2_y))))))))))))))

pub serialize-layout : (g : Gamepad) → serialize g ≡ ok (layout g)
unfolding serialize
serialize-layout g = rw (with_header-layout uid_gamepad 60 g.seq)

pub parse-layout : (g : Gamepad) → IsValid g → parse (layout g) ≡ ok g
unfolding parse
parse-layout g v = rw (
  from_be_bytes-to_be_bytes 4 (buttons_bitfield g) (buttons_bitfield-lt g),
  from_be_bytes-byte (gamepad_type_to_byte g.gamepad_type),
  gamepad_type_from_byte-to_byte g.gamepad_type,
  from_be_bytes-to_be_bytes 2 g.seq v.seq_u16,
  from_be_bytes-byte g.version,
  from_be_bytes-to_be_bytes 4 g.id v.id_i32,
  from_be_bytes-to_be_bytes 8 g.timestamp v.timestamp_i64,
  from_be_bytes-byte g.user,
  from_be_bytes-to_be_bytes 4 g.left_stick_x v.left_stick_x_f32,
  from_be_bytes-to_be_bytes 4 g.left_stick_y v.left_stick_y_f32,
  from_be_bytes-to_be_bytes 4 g.right_stick_x v.right_stick_x_f32,
  from_be_bytes-to_be_bytes 4 g.right_stick_y v.right_stick_y_f32,
  from_be_bytes-to_be_bytes 4 g.left_trigger v.left_trigger_f32,
  from_be_bytes-to_be_bytes 4 g.right_trigger v.right_trigger_f32,
  from_be_bytes-to_be_bytes 4 g.touchpad_finger_1_x v.touchpad_finger_1_x_f32,
  from_be_bytes-to_be_bytes 4 g.touchpad_finger_1_y v.touchpad_finger_1_y_f32,
  from_be_bytes-to_be_bytes 4 g.touchpad_finger_2_x v.touchpad_finger_2_x_f32,
  from_be_bytes-to_be_bytes 4 g.touchpad_finger_2_y v.touchpad_finger_2_y_f32,
  has_flag g 0 17 g.touchpad_finger_1 refl refl,
  has_flag g 1 16 g.touchpad_finger_2 refl refl,
  has_flag g 2 15 g.touchpad refl refl,
  has_flag g 3 14 g.left_stick_button refl refl,
  has_flag g 4 13 g.right_stick_button refl refl,
  has_flag g 5 12 g.dpad_up refl refl,
  has_flag g 6 11 g.dpad_down refl refl,
  has_flag g 7 10 g.dpad_left refl refl,
  has_flag g 8 9 g.dpad_right refl refl,
  has_flag g 9 8 g.a refl refl,
  has_flag g 10 7 g.b refl refl,
  has_flag g 11 6 g.x refl refl,
  has_flag g 12 5 g.y refl refl,
  has_flag g 13 4 g.guide refl refl,
  has_flag g 14 3 g.start refl refl,
  has_flag g 15 2 g.back refl refl,
  has_flag g 16 1 g.left_bumper refl refl,
  has_flag g 17 0 g.right_bumper refl refl,
)
