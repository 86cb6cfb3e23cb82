-- ===== src/Packets/Telemetry/RoundTrip.antt =====
-- The telemetry packet, written and read back whole.
use robocol.Prelude.{
  ℕ, ◌+◌, ◌<◌, ◌^◌, ◌≡◌, refl, ap, sym, ◌∙◌, Bool, true, false, not, [], ◌∷◌, ◌++◌, append-nil,
  append_assoc, ok, ◌==◌, arith, length, length-append, All,
}
use robocol.Wire.{
  Bytes, zeros, replicate-add, to_be_bytes, from_be_bytes-to_be_bytes, from_be_bytes-byte, put_u8,
  get_u8,
}
use robocol.Wire.Layout.{header, with_header-layout, str_u8}
use robocol.Wire.Fill.{put_u8-fill, put_str_u8-fill, get_u8-at, get_str_u8-at}
use robocol.Types.{robot_state_to_byte, robot_state_from_byte-to_byte}
use robocol.Packets.Uid.{uid_telemetry}
use robocol.Packets.Telemetry.{
  Telemetry, serialize, parse, payload_len, strings_len, numbers_len, bool_byte,
}
use robocol.Packets.Telemetry.Fields.{
  strings_bytes, numbers_bytes, length-strings_bytes, put_strings-fill, put_numbers-fill,
  get_strings-at, get_numbers-at, IsText, IsStringEntry, IsNumberEntry, Ascending,
}
use native.Mathlib.Nat.{mod-eq_of_lt}

-- The ranges of the machine types, tables that one byte can count, strings that their prefixes can
-- measure, and numbers in key order.
pub record IsValid (t : Telemetry) : Type 0 where
  pub seq_u16 : t.seq < 2 ^ 16
  pub timestamp_i64 : t.timestamp < 2 ^ 64
  pub tag_short : length t.tag < 256
  pub tag_text : IsText t.tag
  pub strings_few : length t.strings < 256
  pub strings_text : All IsStringEntry t.strings
  pub numbers_few : length t.numbers < 256
  pub numbers_text : All IsNumberEntry t.numbers
  pub numbers_sorted : Ascending t.numbers

-- The bytes before the tag.
abbrev front : Telemetry → Bytes
front t =
    header uid_telemetry (payload_len t) t.seq
    ++ (to_be_bytes 8 t.timestamp
        ++ (bool_byte t.is_sorted ∷ robot_state_to_byte t.robot_state ∷ []))

abbrev with_tag : Telemetry → Bytes
with_tag t = front t ++ str_u8 t.tag

abbrev with_strings : Telemetry → Bytes
with_strings t = (with_tag t ++ length t.strings ∷ []) ++ strings_bytes t.strings

abbrev pub layout : Telemetry → Bytes
layout t = (with_strings t ++ length t.numbers ∷ []) ++ numbers_bytes t.numbers

zeros-payload_len :
    (t : Telemetry)
    → zeros (payload_len t)
      ≡ zeros 10
        ++ (zeros (1 + length t.tag)
            ++ (zeros 1
                ++ (zeros (strings_len t.strings)
                    ++ (zeros 1 ++ (zeros (numbers_len t.numbers) ++ [])))))
unfolding payload_len
zeros-payload_len t =
    ap zeros regroup
    ∙ replicate-add {A = ℕ} 10 _ 0
    ∙ ap (λ z. zeros 10 ++ z) (replicate-add {A = ℕ} (1 + length t.tag) _ 0)
    ∙ ap (λ z. zeros 10 ++ (zeros (1 + length t.tag) ++ z))
        (replicate-add {A = ℕ} 1 _ 0
          ∙ ap (λ z. zeros 1 ++ z)
              (replicate-add {A = ℕ} (strings_len t.strings) _ 0
                ∙ ap (λ z. zeros (strings_len t.strings) ++ z)
                    (replicate-add {A = ℕ} 1 _ 0
                      ∙ ap (λ z. zeros 1 ++ z) (sym (append-nil (zeros (numbers_len t.numbers)))))))
  where
    regroup :
        13 + length t.tag + strings_len t.strings + numbers_len t.numbers
        ≡ 10 + (1 + length t.tag + (1 + (strings_len t.strings + (1 + numbers_len t.numbers))))
    regroup = omega arith

flag_lem : (b : Bool) → not (bool_byte b == 0) ≡ b
flag_lem true = refl
flag_lem false = refl

module _ (t : Telemetry) (v : IsValid t) where
  tag_end : 15 + 1 + length t.tag ≡ length (with_tag t)
  tag_end = omega arith

  strings_start : 15 + 1 + length t.tag + 1 ≡ length (with_tag t ++ length t.strings ∷ [])
  strings_start = omega (arith, length-append (with_tag t) (length t.strings ∷ []))

  strings_end : 15 + 1 + length t.tag + 1 + strings_len t.strings ≡ length (with_strings t)
  strings_end = omega (
    arith,
    strings_start,
    length-strings_bytes t.strings,
    length-append (with_tag t ++ length t.strings ∷ []) (strings_bytes t.strings),
  )

  numbers_start :
      15 + 1 + length t.tag + 1 + strings_len t.strings + 1
      ≡ length (with_strings t ++ length t.numbers ∷ [])
  numbers_start = omega (arith, strings_end, length-append (with_strings t) (length t.numbers ∷ []))

  pub serialize-layout : serialize t ≡ ok (layout t)
  unfolding serialize put_u8
  serialize-layout =
      rw
        (
          with_header-layout uid_telemetry (payload_len t) t.seq,
          zeros-payload_len t,
          mod-eq_of_lt {n = length t.strings} {m = 256} v.strings_few,
          mod-eq_of_lt {n = length t.numbers} {m = 256} v.numbers_few,
          put_str_u8-fill (front t) t.tag
              (zeros 1
                ++ (zeros (strings_len t.strings)
                    ++ (zeros 1 ++ (zeros (numbers_len t.numbers) ++ []))))
              15 refl v.tag_short,
          put_u8-fill (with_tag t)
              (zeros (strings_len t.strings) ++ (zeros 1 ++ (zeros (numbers_len t.numbers) ++ [])))
              (length t.strings) (15 + 1 + length t.tag) tag_end,
          put_strings-fill (with_tag t ++ length t.strings ∷ []) t.strings
              (zeros 1 ++ (zeros (numbers_len t.numbers) ++ [])) (15 + 1 + length t.tag + 1)
              strings_start,
          put_u8-fill (with_strings t) (zeros (numbers_len t.numbers) ++ []) (length t.numbers)
              (15 + 1 + length t.tag + 1 + strings_len t.strings) strings_end,
          put_numbers-fill (with_strings t ++ length t.numbers ∷ []) t.numbers []
              (15 + 1 + length t.tag + 1 + strings_len t.strings + 1) numbers_start,
        )
        (ap ok (append-nil (layout t)))

  tag_at :
      layout t
      ≡ front t
        ++ (str_u8 t.tag
            ++ (length t.strings
                ∷ (strings_bytes t.strings ++ (length t.numbers ∷ numbers_bytes t.numbers))))
  tag_at = simp append_assoc

  strings_count_at :
      layout t
      ≡ with_tag t
        ++ (length t.strings
            ∷ (strings_bytes t.strings ++ (length t.numbers ∷ numbers_bytes t.numbers)))
  strings_count_at = tag_at ∙ sym (append_assoc (front t) (str_u8 t.tag) _)

  strings_at :
      layout t
      ≡ (with_tag t ++ length t.strings ∷ [])
        ++ (strings_bytes t.strings ++ (length t.numbers ∷ numbers_bytes t.numbers))
  strings_at = strings_count_at ∙ sym (append_assoc (with_tag t) (length t.strings ∷ []) _)

  numbers_count_at : layout t ≡ with_strings t ++ (length t.numbers ∷ numbers_bytes t.numbers)
  numbers_count_at = append_assoc (with_strings t) (length t.numbers ∷ []) (numbers_bytes t.numbers)

  numbers_at :
      layout t ≡ (with_strings t ++ length t.numbers ∷ []) ++ (numbers_bytes t.numbers ++ [])
  numbers_at =
      ap (λ z. (with_strings t ++ length t.numbers ∷ []) ++ z)
        (sym (append-nil (numbers_bytes t.numbers)))

  pub parse-layout : parse (layout t) ≡ ok t
  unfolding parse get_u8
  parse-layout = rw (
    from_be_bytes-byte (bool_byte t.is_sorted),
    flag_lem t.is_sorted,
    from_be_bytes-byte (robot_state_to_byte t.robot_state),
    robot_state_from_byte-to_byte t.robot_state,
    from_be_bytes-to_be_bytes 2 t.seq v.seq_u16,
    from_be_bytes-to_be_bytes 8 t.timestamp v.timestamp_i64,
    get_str_u8-at (layout t) (front t) _ 15 refl t.tag v.tag_text.1 tag_at,
    get_u8-at (layout t) (with_tag t) _ (15 + 1 + length t.tag) tag_end (length t.strings)
        strings_count_at,
    get_strings-at t.strings (layout t) (with_tag t ++ length t.strings ∷ []) _
        (15 + 1 + length t.tag + 1) strings_start v.strings_text strings_at,
    get_u8-at (layout t) (with_strings t) _ (15 + 1 + length t.tag + 1 + strings_len t.strings)
        strings_end (length t.numbers) numbers_count_at,
    get_numbers-at t.numbers [] (layout t) (with_strings t ++ length t.numbers ∷ []) []
        (15 + 1 + length t.tag + 1 + strings_len t.strings + 1) numbers_start v.numbers_text
        v.numbers_sorted numbers_at,
  )
