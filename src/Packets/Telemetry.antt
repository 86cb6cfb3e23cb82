-- ===== src/Packets/Telemetry.antt =====
-- robocol/src/packets/telemetry.rs. `numbers`, a BTreeMap, is the list of its entries in key order.
use robocol.Prelude.{
  ℕ, zero, suc, ◌+◌, ◌<◌, ◌%◌, ◌^◌, ◌≡◌, refl, ap, ◌∙◌, Bool, true, false, not, List, [], ◌∷◌, ◌++◌,
  Option, none, some, Result, ok, ◌>>=◌, ◌==◌, length, arith, if◌then◌else◌,
}
use robocol.Prelude.Text.{compare_bytes, bytes_eq}
use robocol.Wire.{
  Bytes, with_header, put_u8, put_i64, put_f32, put_str_u8, put_str_u16, get_u16, get_u8, get_i64,
  get_f32, get_str_u8, get_str_u16,
}
use robocol.Types.{RobotState, robot_state_from_byte, robot_state_to_byte}
use robocol.Packets.Uid.{uid_telemetry}
use Prim.Native.Nat.{Ordering}
pub mod Fields
pub mod RoundTrip

pub record Telemetry : Type 0 where
  pub seq : ℕ
  pub timestamp : ℕ
  pub is_sorted : Bool
  pub robot_state : RobotState
  pub tag : Bytes
  pub strings : List (Bytes × Bytes)
  pub numbers : List (Bytes × ℕ)

abbrev pub default : Telemetry
default = record {
  seq = 0;
  timestamp = 0;
  is_sorted = false;
  robot_state = RobotState.unknown;
  tag = [];
  strings = [];
  numbers = [];
}

-- `BTreeMap::insert`.
unfoldable pub insert : Bytes → ℕ → List (Bytes × ℕ) → List (Bytes × ℕ)
insert k v [] = (k, v) ∷ []
insert k v ((j, w) ∷ m) = elim (compare_bytes k j) [
  | Ordering.lt ↦ (k, v) ∷ (j, w) ∷ m
  | Ordering.eq ↦ (j, v) ∷ m
  | Ordering.gt ↦ (j, w) ∷ insert k v m
]

unfoldable pub push_line : Telemetry → Bytes → Telemetry
push_line t text = record t { strings = t.strings ++ ([], text) ∷ [] }

-- The two loops that add up the payload.
unfoldable pub strings_len : List (Bytes × Bytes) → ℕ
strings_len [] = 0
strings_len ((k, v) ∷ r) = 4 + length k + length v + strings_len r

unfoldable pub numbers_len : List (Bytes × ℕ) → ℕ
numbers_len [] = 0
numbers_len ((k, v) ∷ r) = 6 + length k + numbers_len r

unfoldable pub put_strings : Bytes → ℕ → List (Bytes × Bytes) → Result (Bytes × ℕ)
put_strings buf off [] = ok (buf, off)
put_strings buf off ((k, v) ∷ r) = do
  (buf, off) ← put_str_u16 buf off k
  (buf, off) ← put_str_u16 buf off v
  put_strings buf off r

unfoldable pub put_numbers : Bytes → ℕ → List (Bytes × ℕ) → Result (Bytes × ℕ)
put_numbers buf off [] = ok (buf, off)
put_numbers buf off ((k, v) ∷ r) = do
  (buf, off) ← put_str_u16 buf off k
  buf ← put_f32 buf off v
  put_numbers buf (off + 4) r

-- `flag as u8`.
abbrev pub bool_byte : Bool → ℕ
bool_byte false = 0
bool_byte true = 1

unfoldable pub payload_len : Telemetry → ℕ
payload_len t = 13 + length t.tag + strings_len t.strings + numbers_len t.numbers

unfoldable pub serialize : Telemetry → Result Bytes
unfolding put_i64
serialize t = do
  buf ← with_header uid_telemetry (payload_len t) t.seq
  buf ← put_i64 buf 5 t.timestamp
  buf ← put_u8 buf 13 (bool_byte t.is_sorted)
  buf ← put_u8 buf 14 (robot_state_to_byte t.robot_state)
  (buf, off) ← put_str_u8 buf 15 t.tag
  buf ← put_u8 buf off (length t.strings % 256)
  (buf, off) ← put_strings buf (off + 1) t.strings
  buf ← put_u8 buf off (length t.numbers % 256)
  (buf, _) ← put_numbers buf (off + 1) t.numbers
  ok buf

unfoldable pub get_strings : ℕ → Bytes → ℕ → Result (List (Bytes × Bytes) × ℕ)
get_strings zero buf off = ok ([], off)
get_strings (suc n) buf off = do
  (key, o) ← get_str_u16 buf off
  (value, next) ← get_str_u16 buf o
  (rest, off) ← get_strings n buf next
  ok ((key, value) ∷ rest, off)

unfoldable pub get_numbers : ℕ → Bytes → ℕ → List (Bytes × ℕ) → Result (List (Bytes × ℕ))
unfolding insert
get_numbers zero buf off numbers = ok numbers
get_numbers (suc n) buf off numbers = do
  (key, off) ← get_str_u16 buf off
  value ← get_f32 buf off
  get_numbers n buf (off + 4) (insert key value numbers)

unfoldable pub parse : Bytes → Result Telemetry
unfolding get_u16 get_i64
parse buf = do
  seq ← get_u16 buf 3
  timestamp ← get_i64 buf 5
  is_sorted ← get_u8 buf 13
  state ← get_u8 buf 14
  (tag, off) ← get_str_u8 buf 15
  string_count ← get_u8 buf off
  (strings, off) ← get_strings string_count buf (off + 1)
  number_count ← get_u8 buf off
  numbers ← get_numbers number_count buf (off + 1) []
  ok (record {
    seq = seq;
    timestamp = timestamp;
    is_sorted = not (is_sorted == 0);
    robot_state = robot_state_from_byte state;
    tag = tag;
    strings = strings;
    numbers = numbers;
  })
