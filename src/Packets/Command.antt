-- ===== src/Packets/Command.antt =====
-- robocol/src/packets/command.rs.
use robocol.Prelude.{
  ℕ, ◌+◌, ◌<◌, ◌^◌, ◌≡◌, refl, ap, ◌∙◌, Bool, true, false, not, [], ◌∷◌, ◌++◌, append-nil, Result,
  ok, ◌>>=◌, ◌==◌, length, arith, if◌then◌else◌,
}
use robocol.Wire.{
  Bytes, with_header, put_u8, put_i64, put_str_u16, get_u16, get_u8, get_i64, get_str_u16,
  to_be_bytes, from_be_bytes-to_be_bytes, from_be_bytes-byte, is_utf8, zeros, replicate-add,
}
use robocol.Wire.Layout.{
  header, with_header-layout, str_u16, put_str_u16-append, get_str_u16-append,
}
use robocol.Packets.Uid.{uid_command}

pub record Command : Type 0 where
  pub seq : ℕ
  pub timestamp : ℕ
  pub acknowledged : Bool
  pub name : Bytes
  pub extra : Bytes

-- `Command::new`.
unfoldable pub create : Bytes → Bytes → ℕ → Command
create name extra timestamp = record {
  seq = 0;
  timestamp = timestamp;
  acknowledged = false;
  name = name;
  extra = extra;
}

unfoldable pub ack_of : Command → Command
ack_of other = record {
  seq = other.seq;
  timestamp = other.timestamp;
  acknowledged = true;
  name = other.name;
  extra = [];
}

-- `self.acknowledged as u8`.
abbrev pub bool_byte : Bool → ℕ
bool_byte false = 0
bool_byte true = 1

-- The second string is written for a command, and not for an acknowledgement.
unfoldable pub put_extra : Bool → Bytes → ℕ → Bytes → Result Bytes
put_extra true buf off extra = ok buf
put_extra false buf off extra = do (buf, _) ← put_str_u16 buf off extra; ok buf

unfoldable pub payload_len : Command → ℕ
payload_len c = 11 + length c.name + (if c.acknowledged then 0 else 2 + length c.extra)

unfoldable pub serialize : Command → Result Bytes
unfolding put_i64 put_u8
serialize c = do
  buf ← with_header uid_command (payload_len c) c.seq
  buf ← put_i64 buf 5 c.timestamp
  buf ← put_u8 buf 13 (bool_byte c.acknowledged)
  (buf, off) ← put_str_u16 buf 14 c.name
  put_extra c.acknowledged buf off c.extra

unfoldable pub get_extra : Bool → Bytes → ℕ → Result Bytes
get_extra true buf off = ok []
get_extra false buf off = do (extra, _) ← get_str_u16 buf off; ok extra

unfoldable pub parse : Bytes → Result Command
unfolding get_u16 get_u8 get_i64
parse buf = do
  flag ← get_u8 buf 13
  let acknowledged = not (flag == 0)
  (name, off) ← get_str_u16 buf 14
  extra ← get_extra acknowledged buf off
  seq ← get_u16 buf 3
  timestamp ← get_i64 buf 5
  ok (record {
    seq = seq;
    timestamp = timestamp;
    acknowledged = acknowledged;
    name = name;
    extra = extra;
  })

-- The ranges of the machine types, and strings that their length prefixes can measure.
pub record IsValid (c : Command) : Type 0 where
  pub seq_u16 : c.seq < 2 ^ 16
  pub timestamp_i64 : c.timestamp < 2 ^ 64
  pub name_short : length c.name < 2 ^ 16
  pub name_utf8 : is_utf8 c.name ≡ true
  pub extra_short : length c.extra < 2 ^ 16
  pub extra_utf8 : is_utf8 c.extra ≡ true
  pub ack_bare : c.acknowledged ≡ true → c.extra ≡ []

-- The second string, which an acknowledgement lacks.
abbrev pub extra_part : Bool → Bytes → Bytes
extra_part true extra = []
extra_part false extra = str_u16 extra

abbrev pub layout : Command → Bytes
layout c =
    header uid_command (payload_len c) c.seq
    ++ (to_be_bytes 8 c.timestamp
        ++ (bool_byte c.acknowledged ∷ (str_u16 c.name ++ extra_part c.acknowledged c.extra)))

-- The bytes before the name.
abbrev front : Command → Bytes
front c =
    header uid_command (payload_len c) c.seq
    ++ (to_be_bytes 8 c.timestamp ++ (bool_byte c.acknowledged ∷ []))

abbrev extra_len : Command → ℕ
extra_len c = if c.acknowledged then 0 else 2 + length c.extra

zeros-payload_len :
    (c : Command)
    → zeros (payload_len c) ≡ zeros 9 ++ (zeros (2 + length c.name) ++ zeros (extra_len c))
unfolding payload_len
zeros-payload_len c =
    ap zeros regroup
    ∙ replicate-add {A = ℕ} 9 _ 0
    ∙ ap (λ z. zeros 9 ++ z) (replicate-add {A = ℕ} (2 + length c.name) (extra_len c) 0)
  where
    regroup : 11 + length c.name + extra_len c ≡ 9 + (2 + length c.name + extra_len c)
    regroup = omega arith

put_extra-layout :
    (ack : Bool) (pre extra : Bytes) (off : ℕ)
    → off ≡ length pre
    → put_extra ack (pre ++ zeros (if ack then 0 else 2 + length extra)) off extra
      ≡ ok (pre ++ extra_part ack extra)
unfolding put_extra
put_extra-layout true pre extra off h = refl
put_extra-layout false pre extra off h =
    simp append-nil at (ap (λ r. r >>= (λ x. ok x.0)) (put_str_u16-append pre extra [] off h))

get_extra-layout :
    (ack : Bool) (pre extra : Bytes) (off : ℕ)
    → off ≡ length pre
    → (ack ≡ true → extra ≡ [])
    → length extra < 2 ^ 16
    → is_utf8 extra ≡ true
    → get_extra ack (pre ++ extra_part ack extra) off ≡ ok extra
unfolding get_extra
get_extra-layout true pre extra off h bare short u = rw (bare refl)
get_extra-layout false pre extra off h bare short u =
    rw append-nil at (ap (λ r. r >>= (λ x. ok x.0)) (get_str_u16-append pre extra [] off h short u))

pub serialize-layout : (c : Command) → serialize c ≡ ok (layout c)
unfolding serialize
serialize-layout c =
    rw
      (
        with_header-layout uid_command (payload_len c) c.seq,
        zeros-payload_len c,
        put_str_u16-append (front c) c.name (zeros (extra_len c)) 14 refl,
      )
      (put_extra-layout c.acknowledged (front c ++ str_u16 c.name) c.extra (14 + 2 + length c.name)
        (omega arith))

flag_lem : (b : Bool) → not (bool_byte b == 0) ≡ b
flag_lem true = refl
flag_lem false = refl

pub parse-layout : (c : Command) → IsValid c → parse (layout c) ≡ ok c
unfolding parse
parse-layout c v = rw (
  from_be_bytes-byte (bool_byte c.acknowledged),
  flag_lem c.acknowledged,
  get_str_u16-append (front c) c.name (extra_part c.acknowledged c.extra) 14 refl v.name_short
      v.name_utf8,
  get_extra-layout c.acknowledged (front c ++ str_u16 c.name) c.extra (14 + 2 + length c.name)
      (omega arith) v.ack_bare v.extra_short v.extra_utf8,
  from_be_bytes-to_be_bytes 2 c.seq v.seq_u16,
  from_be_bytes-to_be_bytes 8 c.timestamp v.timestamp_i64,
)
