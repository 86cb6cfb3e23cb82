-- ===== src/Packets/Heartbeat.antt =====
-- robocol/src/packets/heartbeat.rs.
use robocol.Prelude.{ℕ, ◌+◌, ◌<◌, ◌^◌, ◌≡◌, true, [], ◌∷◌, ◌++◌, Result, ok, ◌>>=◌, length}
use robocol.Wire.{
  Bytes, with_header, put_u8, put_i64, put_str_u8, get_u16, get_u8, get_i64, get_str_u8,
  to_be_bytes, from_be_bytes-to_be_bytes, from_be_bytes-byte, is_utf8, replicate-add,
  overwrite-zeros, take_exact_self,
}
use robocol.Wire.Layout.{header, with_header-layout}
use robocol.Types.{
  RobotState, robot_state_from_byte, robot_state_to_byte, robot_state_from_byte-to_byte,
}
use robocol.Packets.Uid.{uid_heartbeat}
use native.Mathlib.Nat.{mod-eq_of_lt}

pub record Heartbeat : Type 0 where
  pub seq : ℕ
  pub timestamp : ℕ
  pub robot_state : RobotState
  pub t0 : ℕ
  pub t1 : ℕ
  pub t2 : ℕ
  pub timezone_id : Bytes

-- `Heartbeat::default()`; the time zone is "GMT".
abbrev pub default : Heartbeat
default = record {
  seq = 0;
  timestamp = 0;
  robot_state = RobotState.unknown;
  t0 = 0;
  t1 = 0;
  t2 = 0;
  timezone_id = b'G' ∷ b'M' ∷ b'T' ∷ [];
}

unfoldable pub serialize : Heartbeat → Result Bytes
unfolding put_i64 put_u8 put_str_u8
serialize h = do
  let tz = h.timezone_id
  buf ← with_header uid_heartbeat (34 + length tz) h.seq
  buf ← put_i64 buf 5 h.timestamp
  buf ← put_u8 buf 13 (robot_state_to_byte h.robot_state)
  buf ← put_i64 buf 14 h.t0
  buf ← put_i64 buf 22 h.t1
  buf ← put_i64 buf 30 h.t2
  (buf, _) ← put_str_u8 buf 38 tz
  ok buf

unfoldable pub parse : Bytes → Result Heartbeat
unfolding get_u16 get_u8 get_i64 get_str_u8
parse buf = do
  seq ← get_u16 buf 3
  timestamp ← get_i64 buf 5
  state ← get_u8 buf 13
  t0 ← get_i64 buf 14
  t1 ← get_i64 buf 22
  t2 ← get_i64 buf 30
  (tz, _) ← get_str_u8 buf 38
  ok (record {
    seq = seq;
    timestamp = timestamp;
    robot_state = robot_state_from_byte state;
    t0 = t0;
    t1 = t1;
    t2 = t2;
    timezone_id = tz;
  })

-- The ranges of the machine types, and a time zone that its length byte can measure.
pub record IsValid (h : Heartbeat) : Type 0 where
  pub seq_u16 : h.seq < 2 ^ 16
  pub timestamp_i64 : h.timestamp < 2 ^ 64
  pub t0_i64 : h.t0 < 2 ^ 64
  pub t1_i64 : h.t1 < 2 ^ 64
  pub t2_i64 : h.t2 < 2 ^ 64
  pub tz_short : length h.timezone_id < 256
  pub tz_utf8 : is_utf8 h.timezone_id ≡ true

abbrev pub layout : Heartbeat → Bytes
layout h =
    header uid_heartbeat (34 + length h.timezone_id) h.seq
    ++ (to_be_bytes 8 h.timestamp
        ++ (robot_state_to_byte h.robot_state
            ∷ (to_be_bytes 8 h.t0
                ++ (to_be_bytes 8 h.t1
                    ++ (to_be_bytes 8 h.t2 ++ (length h.timezone_id ∷ h.timezone_id))))))

pub serialize-layout : (h : Heartbeat) → length h.timezone_id < 256 → serialize h ≡ ok (layout h)
unfolding serialize
serialize-layout h short = rw (
  with_header-layout uid_heartbeat (34 + length h.timezone_id) h.seq,
  replicate-add {A = ℕ} 34 (length h.timezone_id) 0,
  mod-eq_of_lt {n = length h.timezone_id} {m = 256} short,
  overwrite-zeros h.timezone_id,
)

pub parse-layout : (h : Heartbeat) → IsValid h → parse (layout h) ≡ ok h
unfolding parse
parse-layout h v = rw (
  from_be_bytes-to_be_bytes 2 h.seq v.seq_u16,
  from_be_bytes-to_be_bytes 8 h.timestamp v.timestamp_i64,
  from_be_bytes-byte (robot_state_to_byte h.robot_state),
  robot_state_from_byte-to_byte h.robot_state,
  from_be_bytes-to_be_bytes 8 h.t0 v.t0_i64,
  from_be_bytes-to_be_bytes 8 h.t1 v.t1_i64,
  from_be_bytes-to_be_bytes 8 h.t2 v.t2_i64,
  from_be_bytes-byte (length h.timezone_id),
  take_exact_self h.timezone_id,
  v.tz_utf8,
)
