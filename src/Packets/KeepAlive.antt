-- ===== src/Packets/KeepAlive.antt =====
-- robocol/src/packets/keep_alive.rs.
use robocol.Prelude.{ℕ, ◌<◌, ◌^◌, ◌≡◌, [], ◌∷◌, ◌++◌, Result, ok, ◌>>=◌}
use robocol.Wire.{
  Bytes, with_header, put_u8, get_u16, get_u8, from_be_bytes-to_be_bytes, from_be_bytes-byte,
}
use robocol.Packets.Uid.{uid_keep_alive}
use robocol.Wire.Layout.{header, with_header-layout}

pub record KeepAlive : Type 0 where
  pub seq : ℕ
  pub id : ℕ

unfoldable pub serialize : KeepAlive → Result Bytes
unfolding put_u8
serialize k = do buf ← with_header uid_keep_alive 1 k.seq; put_u8 buf 5 k.id

unfoldable pub parse : Bytes → Result KeepAlive
unfolding get_u16 get_u8
parse buf = do seq ← get_u16 buf 3; id ← get_u8 buf 5; ok (record { seq = seq; id = id })

abbrev pub layout : KeepAlive → Bytes
layout k = header uid_keep_alive 1 k.seq ++ (k.id ∷ [])

pub serialize-layout : (k : KeepAlive) → serialize k ≡ ok (layout k)
unfolding serialize
serialize-layout k = rw (with_header-layout uid_keep_alive 1 k.seq)

pub parse-layout : (k : KeepAlive) → k.seq < 2 ^ 16 → parse (layout k) ≡ ok k
unfolding parse
parse-layout k h = rw (from_be_bytes-to_be_bytes 2 k.seq h, from_be_bytes-byte k.id)
