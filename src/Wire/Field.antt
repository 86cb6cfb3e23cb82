-- ===== src/Wire/Field.antt =====
-- The readers `get_*` and the writers `put_*` of robocol/src/wire.rs, and `with_header`.
use robocol.Prelude.{
  ℕ, zero, suc, ◌+◌, ◌%◌, [], ◌∷◌, Result, ok, err, panicked, map_ok, ok_or, truncated, bad_utf8,
  ◌>>=◌, length, if◌then◌else◌,
}
use robocol.Wire.Slice.{Bytes, get_range, write_at, zeros}
use robocol.Wire.Endian.{to_be_bytes, from_be_bytes}
use robocol.Wire.Utf8.{is_utf8}

abbrev pub header_len : ℕ
header_len = 5

-- A buffer of zeros, whose first bytes are then written; the payload's length is cut to 16 bits.
unfoldable pub with_header : ℕ → ℕ → ℕ → Result Bytes
unfolding write_at
with_header uid payload_len seq = do
  let buf = zeros (header_len + payload_len)
  buf ← write_at buf 0 (uid ∷ [])
  buf ← write_at buf 1 (to_be_bytes 2 payload_len)
  write_at buf 3 (to_be_bytes 2 seq)

-- `[b[0], b[1], ..]`, an array of `w` bytes; an index behind the end panics.
unfoldable pub indexed : ℕ → Bytes → Result Bytes
indexed zero bs = ok []
indexed (suc w) [] = panicked
indexed (suc w) (b ∷ bs) = map_ok (λ array. b ∷ array) (indexed w bs)

unfoldable pub get_u8 : Bytes → ℕ → Result ℕ
unfolding get_range indexed
get_u8 buf off = do b ← ok_or (get_range buf off 1) truncated; a ← indexed 1 b; ok (from_be_bytes a)

unfoldable pub get_u16 : Bytes → ℕ → Result ℕ
unfolding get_range indexed
get_u16 buf off = do
  b ← ok_or (get_range buf off 2) truncated
  a ← indexed 2 b
  ok (from_be_bytes a)

unfoldable pub get_u32 : Bytes → ℕ → Result ℕ
unfolding get_range indexed
get_u32 buf off = do
  b ← ok_or (get_range buf off 4) truncated
  a ← indexed 4 b
  ok (from_be_bytes a)

unfoldable pub get_i32 : Bytes → ℕ → Result ℕ
unfolding get_range indexed
get_i32 buf off = do
  b ← ok_or (get_range buf off 4) truncated
  a ← indexed 4 b
  ok (from_be_bytes a)

unfoldable pub get_i64 : Bytes → ℕ → Result ℕ
unfolding get_range indexed
get_i64 buf off = do
  b ← ok_or (get_range buf off 8) truncated
  a ← indexed 8 b
  ok (from_be_bytes a)

-- `f32::from_bits`: the bits are kept as they are.
unfoldable pub get_f32 : Bytes → ℕ → Result ℕ
unfolding get_u32
get_f32 buf off = do bits ← get_u32 buf off; ok bits

unfoldable pub get_str : Bytes → ℕ → ℕ → Result Bytes
unfolding get_range
get_str buf off len = do
  b ← ok_or (get_range buf off len) truncated
  if is_utf8 b then ok b else err bad_utf8

-- The string, and the offset just past it.
unfoldable pub get_str_u16 : Bytes → ℕ → Result (Bytes × ℕ)
unfolding get_u16 get_str
get_str_u16 buf off = do len ← get_u16 buf off; s ← get_str buf (off + 2) len; ok (s, off + 2 + len)

unfoldable pub get_str_u8 : Bytes → ℕ → Result (Bytes × ℕ)
unfolding get_u8 get_str
get_str_u8 buf off = do len ← get_u8 buf off; s ← get_str buf (off + 1) len; ok (s, off + 1 + len)

-- `buf[off] = v`.
unfoldable pub put_u8 : Bytes → ℕ → ℕ → Result Bytes
unfolding write_at
put_u8 buf off v = write_at buf off (v ∷ [])

unfoldable pub put_u16 : Bytes → ℕ → ℕ → Result Bytes
unfolding write_at
put_u16 buf off v = write_at buf off (to_be_bytes 2 v)

unfoldable pub put_i32 : Bytes → ℕ → ℕ → Result Bytes
unfolding write_at
put_i32 buf off v = write_at buf off (to_be_bytes 4 v)

unfoldable pub put_u32 : Bytes → ℕ → ℕ → Result Bytes
unfolding write_at
put_u32 buf off v = write_at buf off (to_be_bytes 4 v)

unfoldable pub put_i64 : Bytes → ℕ → ℕ → Result Bytes
unfolding write_at
put_i64 buf off v = write_at buf off (to_be_bytes 8 v)

unfoldable pub put_f32 : Bytes → ℕ → ℕ → Result Bytes
unfolding put_u32
put_f32 buf off bits = put_u32 buf off bits

-- The length, cut to the prefix, and all of the string; the offset just past it is returned.
unfoldable pub put_str_u16 : Bytes → ℕ → Bytes → Result (Bytes × ℕ)
unfolding put_u16
put_str_u16 buf off s = do
  buf ← put_u16 buf off (length s)
  buf ← write_at buf (off + 2) s
  ok (buf, off + 2 + length s)

unfoldable pub put_str_u8 : Bytes → ℕ → Bytes → Result (Bytes × ℕ)
unfolding put_u8
put_str_u8 buf off s = do
  buf ← put_u8 buf off (length s % 256)
  buf ← write_at buf (off + 1) s
  ok (buf, off + 1 + length s)
