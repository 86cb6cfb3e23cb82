-- ===== src/Wire/Layout.antt =====
-- What `with_header` leaves to be filled in.
use robocol.Prelude.{
  ℕ, ◌+◌, ◌<◌, ◌^◌, ◌≡◌, refl, ap, ◌∙◌, true, ◌∷◌, ◌++◌, append_assoc, some, ok, ◌>>=◌, arith,
  length, length-append, length-replicate,
}
use robocol.Wire.Slice.{
  Bytes, zeros, replicate-add, write_at, write_at-append, get_range, get_range-append,
}
use robocol.Wire.Endian.{to_be_bytes, from_be_bytes-to_be_bytes}
use robocol.Wire.Utf8.{is_utf8}
use robocol.Wire.Field.{with_header, get_str, get_str_u16, put_u16, put_str_u16}

abbrev pub header : ℕ → ℕ → ℕ → Bytes
header uid payload_len seq = uid ∷ (to_be_bytes 2 payload_len ++ to_be_bytes 2 seq)

-- `with_header` gives the header and as many zeros as the payload has bytes, and does not panic.
pub with_header-layout :
    (uid payload_len seq : ℕ)
    → with_header uid payload_len seq ≡ ok (header uid payload_len seq ++ zeros payload_len)
unfolding with_header
with_header-layout uid payload_len seq = rw (replicate-add {A = ℕ} 5 payload_len 0)

-- A string behind its length.
abbrev pub str_u16 : Bytes → Bytes
str_u16 s = to_be_bytes 2 (length s) ++ s

abbrev pub str_u8 : Bytes → Bytes
str_u8 s = length s ∷ s

-- Writing a string over zeros that stand behind `pre`.
pub put_str_u16-append :
    (pre s post : Bytes) (off : ℕ)
    → off ≡ length pre
    → put_str_u16 (pre ++ (zeros (2 + length s) ++ post)) off s
      ≡ ok (pre ++ (str_u16 s ++ post), off + 2 + length s)
unfolding put_str_u16 put_u16
put_str_u16-append pre s post off h =
    rw
      (
        h,
        replicate-add {A = ℕ} 2 (length s) 0,
        write_at-append pre (to_be_bytes 2 (length s)) (zeros 2) (zeros (length s) ++ post) refl,
      )
      (ap (λ r. r >>= (λ buf. ok (buf, length pre + 2 + length s))) second)
  where
    len2 : length pre + 2 ≡ length (pre ++ to_be_bytes 2 (length s))
    len2 = omega (arith, length-append pre (to_be_bytes 2 (length s)))

    second :
        write_at
          (pre ++ (to_be_bytes 2 (length s) ++ (zeros (length s) ++ post)))
          (length pre + 2)
          s
        ≡ ok (pre ++ (str_u16 s ++ post))
    second =
        rw (len2, ← append_assoc pre (to_be_bytes 2 (length s)) (zeros (length s) ++ post))
          (write_at-append (pre ++ to_be_bytes 2 (length s)) s (zeros (length s)) post
              (length-replicate (length s) 0)
            ∙ ap ok (append_assoc pre (to_be_bytes 2 (length s)) (s ++ post)))

-- Reading it back.
pub get_str_u16-append :
    (pre s post : Bytes) (off : ℕ)
    → off ≡ length pre
    → length s < 2 ^ 16
    → is_utf8 s ≡ true
    → get_str_u16 (pre ++ (str_u16 s ++ post)) off ≡ ok (s, off + 2 + length s)
unfolding get_str_u16 get_str
get_str_u16-append pre s post off h short u = rw (
  h,
  get_range-append pre (to_be_bytes 2 (length s)) (s ++ post),
  from_be_bytes-to_be_bytes 2 (length s) short,
  second,
  u,
)
  where
    len2 : length pre + 2 ≡ length (pre ++ to_be_bytes 2 (length s))
    len2 = omega (arith, length-append pre (to_be_bytes 2 (length s)))

    second : get_range (pre ++ (str_u16 s ++ post)) (length pre + 2) (length s) ≡ some s
    second =
        rw (len2, ← append_assoc pre (to_be_bytes 2 (length s)) (s ++ post))
          (get_range-append (pre ++ to_be_bytes 2 (length s)) s post)
