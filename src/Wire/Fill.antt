-- ===== src/Wire/Fill.antt =====
-- Filling a zeroed buffer from the front, and reading it from the front: one lemma for each `put_*` and
-- `get_*` that stands at an offset which the fields before it decide.
use robocol.Prelude.{
  ℕ, ◌+◌, ◌<◌, ◌^◌, ◌≡◌, refl, ap, sym, ◌∙◌, true, [], ◌∷◌, ◌++◌, append_assoc, ok, arith, length,
  length-append, length-replicate,
}
use robocol.Wire.Slice.{Bytes, zeros, replicate-add, write_at, write_at-append, get_range-append}
use robocol.Wire.Endian.{to_be_bytes, from_be_bytes-to_be_bytes, from_be_bytes-byte}
use robocol.Wire.Utf8.{is_utf8}
use robocol.Wire.Field.{
  get_u8, get_str, get_str_u8, get_str_u16, get_f32, get_u32, put_u8, put_f32, put_u32, put_str_u8,
  put_str_u16,
}
use robocol.Wire.Layout.{str_u8, str_u16, put_str_u16-append, get_str_u16-append}
use native.Mathlib.Nat.{mod-eq_of_lt}

-- Here `pre` is what is filled, and `post` what follows the field.
write_at-fill :
    (pre bs post : Bytes) (n off : ℕ)
    → off ≡ length pre
    → length bs ≡ n
    → write_at (pre ++ (zeros n ++ post)) off bs ≡ ok ((pre ++ bs) ++ post)
write_at-fill pre bs post n off h k = rw h (
    write_at-append pre bs (zeros n) post (length-replicate n 0 ∙ sym k)
    ∙ ap ok (sym (append_assoc pre bs post)))

pub put_u8-fill :
    (pre post : Bytes) (v off : ℕ)
    → off ≡ length pre
    → put_u8 (pre ++ (zeros 1 ++ post)) off v ≡ ok ((pre ++ v ∷ []) ++ post)
unfolding put_u8
put_u8-fill pre post v off h = write_at-fill pre (v ∷ []) post 1 off h refl

pub put_f32-fill :
    (pre post : Bytes) (v off : ℕ)
    → off ≡ length pre
    → put_f32 (pre ++ (zeros 4 ++ post)) off v ≡ ok ((pre ++ to_be_bytes 4 v) ++ post)
unfolding put_f32 put_u32
put_f32-fill pre post v off h = write_at-fill pre (to_be_bytes 4 v) post 4 off h refl

pub put_str_u16-fill :
    (pre s post : Bytes) (off : ℕ)
    → off ≡ length pre
    → put_str_u16 (pre ++ (zeros (2 + length s) ++ post)) off s
      ≡ ok ((pre ++ str_u16 s) ++ post, off + 2 + length s)
put_str_u16-fill pre s post off h =
    put_str_u16-append pre s post off h
    ∙ ap (λ b. ok (b, off + 2 + length s)) (sym (append_assoc pre (str_u16 s) post))

pub put_str_u8-fill :
    (pre s post : Bytes) (off : ℕ)
    → off ≡ length pre
    → length s < 256
    → put_str_u8 (pre ++ (zeros (1 + length s) ++ post)) off s
      ≡ ok ((pre ++ str_u8 s) ++ post, off + 1 + length s)
unfolding put_str_u8
put_str_u8-fill pre s post off h short = rw (
  mod-eq_of_lt {n = length s} {m = 256} short,
  replicate-add {A = ℕ} 1 (length s) 0,
  put_u8-fill pre (zeros (length s) ++ post) (length s) off h,
  write_at-fill (pre ++ length s ∷ []) s post (length s) (off + 1) moved refl,
  append_assoc pre (length s ∷ []) s,
)
  where
    moved : off + 1 ≡ length (pre ++ length s ∷ [])
    moved = omega (arith, length-append pre (length s ∷ []))

module _ (buf pre post : Bytes) (off : ℕ) (at : off ≡ length pre) where
  pub get_u8-at : (v : ℕ) → buf ≡ pre ++ (v ∷ post) → get_u8 buf off ≡ ok v
  unfolding get_u8
  get_u8-at v e = rw (e, at, get_range-append pre (v ∷ []) post, from_be_bytes-byte v)

  pub get_f32-at :
      (v : ℕ) → v < 2 ^ 32 → buf ≡ pre ++ (to_be_bytes 4 v ++ post) → get_f32 buf off ≡ ok v
  unfolding get_f32 get_u32
  get_f32-at v lt e =
      rw (e, at, get_range-append pre (to_be_bytes 4 v) post, from_be_bytes-to_be_bytes 4 v lt)

  pub get_str_u16-at :
      (s : Bytes)
      → length s < 2 ^ 16
      → is_utf8 s ≡ true
      → buf ≡ pre ++ (str_u16 s ++ post)
      → get_str_u16 buf off ≡ ok (s, off + 2 + length s)
  get_str_u16-at s short u e = rw e (get_str_u16-append pre s post off at short u)

  pub get_str_u8-at :
      (s : Bytes)
      → is_utf8 s ≡ true
      → buf ≡ pre ++ (str_u8 s ++ post)
      → get_str_u8 buf off ≡ ok (s, off + 1 + length s)
  unfolding get_str_u8 get_str get_u8
  get_str_u8-at s u e = rw (
    e,
    at,
    get_range-append pre (length s ∷ []) (s ++ post),
    from_be_bytes-byte (length s),
    moved,
    ← append_assoc pre (length s ∷ []) (s ++ post),
    get_range-append (pre ++ length s ∷ []) s post,
    u,
  )
    where
      moved : length pre + 1 ≡ length (pre ++ length s ∷ [])
      moved = omega (arith, length-append pre (length s ∷ []))
