-- ===== src/FakeRc/Pixels.antt =====
-- The test pattern of fake_rc/src/main.rs: `put_pixel`, `fill_rect`, `draw_rect_outline`, `hsv_to_rgb` and
-- `test_pattern`. A write outside the image panics. A sum of `i32` that does
-- not fit panics too, as in a build with overflow checks.
use robocol.Prelude.{
  ℕ, zero, suc, ◌+◌, ◌-◌, ◌*◌, ◌/◌, ◌%◌, ◌^◌, Bool, true, false, List, [], ◌∷◌, Option, none, some,
  Result, ok, panicked, ◌>>=◌, ◌==◌, ltb, length, set, replicate, if◌then◌else◌,
}
use robocol.Prelude.Text.{codes, bytes_eq}
use robocol.Wire.{Bytes}
use robocol.FakeRc.Outside.{ℤ, pos, negsuc, Floats}
pub mod Bounds

abbrev pub cam_width : ℕ
cam_width = 320

abbrev pub cam_height : ℕ
cam_height = 240

pub record Rgb : Type 0 where
  pub r : ℕ
  pub g : ℕ
  pub b : ℕ

-- The coordinate `n` steps on in a range, below the end of the range.
unfoldable pub move : ℤ → ℕ → ℤ
move (pos m) n = pos (m + n)
move (negsuc m) n = if ltb m n then pos (n - (m + 1)) else negsuc (m - n)

-- The sum of an `i32` and an `n` that is not negative; in a build with overflow checks it panics above the
-- largest `i32`.
unfoldable pub add_i32 : ℤ → ℕ → Result ℤ
unfolding move
add_i32 (pos m) n = if ltb (m + n) (2 ^ 31) then ok (pos (m + n)) else panicked
add_i32 (negsuc m) n = ok (move (negsuc m) n)

-- A coordinate on an axis of `size` pixels.
unfoldable pub on_axis : ℕ → ℤ → Option ℕ
on_axis size (negsuc m) = none
on_axis size (pos m) = if ltb m size then some m else none

unfoldable pub put_byte : Bytes → ℕ → ℕ → Result Bytes
put_byte img i v = if ltb i (length img) then ok (set img i v) else panicked

unfoldable pub put_rgb : Bytes → ℕ → Rgb → Result Bytes
unfolding put_byte
put_rgb img i rgb = do
  img ← put_byte img i rgb.r
  img ← put_byte img (i + 1) rgb.g
  put_byte img (i + 2) rgb.b

unfoldable pub put_on_row : Bytes → ℕ → Option ℕ → Option ℕ → Rgb → Result Bytes
unfolding put_rgb
put_on_row img w none y rgb = ok img
put_on_row img w (some x) none rgb = ok img
put_on_row img w (some x) (some y) rgb = put_rgb img ((y * w + x) * 3) rgb

unfoldable pub put_pixel : Bytes → ℕ → ℕ → ℤ → ℤ → Rgb → Result Bytes
unfolding on_axis put_on_row
put_pixel img w h x y rgb = put_on_row img w (on_axis w x) (on_axis h y) rgb

-- The row from `x` on, `n` pixels of it.
unfoldable pub fill_row : ℕ → Bytes → ℕ → ℕ → ℤ → ℤ → Rgb → Result Bytes
unfolding put_pixel move
fill_row zero img w h x y rgb = ok img
fill_row (suc n) img w h x y rgb = do
  img ← put_pixel img w h x y rgb
  fill_row n img w h (move x 1) y rgb

-- The rows from `y` on, `n` of them.
unfoldable pub fill_rows : ℕ → Bytes → ℕ → ℕ → ℤ → ℤ → ℕ → Rgb → Result Bytes
unfolding fill_row add_i32 move
fill_rows zero img w h x y rw rgb = ok img
fill_rows (suc n) img w h x y rw rgb = do
  end ← add_i32 x rw
  img ← fill_row rw img w h x y rgb
  fill_rows n img w h x (move y 1) rw rgb

unfoldable pub fill_rect : Bytes → ℕ → ℕ → ℤ → ℤ → ℕ → ℕ → Rgb → Result Bytes
unfolding fill_rows
fill_rect img w h x y rw rh rgb = do end ← add_i32 y rh; fill_rows rh img w h x y rw rgb

-- The upper and the lower side, `n` pixels of them from `x` on, of a rectangle with `rh` rows.
unfoldable pub draw_sides : ℕ → Bytes → ℕ → ℕ → ℤ → ℤ → ℕ → Rgb → Result Bytes
unfolding put_pixel add_i32 move
draw_sides zero img w h x y rh rgb = ok img
draw_sides (suc n) img w h x y rh rgb = do
  img ← put_pixel img w h x y rgb
  below ← add_i32 y rh
  img ← put_pixel img w h x (move y (rh - 1)) rgb
  draw_sides n img w h (move x 1) y rh rgb

-- The left and the right side, of a rectangle with `rw` columns.
unfoldable pub draw_posts : ℕ → Bytes → ℕ → ℕ → ℤ → ℤ → ℕ → Rgb → Result Bytes
unfolding put_pixel add_i32 move
draw_posts zero img w h x y rw rgb = ok img
draw_posts (suc n) img w h x y rw rgb = do
  img ← put_pixel img w h x y rgb
  beyond ← add_i32 x rw
  img ← put_pixel img w h (move x (rw - 1)) y rgb
  draw_posts n img w h x (move y 1) rw rgb

-- For sides of one pixel at least, `x + rw - 1` is `rw - 1` steps on.
unfoldable pub draw_rect_outline : Bytes → ℕ → ℕ → ℤ → ℤ → ℕ → ℕ → Rgb → Result Bytes
unfolding draw_sides draw_posts add_i32
draw_rect_outline img w h x y rw rh rgb = do
  beyond ← add_i32 x rw
  img ← draw_sides rw img w h x y rh rgb
  below ← add_i32 y rh
  draw_posts rh img w h x y rw rgb

-- `rem_euclid(6)` of an `i32`.
unfoldable pub rem_euclid : ℤ → ℕ → ℕ
rem_euclid (pos m) n = m % n
rem_euclid (negsuc m) n = n - 1 - m % n

-- `(x * 255.0) as u8` of each.
unfoldable pub bytes_of : Floats → ℕ → ℕ → ℕ → Rgb
bytes_of f r g b = record {
  r = f.to_u8 (f.mul r (f.literal 2550 1));
  g = f.to_u8 (f.mul g (f.literal 2550 1));
  b = f.to_u8 (f.mul b (f.literal 2550 1));
}

unfoldable pub hsv_sector : Floats → ℕ → ℕ → ℕ → ℕ → ℕ → Rgb
unfolding bytes_of
hsv_sector f n v t p q =
    if n == 0
    then bytes_of f v t p
    else if n == 1
    then bytes_of f q v p
    else if n == 2
    then bytes_of f p v t
    else if n == 3
    then bytes_of f p q v
    else if n == 4
    then bytes_of f t p v
    else bytes_of f v p q

unfoldable pub hsv_to_rgb : Floats → ℕ → ℕ → ℕ → Rgb
unfolding hsv_sector rem_euclid
hsv_to_rgb f h s v =
    let one = f.literal 10 1 in
    let h6 = f.mul h (f.literal 60 1) in
    let i = f.floor h6 in
    let frac = f.sub h6 i in
    let p = f.mul v (f.sub one s) in
    let q = f.mul v (f.sub one (f.mul frac s)) in
    let t = f.mul v (f.sub one (f.mul (f.sub one frac) s)) in
    hsv_sector f (rem_euclid (f.to_i32 i) 6) v t p q
