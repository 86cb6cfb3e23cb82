-- ===== src/FakeRc/Pattern.antt =====
-- `test_pattern` of fake_rc/src/main.rs.
use robocol.Prelude.{
  ℕ, zero, suc, ◌+◌, ◌-◌, ◌*◌, ◌/◌, ◌%◌, ◌^◌, Bool, true, false, Result, ok, panicked, ◌>>=◌, ◌||◌,
  ltb, leb, replicate, if◌then◌else◌,
}
use robocol.Prelude.Text.{codes, bytes_eq}
use robocol.Wire.{Bytes}
use robocol.FakeRc.Outside.{ℤ, pos, negsuc, Floats}
pub mod Painted
use robocol.FakeRc.Pixels.{
  Rgb, cam_width, cam_height, put_rgb, add_i32, fill_rect, draw_rect_outline, hsv_to_rgb,
  rem_euclid,
}

-- The `i32` of a 32-bit pattern.
unfoldable pub signed : ℕ → ℤ
signed p = if ltb p (2 ^ 31) then pos p else negsuc (2 ^ 32 - 1 - p)

-- `((n as i32) * 4).rem_euclid(w)`: the product fits where the `i32` is less than 2 ^ 29 away from 0, and it
-- panics elsewhere.
unfoldable pub scroll : ℕ → Result ℕ
unfolding signed rem_euclid
scroll n =
    if ltb (n % 2 ^ 32) (2 ^ 29) || leb (2 ^ 32 - 2 ^ 29) (n % 2 ^ 32)
    then ok (rem_euclid (signed (n * 4 % 2 ^ 32)) cam_width)
    else panicked

-- The bar at the column `x`, scrolled by `s`.
unfoldable pub bar_color : Floats → ℕ → ℕ → ℕ → Rgb
unfolding hsv_to_rgb
bar_color f base_hue s x =
    let band = f.of_int (pos ((x + s) / 32)) in
    let hue = f.rem_euclid (f.add base_hue (f.mul (f.literal 7 2) band)) (f.literal 10 1) in
    hsv_to_rgb f hue (f.literal 65 2) (f.literal 55 2)

-- The pixels of the row `y` from `x` on, `k` of them.
unfoldable pub bars_row : Floats → ℕ → ℕ → ℕ → ℕ → ℕ → Bytes → Result Bytes
unfolding put_rgb bar_color
bars_row f base_hue n y zero x img = ok img
bars_row f base_hue n y (suc k) x img = do
  img ← put_rgb img ((y * cam_width + x) * 3) (bar_color f base_hue n x)
  bars_row f base_hue n y k (x + 1) img

unfoldable pub bars : Floats → ℕ → ℕ → ℕ → ℕ → Bytes → Result Bytes
unfolding bars_row
bars f base_hue n zero y img = ok img
bars f base_hue n (suc k) y img = do
  img ← bars_row f base_hue n y cam_width 0 img
  bars f base_hue n k (y + 1) img

-- `((0.5 + a * wave) * room) as i32`.
unfoldable pub swing : Floats → ℕ → ℕ → ℕ → ℤ
swing f a wave room = f.to_i32 (f.mul (f.add (f.literal 5 1) (f.mul a wave)) (f.of_int (pos room)))

abbrev pub red : Rgb
red = record { r = 255; g = 40; b = 40 }

abbrev pub white : Rgb
white = record { r = 255; g = 255; b = 255 }

unfoldable pub draw_crosshair : ℤ → ℤ → Bytes → Result Bytes
unfolding draw_rect_outline fill_rect add_i32
draw_crosshair cx cy img = do
  img ← draw_rect_outline img cam_width cam_height cx cy 48 48 red
  x ← add_i32 cx 22
  y ← add_i32 cy 22
  fill_rect img cam_width cam_height x y 4 4 red

unfoldable pub draw_cue : Floats → Bool → ℕ → Bytes → Result Bytes
unfolding swing draw_crosshair fill_rect
draw_cue f true n img =
    let t = f.of_u64 n in
    draw_crosshair (swing f (f.literal 35 2) (f.sin (f.mul t (f.literal 5 2))) (cam_width - 48))
      (swing f (f.literal 35 2) (f.cos (f.mul t (f.literal 37 3))) (cam_height - 48)) img
draw_cue f false n img =
    let t = f.of_u64 n in
    fill_rect img cam_width cam_height
      (swing f (f.literal 4 1) (f.sin (f.mul t (f.literal 11 2))) (cam_width - 24))
      (swing f (f.literal 4 1) (f.cos (f.mul t (f.literal 7 2))) (cam_height - 24)) 24 24 white

unfoldable pub test_pattern : Floats → Bytes → ℕ → Result Bytes
unfolding scroll bars draw_cue
test_pattern f source n = do
  let limelight = bytes_eq source (codes "limelight")
  let base_hue = if limelight then f.literal 30 2 else f.literal 58 2
  s ← scroll n
  img ← bars f base_hue s cam_height 0 (replicate (cam_width * cam_height * 3) 0)
  draw_cue f limelight n img
