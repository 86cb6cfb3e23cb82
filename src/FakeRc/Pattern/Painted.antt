-- ===== src/FakeRc/Pattern/Painted.antt =====
-- The test pattern as a whole, and what the encoder gets.
use robocol.Prelude.{
  ℕ, zero, suc, ◌+◌, ◌-◌, ◌*◌, ◌%◌, ◌^◌, ◌<◌, ◌≤◌, ◌≡◌, refl, sym, subst, Result, ok, ◌>>=◌, ltb,
  Bool, true, false, length, length-replicate, replicate, arith, if◌then◌else◌,
}
use robocol.Prelude.Text.{codes, bytes_eq}
use robocol.Wire.{Bytes}
use robocol.FakeRc.Outside.{ℤ, Floats}
use robocol.FakeRc.Pixels.{cam_width, cam_height, move, rem_euclid}
use robocol.FakeRc.Pixels.Bounds.{
  IsImage, IsImage-bind, put_rgb-IsImage, pixel_inside, Fits, Fits-less, then-Fits, move-Fits,
  fill_rect-IsImage, draw_rect_outline-IsImage,
}
use native.Mathlib.Nat.{mod-eq_of_lt}
use robocol.FakeRc.Pattern.{
  signed, scroll, bar_color, bars_row, bars, swing, red, white, draw_crosshair, draw_cue,
  test_pattern,
}

abbrev size : ℕ
size = cam_width * cam_height * 3

bars_row-IsImage :
    (f : Floats) (base_hue s y k x : ℕ) (img : Bytes)
    → length img ≡ size
    → x + k ≤ cam_width
    → y < cam_height
    → IsImage size (bars_row f base_hue s y k x img)
unfolding bars_row
bars_row-IsImage f base_hue s y zero x img e fits ly = IsImage.image img e
bars_row-IsImage f base_hue s y (suc k) x img e fits ly =
    IsImage-bind
      (put_rgb-IsImage size img ((y * cam_width + x) * 3) (bar_color f base_hue s x) e
        (pixel_inside cam_width cam_height x y (omega arith) ly))
      (λ img e. bars_row-IsImage f base_hue s y k (x + 1) img e (omega arith) ly)

bars-IsImage :
    (f : Floats) (base_hue s k y : ℕ) (img : Bytes)
    → length img ≡ size
    → y + k ≤ cam_height
    → IsImage size (bars f base_hue s k y img)
unfolding bars
bars-IsImage f base_hue s zero y img e fits = IsImage.image img e
bars-IsImage f base_hue s (suc k) y img e fits =
    IsImage-bind (bars_row-IsImage f base_hue s y cam_width 0 img e (omega arith) (omega arith))
      (λ img e. bars-IsImage f base_hue s k (y + 1) img e (omega arith))

draw_crosshair-IsImage :
    (cx cy : ℤ) (img : Bytes)
    → Fits 48 cx
    → Fits 48 cy
    → length img ≡ size
    → IsImage size (draw_crosshair cx cy img)
unfolding draw_crosshair
draw_crosshair-IsImage cx cy img fx fy e =
    IsImage-bind (draw_rect_outline-IsImage cam_width cam_height red img cx cy 48 48 fx fy e)
      (λ img e. then-Fits 22 cx _ (Fits-less 22 48 cx (omega arith) fx) (
        then-Fits 22 cy _ (Fits-less 22 48 cy (omega arith) fy) (
          fill_rect-IsImage cam_width cam_height red 4 img (move cx 22) (move cy 22) 4
            (move-Fits 22 4 cx (omega arith) (Fits-less 26 48 cx (omega arith) fx))
            (move-Fits 22 4 cy (omega arith) (Fits-less 26 48 cy (omega arith) fy)) e)))

-- A cue that swings by `sin` or `cos`, times `a`, in a room no wider than the image stays near the image.
abbrev pub IsNear : Floats → ℕ → Type 0
IsNear f a =
    (t room : ℕ)
    → room ≤ cam_width
    → Fits 48 (swing f a (f.sin t) room) × Fits 48 (swing f a (f.cos t) room)

-- `sin` and `cos` are between -1 and 1: so it is for the factors of the two cues, 0.35 and 0.4.
pub record IsTame (f : Floats) : Type 0 where
  pub crosshair : IsNear f (f.literal 35 2)
  pub square : IsNear f (f.literal 4 1)

draw_cue-IsImage :
    (f : Floats) (limelight : Bool) (n : ℕ) (img : Bytes)
    → IsTame f
    → length img ≡ size
    → IsImage size (draw_cue f limelight n img)
unfolding draw_cue
draw_cue-IsImage f true n img tame e =
    draw_crosshair-IsImage
      (swing f (f.literal 35 2) (f.sin (f.mul (f.of_u64 n) (f.literal 5 2))) (cam_width - 48))
      (swing f (f.literal 35 2) (f.cos (f.mul (f.of_u64 n) (f.literal 37 3))) (cam_height - 48)) img
      (tame.crosshair (f.mul (f.of_u64 n) (f.literal 5 2)) (cam_width - 48) (omega arith)).0
      (tame.crosshair (f.mul (f.of_u64 n) (f.literal 37 3)) (cam_height - 48) (omega arith)).1 e
draw_cue-IsImage f false n img tame e =
    let x =
      swing f (f.literal 4 1) (f.sin (f.mul (f.of_u64 n) (f.literal 11 2))) (cam_width - 24) in
    let y =
      swing f (f.literal 4 1) (f.cos (f.mul (f.of_u64 n) (f.literal 7 2))) (cam_height - 24) in
    fill_rect-IsImage cam_width cam_height white 24 img x y 24
      (Fits-less 24 48 x (omega arith)
        (tame.square (f.mul (f.of_u64 n) (f.literal 11 2)) (cam_width - 24) (omega arith)).0)
      (Fits-less 24 48 y (omega arith)
        (tame.square (f.mul (f.of_u64 n) (f.literal 7 2)) (cam_height - 24) (omega arith)).1)
      e

scroll_small : (n : ℕ) → n < 2 ^ 29 → (s : ℕ) × (scroll n ≡ ok s)
unfolding scroll
scroll_small n small =
    let whole : n % 2 ^ 32 ≡ n = mod-eq_of_lt (omega arith) in
    let fits : ltb (n % 2 ^ 32) (2 ^ 29) ≡ true = ground (arith, whole) in
    (rem_euclid (signed (n * 4 % 2 ^ 32)) cam_width, rw fits refl)

-- Where `sin` and `cos` keep a cue near the image, and for a frame number below 2 ^ 29, whatever the other
-- floating-point operations give and whatever the source: the test pattern is painted without a write out of
-- bounds and without an overflow of `i32`, into a buffer that keeps three bytes for each pixel of the encoder's
-- width and height.
pub test_pattern-IsImage :
    (f : Floats) (source : Bytes) (n : ℕ)
    → IsTame f
    → n < 2 ^ 29
    → IsImage (cam_width * cam_height * 3) (test_pattern f source n)
unfolding test_pattern
test_pattern-IsImage f source n tame small =
    let (s, e) = scroll_small n small in
    subst (λ r. IsImage size (r >>= paint)) (sym e)
      (IsImage-bind
        (bars-IsImage f
          (if bytes_eq source (codes "limelight") then f.literal 30 2 else f.literal 58 2) s
          cam_height 0 (replicate size 0) (length-replicate {A = ℕ} size 0) (omega arith))
        (λ img e. draw_cue-IsImage f (bytes_eq source (codes "limelight")) n img tame e))
  where
    paint : ℕ → Result Bytes
    paint s = do
      img ←
          bars f (if bytes_eq source (codes "limelight") then f.literal 30 2 else f.literal 58 2) s
            cam_height 0 (replicate size 0)
      draw_cue f (bytes_eq source (codes "limelight")) n img
