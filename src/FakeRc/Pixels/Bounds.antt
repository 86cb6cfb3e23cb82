-- ===== src/FakeRc/Pixels/Bounds.antt =====
-- The writes of the painters stay in the image.
use robocol.Prelude.{
  ℕ, zero, suc, ◌+◌, ◌-◌, ◌*◌, ◌<◌, ◌≤◌, ◌^◌, ◌≡◌, refl, sym, subst, ◌∙◌, Bool, true, false,
  if◌then◌else◌, ltb, Option, none, some, Result, ok, ◌>>=◌, lt→ltb, length, set, length-set, arith,
}
use robocol.Wire.{Bytes}
use robocol.FakeRc.Outside.{ℤ, pos, negsuc}
use robocol.FakeRc.Pixels.{
  Rgb, move, add_i32, on_axis, put_byte, put_rgb, put_on_row, put_pixel, fill_row, fill_rows,
  fill_rect, draw_sides, draw_posts, draw_rect_outline,
}
use native.Mathlib.Nat.{mul-le-mul_right, suc-mul, mul_comm}

-- An image of `n` bytes, and no panic.
pub data IsImage (n : ℕ) : Result Bytes → Type 0 where
  image : (img : Bytes) → length img ≡ n → IsImage n (ok img)

pub IsImage-bind :
    {n : ℕ} {r : Result Bytes} {f : Bytes → Result Bytes}
    → IsImage n r
    → ((img : Bytes) → length img ≡ n → IsImage n (f img))
    → IsImage n (r >>= f)
IsImage-bind (IsImage.image img e) h = h img e

-- `n` more than the coordinate is an `i32` still.
unfoldable pub Fits : ℕ → ℤ → Type 0
Fits n (pos m) = m + n < 2 ^ 31
Fits n (negsuc m) = Unit

add_i32-Fits : (n : ℕ) (z : ℤ) → Fits n z → add_i32 z n ≡ ok (move z n)
unfolding Fits add_i32 move
add_i32-Fits n (pos m) h = ground arith
add_i32-Fits n (negsuc m) h = refl

-- A sum that fits does not panic.
pub then-Fits :
    {k : ℕ} (n : ℕ) (z : ℤ) (f : ℤ → Result Bytes)
    → Fits n z
    → IsImage k (f (move z n))
    → IsImage k (add_i32 z n >>= f)
then-Fits {k = k} n z f h i = subst (λ r. IsImage k (r >>= f)) (sym (add_i32-Fits n z h)) i

pub Fits-less : (m n : ℕ) (z : ℤ) → m ≤ n → Fits n z → Fits m z
unfolding Fits
Fits-less m n (pos p) le h = omega arith
Fits-less m n (negsuc p) le h = tt

either_Fits :
    (b : Bool) (n : ℕ) (x y : ℤ) → (b ≡ true → Fits n x) → Fits n y → Fits n (if b then x else y)
either_Fits true n x y h k = h refl
either_Fits false n x y h k = k

pub move-Fits : (m n : ℕ) (z : ℤ) → m + n < 2 ^ 31 → Fits (m + n) z → Fits n (move z m)
unfolding Fits move
move-Fits m n (pos p) small h = omega arith
move-Fits m n (negsuc p) small h =
    either_Fits (ltb p m) n (pos (m - (p + 1))) (negsuc (p - m)) (λ lt. omega arith) tt

put_byte-IsImage :
    (n : ℕ) (img : Bytes) (i v : ℕ) → length img ≡ n → i < n → IsImage n (put_byte img i v)
unfolding put_byte
put_byte-IsImage n img i v e h =
    rw (lt→ltb i (length img) (omega (arith, e)))
      (IsImage.image (set img i v) (length-set img i v ∙ e))

pub put_rgb-IsImage :
    (n : ℕ) (img : Bytes) (i : ℕ) (rgb : Rgb)
    → length img ≡ n
    → i + 2 < n
    → IsImage n (put_rgb img i rgb)
unfolding put_rgb
put_rgb-IsImage n img i rgb e h =
    IsImage-bind (put_byte-IsImage n img i rgb.r e (omega arith)) (λ img e.
      IsImage-bind (put_byte-IsImage n img (i + 1) rgb.g e (omega arith))
        (λ img e. put_byte-IsImage n img (i + 2) rgb.b e h))

-- A pixel in the image has its three bytes there.
pub pixel_inside : (w h x y : ℕ) → x < w → y < h → (y * w + x) * 3 + 2 < w * h * 3
pixel_inside w h x y lx ly =
    let rows : suc y * w ≤ w * h = rw (mul_comm w h) (mul-le-mul_right w ly) in
    omega (arith, rows, suc-mul y w)

put_on_row-IsImage :
    (w h : ℕ) (img : Bytes) (x y : Option ℕ) (rgb : Rgb)
    → length img ≡ w * h * 3
    → ((i : ℕ) → x ≡ some i → i < w)
    → ((j : ℕ) → y ≡ some j → j < h)
    → IsImage (w * h * 3) (put_on_row img w x y rgb)
unfolding put_on_row
put_on_row-IsImage w h img none y rgb e lx ly = IsImage.image img e
put_on_row-IsImage w h img (some x) none rgb e lx ly = IsImage.image img e
put_on_row-IsImage w h img (some x) (some y) rgb e lx ly =
    put_rgb-IsImage (w * h * 3) img ((y * w + x) * 3) rgb e
      (pixel_inside w h x y (lx x refl) (ly y refl))

on_axis-lt : (size : ℕ) (x : ℤ) (i : ℕ) → on_axis size x ≡ some i → i < size
unfolding on_axis
on_axis-lt size (negsuc m) i e = absurd cc
on_axis-lt size (pos m) i e = ground arith

module _ (w h : ℕ) (rgb : Rgb) where
  -- Wherever it is, a pixel is painted without a panic, and the image keeps its size.
  pub put_pixel-IsImage :
      (img : Bytes) (x y : ℤ)
      → length img ≡ w * h * 3
      → IsImage (w * h * 3) (put_pixel img w h x y rgb)
  unfolding put_pixel
  put_pixel-IsImage img x y e =
      put_on_row-IsImage w h img (on_axis w x) (on_axis h y) rgb e (on_axis-lt w x) (on_axis-lt h y)

  fill_row-IsImage :
      (n : ℕ) (img : Bytes) (x y : ℤ)
      → length img ≡ w * h * 3
      → IsImage (w * h * 3) (fill_row n img w h x y rgb)
  unfolding fill_row
  fill_row-IsImage zero img x y e = IsImage.image img e
  fill_row-IsImage (suc n) img x y e =
      IsImage-bind (put_pixel-IsImage img x y e) (λ img e. fill_row-IsImage n img (move x 1) y e)

  fill_rows-IsImage :
      (n : ℕ) (img : Bytes) (x y : ℤ) (rw : ℕ)
      → Fits rw x
      → length img ≡ w * h * 3
      → IsImage (w * h * 3) (fill_rows n img w h x y rw rgb)
  unfolding fill_rows
  fill_rows-IsImage zero img x y rw fx e = IsImage.image img e
  fill_rows-IsImage (suc n) img x y rw fx e = then-Fits rw x _ fx (
      IsImage-bind (fill_row-IsImage rw img x y e)
        (λ img e. fill_rows-IsImage n img x (move y 1) rw fx e))

  pub fill_rect-IsImage :
      (rh : ℕ) (img : Bytes) (x y : ℤ) (rw : ℕ)
      → Fits rw x
      → Fits rh y
      → length img ≡ w * h * 3
      → IsImage (w * h * 3) (fill_rect img w h x y rw rh rgb)
  unfolding fill_rect
  fill_rect-IsImage rh img x y rw fx fy e =
      then-Fits rh y _ fy (fill_rows-IsImage rh img x y rw fx e)

  draw_sides-IsImage :
      (n : ℕ) (img : Bytes) (x y : ℤ) (rh : ℕ)
      → Fits rh y
      → length img ≡ w * h * 3
      → IsImage (w * h * 3) (draw_sides n img w h x y rh rgb)
  unfolding draw_sides
  draw_sides-IsImage zero img x y rh fy e = IsImage.image img e
  draw_sides-IsImage (suc n) img x y rh fy e = IsImage-bind (put_pixel-IsImage img x y e) (λ img e.
      then-Fits rh y _ fy (
        IsImage-bind (put_pixel-IsImage img x (move y (rh - 1)) e)
          (λ img e. draw_sides-IsImage n img (move x 1) y rh fy e)))

  draw_posts-IsImage :
      (n : ℕ) (img : Bytes) (x y : ℤ) (rw : ℕ)
      → Fits rw x
      → length img ≡ w * h * 3
      → IsImage (w * h * 3) (draw_posts n img w h x y rw rgb)
  unfolding draw_posts
  draw_posts-IsImage zero img x y rw fx e = IsImage.image img e
  draw_posts-IsImage (suc n) img x y rw fx e = IsImage-bind (put_pixel-IsImage img x y e) (λ img e.
      then-Fits rw x _ fx (
        IsImage-bind (put_pixel-IsImage img (move x (rw - 1)) y e)
          (λ img e. draw_posts-IsImage n img x (move y 1) rw fx e)))

  pub draw_rect_outline-IsImage :
      (img : Bytes) (x y : ℤ) (rw rh : ℕ)
      → Fits rw x
      → Fits rh y
      → length img ≡ w * h * 3
      → IsImage (w * h * 3) (draw_rect_outline img w h x y rw rh rgb)
  unfolding draw_rect_outline
  draw_rect_outline-IsImage img x y rw rh fx fy e = then-Fits rw x _ fx (
      IsImage-bind (draw_sides-IsImage rw img x y rh fy e)
        (λ img e. then-Fits rh y _ fy (draw_posts-IsImage rh img x y rw fx e)))
