-- ===== src/Wire/Endian.antt =====
-- Big-endian integers: `to_be_bytes` and `from_be_bytes` at every width.
use robocol.Prelude.{
  ℕ, zero, suc, ◌+◌, ◌*◌, ◌/◌, ◌%◌, ◌^◌, ◌≤◌, ◌<◌, ◌≡◌, refl, ap, ◌∙◌, [], ◌∷◌, arith, length, All,
}
use native.Mathlib.Nat.{
  pow-suc, div-add-mod, mod-eq_of_lt, mod-lt, mul-add-mod_self_right, one-le-pow, mul-le-mul_right,
}
use robocol.Wire.Slice.{Bytes}

-- The `w` bytes of `v`, highest first. What does not fit in them is cut off, as by `as u16`.
abbrev pub to_be_bytes : ℕ → ℕ → Bytes
to_be_bytes zero v = []
to_be_bytes (suc w) v = (v / 256 ^ w % 256) ∷ to_be_bytes w v

unfoldable pub be_from : ℕ → Bytes → ℕ
be_from acc [] = acc
be_from acc (b ∷ bs) = be_from (acc * 256 + b) bs

unfoldable pub from_be_bytes : Bytes → ℕ
unfolding be_from
from_be_bytes bs = be_from 0 bs

pub length-to_be_bytes : (w v : ℕ) → length (to_be_bytes w v) ≡ w
length-to_be_bytes zero v = refl
length-to_be_bytes (suc w) v = ap suc (length-to_be_bytes w v)

-- The top byte and the bytes below it, of a number cut to `p * 256`.
split_byte : (v p : ℕ) → 0 < p → v % (p * 256) ≡ v / p % 256 * p + v % p
split_byte v p h =
    rw (← whole) at (mul-add-mod_self_right (v / p / 256) (p * 256) rest ∙ mod-eq_of_lt below)
  where
    rest : ℕ
    rest = v / p % 256 * p + v % p

    below : rest < p * 256
    below = grind (arith, mod-lt v h)

    whole : v ≡ v / p / 256 * (p * 256) + rest
    whole = omega (arith, div-add-mod v p, ap (λ (t : ℕ). t * p) (div-add-mod (v / p) 256))

be_from-to_be_bytes : (w acc v : ℕ) → be_from acc (to_be_bytes w v) ≡ acc * 256 ^ w + v % 256 ^ w
unfolding be_from
be_from-to_be_bytes zero acc v = omega arith
be_from-to_be_bytes (suc w) acc v = omega (
  arith,
  be_from-to_be_bytes w (acc * 256 + v / 256 ^ w % 256) v,
  split_byte v (256 ^ w) (one-le-pow w 256 (omega arith)),
  ap (λ (t : ℕ). v % t) (pow-suc 256 w),
  ap (λ (t : ℕ). acc * t) (pow-suc 256 w),
)

-- The big-endian bytes of a number that fits in `w` bytes read back as that number.
pub from_be_bytes-to_be_bytes : (w v : ℕ) → v < 256 ^ w → from_be_bytes (to_be_bytes w v) ≡ v
unfolding from_be_bytes
from_be_bytes-to_be_bytes w v h = be_from-to_be_bytes w 0 v ∙ omega (arith, mod-eq_of_lt h)

be_from-lt :
    (acc : ℕ) (bs : Bytes) → All (λ b. b < 256) bs → be_from acc bs < (acc + 1) * 256 ^ length bs
unfolding be_from
be_from-lt acc [] h = omega arith
be_from-lt acc (b ∷ bs) (hb, hbs) = omega (
  arith,
  be_from-lt (acc * 256 + b) bs hbs,
  mul-le-mul_right (256 ^ length bs) room,
  ap (λ (t : ℕ). (acc + 1) * t) (pow-suc 256 (length bs)),
)
  where
    room : acc * 256 + b + 1 ≤ (acc + 1) * 256
    room = omega arith

-- A number read from `w` bytes fits `w` bytes.
pub from_be_bytes-lt : (bs : Bytes) → All (λ b. b < 256) bs → from_be_bytes bs < 256 ^ length bs
unfolding from_be_bytes
from_be_bytes-lt bs h = omega (arith, be_from-lt 0 bs h)

-- One byte stands for itself.
pub from_be_bytes-byte : (b : ℕ) → from_be_bytes (b ∷ []) ≡ b
unfolding from_be_bytes
from_be_bytes-byte b = omega arith
