-- ===== src/Prelude/Bits.antt =====
-- `|`, `&` and shifts at variables, as arithmetic. The source's `x << k` is `x * 2 ^ k`, and `x >> k`
-- is `x / 2 ^ k`.
use Prim.Native.Nat.{
  ℕ, zero, suc, ◌+◌, ◌-◌, ◌*◌, ◌/◌, ◌%◌, ◌^◌, ◌≤◌, ◌<◌, min, max, bit_and, bit_or, digits,
  bit_and-bitwise, bit_or-bitwise,
}
use mathlib.Core.Path.{◌≡◌, refl, ap, ◌∙◌}
use native.Mathlib.Omega.{arith}
use native.Mathlib.Nat.{
  pow-suc, div-div-eq-div-mul, mul_comm, mul-add-mod_self_right, mod-eq_of_lt, mod-lt, div-add-mod,
  one-le-pow,
}

-- One more round of the digit recursion changes nothing once the number is used up.
module _ (base : ℕ → ℕ) (op : ℕ → ℕ → ℕ) where
  digits_settled : (k x y : ℕ) → x ≤ k → digits base op (suc k) x y ≡ digits base op k x y
  digits_settled zero zero y below = refl
  digits_settled zero (suc x) y below = absurd (omega arith)
  digits_settled (suc k) zero y below = refl
  digits_settled (suc k) (suc x) y below =
      ap (λ (rest : ℕ). rest * 2 + op (suc x % 2) (y % 2))
        (digits_settled k (suc x / 2) (y / 2) (omega arith))

  digits_more : (spare k x y : ℕ) → x ≤ k → digits base op (spare + k) x y ≡ digits base op k x y
  digits_more zero k x y below = ap (λ (rounds : ℕ). digits base op rounds x y) (omega arith)
  digits_more (suc spare) k x y below =
      ap (λ (rounds : ℕ). digits base op rounds x y) {x = suc spare + k} {y = suc (spare + k)}
        (omega arith)
      ∙ digits_settled (spare + k) x y (omega arith)
      ∙ digits_more spare k x y below

  digits_half :
      (x y : ℕ) → digits base op x (suc x / 2) y ≡ digits base op (suc x / 2) (suc x / 2) y
  digits_half x y =
      ap (λ (rounds : ℕ). digits base op rounds (suc x / 2) y) {x = x}
        {y = x - suc x / 2 + suc x / 2} (omega arith)
      ∙ digits_more (x - suc x / 2) (suc x / 2) (suc x / 2) y (omega arith)

-- The lowest bit, and the others.
pub bit_and_halves : (x y : ℕ) → bit_and x y ≡ 2 * bit_and (x / 2) (y / 2) + min (x % 2) (y % 2)
bit_and_halves zero y = omega (arith, bit_and-bitwise 0 (y / 2), bit_and-bitwise 0 y)
bit_and_halves (suc x) y =
    let lower = digits_half (λ _. 0) min x (y / 2) in
    omega (arith, lower, bit_and-bitwise (suc x / 2) (y / 2), bit_and-bitwise (suc x) y)

pub bit_or_halves : (x y : ℕ) → bit_or x y ≡ 2 * bit_or (x / 2) (y / 2) + max (x % 2) (y % 2)
bit_or_halves zero y = omega (arith, bit_or-bitwise 0 (y / 2), bit_or-bitwise 0 y)
bit_or_halves (suc x) y =
    let lower = digits_half (λ t. t) max x (y / 2) in
    omega (arith, lower, bit_or-bitwise (suc x / 2) (y / 2), bit_or-bitwise (suc x) y)

-- Bounded by `k`, for the induction.
bit_or-zero : (k x : ℕ) → x ≤ k → bit_or x 0 ≡ x
bit_or-zero k zero below = refl
bit_or-zero zero (suc x) below = absurd (omega arith)
bit_or-zero (suc k) (suc x) below =
    omega (arith, bit_or-zero k (suc x / 2) (omega arith), bit_or_halves (suc x) 0)

bit_and-zero : (k x : ℕ) → x ≤ k → bit_and x 0 ≡ 0
bit_and-zero k zero below = refl
bit_and-zero zero (suc x) below = absurd (omega arith)
bit_and-zero (suc k) (suc x) below =
    omega (arith, bit_and-zero k (suc x / 2) (omega arith), bit_and_halves (suc x) 0)

pow_double : (k : ℕ) → 2 ^ suc k ≡ 2 * 2 ^ k
pow_double k = pow-suc 2 k ∙ mul_comm (2 ^ k) 2

-- With no bit in common, `|` is a sum.
pub bit_or_disjoint : (k hi lo : ℕ) → lo < 2 ^ k → bit_or (hi * 2 ^ k) lo ≡ hi * 2 ^ k + lo
bit_or_disjoint zero hi zero h = bit_or-zero (hi * 1) (hi * 1) (omega arith) ∙ omega arith
bit_or_disjoint zero hi (suc lo) h = absurd (omega arith)
bit_or_disjoint (suc k) hi lo h = omega (
  arith,
  bit_or_halves (hi * 2 ^ suc k) lo,
  doubled,
  ap (λ (t : ℕ). bit_or t (lo / 2)) halved,
  bit_or_disjoint k hi (lo / 2) (omega (arith, pow_double k)),
)
  where
    doubled : hi * 2 ^ suc k ≡ 2 * (hi * 2 ^ k)
    doubled = omega (arith, ap (λ (t : ℕ). hi * t) (pow_double k))

    halved : hi * 2 ^ suc k / 2 ≡ hi * 2 ^ k
    halved = omega (arith, doubled)

-- `x & (1 << k)` is the bit, in its place.
pub bit_and-pow : (k x : ℕ) → bit_and x (2 ^ k) ≡ x / 2 ^ k % 2 * 2 ^ k
bit_and-pow zero x = omega (arith, bit_and_halves x 1, bit_and-zero (x / 2) (x / 2) (omega arith))
bit_and-pow (suc k) x = omega (
  arith,
  bit_and_halves x (2 ^ suc k),
  pow_double k,
  ap (λ (t : ℕ). bit_and (x / 2) t) halved,
  bit_and-pow k (x / 2),
  ap (λ (t : ℕ). t % 2 * 2 ^ k) (div-div-eq-div-mul x 2 (2 ^ k)),
  ap (λ (t : ℕ). x / t % 2 * t) (pow_double k),
)
  where
    halved : 2 ^ suc k / 2 ≡ 2 ^ k
    halved = omega (arith, pow_double k)

mod_double : (x p : ℕ) → 0 < p → x % (2 * p) ≡ x / 2 % p * 2 + x % 2
mod_double x p h =
    rw (← whole) at (mul-add-mod_self_right (x / 2 / p) (2 * p) rest ∙ mod-eq_of_lt below)
  where
    rest : ℕ
    rest = x / 2 % p * 2 + x % 2

    below : rest < 2 * p
    below = omega (arith, mod-lt (x / 2) h)

    whole : x ≡ x / 2 / p * (2 * p) + rest
    whole = omega (arith, div-add-mod (x / 2) p)

-- `x & m` for a mask `m` of `k` ones.
pub bit_and-mask : (k x m : ℕ) → m + 1 ≡ 2 ^ k → bit_and x m ≡ x % 2 ^ k
bit_and-mask zero x zero h = omega (arith, bit_and-zero x x (omega arith))
bit_and-mask zero x (suc m) h = absurd (omega arith)
bit_and-mask (suc k) x m h = omega (
  arith,
  bit_and_halves x m,
  pow_double k,
  bit_and-mask k (x / 2) (m / 2) (omega (arith, pow_double k)),
  mod_double x (2 ^ k) (one-le-pow k 2 (omega arith)),
  ap (λ (t : ℕ). x % t) (pow_double k),
)
