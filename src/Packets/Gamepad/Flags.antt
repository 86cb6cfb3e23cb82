-- ===== src/Packets/Gamepad/Flags.antt =====
-- Flags packed into one word from the highest down, and tested one by one.
use robocol.Prelude.{
  ℕ, suc, ◌+◌, ◌*◌, ◌/◌, ◌%◌, ◌<◌, ◌^◌, ◌≡◌, refl, ap, ◌∙◌, Bool, true, false, not, List, [], ◌∷◌,
  ◌++◌, ◌==◌, bit_and, bit_or, length, arith,
}
use robocol.Prelude.Bits.{bit_or_disjoint, bit_and-pow}
use native.Mathlib.Nat.{pow-suc, mul_comm, one-le-pow, mul-add-div_right, div-eq_of_lt}

-- `flag as u32`.
abbrev pub bit : Bool → ℕ
bit false = 0
bit true = 1

-- `v |= (flag as u32) << k`, the last flag at k = 0.
abbrev pub or_down : ℕ → List Bool → ℕ
or_down v [] = v
or_down v (f ∷ fs) = or_down (bit_or v (bit f * 2 ^ length fs)) fs

pub horner : ℕ → List Bool → ℕ
horner h [] = h
horner h (f ∷ fs) = horner (2 * h + bit f) fs

pow_double : (k : ℕ) → 2 ^ suc k ≡ 2 * 2 ^ k
pow_double k = pow-suc 2 k ∙ mul_comm (2 ^ k) 2

or_step : (h k : ℕ) (f : Bool) → bit_or (h * 2 ^ suc k) (bit f * 2 ^ k) ≡ (2 * h + bit f) * 2 ^ k
or_step h k f = ground (
  arith,
  bit_or_disjoint (suc k) h (bit f * 2 ^ k),
  pow_double k,
  one-le-pow k 2 (omega arith),
  ap (λ (t : ℕ). h * t) (pow_double k),
)

pub or_down-horner : (h : ℕ) (fs : List Bool) → or_down (h * 2 ^ length fs) fs ≡ horner h fs
unfolding horner
or_down-horner h [] = omega arith
or_down-horner h (f ∷ fs) = rw (or_step h (length fs) f) (or_down-horner (2 * h + bit f) fs)

horner-lower :
    (h : ℕ) (fs : List Bool) → (r : ℕ) × (horner h fs ≡ h * 2 ^ length fs + r) × (r < 2 ^ length fs)
unfolding horner
horner-lower h [] = (0, omega arith, omega arith)
horner-lower h (f ∷ fs) =
    let (r, e, lt) = horner-lower (2 * h + bit f) fs in
    (
      bit f * 2 ^ length fs + r,
      omega (arith, e, ap (λ (t : ℕ). h * t) (pow_double (length fs))),
      ground (arith, lt, pow_double (length fs)),
    )

horner-append : (h : ℕ) (fs gs : List Bool) → horner h (fs ++ gs) ≡ horner (horner h fs) gs
unfolding horner
horner-append h [] gs = refl
horner-append h (f ∷ fs) gs = horner-append (2 * h + bit f) fs gs

digit_lem : (h r p : ℕ) (f : Bool) → r < p → ((2 * h + bit f) * p + r) / p % 2 ≡ bit f
digit_lem h r p true lt =
    omega (arith, mul-add-div_right {m = p} (omega arith) (2 * h + 1) r, div-eq_of_lt lt)
digit_lem h r p false lt =
    omega (arith, mul-add-div_right {m = p} (omega arith) (2 * h + 0) r, div-eq_of_lt lt)

mask_lem :
    (h : ℕ) (f : Bool) (gs : List Bool)
    → bit_and (horner (2 * h + bit f) gs) (2 ^ length gs) ≡ bit f * 2 ^ length gs
mask_lem h f gs =
    let (r, e, lt) = horner-lower (2 * h + bit f) gs in
    bit_and-pow (length gs) (horner (2 * h + bit f) gs)
    ∙ ap (λ (t : ℕ). t / 2 ^ length gs % 2 * 2 ^ length gs) e
    ∙ ap (λ (t : ℕ). t * 2 ^ length gs) (digit_lem h r (2 ^ length gs) f lt)

set_lem : (f : Bool) (p : ℕ) → 0 < p → not (bit f * p == 0) ≡ f
set_lem true p h = ground arith
set_lem false p h = ground arith

horner-cons : (h : ℕ) (f : Bool) (gs : List Bool) → horner h (f ∷ gs) ≡ horner (2 * h + bit f) gs
unfolding horner
horner-cons h f gs = refl

-- A flag is read back from its place, whatever stands before and behind it.
pub bit_and-horner :
    (fs : List Bool) (f : Bool) (gs : List Bool)
    → not (bit_and (horner 0 (fs ++ f ∷ gs)) (2 ^ length gs) == 0) ≡ f
bit_and-horner fs f gs =
    ap (λ (t : ℕ). not (bit_and t (2 ^ length gs) == 0)) (horner-append 0 fs (f ∷ gs))
    ∙ ap (λ (t : ℕ). not (t == 0))
        (ap (λ (t : ℕ). bit_and t (2 ^ length gs)) (horner-cons (horner 0 fs) f gs)
          ∙ mask_lem (horner 0 fs) f gs)
    ∙ set_lem f (2 ^ length gs) (one-le-pow (length gs) 2 (omega arith))

pub horner-lt : (fs : List Bool) → horner 0 fs < 2 ^ length fs
horner-lt fs = let (r, e, lt) = horner-lower 0 fs in omega (arith, e)
