-- ===== src/Video/Kmp.antt =====
-- `kmp_failure`: for each prefix of the delimiter, how much of it is still a match when it fails.
pub mod Prefixes
pub mod Borders
pub mod Table
use robocol.Prelude.{
  ℕ, zero, suc, ◌-◌, Bool, true, false, List, Option, none, some, ◌==◌, length, get_elem?, set,
  replicate,
}
use robocol.Wire.{Bytes}

-- `pattern[i] != pattern[k]`, where both indices are in bounds.
abbrev pub both : Option ℕ → Option ℕ → Option Bool
both (some c) (some d) = some (c == d)
both _ _ = none

-- The inner loop: `while k > 0 && pattern[i] != pattern[k] { k = failure[k - 1]; }`. `none` stands for an
-- index out of bounds, and for the fuel run out.
unfoldable pub fall_back : ℕ → Bytes → List ℕ → ℕ → ℕ → Option ℕ
fall_back zero pattern failure i k = none
fall_back (suc fuel) pattern failure i zero = some zero
fall_back (suc fuel) pattern failure i (suc k) =
    elim (both (get_elem? pattern i) (get_elem? pattern (suc k))) [
      | none ↦ none
      | some true ↦ some (suc k)
      | some false ↦ elim (get_elem? failure k) [
        | none ↦ none
        | some fallback ↦ fall_back fuel pattern failure i fallback
      ]
    ]

-- `if pattern[i] == pattern[k] { k += 1; }`.
unfoldable pub extend : Bytes → ℕ → ℕ → Option ℕ
extend pattern i k = elim (both (get_elem? pattern i) (get_elem? pattern k)) [
  | none ↦ none
  | some true ↦ some (suc k)
  | some false ↦ some k
]

unfoldable pub next_border : Bytes → List ℕ → ℕ → ℕ → Option ℕ
unfolding fall_back extend
next_border pattern failure i k = elim (fall_back (suc k) pattern failure i k) [
  | none ↦ none
  | some j ↦ extend pattern i j
]

-- `for i in 1..pattern.len()`, with so many rounds to go.
unfoldable pub failure_from : ℕ → Bytes → List ℕ → ℕ → ℕ → Option (List ℕ)
unfolding next_border
failure_from zero pattern failure i k = some failure
failure_from (suc rounds) pattern failure i k = elim (next_border pattern failure i k) [
  | none ↦ none
  | some j ↦ failure_from rounds pattern (set failure i j) (suc i) j
]

unfoldable pub kmp_failure : Bytes → Option (List ℕ)
unfolding failure_from
kmp_failure pattern = failure_from (length pattern - 1) pattern (replicate (length pattern) 0) 1 0
