-- ===== src/Video/Text.antt =====
-- The methods of `str` that robocol/src/video.rs reads headers and addresses with. A string is the list of its bytes.
use robocol.Prelude.{
  ℕ, suc, ◌+◌, ◌-◌, ◌*◌, Bool, ◌&&◌, [], ◌∷◌, Option, none, some, ◌==◌, leb, ltb, length, map,
  if◌then◌else◌,
}
use robocol.Prelude.Text.{bytes_eq}
use robocol.Wire.{Bytes}

abbrev pub lower : ℕ → ℕ
lower b = if leb 65 b && leb b 90 then b + 32 else b

unfoldable pub to_ascii_lowercase : Bytes → Bytes
to_ascii_lowercase s = map lower s

unfoldable pub eq_ignore_ascii_case : Bytes → Bytes → Bool
unfolding to_ascii_lowercase
eq_ignore_ascii_case s t = bytes_eq (to_ascii_lowercase s) (to_ascii_lowercase t)

abbrev in_front : ℕ → Option (Bytes × Bytes) → Option (Bytes × Bytes)
in_front b none = none
in_front b (some (s, t)) = some (b ∷ s, t)

-- `split_once` at one ASCII character.
unfoldable pub split_once : ℕ → Bytes → Option (Bytes × Bytes)
split_once sep [] = none
split_once sep (b ∷ s) =
    let rest = in_front b (split_once sep s) in if b == sep then some ([], s) else rest

-- `rsplit_once`, the split at the last such character.
unfoldable pub rsplit_once : ℕ → Bytes → Option (Bytes × Bytes)
rsplit_once sep [] = none
rsplit_once sep (b ∷ s) = elim (rsplit_once sep s) [
  | none ↦ if b == sep then some ([], s) else none
  | some (before, after) ↦ some (b ∷ before, after)
]

-- `strip_prefix`.
unfoldable pub strip_prefix : Bytes → Bytes → Option Bytes
strip_prefix [] s = some s
strip_prefix (p ∷ ps) [] = none
strip_prefix (p ∷ ps) (b ∷ s) = let rest = strip_prefix ps s in if p == b then rest else none

-- `find` of a string: where it starts first.
unfoldable pub find : Bytes → Bytes → Option ℕ
unfolding strip_prefix
find pattern [] = elim (strip_prefix pattern []) [ none ↦ none | some rest ↦ some 0 ]
find pattern (b ∷ s) =
    let later = find pattern s in
    elim (strip_prefix pattern (b ∷ s)) [
      | some rest ↦ some 0
      | none ↦ elim later [ none ↦ none | some i ↦ some (suc i) ]
    ]

-- `trim_matches` of one ASCII character.
unfoldable pub trim_start_byte : ℕ → Bytes → Bytes
trim_start_byte c [] = []
trim_start_byte c (b ∷ s) = let rest = trim_start_byte c s in if b == c then rest else b ∷ s

unfoldable pub trim_end_byte : ℕ → Bytes → Bytes
trim_end_byte c [] = []
trim_end_byte c (b ∷ s) =
    let rest = trim_end_byte c s in if (b == c) && (length rest == 0) then [] else b ∷ rest

unfoldable pub trim_matches : ℕ → Bytes → Bytes
unfolding trim_start_byte trim_end_byte
trim_matches c s = trim_end_byte c (trim_start_byte c s)

-- The value of a digit, of either case.
unfoldable pub digit_value : ℕ → ℕ → Option ℕ
digit_value radix b =
    let value =
      if leb 48 b && leb b 57
      then some (b - 48)
      else if leb 97 b && leb b 122
      then some (b - 87)
      else if leb 65 b && leb b 90
      then some (b - 55)
      else none in
    elim value [ none ↦ none | some v ↦ if ltb v radix then some v else none ]

-- The digits of a number below the bound, once so much of it is read.
unfoldable pub digits_from : ℕ → ℕ → ℕ → Bytes → Option ℕ
unfolding digit_value
digits_from radix bound acc [] = some acc
digits_from radix bound acc (b ∷ s) = elim (digit_value radix b) [
  | none ↦ none
  | some v ↦
      let rest = digits_from radix bound (acc * radix + v) s in
      if ltb (acc * radix + v) bound then rest else none
]

-- `from_str_radix` of an unsigned type that ends below the bound: one digit at least, after one `+` at most.
unfoldable pub from_str_radix : ℕ → ℕ → Bytes → Option ℕ
unfolding digits_from
from_str_radix radix bound [] = none
from_str_radix radix bound (b ∷ []) = if b == 43 then none else digits_from radix bound 0 (b ∷ [])
from_str_radix radix bound (b ∷ c ∷ s) =
    if b == 43 then digits_from radix bound 0 (c ∷ s) else digits_from radix bound 0 (b ∷ c ∷ s)
