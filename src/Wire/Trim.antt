-- ===== src/Wire/Trim.antt =====
-- `str::trim` and `str::split_whitespace`: white space of Unicode at both ends of a UTF-8 string.
use robocol.Prelude.{
  ℕ, zero, suc, Bool, ◌&&◌, ◌||◌, List, [], ◌∷◌, ◌++◌, ◌==◌, leb, length, if◌then◌else◌,
}
use robocol.Wire.Slice.{Bytes}

-- One white-space character: U+0009 to U+000D and U+0020; U+0085 and U+00A0; U+1680, U+2000 to U+200A,
-- U+2028, U+2029, U+202F, U+205F and U+3000.
abbrev is_white1 : ℕ → Bool
is_white1 a = leb 0x09 a && leb a 0x0d || a == 0x20

abbrev is_white2 : ℕ → ℕ → Bool
is_white2 a b = a == 0xc2 && (b == 0x85 || b == 0xa0)

abbrev is_white3 : ℕ → ℕ → ℕ → Bool
is_white3 a b c =
    a == 0xe1 && b == 0x9a && c == 0x80
    || a == 0xe2 && b == 0x80 && (leb 0x80 c && leb c 0x8a || c == 0xa8 || c == 0xa9 || c == 0xaf)
    || a == 0xe2 && b == 0x81 && c == 0x9f
    || a == 0xe3 && b == 0x80 && c == 0x80

trim_start : Bytes → Bytes
trim_start [] = []
trim_start (a ∷ []) = if is_white1 a then [] else a ∷ []
trim_start (a ∷ b ∷ []) =
    let rest = trim_start (b ∷ []) in
    if is_white1 a then rest else if is_white2 a b then [] else a ∷ b ∷ []
trim_start (a ∷ b ∷ c ∷ s) =
    let one = trim_start (b ∷ c ∷ s) in
    let two = trim_start (c ∷ s) in
    let three = trim_start s in
    if is_white1 a
    then one
    else if is_white2 a b
    then two
    else if is_white3 a b c
    then three
    else a ∷ b ∷ c ∷ s

-- From the first byte that only white space follows, nothing is left.
trim_end : Bytes → Bytes
unfolding trim_start
trim_end [] = []
trim_end (a ∷ s) = if length (trim_start (a ∷ s)) == 0 then [] else a ∷ trim_end s

unfoldable pub trim : Bytes → Bytes
unfolding trim_start trim_end
trim s = trim_end (trim_start s)

-- The length of the white-space character that a string starts with, 0 when it starts with another.
unfoldable pub white_len : Bytes → ℕ
white_len [] = 0
white_len (a ∷ []) = if is_white1 a then 1 else 0
white_len (a ∷ b ∷ []) = if is_white1 a then 1 else if is_white2 a b then 2 else 0
white_len (a ∷ b ∷ c ∷ s) =
    if is_white1 a then 1 else if is_white2 a b then 2 else if is_white3 a b c then 3 else 0

-- The tokens, where `current` is the one under way and so many bytes of white space are still to come.
split_from : ℕ → Bytes → Bytes → List Bytes
unfolding white_len
split_from n current [] = current ∷ []
split_from (suc n) current (b ∷ s) = split_from n current s
split_from zero current (b ∷ s) = elim (white_len (b ∷ s)) [
  | zero ↦ split_from zero (current ++ b ∷ []) s
  | suc n ↦ current ∷ split_from n [] s
]

nonempty : List Bytes → List Bytes
nonempty [] = []
nonempty ([] ∷ ts) = nonempty ts
nonempty ((b ∷ t) ∷ ts) = (b ∷ t) ∷ nonempty ts

unfoldable pub split_whitespace : Bytes → List Bytes
unfolding split_from nonempty
split_whitespace s = nonempty (split_from 0 [] s)
