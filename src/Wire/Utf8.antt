-- ===== src/Wire/Utf8.antt =====
-- `String::from_utf8`: the standard library's check that bytes are well-formed UTF-8. A `String` is the
-- list of its bytes.
use robocol.Prelude.{
  ◌≡◌, ◌≢◌, refl, inl, inr, Bool-cases, ℕ, zero, suc, Bool, true, false, [], ◌∷◌, ◌++◌, leb, ◌&&◌,
  if◌then◌else◌,
}
use robocol.Wire.Slice.{Bytes}

-- Between two code points, or inside one: so many bytes after the next, and the next one's range.
pub data Utf8State : Type 0 where
  boundary : Utf8State
  inside : ℕ → ℕ → ℕ → Utf8State
  malformed : Utf8State

abbrev between : ℕ → ℕ → ℕ → Bool
between lo hi b = leb lo b && leb b hi

lead_byte : ℕ → Utf8State
lead_byte b =
    if leb b 0x7f
    then boundary
    else if between 0xc2 0xdf b
    then inside 0 0x80 0xbf
    else if between 0xe0 0xe0 b
    then inside 1 0xa0 0xbf
    else if between 0xed 0xed b
    then inside 1 0x80 0x9f
    else if between 0xe1 0xef b
    then inside 1 0x80 0xbf
    else if between 0xf0 0xf0 b
    then inside 2 0x90 0xbf
    else if between 0xf1 0xf3 b
    then inside 2 0x80 0xbf
    else if between 0xf4 0xf4 b
    then inside 2 0x80 0x8f
    else malformed

continuation : ℕ → Utf8State
continuation zero = boundary
continuation (suc n) = inside n 0x80 0xbf

utf8_step : Utf8State → ℕ → Utf8State
unfolding lead_byte continuation
utf8_step boundary b = lead_byte b
utf8_step (inside n lo hi) b = if between lo hi b then continuation n else malformed
utf8_step malformed b = malformed

utf8_end : Utf8State → Bytes → Utf8State
unfolding utf8_step
utf8_end s [] = s
utf8_end s (b ∷ bs) = utf8_end (utf8_step s b) bs

is_boundary : Utf8State → Bool
is_boundary boundary = true
is_boundary (inside n lo hi) = false
is_boundary malformed = false

unfoldable pub is_utf8 : Bytes → Bool
unfolding utf8_end is_boundary
is_utf8 bs = is_boundary (utf8_end boundary bs)

-- U+FFFD.
abbrev replacement : Bytes
replacement = 0xef ∷ 0xbf ∷ 0xbd ∷ []

-- A byte at the start of a character: what is put out, the state after it and the bytes that wait.
lossy_start : ℕ → Bytes × Utf8State × Bytes
unfolding lead_byte
lossy_start b = elim (lead_byte b) [
  | boundary ↦ (b ∷ [], boundary, [])
  | inside n lo hi ↦ ([], inside n lo hi, b ∷ [])
  | malformed ↦ (replacement, boundary, [])
]

lossy_inside : ℕ → ℕ → Bytes → Bytes × Utf8State × Bytes
unfolding continuation
lossy_inside n b waiting = elim (continuation n) [
  | boundary ↦ (waiting ++ b ∷ [], boundary, [])
  | inside m lo hi ↦ ([], inside m lo hi, waiting ++ b ∷ [])
  | malformed ↦ (replacement, boundary, [])
]

-- A byte that does not go on with a character ends it, and starts another.
lossy_step : Utf8State → Bytes → ℕ → Bytes × Utf8State × Bytes
unfolding lossy_start lossy_inside
lossy_step boundary waiting b = lossy_start b
lossy_step (inside n lo hi) waiting b =
    let (out, s, next) = lossy_start b in
    if between lo hi b then lossy_inside n b waiting else (replacement ++ out, s, next)
lossy_step malformed waiting b = lossy_start b

lossy_from : Utf8State → Bytes → Bytes → Bytes
unfolding lossy_step is_boundary
lossy_from s waiting [] = if is_boundary s then [] else replacement
lossy_from s waiting (b ∷ bs) =
    let (out, s', next) = lossy_step s waiting b in out ++ lossy_from s' next bs

-- `String::from_utf8_lossy`: each longest start of a character that is not one becomes U+FFFD.
unfoldable pub from_utf8_lossy : Bytes → Bytes
unfolding lossy_from
from_utf8_lossy bs = lossy_from boundary [] bs

-- A step puts something out, or leaves a character under way.
data Shows : Bytes × Utf8State × Bytes → Type 0 where
  shown : (x : ℕ) (xs : Bytes) (s : Utf8State) (next : Bytes) → Shows (x ∷ xs, s, next)
  waits : (n lo hi : ℕ) (next : Bytes) → Shows ([], inside n lo hi, next)

lossy_start-Shows : (b : ℕ) (s : Utf8State) → lead_byte b ≡ s → Shows (lossy_start b)
unfolding lossy_start
lossy_start-Shows b boundary e = rw (lossy_start, e) (shown b [] _ _)
lossy_start-Shows b (inside n lo hi) e = rw (lossy_start, e) (waits n lo hi _)
lossy_start-Shows b malformed e = rw (lossy_start, e) (shown _ _ _ _)

shown_after : (xs : Bytes) (b : ℕ) (s : Utf8State) (next : Bytes) → Shows (xs ++ b ∷ [], s, next)
shown_after [] b s next = shown b [] s next
shown_after (x ∷ xs) b s next = shown x (xs ++ b ∷ []) s next

lossy_inside-Shows : (n b : ℕ) (waiting : Bytes) → Shows (lossy_inside n b waiting)
unfolding lossy_inside continuation
lossy_inside-Shows zero b waiting = shown_after waiting b _ _
lossy_inside-Shows (suc n) b waiting = waits _ _ _ _

lossy_step-Shows : (s : Utf8State) (waiting : Bytes) (b : ℕ) → Shows (lossy_step s waiting b)
unfolding lossy_step
lossy_step-Shows boundary waiting b = lossy_start-Shows b _ refl
lossy_step-Shows (inside n lo hi) waiting b = elim (Bool-cases (between lo hi b)) [
  | inl within ↦ rw (lossy_step, within) (lossy_inside-Shows n b waiting)
  | inr outside ↦ rw (lossy_step, outside) (shown _ _ _ _)
]
lossy_step-Shows malformed waiting b = lossy_start-Shows b _ refl

-- A character under way comes out as something.
lossy_from-nonempty :
    (n lo hi : ℕ) (waiting bs : Bytes) → lossy_from (inside n lo hi) waiting bs ≢ []
unfolding lossy_from is_boundary
lossy_from-nonempty n lo hi waiting [] e = cc
lossy_from-nonempty n lo hi waiting (b ∷ bs) e =
    go (lossy_step (inside n lo hi) waiting b) (lossy_step-Shows (inside n lo hi) waiting b)
      (λ m lo' hi' next. lossy_from-nonempty m lo' hi' next bs) e
  where
    go :
        (r : Bytes × Utf8State × Bytes)
        → Shows r
        → ((m lo' hi' : ℕ) (next : Bytes) → lossy_from (inside m lo' hi') next bs ≢ [])
        → r.0 ++ lossy_from r.1 r.2 bs ≢ []
    go (x ∷ xs, s, next) (shown _ _ _ _) again e = cc
    go ([], inside m lo' hi', next) (waits _ _ _ _) again e = again m lo' hi' next e
    go ([], boundary, next) x again e = elim x [ ]
    go ([], malformed, next) x again e = elim x [ ]

-- No text that is not empty becomes empty.
pub from_utf8_lossy-nonempty : (b : ℕ) (bs : Bytes) → from_utf8_lossy (b ∷ bs) ≢ []
unfolding from_utf8_lossy lossy_from
from_utf8_lossy-nonempty b bs e = go (lossy_step boundary [] b) (lossy_step-Shows boundary [] b) e
  where
    go : (r : Bytes × Utf8State × Bytes) → Shows r → r.0 ++ lossy_from r.1 r.2 bs ≢ []
    go (x ∷ xs, s, next) (shown _ _ _ _) e = cc
    go ([], inside m lo hi, next) (waits _ _ _ _) e = lossy_from-nonempty m lo hi next bs e
    go ([], boundary, next) x e = elim x [ ]
    go ([], malformed, next) x e = elim x [ ]
