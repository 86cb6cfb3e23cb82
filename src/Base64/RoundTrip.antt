-- ===== src/Base64/RoundTrip.antt =====
-- robocol/src/base64.rs: `encode` and `decode` together, and the white space that `decode` skips.
use robocol.Prelude.{
  ℕ, ◌+◌, ◌*◌, ◌/◌, ◌%◌, ◌^◌, ◌<◌, ◌≡◌, refl, ap, ap₂, ◌∙◌, Bool, true, false, not, ◌&&◌, List, [],
  ◌∷◌, Option, none, some, bit_or, arith, All, ◌==◌, if◌then◌else◌, Bool-cases, inl, inr,
  passes_under, passes_under_at,
}
use robocol.Prelude.Bits.{bit_or_disjoint, bit_and-mask}
use robocol.Wire.{Bytes}
use robocol.Base64.{
  digit, sextet0, sextet1, sextet2, sextet3, encode, val, is_space, sextets, groups, decode,
}
use mathlib.Core.Option

-- A digit is read as its index, and is neither white space nor padding.
abbrev is_value : ℕ → Option ℕ → Bool
is_value i none = false
is_value i (some v) = v == i

reads_back : ℕ → Bool
reads_back i = is_value i (val (digit i)) && not (is_space (digit i)) && not (digit i == b'=')

alphabet_lem : (i : ℕ) → i < 64 → reads_back i ≡ true
unfolding passes_under reads_back digit val is_space
alphabet_lem i lt = passes_under_at reads_back 64 refl i lt

split_lem :
    (i : ℕ) (o : Option ℕ) (space pad : Bool)
    → (is_value i o && not space && not pad) ≡ true
    → (o ≡ some i) × (space ≡ false) × (pad ≡ false)
split_lem i none space pad h = cc
split_lem i (some v) space pad h = ground arith

sextets-digit :
    (i : ℕ) (s : Bytes) {vs : List ℕ}
    → i < 64
    → sextets s ≡ some vs
    → sextets (digit i ∷ s) ≡ some (i ∷ vs)
unfolding sextets Option.bind
sextets-digit i s {vs} lt e =
    let (v, space, pad) =
      split_lem i (val (digit i)) (is_space (digit i)) (digit i == b'=')
        (unfold reads_back in alphabet_lem i lt) in
    rw (space, pad, v, e)

sextet1_lem : (b0 b1 : ℕ) → b1 < 256 → sextet1 b0 b1 ≡ b0 % 4 * 16 + b1 / 16
unfolding sextet1
sextet1_lem b0 b1 h =
    ap (λ (t : ℕ). bit_or t (b1 / 16)) (omega (arith, bit_and-mask 2 b0 3 refl))
    ∙ bit_or_disjoint 4 (b0 % 4) (b1 / 16) (omega arith)

sextet2_lem : (b1 b2 : ℕ) → b2 < 256 → sextet2 b1 b2 ≡ b1 % 16 * 4 + b2 / 64
unfolding sextet2
sextet2_lem b1 b2 h =
    ap (λ (t : ℕ). bit_or t (b2 / 64)) (omega (arith, bit_and-mask 4 b1 15 refl))
    ∙ bit_or_disjoint 2 (b1 % 16) (b2 / 64) (omega arith)

sextet3_lem : (b2 : ℕ) → sextet3 b2 ≡ b2 % 64
unfolding sextet3
sextet3_lem b2 = bit_and-mask 6 b2 63 refl

-- The sextets of a byte sequence.
abbrev all_sextets : Bytes → List ℕ
all_sextets [] = []
all_sextets (b0 ∷ []) = sextet0 b0 ∷ sextet1 b0 0 ∷ []
all_sextets (b0 ∷ b1 ∷ []) = sextet0 b0 ∷ sextet1 b0 b1 ∷ sextet2 b1 0 ∷ []
all_sextets (b0 ∷ b1 ∷ b2 ∷ r) =
    sextet0 b0 ∷ sextet1 b0 b1 ∷ sextet2 b1 b2 ∷ sextet3 b2 ∷ all_sextets r

module _ (b0 b1 b2 : ℕ) (h0 : b0 < 256) (h1 : b1 < 256) (h2 : b2 < 256) where
  sextet0-lt : sextet0 b0 < 64
  unfolding sextet0
  sextet0-lt = omega arith

  sextet1-lt : sextet1 b0 b1 < 64
  sextet1-lt = omega (arith, sextet1_lem b0 b1 h1)

  sextet2-lt : sextet2 b1 b2 < 64
  sextet2-lt = omega (arith, sextet2_lem b1 b2 h2)

  sextet3-lt : sextet3 b2 < 64
  sextet3-lt = omega (arith, sextet3_lem b2)

  -- The three bytes, put together from the sextets.
  byte0 : bit_or (sextet0 b0 * 2 ^ 2 % 256) (sextet1 b0 b1 / 2 ^ 4) ≡ b0
  unfolding sextet0
  byte0 =
      ap₂ bit_or {x = b0 / 4 * 4 % 256} {y = b0 / 4 * 4} (omega arith)
        (omega (arith, sextet1_lem b0 b1 h1))
      ∙ bit_or_disjoint 2 (b0 / 4) (b0 % 4) (omega arith)
      ∙ omega arith

  byte1 : bit_or (sextet1 b0 b1 * 2 ^ 4 % 256) (sextet2 b1 b2 / 2 ^ 2) ≡ b1
  byte1 =
      ap₂ bit_or (omega (arith, sextet1_lem b0 b1 h1)) (omega (arith, sextet2_lem b1 b2 h2))
      ∙ bit_or_disjoint 4 (b1 / 16) (b1 % 16) (omega arith)
      ∙ omega arith

  byte2 : bit_or (sextet2 b1 b2 * 2 ^ 6 % 256) (sextet3 b2) ≡ b2
  byte2 =
      ap₂ bit_or (omega (arith, sextet2_lem b1 b2 h2)) (sextet3_lem b2)
      ∙ bit_or_disjoint 6 (b2 / 64) (b2 % 64) (omega arith)
      ∙ omega arith

abbrev pub IsByte : ℕ → Type 0
IsByte b = b < 256

sextets-pad : (s : Bytes) → sextets (b'=' ∷ s) ≡ some []
unfolding sextets
sextets-pad s = refl

sextets-nil : sextets [] ≡ some []
unfolding sextets
sextets-nil = refl

sextets-encode : (bs : Bytes) → All IsByte bs → sextets (encode bs) ≡ some (all_sextets bs)
unfolding encode
sextets-encode [] h = sextets-nil
sextets-encode (b0 ∷ []) (h0, _) =
    sextets-digit (sextet0 b0) _ (sextet0-lt b0 0 0 h0 (omega arith) (omega arith)) (
      sextets-digit (sextet1 b0 0) _ (sextet1-lt b0 0 0 h0 (omega arith) (omega arith))
        (sextets-pad _))
sextets-encode (b0 ∷ b1 ∷ []) (h0, (h1, _)) =
    sextets-digit (sextet0 b0) _ (sextet0-lt b0 b1 0 h0 h1 (omega arith)) (
      sextets-digit (sextet1 b0 b1) _ (sextet1-lt b0 b1 0 h0 h1 (omega arith))
        (sextets-digit (sextet2 b1 0) _ (sextet2-lt b0 b1 0 h0 h1 (omega arith)) (sextets-pad _)))
sextets-encode (b0 ∷ b1 ∷ b2 ∷ r) (h0, (h1, (h2, hr))) =
    sextets-digit (sextet0 b0) _ (sextet0-lt b0 b1 b2 h0 h1 h2) (
      sextets-digit (sextet1 b0 b1) _ (sextet1-lt b0 b1 b2 h0 h1 h2) (
        sextets-digit (sextet2 b1 b2) _ (sextet2-lt b0 b1 b2 h0 h1 h2)
          (sextets-digit (sextet3 b2) _ (sextet3-lt b0 b1 b2 h0 h1 h2) (sextets-encode r hr))))

groups-all_sextets : (bs : Bytes) → All IsByte bs → groups (all_sextets bs) ≡ some bs
unfolding groups
groups-all_sextets [] h = refl
groups-all_sextets (b0 ∷ []) (h0, _) = rw (byte0 b0 0 0 h0 (omega arith) (omega arith))
groups-all_sextets (b0 ∷ b1 ∷ []) (h0, (h1, _)) =
    rw (byte0 b0 b1 0 h0 h1 (omega arith), byte1 b0 b1 0 h0 h1 (omega arith))
groups-all_sextets (b0 ∷ b1 ∷ b2 ∷ r) (h0, (h1, (h2, hr))) = rw (
  byte0 b0 b1 b2 h0 h1 h2,
  byte1 b0 b1 b2 h0 h1 h2,
  byte2 b0 b1 b2 h0 h1 h2,
  groups-all_sextets r hr,
)

-- The text without its white space.
unfoldable pub strip : Bytes → Bytes
unfolding is_space
strip [] = []
strip (b ∷ s) = if is_space b then strip s else b ∷ strip s

sextets-strip : (s : Bytes) → sextets (strip s) ≡ sextets s
unfolding strip sextets
sextets-strip [] = refl
sextets-strip (b ∷ s) = elim (Bool-cases (is_space b)) [
  | inl yes_space ↦ rw yes_space (sextets-strip s)
  | inr no_space ↦ rw (no_space, no_space, sextets-strip s)
]

-- Whatever white space is put into the encoding of `bs`, decoding gives `bs`.
pub decode-encode : (s bs : Bytes) → All IsByte bs → strip s ≡ encode bs → decode s ≡ some bs
unfolding decode Option.bind
decode-encode s bs h e = rw (← sextets-strip s, e, sextets-encode bs h) (groups-all_sextets bs h)

-- Text that `encode` wrote has no white space to strip.
pub decode-encode_self : (bs : Bytes) → All IsByte bs → decode (encode bs) ≡ some bs
unfolding decode Option.bind
decode-encode_self bs h = rw (sextets-encode bs h) (groups-all_sextets bs h)
