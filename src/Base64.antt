-- ===== src/Base64.antt =====
-- robocol/src/base64.rs. A `&str` is the list of its bytes.
use robocol.Prelude.{
  ℕ, ◌+◌, ◌-◌, ◌*◌, ◌/◌, ◌%◌, ◌^◌, Bool, true, false, ◌&&◌, ◌||◌, List, [], ◌∷◌, ◌++◌, Option, none,
  some, bit_and, bit_or, get_or, leb, ◌==◌, if◌then◌else◌,
}
use robocol.Prelude.Text.{codes}
use robocol.Wire.{Bytes}
use mathlib.Core.Option
pub mod RoundTrip

abbrev pub alphabet : Bytes
alphabet = codes "ABCDEFGHIJKLMNOPQRSTUVWXYZabcdefghijklmnopqrstuvwxyz0123456789+/"

-- `ALPHABET[i]`; every index below is under 64.
unfoldable pub digit : ℕ → ℕ
digit i = get_or alphabet i 0

-- The four sextets of `b0`, `b1` and `b2`.
unfoldable pub sextet0 : ℕ → ℕ
sextet0 b0 = b0 / 2 ^ 2

unfoldable pub sextet1 : ℕ → ℕ → ℕ
sextet1 b0 b1 = bit_or (bit_and b0 0x03 * 2 ^ 4 % 256) (b1 / 2 ^ 4)

unfoldable pub sextet2 : ℕ → ℕ → ℕ
sextet2 b1 b2 = bit_or (bit_and b1 0x0f * 2 ^ 2 % 256) (b2 / 2 ^ 6)

unfoldable pub sextet3 : ℕ → ℕ
sextet3 b2 = bit_and b2 0x3f

-- The chunks of three; in a shorter one the missing bytes count as 0.
unfoldable pub encode : Bytes → Bytes
encode [] = []
encode (b0 ∷ []) = digit (sextet0 b0) ∷ digit (sextet1 b0 0) ∷ b'=' ∷ b'=' ∷ []
encode (b0 ∷ b1 ∷ []) =
    digit (sextet0 b0) ∷ digit (sextet1 b0 b1) ∷ digit (sextet2 b1 0) ∷ b'=' ∷ []
encode (b0 ∷ b1 ∷ b2 ∷ rest) =
    digit (sextet0 b0)
    ∷ digit (sextet1 b0 b1)
    ∷ digit (sextet2 b1 b2)
    ∷ digit (sextet3 b2)
    ∷ encode rest

unfoldable pub val : ℕ → Option ℕ
val b =
    if leb b'A' b && leb b b'Z'
    then some (b - b'A')
    else if leb b'a' b && leb b b'z'
    then some (b - b'a' + 26)
    else if leb b'0' b && leb b b'9'
    then some (b - b'0' + 52)
    else if b == b'+'
    then some 62
    else if b == b'/'
    then some 63
    else none

unfoldable pub is_space : ℕ → Bool
is_space b = b == b' ' || b == 0x09 || b == 0x0d || b == 0x0a

-- The loop over the text: white space is skipped, the first `=` ends it, and any other byte that is no
-- digit fails the whole.
unfoldable pub sextets : Bytes → Option (List ℕ)
unfolding val is_space
sextets [] = some []
sextets (b ∷ rest) =
    let others = sextets rest in
    if is_space b
    then others
    else if b == b'='
    then some []
    else Option.bind (val b) (λ v. Option.map (λ vs. v ∷ vs) others)

-- The chunks of four, and the incomplete ones.
unfoldable pub groups : List ℕ → Option Bytes
groups [] = some []
groups (c0 ∷ []) = none
groups (c0 ∷ c1 ∷ []) = some (bit_or (c0 * 2 ^ 2 % 256) (c1 / 2 ^ 4) ∷ [])
groups (c0 ∷ c1 ∷ c2 ∷ []) =
    some (bit_or (c0 * 2 ^ 2 % 256) (c1 / 2 ^ 4) ∷ bit_or (c1 * 2 ^ 4 % 256) (c2 / 2 ^ 2) ∷ [])
groups (c0 ∷ c1 ∷ c2 ∷ c3 ∷ rest) =
    Option.map
      (λ out.
        bit_or (c0 * 2 ^ 2 % 256) (c1 / 2 ^ 4)
        ∷ bit_or (c1 * 2 ^ 4 % 256) (c2 / 2 ^ 2)
        ∷ bit_or (c2 * 2 ^ 6 % 256) c3
        ∷ out)
      (groups rest)

unfoldable pub decode : Bytes → Option Bytes
unfolding sextets groups
decode s = Option.bind (sextets s) groups
