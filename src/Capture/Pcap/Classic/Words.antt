-- ===== src/Capture/Pcap/Classic/Words.antt =====
-- 32-bit words in either byte order, and how a capture file is read over them.
use robocol.Prelude.{
  ℕ, suc, ◌+◌, ◌<◌, ◌^◌, ◌≡◌, refl, ap, ◌∙◌, [], ◌∷◌, ◌++◌, ok, length, take, drop, arith,
}
use robocol.Wire.{Bytes, to_be_bytes, from_be_bytes-to_be_bytes}
use robocol.Capture.Pcap.{Endian, get_u32, get_header}

abbrev turned : Bytes → Bytes → Bytes
turned (a ∷ b ∷ c ∷ d ∷ []) rest = d ∷ c ∷ b ∷ a ∷ rest
turned bs rest = rest

-- A 32-bit word in front of `rest`.
abbrev pub word : Endian → ℕ → Bytes → Bytes
word Endian.big v rest = to_be_bytes 4 v ++ rest
word Endian.little v rest = turned (to_be_bytes 4 v) rest

abbrev pub words : Endian → ℕ → ℕ → ℕ → ℕ → Bytes → Bytes
words e a b c d rest = word e a (word e b (word e c (word e d rest)))

pub get_u32-word :
    (e : Endian) (v : ℕ) (rest : Bytes) → v < 2 ^ 32 → get_u32 e (word e v rest) ≡ ok v
unfolding get_u32
get_u32-word Endian.big v rest h = ap ok (from_be_bytes-to_be_bytes 4 v h)
get_u32-word Endian.little v rest h = ap ok (from_be_bytes-to_be_bytes 4 v h)

pub drop-word :
    (e : Endian) (v n : ℕ) (rest : Bytes)
    → drop (suc (suc (suc (suc n)))) (word e v rest) ≡ drop n rest
drop-word Endian.big v n rest = refl
drop-word Endian.little v n rest = refl

pub take-word :
    (e : Endian) (v n : ℕ) (rest : Bytes)
    → take (suc (suc (suc (suc n)))) (word e v rest) ≡ word e v (take n rest)
take-word Endian.big v n rest = refl
take-word Endian.little v n rest = refl

pub length-word : (e : Endian) (v : ℕ) (rest : Bytes) → length (word e v rest) ≡ 4 + length rest
length-word Endian.big v rest = omega arith
length-word Endian.little v rest = omega arith

module _ (e : Endian) (a b c x : ℕ) (rest : Bytes) where
  pub length-words : length (words e a b c x rest) ≡ 16 + length rest
  length-words = omega (
    arith,
    length-word e a (word e b (word e c (word e x rest))),
    length-word e b (word e c (word e x rest)),
    length-word e c (word e x rest),
    length-word e x rest,
  )

  pub drop-words : drop 16 (words e a b c x rest) ≡ rest
  drop-words =
      drop-word e a 12 (word e b (word e c (word e x rest)))
      ∙ drop-word e b 8 (word e c (word e x rest))
      ∙ drop-word e c 4 (word e x rest)
      ∙ drop-word e x 0 rest

  pub take-words : (j : ℕ) → take (16 + j) (words e a b c x rest) ≡ words e a b c x (take j rest)
  take-words j =
      let j4 = suc (suc (suc (suc j))) in
      let j8 = suc (suc (suc (suc j4))) in
      let j12 = suc (suc (suc (suc j8))) in
      let unary : 16 + j ≡ suc (suc (suc (suc j12))) = omega arith in
      ap (λ k. take k (words e a b c x rest)) unary
      ∙ take-word e a j12 (word e b (word e c (word e x rest)))
      ∙ ap (word e a) (
          take-word e b j8 (word e c (word e x rest))
          ∙ ap (word e b) (take-word e c j4 (word e x rest) ∙ ap (word e c) (take-word e x j rest)))

  pub get_header-words :
      a < 2 ^ 32
      → b < 2 ^ 32
      → c < 2 ^ 32
      → get_header e (words e a b c x rest) ≡ ok (record { sec = a; frac = b; incl_len = c })
  unfolding get_header
  get_header-words ha hb hc =
      let second : drop 4 (words e a b c x rest) ≡ word e b (word e c (word e x rest)) =
        drop-word e a 0 (word e b (word e c (word e x rest))) in
      let third : drop 8 (words e a b c x rest) ≡ word e c (word e x rest) =
        drop-word e a 4 (word e b (word e c (word e x rest)))
        ∙ drop-word e b 0 (word e c (word e x rest)) in
      rw
        (
          get_u32-word e a (word e b (word e c (word e x rest))) ha,
          second,
          get_u32-word e b (word e c (word e x rest)) hb,
          third,
          get_u32-word e c (word e x rest) hc,
        )
        refl
