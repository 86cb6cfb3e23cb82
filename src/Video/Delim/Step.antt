-- ===== src/Video/Delim/Step.antt =====
-- One byte of `read_until_delim`: what is put out, and what is matched after it.
use robocol.Prelude.{
  ℕ, zero, suc, ◌+◌, ◌-◌, ◌<◌, ◌≡◌, ◌≢◌, sym, ap, ◌∙◌, inl, inr, false, List, [], ◌∷◌, ◌++◌,
  append_assoc, some, ◌==◌, ==_iff, Bool-cases, length, get_elem?, take, length-append, arith,
  if◌then◌else◌,
}
use robocol.Wire.{Bytes}
use robocol.Video.Kmp.Prefixes.{take-suc, take_all, get_elem?-some}
use robocol.Video.Kmp.Borders.{length-take_le}
use robocol.Video.Kmp.Table.{Table}
use robocol.Video.Delim.{Feed, feed}
use robocol.Video.Delim.Occurrence.{NotBefore, mismatch-start, NotBefore-fallback, fallback-layout}

-- What one byte comes to, where c is all that was to be read and `left` is what follows the byte.
pub data Fed (d c left : Bytes) (matched : ℕ) (out : Bytes) : Feed → Type 0 where
  advanced :
      (matched' : ℕ) (out' : Bytes)
      → matched' < length d
      → c ≡ out' ++ (take matched' d ++ left)
      → NotBefore d (length out') c
      → Fed d c left matched out (Feed.advance matched' out')
  completed :
      suc matched ≡ length d → c ≡ out ++ (d ++ left) → Fed d c left matched out (Feed.complete out)

module _ (d : Bytes) where
  take-byte :
      (m byte : ℕ) (left : Bytes)
      → get_elem? d m ≡ some byte
      → take m d ++ byte ∷ left ≡ take (suc m) d ++ left
  take-byte m byte left dm =
      sym (append_assoc (take m d) (byte ∷ []) left)
      ∙ ap (λ z. z ++ left) (sym (take-suc d m byte dm))

  -- A byte that goes on with the match.
  hit-Fed :
      (m byte : ℕ) (out left c : Bytes)
      → m < length d
      → get_elem? d m ≡ some byte
      → c ≡ out ++ (take m d ++ byte ∷ left)
      → NotBefore d (length out) c
      → Fed d c left m out
          (if m + 1 == length d then Feed.complete out else Feed.advance (m + 1) out)
  hit-Fed m byte out left c inside dm layout none_before =
      let longer : c ≡ out ++ (take (suc m) d ++ left) =
        layout ∙ ap (λ z. out ++ z) (take-byte m byte left dm) in
      let plus_one : m + 1 ≡ suc m = omega arith in
      elim (Bool-cases (m + 1 == length d)) [
        | inl whole ↦
            let eq : suc m ≡ length d = omega (arith, (==_iff (m + 1) (length d)).0 whole) in
            rw whole (
              completed eq (
                longer
                ∙ ap (λ k. out ++ (take k d ++ left)) eq
                ∙ ap (λ z. out ++ (z ++ left)) (take_all d)))
        | inr more ↦
            let ne : m + 1 ≢ length d = λ e. ground (arith, e, more) in
            rw (more, plus_one)
              (advanced (suc m) out (omega (arith, ne, inside)) longer none_before)
      ]

  -- A byte that starts no match: it goes to the output.
  miss-Fed :
      (byte x : ℕ) (out left c : Bytes)
      → 0 < length d
      → get_elem? d 0 ≡ some x
      → byte ≢ x
      → c ≡ out ++ byte ∷ left
      → NotBefore d (length out) c
      → Fed d c left 0 out (Feed.advance 0 (out ++ byte ∷ []))
  miss-Fed byte x out left c pos dm ne layout none_before =
      advanced 0 (out ++ byte ∷ []) pos (layout ∙ sym (append_assoc out (byte ∷ []) left))
        (λ p q at_p.
          let apart = mismatch-start d out left p q 0 byte x dm ne (sym layout ∙ at_p) in
          omega (arith, none_before p q at_p, apart, length-append out (byte ∷ [])))

  -- What a byte comes to after a fallback is what it comes to before.
  Fed-fallback :
      (c left out out' : Bytes) (f m : ℕ) (result : Feed)
      → f < m
      → m < length d
      → Fed d c left f out' result
      → Fed d c left m out result
  Fed-fallback c left out out' f m (Feed.advance m' out'') lt inside (advanced k o h1 h2 h3) =
      advanced k o h1 h2 h3
  Fed-fallback c left out out' f m (Feed.complete o) lt inside (completed e h) =
      absurd (omega (arith, e))
  Fed-fallback c left out out' f m Feed.broke lt inside x = elim x [ ]

  module _ (failure : List ℕ) (t : Table d failure) where
    pub feed-Fed :
        (fuel m : ℕ) (out left c : Bytes) (byte : ℕ)
        → m < fuel
        → m < length d
        → c ≡ out ++ (take m d ++ byte ∷ left)
        → NotBefore d (length out) c
        → Fed d c left m out (feed fuel failure d byte m out)
    unfolding feed
    feed-Fed zero m out left c byte enough inside layout none_before = absurd (omega arith)
    feed-Fed (suc fuel) zero out left c byte enough inside layout none_before =
        let (x, dm) = get_elem?-some d 0 inside in
        elim (Bool-cases (byte == x)) [
          | inl same ↦
              let eq = (==_iff byte x).0 same in
              rw (feed, dm, same)
                (hit-Fed 0 byte out left c inside (dm ∙ ap some (sym eq)) layout none_before)
          | inr differ ↦
              let ne : byte ≢ x = λ e. ground (arith, e, differ) in
              rw (feed, dm, differ) (miss-Fed byte x out left c inside dm ne layout none_before)
        ]
    feed-Fed (suc fuel) (suc k) out left c byte enough inside layout none_before =
        let (x, dm) = get_elem?-some d (suc k) inside in
        let (f, at_k, l) = t.filled k (omega arith) in
        elim (Bool-cases (byte == x)) [
          | inl same ↦
              let eq = (==_iff byte x).0 same in
              rw (feed, dm, same)
                (hit-Fed (suc k) byte out left c inside (dm ∙ ap some (sym eq)) layout none_before)
          | inr differ ↦
              let ne : byte ≢ x = λ e. ground (arith, e, differ) in
              let not_zero : (suc k == 0) ≡ false = ground arith in
              let less_one : suc k - 1 ≡ k = omega arith in
              let out' = out ++ take (suc k - f) d in
              let len : length out' ≡ length out + (suc k - f) = omega (
                arith,
                length-append out (take (suc k - f) d),
                length-take_le d (suc k - f) (omega arith),
                l.shorter,
              ) in
              let layout' : c ≡ out' ++ (take f d ++ byte ∷ left) =
                fallback-layout d out left c (suc k) f byte (omega arith) l layout in
              let none_before' : NotBefore d (length out') c = λ p q at_p. omega (
                arith,
                len,
                NotBefore-fallback d out left c (suc k) f byte x inside l dm ne layout none_before p
                    q at_p,
              ) in
              rw (feed, dm, differ, not_zero, less_one, at_k)
                (Fed-fallback c left out out' f (suc k) (feed fuel failure d byte f out') l.shorter
                  inside
                  (feed-Fed fuel f out' left c byte (omega (arith, l.shorter))
                    (omega (arith, l.shorter)) layout' none_before'))
        ]
