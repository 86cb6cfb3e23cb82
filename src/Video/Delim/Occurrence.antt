-- ===== src/Video/Delim/Occurrence.antt =====
-- Where the delimiter may start, given what `read_until_delim` has matched.
use robocol.Prelude.{
  take-get-drop, ℕ, suc, ◌+◌, ◌-◌, ◌≤◌, ◌<◌, ◌≡◌, ◌≢◌, refl, sym, ap, ◌∙◌, inl, inr, [], ◌∷◌, ◌++◌,
  append-nil, append_assoc, some, ltb, Bool-cases, length, get_elem?, take, drop, length-append,
  take-append-drop, arith, tests, ltb_false→le,
}
use robocol.Wire.{Bytes}
use robocol.Video.Kmp.Prefixes.{append-split, append-cancel, take-append}
use robocol.Video.Kmp.Borders.{Border, Longest, length-take_le}

-- No occurrence of d in c starts before n.
abbrev pub NotBefore : Bytes → ℕ → Bytes → Type 0
NotBefore d n c = (p q : Bytes) → c ≡ p ++ (d ++ q) → n ≤ length p

module _ (d : Bytes) where
  -- A byte that does not go on with the match: the delimiter does not start where the match does.
  pub mismatch-start :
      (out left p q : Bytes) (m byte x : ℕ)
      → get_elem? d m ≡ some x
      → byte ≢ x
      → out ++ (take m d ++ byte ∷ left) ≡ p ++ (d ++ q)
      → length out ≢ length p
  mismatch-start out left p q m byte x dm ne e same =
      let (_, e1) = append-cancel out (take m d ++ byte ∷ left) p (d ++ q) e same in
      let parts = take-get-drop d m x dm in
      let e2 : take m d ++ byte ∷ left ≡ take m d ++ (x ∷ drop (suc m) d ++ q) =
        e1 ∙ ap (λ z. z ++ q) parts ∙ append_assoc (take m d) (x ∷ drop (suc m) d) q in
      let (_, e3) =
        append-cancel (take m d) (byte ∷ left) (take m d) (x ∷ drop (suc m) d ++ q) e2 refl in
      let e4 : byte ≡ x = cc in ne e4

  -- A prefix of the delimiter, seen from a list that starts with both.
  prefix-take : (v w q : Bytes) → d ++ q ≡ v ++ w → length v ≤ length d → v ≡ take (length v) d
  prefix-take v w q e le =
      let (u, e1, _) = append-split v w d q (sym e) le in
      sym (ap (take (length v)) e1 ∙ take-append v u)

  -- What is left of a match when it falls back to its border: the bytes that are known not to be in it.
  take-border : (m f : ℕ) → m ≤ length d → Longest d f m → take m d ≡ take (m - f) d ++ take f d
  take-border m f le l =
      let (u, e) = l.border in
      let lm = length-take_le d m le in
      let lf = length-take_le d f (omega (arith, l.shorter)) in
      let len : length u ≡ m - f = omega (arith, lm, lf, ap length e, length-append u (take f d)) in
      let whole : d ++ [] ≡ u ++ (take f d ++ drop m d) =
        append-nil d
        ∙ sym (take-append-drop m d)
        ∙ ap (λ z. z ++ drop m d) e
        ∙ append_assoc u (take f d) (drop m d) in
      let at_u = prefix-take u (take f d ++ drop m d) [] whole (omega (arith, len)) in
      e ∙ ap (λ z. z ++ take f d) (at_u ∙ ap (λ k. take k d) len)

  -- No occurrence starts at a place that the fallback passes by.
  pub NotBefore-fallback :
      (out left c : Bytes) (m f byte x : ℕ)
      → m < length d
      → Longest d f m
      → get_elem? d m ≡ some x
      → byte ≢ x
      → c ≡ out ++ (take m d ++ byte ∷ left)
      → NotBefore d (length out) c
      → NotBefore d (length out + (m - f)) c
  NotBefore-fallback out left c m f byte x inside l dm ne layout none_before p q at_p =
      let e : out ++ (take m d ++ byte ∷ left) ≡ p ++ (d ++ q) = sym layout ∙ at_p in
      let after = none_before p q at_p in
      let apart = mismatch-start out left p q m byte x dm ne e in
      let (u, e1, e2) = append-split out (take m d ++ byte ∷ left) p (d ++ q) e after in
      let lp : length p ≡ length out + length u = ap length e1 ∙ length-append out u in
      let lm = length-take_le d m (omega arith) in
      elim (Bool-cases (ltb (length u) m)) [
        | inl near ↦
            let le : length u ≤ length (take m d) = omega (tests, near, lm) in
            let (v, e3, e4) = append-split u (d ++ q) (take m d) (byte ∷ left) (sym e2) le in
            let lv : m ≡ length u + length v = sym lm ∙ ap length e3 ∙ length-append u v in
            let at_v = prefix-take v (byte ∷ left) q e4 (omega (arith, lv)) in
            let short : length v < m = omega (arith, lv, lp, apart) in
            let border : Border d (length v) m = (u, e3 ∙ ap (λ z. u ++ z) at_v) in
            let le_f = l.longest (length v) short border in omega (arith, le_f, lv, lp)
        | inr far ↦ omega (arith, lp, ltb_false→le (length u) m far)
      ]

  pub fallback-layout :
      (out left c : Bytes) (m f byte : ℕ)
      → m ≤ length d
      → Longest d f m
      → c ≡ out ++ (take m d ++ byte ∷ left)
      → c ≡ (out ++ take (m - f) d) ++ (take f d ++ byte ∷ left)
  fallback-layout out left c m f byte le l layout =
      let before = take (m - f) d in
      layout
      ∙ ap (λ z. out ++ (z ++ byte ∷ left)) (take-border m f le l)
      ∙ ap (λ z. out ++ z) (append_assoc before (take f d) (byte ∷ left))
      ∙ sym (append_assoc out before (take f d ++ byte ∷ left))
