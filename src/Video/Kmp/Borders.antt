-- ===== src/Video/Kmp/Borders.antt =====
-- The borders of the prefixes of a delimiter: what its first k bytes both begin and end with.
use robocol.Prelude.{
  ℕ, suc, ◌≤◌, ◌<◌, ◌≡◌, sym, ap, ◌∙◌, [], ◌∷◌, ◌++◌, append_assoc, some, length, get_elem?, take,
  length-append, length-take, arith,
}
use robocol.Wire.{Bytes}
use robocol.Video.Kmp.Prefixes.{append-split, take-suc, snoc-cancel}

-- The first k bytes of d end with its first j bytes.
abbrev pub Border : Bytes → ℕ → ℕ → Type 0
Border d j k = (u : Bytes) × (take k d ≡ u ++ take j d)

-- j is the longest proper border of the first k bytes.
pub record Longest (d : Bytes) (j k : ℕ) : Type 0 where
  pub shorter : j < k
  pub border : Border d j k
  pub longest : (i : ℕ) → i < k → Border d i k → i ≤ j

module _ (d : Bytes) where
  pub length-take_le : (k : ℕ) → k ≤ length d → length (take k d) ≡ k
  length-take_le k h = omega (arith, length-take k d)

  pub Border-trans : (i j k : ℕ) → Border d i j → Border d j k → Border d i k
  Border-trans i j k (u, e) (v, f) = (v ++ u, f ∙ ap (λ z. v ++ z) e ∙ sym (append_assoc v u _))

  -- Of two borders the shorter one is a border of the longer one.
  pub Border-nested :
      (i j k : ℕ) → i ≤ j → j ≤ length d → Border d i k → Border d j k → Border d i j
  Border-nested i j k le h (u, e) (v, f) =
      let both_ways : v ++ take j d ≡ u ++ take i d = sym f ∙ e in
      let li = length-take_le i (omega arith) in
      let lj = length-take_le j h in
      let l = sym (length-append v (take j d)) ∙ ap length both_ways ∙ length-append u (take i d) in
      let le' : length v ≤ length u = omega (arith, li, lj, l) in
      let (w, _, tails) = append-split v (take j d) u (take i d) both_ways le' in (w, tails)

  pub Border-grow :
      (j k : ℕ) (x : ℕ)
      → get_elem? d j ≡ some x
      → get_elem? d k ≡ some x
      → Border d j k
      → Border d (suc j) (suc k)
  Border-grow j k x dj dk (u, e) = (
    u,
    take-suc d k x dk
        ∙ ap (λ z. z ++ x ∷ []) e
        ∙ append_assoc u (take j d) (x ∷ [])
        ∙ ap (λ z. u ++ z) (sym (take-suc d j x dj)),
  )

  pub Border-shrink :
      (j k x y : ℕ)
      → get_elem? d j ≡ some x
      → get_elem? d k ≡ some y
      → Border d (suc j) (suc k)
      → Border d j k × (x ≡ y)
  Border-shrink j k x y dj dk (u, e) =
      let snocs : take k d ++ y ∷ [] ≡ (u ++ take j d) ++ x ∷ [] =
        sym (take-suc d k y dk)
        ∙ e
        ∙ ap (λ z. u ++ z) (take-suc d j x dj)
        ∙ sym (append_assoc u (take j d) (x ∷ [])) in
      let (e1, e2) = snoc-cancel (take k d) (u ++ take j d) y x snocs in ((u, e1), sym e2)
