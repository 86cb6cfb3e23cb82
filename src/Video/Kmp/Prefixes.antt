-- ===== src/Video/Kmp/Prefixes.antt =====
-- Lists cut at the front and at the back.
use robocol.Prelude.{
  ℕ, zero, suc, ◌≤◌, ◌<◌, ◌≡◌, refl, ap, List, [], ◌∷◌, ◌++◌, some, length, get_elem?, take,
  length-append, arith,
}

module _ {ℓ} {A : Type ℓ} where
  -- Two ways to cut one list: the later cut is the earlier one and something more.
  pub append-split :
      (ps bs cs es : List A)
      → ps ++ bs ≡ cs ++ es
      → length ps ≤ length cs
      → (u : List A) × (cs ≡ ps ++ u) × (bs ≡ u ++ es)
  append-split [] bs cs es e h = (cs, refl, e)
  append-split (p ∷ ps) bs [] es e h = absurd (omega arith)
  append-split (p ∷ ps) bs (c ∷ cs) es e h =
      let le : length ps ≤ length cs = omega arith in
      let tails : ps ++ bs ≡ cs ++ es = cc in
      let (u, e1, e2) = append-split ps bs cs es tails le in (u, cc, e2)

  length-zero : (xs : List A) → length xs ≡ 0 → xs ≡ []
  length-zero [] e = refl
  length-zero (x ∷ xs) e = absurd (omega arith)

  -- Cuts at one place.
  pub append-cancel :
      (ps bs cs es : List A) → ps ++ bs ≡ cs ++ es → length ps ≡ length cs → (ps ≡ cs) × (bs ≡ es)
  append-cancel [] bs [] es e h = (refl, e)
  append-cancel [] bs (c ∷ cs) es e h = absurd (omega arith)
  append-cancel (p ∷ ps) bs [] es e h = absurd (omega arith)
  append-cancel (p ∷ ps) bs (c ∷ cs) es e h =
      let same : length ps ≡ length cs = omega arith in
      let tails : ps ++ bs ≡ cs ++ es = cc in
      let (e1, e2) = append-cancel ps bs cs es tails same in (cc, e2)

  pub take-suc :
      (xs : List A) (k : ℕ) (x : A)
      → get_elem? xs k ≡ some x
      → take (suc k) xs ≡ take k xs ++ x ∷ []
  take-suc [] k x e = absurd cc
  take-suc (y ∷ xs) zero x e = cc
  take-suc (y ∷ xs) (suc k) x e = rw (take-suc xs k x e)

  pub get_elem?-some : (xs : List A) (k : ℕ) → k < length xs → (x : A) × (get_elem? xs k ≡ some x)
  get_elem?-some [] k h = absurd (omega arith)
  get_elem?-some (x ∷ xs) zero h = (x, refl)
  get_elem?-some (x ∷ xs) (suc k) h = get_elem?-some xs k (omega arith)

  pub take_all : (xs : List A) → take (length xs) xs ≡ xs
  take_all [] = refl
  take_all (x ∷ xs) = ap (λ zs. x ∷ zs) (take_all xs)

  pub take-append : (xs ys : List A) → take (length xs) (xs ++ ys) ≡ xs
  take-append [] ys = refl
  take-append (x ∷ xs) ys = ap (λ zs. x ∷ zs) (take-append xs ys)

  pub snoc-cancel : (xs ys : List A) (x y : A) → xs ++ x ∷ [] ≡ ys ++ y ∷ [] → (xs ≡ ys) × (x ≡ y)
  snoc-cancel xs ys x y e =
      let h = length-append xs (x ∷ []) in
      let h' = length-append ys (y ∷ []) in
      let l = ap length e in
      let same : length xs ≡ length ys = omega (arith, h, h', l) in
      let (e1, e2) = append-cancel xs (x ∷ []) ys (y ∷ []) e same in (e1, cc)
