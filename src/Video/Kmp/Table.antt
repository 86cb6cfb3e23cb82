-- ===== src/Video/Kmp/Table.antt =====
-- The table of `kmp_failure`, entry by entry.
use robocol.Prelude.{
  ℕ, zero, suc, ◌+◌, ◌-◌, ◌≤◌, ◌<◌, ◌≡◌, ◌≢◌, refl, sym, ap, subst, ◌∙◌, ◌⊎◌, inl, inr, List,
  append-nil, some, ◌==◌, ==_iff, Bool-cases, length, get_elem?, set, take, replicate, length-set,
  length-replicate, get_elem?-set_self, get_elem?-set_ne, arith,
}
use robocol.Wire.{Bytes}
use robocol.Video.Kmp.{fall_back, extend, next_border, failure_from, kmp_failure}
use robocol.Video.Kmp.Prefixes.{get_elem?-some}
use robocol.Video.Kmp.Borders.{
  Border, Longest, Border-trans, Border-nested, Border-grow, Border-shrink,
}

-- What the table holds for the first k + 1 bytes.
abbrev pub Entry : Bytes → List ℕ → ℕ → Type 0
Entry d failure k = (j : ℕ) × (get_elem? failure k ≡ some j) × Longest d j (suc k)

-- Where the inner loop stops: at a border of the first i bytes that no border with the right next byte exceeds.
record Fallen (d : Bytes) (i r : ℕ) : Type 0 where
  under : r < i
  border : Border d r i
  best : (j : ℕ) → j < i → Border d j i → get_elem? d j ≡ get_elem? d i → j ≤ r
  stuck : (r ≡ 0) ⊎ (get_elem? d r ≡ get_elem? d i)

abbrev Best : Bytes → ℕ → ℕ → Type 0
Best d i k = (j : ℕ) → j < i → Border d j i → get_elem? d j ≡ get_elem? d i → j ≤ k

module _ (d : Bytes) (i : ℕ) (inside : i < length d) where
  -- A mismatch at k leaves only the borders that the longest one of the first k bytes bounds.
  Best-fallback :
      (f k : ℕ)
      → k < i
      → Border d k i
      → Longest d f k
      → get_elem? d k ≢ get_elem? d i
      → Best d i k
      → Best d i f
  Best-fallback f k lt b l differ best j under bj next =
      let le = best j under bj next in
      let ne : j ≢ k = λ e. differ (ap (get_elem? d) (sym e) ∙ next) in
      let less : j < k = omega (arith, le, ne) in
      l.longest j less (Border-nested d j k i le (omega arith) bj b)

module _ (d : Bytes) (failure : List ℕ) (i : ℕ) (inside : i < length d)
    (filled : (n : ℕ) → n < i → Entry d failure n) where
  fall_back-Fallen :
      (fuel k : ℕ)
      → k < fuel
      → k < i
      → Border d k i
      → Best d i k
      → (r : ℕ) × (fall_back fuel d failure i k ≡ some r) × Fallen d i r
  unfolding fall_back
  fall_back-Fallen zero k enough lt b best = absurd (omega arith)
  fall_back-Fallen (suc fuel) zero enough lt b best =
      (0, refl, record { under = lt; border = b; best = best; stuck = inl refl })
  fall_back-Fallen (suc fuel) (suc k) enough lt b best =
      let (x, dx) = get_elem?-some d i inside in
      let in_k : suc k < length d = omega arith in
      let (y, dy) = get_elem?-some d (suc k) in_k in
      let less : k < i = omega arith in
      let (f, at_k, l) = filled k less in
      elim (Bool-cases (x == y)) [
        | inl same ↦
            let eq = (==_iff x y).0 same in
            rw (fall_back, dx, dy, same)
              (
                suc k,
                refl,
                record {
                  under = lt;
                  border = b;
                  best = best;
                  stuck = inr (dy ∙ ap some (sym eq) ∙ sym dx);
                },
              )
        | inr differ ↦
            let ne : get_elem? d (suc k) ≢ get_elem? d i = λ e. ground (arith, e, dx, dy, differ) in
            rw (fall_back, dx, dy, differ, at_k)
              (fall_back-Fallen fuel f (omega (arith, l.shorter)) (omega (arith, l.shorter))
                (Border-trans d f (suc k) i l.border b)
                (Best-fallback d i inside f (suc k) lt b l ne best))
      ]

module _ (d : Bytes) (i : ℕ) (inside : i < length d) where
  -- A border of the first i + 1 bytes that is not empty goes on from one of the first i bytes.
  Best-next :
      (r j : ℕ)
      → Fallen d i r
      → j < suc i
      → Border d j (suc i)
      → (j ≡ 0) ⊎ ((k : ℕ) × (j ≡ suc k) × (k ≤ r) × (get_elem? d k ≡ get_elem? d i))
  Best-next r zero f under b = inl refl
  Best-next r (suc k) f under b =
      let (x, dx) = get_elem?-some d i inside in
      let in_k : k < length d = omega arith in
      let (y, dy) = get_elem?-some d k in_k in
      let (b', e) = Border-shrink d k i y x dy dx b in
      let same = dy ∙ ap some e ∙ sym dx in inr (k, refl, f.best k (omega arith) b' same, same)

  Longest-grow : (r : ℕ) → Fallen d i r → get_elem? d r ≡ get_elem? d i → Longest d (suc r) (suc i)
  Longest-grow r f same =
      let (x, dx) = get_elem?-some d i inside in
      record {
        shorter = omega (arith, f.under);
        border = Border-grow d r i x (same ∙ dx) dx f.border;
        longest = λ j under b. elim (Best-next r j f under b) [
          | inl none_left ↦ omega arith
          | inr (k, e, le, next) ↦ omega (arith, e, le)
        ];
      }

  Longest-zero :
      (r : ℕ) → Fallen d i r → r ≡ 0 → get_elem? d r ≢ get_elem? d i → Longest d 0 (suc i)
  Longest-zero r f none_left differ = record {
    shorter = omega arith;
    border = (take (suc i) d, sym (append-nil _));
    longest = λ j under b. elim (Best-next r j f under b) [
      | inl e ↦ omega arith
      | inr (k, e, le, next) ↦
          let k_r : k ≡ r = omega (arith, le, none_left) in
          absurd (differ (ap (get_elem? d) (sym k_r) ∙ next))
    ];
  }

  next_border-Longest :
      (failure : List ℕ) (k : ℕ)
      → ((n : ℕ) → n < i → Entry d failure n)
      → Longest d k i
      → (j : ℕ) × (next_border d failure i k ≡ some j) × Longest d j (suc i)
  unfolding next_border extend
  next_border-Longest failure k filled l =
      let fall =
        fall_back-Fallen d failure i inside filled (suc k) k (omega arith) l.shorter l.border
          (λ j under b next. l.longest j under b) in
      let r = fall.0 in
      let f = fall.2 in
      let (x, dx) = get_elem?-some d i inside in
      let in_r : r < length d = omega (arith, f.under) in
      let (y, dy) = get_elem?-some d r in_r in
      elim (Bool-cases (x == y)) [
        | inl same ↦
            let eq = (==_iff x y).0 same in
            rw (next_border, fall.1, extend, dx, dy, same)
              (suc r, refl, Longest-grow r f (dy ∙ ap some (sym eq) ∙ sym dx))
        | inr differ ↦
            let ne : get_elem? d r ≢ get_elem? d i = λ e. ground (arith, e, dx, dy, differ) in
            rw (next_border, fall.1, extend, dx, dy, differ)
              (elim f.stuck [
                | inl none_left ↦ (
                  r,
                  refl,
                  subst (λ z. Longest d z (suc i)) (sym none_left) (Longest-zero r f none_left ne),
                )
                | inr same ↦ absurd (ne same)
              ])
      ]

-- Every entry of the table, as the search needs it.
pub record Table (d : Bytes) (failure : List ℕ) : Type 0 where
  pub filled : (n : ℕ) → n < length d → Entry d failure n

module _ (d : Bytes) where
  Entry-set :
      (failure : List ℕ) (i j : ℕ)
      → i < length failure
      → Longest d j (suc i)
      → ((n : ℕ) → n < i → Entry d failure n)
      → (n : ℕ) → n < suc i
      → Entry d (set failure i j) n
  Entry-set failure i j inside l filled n lt = elim (Bool-cases (n == i)) [
    | inl same ↦
        let n_i = (==_iff n i).0 same in rw n_i (j, get_elem?-set_self failure i j inside, l)
    | inr differ ↦
        let ne : i ≢ n = λ e. ground (arith, e, differ) in
        let less : n < i = omega (arith, ne) in
        let (k, at_n, l') = filled n less in (k, get_elem?-set_ne failure j ne ∙ at_n, l')
  ]

  failure_from-Table :
      (rounds : ℕ) (failure : List ℕ) (i k : ℕ)
      → rounds + i ≡ length d
      → length failure ≡ length d
      → ((n : ℕ) → n < i → Entry d failure n)
      → Longest d k i
      → (table : List ℕ) × (failure_from rounds d failure i k ≡ some table) × Table d table
  unfolding failure_from
  failure_from-Table zero failure i k whole len filled l =
      (failure, refl, record { filled = λ n lt. filled n (omega (arith, whole, lt)) })
  failure_from-Table (suc rounds) failure i k whole len filled l =
      let inside : i < length d = omega (arith, whole) in
      let (j, next, l') = next_border-Longest d i inside failure k filled l in
      rw (failure_from, next)
        (failure_from-Table rounds (set failure i j) (suc i) j (omega (arith, whole))
          (length-set failure i j ∙ len)
          (Entry-set failure i j (omega (arith, inside, len)) l' filled) l')

  Longest-one : Longest d 0 1
  Longest-one = record {
    shorter = omega arith;
    border = (take 1 d, sym (append-nil _));
    longest = λ j lt b. omega arith;
  }

  Entry-first : (n : ℕ) → 0 < length d → n < 1 → Entry d (replicate (length d) 0) n
  Entry-first zero pos lt = (0, head-replicate (length d) pos, Longest-one)
    where
      head-replicate : (k : ℕ) → 0 < k → get_elem? {A = ℕ} (replicate k 0) 0 ≡ some 0
      head-replicate zero lt = absurd (omega arith)
      head-replicate (suc k) lt = refl
  Entry-first (suc n) pos lt = absurd (omega arith)

  -- On a delimiter that is not empty the table is built without a panic, and each of its entries is the
  -- length of the longest proper border of the prefix that it stands for.
  pub kmp_failure-Table :
      0 < length d → (table : List ℕ) × (kmp_failure d ≡ some table) × Table d table
  unfolding kmp_failure
  kmp_failure-Table pos =
      failure_from-Table (length d - 1) (replicate (length d) 0) 1 0 (omega (arith, pos))
        (length-replicate (length d) 0) (λ n. Entry-first n pos) Longest-one
