-- ===== src/Client/Assembly/Patch.antt =====
-- Reading what `patch`, `take`, `drop` and `set` leave, position by position.
use robocol.Prelude.{
  ℕ, zero, suc, ◌+◌, ◌-◌, ◌≤◌, ◌<◌, ◌≡◌, refl, ap, ap₂, ◌∙◌, ◌≢◌, ◌⊎◌, List, [], ◌∷◌, ok, map_ok,
  arith, length, set, get_or, take, drop, replicate,
}
use robocol.Wire.{Bytes, write_at, overwrite}
use robocol.Client.Frames.{patch}

pub length-patch : (xs : Bytes) (off : ℕ) (bs : Bytes) → length (patch xs off bs) ≡ length xs
unfolding patch
length-patch [] off bs = refl
length-patch (x ∷ xs) (suc off) bs = ap suc (length-patch xs off bs)
length-patch (x ∷ xs) zero [] = refl
length-patch (x ∷ xs) zero (b ∷ bs) = ap suc (length-patch xs zero bs)

pub get_or-patch_in :
    (xs : Bytes) (off : ℕ) (bs : Bytes) (p : ℕ)
    → off ≤ p
    → p < off + length bs
    → p < length xs
    → get_or (patch xs off bs) p 0 ≡ get_or bs (p - off) 0
unfolding patch
get_or-patch_in [] off bs p h lt k = absurd (omega arith)
get_or-patch_in (x ∷ xs) (suc off) bs zero h lt k = absurd (omega arith)
get_or-patch_in (x ∷ xs) (suc off) bs (suc p) h lt k =
    get_or-patch_in xs off bs p (omega arith) (omega arith) (omega arith)
    ∙ ap (λ (t : ℕ). get_or bs t 0) (omega arith)
get_or-patch_in (x ∷ xs) zero [] p h lt k = absurd (omega arith)
get_or-patch_in (x ∷ xs) zero (b ∷ bs) zero h lt k = refl
get_or-patch_in (x ∷ xs) zero (b ∷ bs) (suc p) h lt k =
    get_or-patch_in xs zero bs p (omega arith) (omega arith) (omega arith)
    ∙ ap (λ (t : ℕ). get_or bs t 0) (omega arith)
    ∙ ap (λ (t : ℕ). get_or (b ∷ bs) t 0) {x = suc p} (omega arith)

pub get_or-patch_out :
    (xs : Bytes) (off : ℕ) (bs : Bytes) (p : ℕ)
    → (p < off) ⊎ (off + length bs ≤ p)
    → get_or (patch xs off bs) p 0 ≡ get_or xs p 0
unfolding patch
get_or-patch_out [] off bs p h = refl
get_or-patch_out (x ∷ xs) (suc off) bs zero h = refl
get_or-patch_out (x ∷ xs) (suc off) bs (suc p) h = get_or-patch_out xs off bs p (omega arith)
get_or-patch_out (x ∷ xs) zero [] p h = refl
get_or-patch_out (x ∷ xs) zero (b ∷ bs) zero h = absurd (omega arith)
get_or-patch_out (x ∷ xs) zero (b ∷ bs) (suc p) h = get_or-patch_out xs zero bs p (omega arith)

-- Where the range is inside the buffer, `patch` is the write that the source makes, and that does not panic.
pub patch-write_at :
    (xs : Bytes) (off : ℕ) (bs : Bytes)
    → off + length bs ≤ length xs
    → write_at xs off bs ≡ ok (patch xs off bs)
unfolding patch write_at
patch-write_at [] zero [] h = refl
patch-write_at [] zero (b ∷ bs) h = absurd (omega arith)
patch-write_at [] (suc off) bs h = absurd (omega arith)
patch-write_at (x ∷ xs) (suc off) bs h =
    ap (map_ok (λ zs. x ∷ zs)) (patch-write_at xs off bs (omega arith))
patch-write_at (x ∷ xs) zero [] h = refl
patch-write_at (x ∷ xs) zero (b ∷ bs) h =
    ap (map_ok (λ zs. b ∷ zs)) (zero_lem xs bs ∙ patch-write_at xs zero bs (omega arith))
  where
    zero_lem : (ys cs : Bytes) → overwrite cs ys ≡ write_at ys zero cs
    zero_lem ys cs = refl

pub get_or_beyond : (xs : Bytes) (p : ℕ) → length xs ≤ p → get_or xs p 0 ≡ 0
get_or_beyond [] p h = refl
get_or_beyond (x ∷ xs) zero h = absurd (omega arith)
get_or_beyond (x ∷ xs) (suc p) h = get_or_beyond xs p (omega arith)

pub get_or-take : (n : ℕ) (xs : Bytes) (p : ℕ) → p < n → get_or (take n xs) p 0 ≡ get_or xs p 0
get_or-take zero xs p h = absurd (omega arith)
get_or-take (suc n) [] p h = refl
get_or-take (suc n) (x ∷ xs) zero h = refl
get_or-take (suc n) (x ∷ xs) (suc p) h = get_or-take n xs p (omega arith)

pub get_or-drop :
    (n : ℕ) (xs : Bytes) (p q : ℕ) → q ≡ n + p → get_or (drop n xs) p 0 ≡ get_or xs q 0
get_or-drop zero xs p q h = ap (λ (t : ℕ). get_or xs t 0) (omega arith)
get_or-drop (suc n) [] p q h = refl
get_or-drop (suc n) (x ∷ xs) p zero h = absurd (omega arith)
get_or-drop (suc n) (x ∷ xs) p (suc q) h = get_or-drop n xs p q (omega arith)

module _ {ℓ} {A : Type ℓ} where
  pub get_or-set_self :
      (xs : List A) (i : ℕ) (v d : A) → i < length xs → get_or (set xs i v) i d ≡ v
  get_or-set_self [] i v d h = absurd (omega arith)
  get_or-set_self (x ∷ xs) zero v d h = refl
  get_or-set_self (x ∷ xs) (suc i) v d h = get_or-set_self xs i v d (omega arith)

  pub get_or-set_ne :
      (xs : List A) (i j : ℕ) (v d : A) → i ≢ j → get_or (set xs i v) j d ≡ get_or xs j d
  get_or-set_ne [] i j v d h = refl
  get_or-set_ne (x ∷ xs) zero zero v d h = absurd (h refl)
  get_or-set_ne (x ∷ xs) zero (suc j) v d h = refl
  get_or-set_ne (x ∷ xs) (suc i) zero v d h = refl
  get_or-set_ne (x ∷ xs) (suc i) (suc j) v d h = get_or-set_ne xs i j v d (λ e. h (ap suc e))

  pub get_or-replicate : (n i : ℕ) (a : A) → get_or (replicate n a) i a ≡ a
  get_or-replicate zero i a = refl
  get_or-replicate (suc n) zero a = refl
  get_or-replicate (suc n) (suc i) a = get_or-replicate n i a

pub list_ext :
    (xs ys : Bytes) → length xs ≡ length ys → ((p : ℕ) → get_or xs p 0 ≡ get_or ys p 0) → xs ≡ ys
list_ext [] [] e h = refl
list_ext [] (y ∷ ys) e h = absurd (omega arith)
list_ext (x ∷ xs) [] e h = absurd (omega arith)
list_ext (x ∷ xs) (y ∷ ys) e h = ap₂ ◌∷◌ (h 0) (list_ext xs ys (omega arith) (λ p. h (suc p)))
