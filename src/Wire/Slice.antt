-- ===== src/Wire/Slice.antt =====
-- Slices of a buffer: `buf.get(off..off + n)` and `buf[off..off + n].copy_from_slice(bs)`.
use robocol.Prelude.{
  ℕ, zero, suc, ◌+◌, ◌≡◌, refl, ap, List, [], ◌∷◌, ◌++◌, Option, none, some, Result, ok, panicked,
  map_ok, arith, length, replicate, length-replicate, ◌∙◌,
}
use mathlib.Core.Option

abbrev pub Bytes : Type 0
Bytes = List ℕ

-- The first `n` bytes, if there are so many.
unfoldable pub take_exact : ℕ → Bytes → Option Bytes
take_exact zero xs = some []
take_exact (suc n) [] = none
take_exact (suc n) (x ∷ xs) = Option.map (λ ys. x ∷ ys) (take_exact n xs)

-- `buf.get(off..off + n)`.
unfoldable pub get_range : Bytes → ℕ → ℕ → Option Bytes
unfolding take_exact
get_range buf zero n = take_exact n buf
get_range [] (suc off) n = none
get_range (x ∷ xs) (suc off) n = get_range xs off n

unfoldable pub overwrite : Bytes → Bytes → Result Bytes
overwrite [] ys = ok ys
overwrite (b ∷ bs) [] = panicked
overwrite (b ∷ bs) (y ∷ ys) = map_ok (λ zs. b ∷ zs) (overwrite bs ys)

-- `buf[off..off + bs.len()].copy_from_slice(bs)`, which panics where the range leaves the buffer.
unfoldable pub write_at : Bytes → ℕ → Bytes → Result Bytes
unfolding overwrite
write_at buf zero bs = overwrite bs buf
write_at [] (suc off) bs = panicked
write_at (x ∷ xs) (suc off) bs = map_ok (λ zs. x ∷ zs) (write_at xs off bs)

abbrev pub zeros : ℕ → Bytes
zeros n = replicate n 0

pub take_exact-append : (mid post : Bytes) → take_exact (length mid) (mid ++ post) ≡ some mid
unfolding take_exact
take_exact-append [] post = refl
take_exact-append (x ∷ xs) post = ap (Option.map (λ ys. x ∷ ys)) (take_exact-append xs post)

-- A slice that stands between two known parts.
pub get_range-append :
    (pre mid post : Bytes) → get_range (pre ++ (mid ++ post)) (length pre) (length mid) ≡ some mid
unfolding get_range
get_range-append [] mid post = take_exact-append mid post
get_range-append (x ∷ pre) mid post = get_range-append pre mid post

-- A slice of the front does not see what is appended.
pub overwrite-append :
    (bs old post : Bytes) → length old ≡ length bs → overwrite bs (old ++ post) ≡ ok (bs ++ post)
unfolding overwrite
overwrite-append [] [] post h = refl
overwrite-append [] (y ∷ ys) post h = absurd (omega arith)
overwrite-append (b ∷ bs) [] post h = absurd (omega arith)
overwrite-append (b ∷ bs) (y ∷ ys) post h =
    ap (map_ok (λ zs. b ∷ zs)) (overwrite-append bs ys post (omega arith))

pub write_at-append :
    (pre bs old post : Bytes)
    → length old ≡ length bs
    → write_at (pre ++ (old ++ post)) (length pre) bs ≡ ok (pre ++ (bs ++ post))
unfolding write_at
write_at-append [] bs old post h = overwrite-append bs old post h
write_at-append (x ∷ pre) bs old post h =
    ap (map_ok (λ zs. x ∷ zs)) (write_at-append pre bs old post h)

pub replicate-add {ℓ} :
    {A : Type ℓ} (m n : ℕ) (a : A) → replicate (m + n) a ≡ replicate m a ++ replicate n a
replicate-add zero n a = ap (λ k. replicate k a) (omega arith)
replicate-add (suc m) n a =
    ap (λ k. replicate k a) suc-add ∙ ap (λ xs. a ∷ xs) (replicate-add m n a)
  where
    suc-add : suc m + n ≡ suc (m + n)
    suc-add = omega arith

-- A string over just as many bytes, and the bytes that it was read from.
pub overwrite-zeros : (bs : Bytes) → overwrite bs (zeros (length bs)) ≡ ok bs
unfolding overwrite
overwrite-zeros [] = refl
overwrite-zeros (b ∷ bs) = ap (map_ok (λ zs. b ∷ zs)) (overwrite-zeros bs)

pub overwrite-zeros-append :
    (bs post : Bytes) → overwrite bs (zeros (length bs) ++ post) ≡ ok (bs ++ post)
overwrite-zeros-append bs post =
    overwrite-append bs (zeros (length bs)) post (length-replicate (length bs) 0)

pub take_exact_self : (bs : Bytes) → take_exact (length bs) bs ≡ some bs
unfolding take_exact
take_exact_self [] = refl
take_exact_self (x ∷ xs) = ap (Option.map (λ ys. x ∷ ys)) (take_exact_self xs)
