-- ===== src/Prelude/Fallible.antt =====
-- The outcome of a fallible routine: `wire::Error` (robocol/src/wire.rs) as a value, and a third
-- outcome for a slice index out of bounds, at which the source panics.
use Prim.Native.Nat.{ℕ}
use mathlib.Core.Option.{Option, none, some}

pub data Error : Type 0 where
  truncated : Error
  unknown_packet_type : ℕ → Error
  bad_utf8 : Error

pub data Result {ℓ} (A : Type ℓ) : Type ℓ where
  ok : A → Result A
  err : Error → Result A
  panicked : Result A

infixl 5 ◌>>=◌
abbrev pub ◌>>=◌ {ℓ κ} : {A : Type ℓ} {B : Type κ} → Result A → (A → Result B) → Result B
ok a >>= f = f a
err e >>= f = err e
panicked >>= f = panicked

-- `Option::ok_or`, and an index that must be in bounds.
abbrev pub ok_or {ℓ} : {A : Type ℓ} → Option A → Error → Result A
ok_or none e = err e
ok_or (some a) e = ok a

abbrev pub map_ok {ℓ κ} : {A : Type ℓ} {B : Type κ} → (A → B) → Result A → Result B
map_ok f (ok a) = ok (f a)
map_ok f (err e) = err e
map_ok f panicked = panicked

-- `Result::or_else`.
abbrev pub or_else {ℓ} : {A : Type ℓ} → Result A → Result A → Result A
or_else (ok a) r = ok a
or_else (err e) r = r
or_else panicked r = panicked
