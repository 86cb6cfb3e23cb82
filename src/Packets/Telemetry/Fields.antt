-- ===== src/Packets/Telemetry/Fields.antt =====
-- The two tables of a telemetry packet, written and read back entry by entry.
use robocol.Prelude.{
  ℕ, ◌+◌, ◌<◌, ◌^◌, ◌≡◌, refl, ap, ap₂, sym, ◌∙◌, true, List, [], ◌∷◌, ◌++◌, append-nil,
  append_assoc, ok, arith, length, length-append, All, All-middle,
}
use robocol.Prelude.Text.{compare_bytes}
use robocol.Wire.{Bytes, zeros, replicate-add, to_be_bytes, is_utf8}
use robocol.Wire.Layout.{str_u16}
use robocol.Wire.Fill.{put_f32-fill, put_str_u16-fill, get_f32-at, get_str_u16-at}
use robocol.Packets.Telemetry.{
  insert, strings_len, numbers_len, put_strings, put_numbers, get_strings, get_numbers,
}
use Prim.Native.Nat.{Ordering}

abbrev pub string_entry : Bytes → Bytes → Bytes
string_entry k v = str_u16 k ++ str_u16 v

abbrev pub number_entry : Bytes → ℕ → Bytes
number_entry k v = str_u16 k ++ to_be_bytes 4 v

abbrev pub strings_bytes : List (Bytes × Bytes) → Bytes
strings_bytes [] = []
strings_bytes ((k, v) ∷ r) = string_entry k v ++ strings_bytes r

abbrev pub numbers_bytes : List (Bytes × ℕ) → Bytes
numbers_bytes [] = []
numbers_bytes ((k, v) ∷ r) = number_entry k v ++ numbers_bytes r

pub length-strings_bytes : (ss : List (Bytes × Bytes)) → length (strings_bytes ss) ≡ strings_len ss
unfolding strings_len
length-strings_bytes [] = refl
length-strings_bytes ((k, v) ∷ r) = omega (
  arith,
  length-append (string_entry k v) (strings_bytes r),
  length-append (str_u16 k) (str_u16 v),
  length-strings_bytes r,
)

strings-split :
    (k v : Bytes) (r : List (Bytes × Bytes)) (post : Bytes)
    → zeros (strings_len ((k, v) ∷ r)) ++ post
      ≡ zeros (2 + length k) ++ (zeros (2 + length v) ++ (zeros (strings_len r) ++ post))
unfolding strings_len
strings-split k v r post =
    ap (λ n. zeros n ++ post) regroup
    ∙ ap (λ z. z ++ post) (replicate-add {A = ℕ} (2 + length k) _ 0)
    ∙ append_assoc (zeros (2 + length k)) _ post
    ∙ ap (λ z. zeros (2 + length k) ++ (z ++ post)) (replicate-add {A = ℕ} (2 + length v) _ 0)
    ∙ ap (λ z. zeros (2 + length k) ++ z) (append_assoc (zeros (2 + length v)) _ post)
  where
    regroup :
        4 + length k + length v + strings_len r ≡ 2 + length k + (2 + length v + strings_len r)
    regroup = omega arith

numbers-split :
    (k : Bytes) (v : ℕ) (r : List (Bytes × ℕ)) (post : Bytes)
    → zeros (numbers_len ((k, v) ∷ r)) ++ post
      ≡ zeros (2 + length k) ++ (zeros 4 ++ (zeros (numbers_len r) ++ post))
unfolding numbers_len
numbers-split k v r post =
    ap (λ n. zeros n ++ post) regroup
    ∙ ap (λ z. z ++ post) (replicate-add {A = ℕ} (2 + length k) _ 0)
    ∙ append_assoc (zeros (2 + length k)) _ post
    ∙ ap (λ z. zeros (2 + length k) ++ (z ++ post)) (replicate-add {A = ℕ} 4 _ 0)
  where
    regroup : 6 + length k + numbers_len r ≡ 2 + length k + (4 + numbers_len r)
    regroup = omega arith

-- The filled part grows by an entry.
grow : (pre s t rest : Bytes) → ((pre ++ s) ++ t) ++ rest ≡ pre ++ ((s ++ t) ++ rest)
grow pre s t rest = rw (append_assoc pre s t, append_assoc pre (s ++ t) rest)

pub put_strings-fill :
    (pre : Bytes) (ss : List (Bytes × Bytes)) (post : Bytes) (off : ℕ)
    → off ≡ length pre
    → put_strings (pre ++ (zeros (strings_len ss) ++ post)) off ss
      ≡ ok ((pre ++ strings_bytes ss) ++ post, off + strings_len ss)
unfolding put_strings strings_len
put_strings-fill pre [] post off h =
    ap₂ (λ b n. ok (b, n)) (ap (λ p. p ++ post) (sym (append-nil pre))) (omega arith)
put_strings-fill pre ((k, v) ∷ r) post off h =
    rw
      (
        strings-split k v r post,
        put_str_u16-fill pre k (zeros (2 + length v) ++ (zeros (strings_len r) ++ post)) off h,
        put_str_u16-fill (pre ++ str_u16 k) v (zeros (strings_len r) ++ post) (off + 2 + length k)
            key_end,
        put_strings-fill ((pre ++ str_u16 k) ++ str_u16 v) r post
            (off + 2 + length k + 2 + length v) value_end,
      )
      (ap₂ (λ b n. ok (b, n))
        (ap (λ b. b ++ post) (grow pre (str_u16 k) (str_u16 v) (strings_bytes r))) (omega arith))
  where
    key_end : off + 2 + length k ≡ length (pre ++ str_u16 k)
    key_end = omega (arith, length-append pre (str_u16 k))

    value_end : off + 2 + length k + 2 + length v ≡ length ((pre ++ str_u16 k) ++ str_u16 v)
    value_end = omega (arith, key_end, length-append (pre ++ str_u16 k) (str_u16 v))

pub put_numbers-fill :
    (pre : Bytes) (ns : List (Bytes × ℕ)) (post : Bytes) (off : ℕ)
    → off ≡ length pre
    → put_numbers (pre ++ (zeros (numbers_len ns) ++ post)) off ns
      ≡ ok ((pre ++ numbers_bytes ns) ++ post, off + numbers_len ns)
unfolding put_numbers numbers_len
put_numbers-fill pre [] post off h =
    ap₂ (λ b n. ok (b, n)) (ap (λ p. p ++ post) (sym (append-nil pre))) (omega arith)
put_numbers-fill pre ((k, v) ∷ r) post off h =
    rw
      (
        numbers-split k v r post,
        put_str_u16-fill pre k (zeros 4 ++ (zeros (numbers_len r) ++ post)) off h,
        put_f32-fill (pre ++ str_u16 k) (zeros (numbers_len r) ++ post) v (off + 2 + length k)
            key_end,
        put_numbers-fill ((pre ++ str_u16 k) ++ to_be_bytes 4 v) r post (off + 2 + length k + 4)
            value_end,
      )
      (ap₂ (λ b n. ok (b, n))
        (ap (λ b. b ++ post) (grow pre (str_u16 k) (to_be_bytes 4 v) (numbers_bytes r)))
        (omega arith))
  where
    key_end : off + 2 + length k ≡ length (pre ++ str_u16 k)
    key_end = omega (arith, length-append pre (str_u16 k))

    value_end : off + 2 + length k + 4 ≡ length ((pre ++ str_u16 k) ++ to_be_bytes 4 v)
    value_end = omega (arith, key_end, length-append (pre ++ str_u16 k) (to_be_bytes 4 v))

-- Strings that their prefixes can measure, and 32-bit values.
abbrev pub IsText : Bytes → Type 0
IsText s = (length s < 2 ^ 16) × (is_utf8 s ≡ true)

abbrev pub IsStringEntry : Bytes × Bytes → Type 0
IsStringEntry e = IsText e.0 × IsText e.1

abbrev pub IsNumberEntry : Bytes × ℕ → Type 0
IsNumberEntry e = IsText e.0 × (e.1 < 2 ^ 32)

pub get_strings-at :
    (ss : List (Bytes × Bytes)) (buf pre post : Bytes) (off : ℕ)
    → off ≡ length pre
    → All IsStringEntry ss
    → buf ≡ pre ++ (strings_bytes ss ++ post)
    → get_strings (length ss) buf off ≡ ok (ss, off + strings_len ss)
unfolding get_strings strings_len
get_strings-at [] buf pre post off h v e = ap (λ n. ok ([], n)) (omega arith)
get_strings-at ((k, v) ∷ r) buf pre post off h ((kt, vt), rv) e =
    rw
      (
        get_str_u16-at buf pre (str_u16 v ++ (strings_bytes r ++ post)) off h k kt.0 kt.1 key_at,
        get_str_u16-at buf (pre ++ str_u16 k) (strings_bytes r ++ post) (off + 2 + length k) key_end
            v vt.0 vt.1 value_at,
        get_strings-at r buf ((pre ++ str_u16 k) ++ str_u16 v) post
            (off + 2 + length k + 2 + length v) value_end rv rest_at,
      )
      (ap (λ n. ok ((k, v) ∷ r, n)) (omega arith))
  where
    key_end : off + 2 + length k ≡ length (pre ++ str_u16 k)
    key_end = omega (arith, length-append pre (str_u16 k))

    value_end : off + 2 + length k + 2 + length v ≡ length ((pre ++ str_u16 k) ++ str_u16 v)
    value_end = omega (arith, key_end, length-append (pre ++ str_u16 k) (str_u16 v))

    key_at : buf ≡ pre ++ (str_u16 k ++ (str_u16 v ++ (strings_bytes r ++ post)))
    key_at = e ∙ simp append_assoc

    value_at : buf ≡ (pre ++ str_u16 k) ++ (str_u16 v ++ (strings_bytes r ++ post))
    value_at = key_at ∙ sym (append_assoc pre (str_u16 k) _)

    rest_at : buf ≡ ((pre ++ str_u16 k) ++ str_u16 v) ++ (strings_bytes r ++ post)
    rest_at = value_at ∙ sym (append_assoc (pre ++ str_u16 k) (str_u16 v) _)

-- The keys rise, which is how a BTreeMap lists its entries.
abbrev pub Ascending : List (Bytes × ℕ) → Type 0
Ascending [] = Unit {0}
Ascending ((k, v) ∷ m) = All (λ e. compare_bytes e.0 k ≡ Ordering.gt) m × Ascending m

insert-above :
    (k : Bytes) (v : ℕ) (m : List (Bytes × ℕ))
    → All (λ e. compare_bytes k e.0 ≡ Ordering.gt) m
    → insert k v m ≡ m ++ (k, v) ∷ []
unfolding insert
insert-above k v [] h = refl
insert-above k v ((j, w) ∷ m) h = rw (h.0, insert) (ap (λ t. (j, w) ∷ t) (insert-above k v m h.1))

Ascending-middle :
    (m : List (Bytes × ℕ)) (k : Bytes) (v : ℕ) (r : List (Bytes × ℕ))
    → Ascending (m ++ (k, v) ∷ r)
    → All (λ e. compare_bytes k e.0 ≡ Ordering.gt) m
Ascending-middle [] k v r h = tt
Ascending-middle ((j, w) ∷ m) k v r h = (
  All-middle (λ e. compare_bytes e.0 j ≡ Ordering.gt) m (k, v) r h.0,
  Ascending-middle m k v r h.1,
)

pub get_numbers-at :
    (ns m : List (Bytes × ℕ)) (buf pre post : Bytes) (off : ℕ)
    → off ≡ length pre
    → All IsNumberEntry ns
    → Ascending (m ++ ns)
    → buf ≡ pre ++ (numbers_bytes ns ++ post)
    → get_numbers (length ns) buf off m ≡ ok (m ++ ns)
unfolding get_numbers
get_numbers-at [] m buf pre post off h v up e = ap ok (sym (append-nil m))
get_numbers-at ((k, v) ∷ r) m buf pre post off h ((kt, vt), rv) up e =
    rw
      (
        get_str_u16-at buf pre (to_be_bytes 4 v ++ (numbers_bytes r ++ post)) off h k kt.0 kt.1
            key_at,
        get_f32-at buf (pre ++ str_u16 k) (numbers_bytes r ++ post) (off + 2 + length k) key_end v
            vt value_at,
        insert-above k v m (Ascending-middle m k v r up),
        get_numbers-at r (m ++ (k, v) ∷ []) buf ((pre ++ str_u16 k) ++ to_be_bytes 4 v) post
            (off + 2 + length k + 4) value_end rv (rw (append_assoc m ((k, v) ∷ []) r) up) rest_at,
      )
      (ap ok (append_assoc m ((k, v) ∷ []) r))
  where
    key_end : off + 2 + length k ≡ length (pre ++ str_u16 k)
    key_end = omega (arith, length-append pre (str_u16 k))

    value_end : off + 2 + length k + 4 ≡ length ((pre ++ str_u16 k) ++ to_be_bytes 4 v)
    value_end = omega (arith, key_end, length-append (pre ++ str_u16 k) (to_be_bytes 4 v))

    key_at : buf ≡ pre ++ (str_u16 k ++ (to_be_bytes 4 v ++ (numbers_bytes r ++ post)))
    key_at = e ∙ simp append_assoc

    value_at : buf ≡ (pre ++ str_u16 k) ++ (to_be_bytes 4 v ++ (numbers_bytes r ++ post))
    value_at = key_at ∙ sym (append_assoc pre (str_u16 k) _)

    rest_at : buf ≡ ((pre ++ str_u16 k) ++ to_be_bytes 4 v) ++ (numbers_bytes r ++ post)
    rest_at = value_at ∙ sym (append_assoc (pre ++ str_u16 k) (to_be_bytes 4 v) _)
