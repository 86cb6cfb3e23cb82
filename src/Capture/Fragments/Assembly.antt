-- ===== src/Capture/Fragments/Assembly.antt =====
-- The buffer that `handle_v4` fills from the fragments, byte by byte.
use robocol.Prelude.{
  ℕ, zero, suc, ◌+◌, ◌<◌, ◌≡◌, refl, sym, ap, subst, ◌∙◌, Bool, true, false, ◌&&◌, ◌||◌, List, [],
  ◌∷◌, ◌++◌, none, some, ltb, leb, length, get_or, replicate, length-replicate, All, arith,
}
use robocol.Wire.{Bytes}
use robocol.Capture.Fragments.{overlay, fill, all_true, assemble}
use robocol.Capture.Fragments.Agreement.{Agrees, Agrees-overlay, Agrees-all_true, Agrees-empty}

-- A fragment of the payload: its bytes stand there at its offset.
pub record Piece (payload : Bytes) (piece : ℕ × Bytes) : Type 0 where
  pub before : Bytes
  pub behind : Bytes
  pub at : length before ≡ piece.0
  pub whole : payload ≡ before ++ (piece.1 ++ behind)

-- Whether one of the fragments has the i-th byte.
abbrev pub covers : ℕ → List (ℕ × Bytes) → Bool
covers i [] = false
covers i ((off, chunk) ∷ chunks) = (leb off i && ltb i (off + length chunk)) || covers i chunks

length-overlay :
    (filled : List Bool) (off : ℕ) (marks : List Bool)
    → length (overlay filled off marks) ≡ length filled
unfolding overlay
length-overlay [] off marks = refl
length-overlay (f ∷ filled) (suc off) marks = ap suc (length-overlay filled off marks)
length-overlay (f ∷ filled) zero [] = refl
length-overlay (f ∷ filled) zero (m ∷ marks) = ap suc (length-overlay filled zero marks)

abbrev pub in_range : ℕ → ℕ → ℕ → Bool
in_range i off n = leb off i && ltb i (off + n)

shift_range : (i off n : ℕ) → in_range (suc i) (suc off) n ≡ in_range i off n
shift_range i off n = ground arith

shift_front : (i n : ℕ) → in_range (suc i) 0 (suc n) ≡ in_range i 0 n
shift_front i n = ground arith

first_in_range : (n : ℕ) → in_range 0 0 (suc n) ≡ true
first_in_range n = ground arith

before_range : (off n : ℕ) → in_range 0 (suc off) n ≡ false
before_range off n = ground arith

not_in_range : (i off : ℕ) → in_range i off 0 ≡ false
not_in_range i off = ground arith

pub or_false : (b : Bool) → b ≡ (b || false)
or_false false = refl
or_false true = refl

or_true : (b : Bool) → true ≡ (b || true)
or_true false = refl
or_true true = refl

pub or_assoc : (a b c : Bool) → ((a || b) || c) ≡ (a || (b || c))
or_assoc false b c = refl
or_assoc true b c = refl

-- What is filled after a fragment: what was, and its range.
overlay-marks :
    (filled : List Bool) (off n i : ℕ)
    → i < length filled
    → get_or (overlay filled off (replicate n true)) i false
      ≡ (get_or filled i false || in_range i off n)
unfolding overlay
overlay-marks [] off n i lt = absurd (omega arith)
overlay-marks (f ∷ filled) (suc off) n zero lt = rw (before_range off n) (or_false f)
overlay-marks (f ∷ filled) (suc off) n (suc i) lt =
    overlay-marks filled off n i (omega arith)
    ∙ ap (λ b. get_or filled i false || b) (sym (shift_range i off n))
overlay-marks (f ∷ filled) zero zero i lt = rw (not_in_range i 0) (or_false _)
overlay-marks (f ∷ filled) zero (suc n) zero lt = rw (first_in_range n) (or_true f)
overlay-marks (f ∷ filled) zero (suc n) (suc i) lt =
    overlay-marks filled zero n i (omega arith)
    ∙ ap (λ b. get_or filled i false || b) (sym (shift_front i n))

fill-marks :
    (chunks : List (ℕ × Bytes)) (buf : Bytes) (filled : List Bool) (i : ℕ)
    → i < length filled
    → get_or (fill chunks (buf, filled)).1 i false ≡ (get_or filled i false || covers i chunks)
unfolding fill
fill-marks [] buf filled i lt = or_false _
fill-marks ((off, chunk) ∷ chunks) buf filled i lt =
    let marks = replicate (length chunk) true in
    let len = length-overlay filled off marks in
    fill-marks chunks (overlay buf off chunk) (overlay filled off marks) i (omega (arith, len, lt))
    ∙ ap (λ b. b || covers i chunks) (overlay-marks filled off (length chunk) i lt)
    ∙ or_assoc (get_or filled i false) _ _

length-fill :
    (chunks : List (ℕ × Bytes)) (buf : Bytes) (filled : List Bool)
    → length (fill chunks (buf, filled)).1 ≡ length filled
unfolding fill
length-fill [] buf filled = refl
length-fill ((off, chunk) ∷ chunks) buf filled =
    length-fill chunks (overlay buf off chunk) (overlay filled off (replicate (length chunk) true))
    ∙ length-overlay filled off (replicate (length chunk) true)

fill-Agrees :
    (payload : Bytes) (chunks : List (ℕ × Bytes)) (buf : Bytes) (filled : List Bool)
    → All (Piece payload) chunks
    → Agrees buf filled payload
    → Agrees (fill chunks (buf, filled)).0 (fill chunks (buf, filled)).1 payload
unfolding fill
fill-Agrees payload [] buf filled pieces h = h
fill-Agrees payload ((off, chunk) ∷ chunks) buf filled pieces h =
    let p = pieces.0 in
    let next =
      Agrees-overlay p.before chunk p.behind buf filled (subst (Agrees buf filled) p.whole h) in
    let at_off =
      subst
        (λ n.
          Agrees (overlay buf n chunk) (overlay filled n (replicate (length chunk) true))
            (p.before ++ (chunk ++ p.behind)))
        p.at next in
    fill-Agrees payload chunks (overlay buf off chunk)
      (overlay filled off (replicate (length chunk) true)) pieces.1
      (subst (Agrees _ _) (sym p.whole) at_off)

all_true-get :
    (fs : List Bool) → ((i : ℕ) → i < length fs → get_or fs i false ≡ true) → all_true fs ≡ true
unfolding all_true
all_true-get [] h = refl
all_true-get (f ∷ fs) h = rw (h 0 (omega arith)) (all_true-get fs (λ i lt. h (suc i) (omega arith)))

all_true-gap :
    (fs : List Bool) (i : ℕ) → i < length fs → get_or fs i false ≡ false → all_true fs ≡ false
unfolding all_true
all_true-gap [] i lt h = absurd (omega arith)
all_true-gap (f ∷ fs) zero lt h = rw h refl
all_true-gap (true ∷ fs) (suc i) lt h = all_true-gap fs i (omega arith) h
all_true-gap (false ∷ fs) (suc i) lt h = refl

get_or-replicate : (n i : ℕ) → get_or (replicate n false) i false ≡ false
get_or-replicate zero i = refl
get_or-replicate (suc n) zero = refl
get_or-replicate (suc n) (suc i) = get_or-replicate n i

module _ (payload : Bytes) (chunks : List (ℕ × Bytes)) where
  abbrev start : Bytes × List Bool
  start = (replicate (length payload) 0, replicate (length payload) false)

  marks_of : (i : ℕ) → i < length payload → get_or (fill chunks start).1 i false ≡ covers i chunks
  marks_of i lt =
      fill-marks chunks _ (replicate (length payload) false) i
        (omega (arith, lt, length-replicate (length payload) false))
      ∙ ap (λ b. b || covers i chunks) (get_or-replicate (length payload) i)

  marks_len : length (fill chunks start).1 ≡ length payload
  marks_len = length-fill chunks _ _ ∙ length-replicate (length payload) false

  -- Fragments of one payload, in any order, with any overlaps and repetitions, are assembled to the payload
  -- when together they have all its bytes.
  pub assemble-Piece :
      All (Piece payload) chunks
      → ((i : ℕ) → i < length payload → covers i chunks ≡ true)
      → assemble (length payload) chunks ≡ some payload
  unfolding assemble
  assemble-Piece pieces covered =
      let full = all_true-get (fill chunks start).1 (λ i lt.
        marks_of i (omega (arith, lt, marks_len)) ∙ covered i (omega (arith, lt, marks_len))) in
      let same =
        Agrees-all_true _ payload _ (fill-Agrees payload chunks _ _ pieces (Agrees-empty payload))
          full in
      rw (full, same) refl

  -- While a byte is missing, nothing is assembled.
  pub assemble-gap :
      (i : ℕ)
      → i < length payload
      → covers i chunks ≡ false
      → assemble (length payload) chunks ≡ none
  unfolding assemble
  assemble-gap i lt missing =
      let gap =
        all_true-gap (fill chunks start).1 i (omega (arith, lt, marks_len))
          (marks_of i lt ∙ missing) in
      rw gap refl
