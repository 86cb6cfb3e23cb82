-- ===== src/Video/Frames/Parts.antt =====
-- A multipart stream as a camera writes it, and what the delimiter's search makes of a part.
use robocol.Prelude.{
  ◌≤◌, ◌<◌, ◌≡◌, ◌≢◌, refl, sym, ap, ◌∙◌, List, [], ◌∷◌, ◌++◌, append_assoc, length, length-append,
  ltb, ltb_false→le, inl, inr, Bool-cases, All, arith, tests,
}
use robocol.Wire.{Bytes}
use robocol.Client.State.{max_frame_bytes}
use robocol.Video.Io.{Source, Ending, Io, ok}
use robocol.Video.Lines.Reading.{IsLine, crlf}
use robocol.Video.Kmp.Prefixes.{append-split, append-cancel}
use robocol.Video.Delim.{read_until_delim}
use robocol.Video.Delim.Occurrence.{NotBefore}
use robocol.Video.Delim.Search.{Verdict, found, ended, too_long, read_until_delim-Verdict}
use robocol.Video.Frames.{strip_crlf}

pub record Part : Type 0 where
  pub headers : List Bytes
  pub jpeg : Bytes

abbrev pub write_lines : List Bytes → Bytes → Bytes
write_lines [] rest = crlf ++ rest
write_lines (l ∷ ls) rest = l ++ (crlf ++ write_lines ls rest)

-- Each part has the delimiter and a line end behind it.
abbrev pub write_parts : Bytes → List Part → Bytes
write_parts d [] = []
write_parts d (p ∷ ps) =
    write_lines p.headers ((p.jpeg ++ crlf) ++ (d ++ (crlf ++ write_parts d ps)))

-- Header lines that are read as they stand and do not end the headers, and a frame in which the delimiter
-- does not start, not even at its end, and that the cap admits.
pub record IsPart (d : Bytes) (p : Part) : Type 0 where
  pub lines : All IsLine p.headers
  pub bodied : All (λ l. l ≢ []) p.headers
  pub clean : NotBefore d (length (p.jpeg ++ crlf)) ((p.jpeg ++ crlf) ++ d)
  pub short : length (p.jpeg ++ crlf) ≤ max_frame_bytes

-- What follows the first delimiter brings no earlier one.
pub NotBefore-append :
    (d x t : Bytes) → NotBefore d (length x) (x ++ d) → NotBefore d (length x) (x ++ (d ++ t))
NotBefore-append d x t clean p q e = elim (Bool-cases (ltb (length p) (length x))) [
  | inl near ↦
      let tails : (p ++ d) ++ q ≡ (x ++ d) ++ t =
        append_assoc p d q ∙ sym e ∙ sym (append_assoc x d t) in
      let le : length (p ++ d) ≤ length (x ++ d) =
        omega (tests, near, length-append p d, length-append x d) in
      let (u, e1, _) = append-split (p ++ d) q (x ++ d) t tails le in
      clean p u (e1 ∙ append_assoc p d u)
  | inr far ↦ ltb_false→le (length p) (length x) far
]

-- The verdict on a content whose first delimiter is known.
pub Verdict-found :
    (d c body rest : Bytes) (ending : Ending) (r : Io Bytes × Source)
    → Verdict d c ending r
    → c ≡ body ++ (d ++ rest)
    → NotBefore d (length body) c
    → length body ≤ max_frame_bytes
    → r ≡ (ok body, record { content = rest; ending = ending })
Verdict-found d c body rest ending r (found body' rest' e' first' short') e first short =
    let both_ways : body' ++ (d ++ rest') ≡ body ++ (d ++ rest) = sym e' ∙ e in
    let same : length body' ≡ length body =
      omega (arith, first' body rest e, first body' rest' e') in
    let (e1, e2) = append-cancel body' (d ++ rest') body (d ++ rest) both_ways same in
    let (_, e3) = append-cancel d rest' d rest e2 refl in cc
Verdict-found d c body rest ending r (ended never) e first short = absurd (never body rest e)
Verdict-found d c body rest ending r (too_long left late) e first short =
    absurd (omega (arith, late body rest e))

-- Where the search itself finds the body, no occurrence starts earlier.
clean_run :
    (d c body rest : Bytes) (r : Io Bytes × Source) (ending : Ending)
    → Verdict d c ending r
    → r ≡ (ok body, record { content = rest; ending = ending })
    → NotBefore d (length body) c
clean_run d c body rest r ending (found body' rest' e' first' short') e =
    let same : body' ≡ body = cc in rw (sym same) first'
clean_run d c body rest r ending (ended never) e = absurd cc
clean_run d c body rest r ending (too_long left late) e = absurd cc

-- So a frame is clean when reading it from the stream that ends behind it gives the frame.
pub clean_if :
    (d body : Bytes)
    → 0 < length d
    → read_until_delim d (record { content = body ++ d; ending = Ending.closed })
      ≡ (ok body, record { content = []; ending = Ending.closed })
    → NotBefore d (length body) (body ++ d)
clean_if d body pos e =
    clean_run d (body ++ d) body [] _ Ending.closed
      (read_until_delim-Verdict d (record { content = body ++ d; ending = Ending.closed }) pos) e

pub strip_crlf-append : (jpeg : Bytes) → strip_crlf (jpeg ++ crlf) ≡ jpeg
unfolding strip_crlf
strip_crlf-append [] = refl
strip_crlf-append (a ∷ []) = refl
strip_crlf-append (a ∷ b ∷ []) = refl
strip_crlf-append (a ∷ b ∷ c ∷ s) = ap (λ z. a ∷ z) (strip_crlf-append (b ∷ c ∷ s))
