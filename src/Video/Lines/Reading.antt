-- ===== src/Video/Lines/Reading.antt =====
-- What `read_header_line` takes from a stream.
use robocol.Prelude.{
  ℕ, ◌+◌, ◌<◌, ◌≡◌, refl, ap, ◌∙◌, Bool, false, ◌||◌, [], ◌∷◌, ◌++◌, ◌==◌, ltb, inl, inr,
  Bool-cases, length, arith,
}
use robocol.Wire.{Bytes, from_utf8_lossy}
use robocol.Video.Io.{Source, Ending, Io, IoError, ok, err, panicked}
use robocol.Video.Lines.{
  line_from, read_until_crlf, finish_line, read_header_line, strip_eol, keep_byte, max_line,
}

-- What the loop leaves of a content, by what it has read.
data Taken (content : Bytes) : Io Bytes × Source → Type 0 where
  bytes :
      (b : ℕ) (line : Bytes) (s : Source)
      → length s.content < length content
      → Taken content (ok (b ∷ line), s)
  nothing : (s : Source) → length s.content ≡ 0 → Taken content (ok [], s)
  broken : (e : IoError) (s : Source) → length s.content ≡ 0 → Taken content (err e, s)

-- A line that was read takes a byte at least; there is none only where no byte is left.
pub data Line (content : Bytes) : Io Bytes × Source → Type 0 where
  got : (line : Bytes) (s : Source) → length s.content < length content → Line content (ok line, s)
  lost : (e : IoError) (s : Source) → length s.content ≡ 0 → Line content (err e, s)

keep_byte-Taken :
    (b : ℕ) (content : Bytes) (r : Io Bytes × Source)
    → Taken content r
    → Taken (b ∷ content) (keep_byte b r)
keep_byte-Taken b content (ok (c ∷ line), s) (bytes _ _ _ h) = bytes b (c ∷ line) s (omega arith)
keep_byte-Taken b content (ok [], s) (nothing _ h) = bytes b [] s (omega arith)
keep_byte-Taken b content (err e, s) (broken _ _ h) = broken e s h
keep_byte-Taken b content (panicked, s) x = elim x [ ]

line_from-Taken :
    (ending : Ending) (n : ℕ) (content : Bytes) → Taken content (line_from ending n content)
unfolding line_from
line_from-Taken Ending.closed n [] = nothing _ refl
line_from-Taken (Ending.failed e) n [] = broken e _ refl
line_from-Taken ending n (b ∷ left) = elim (Bool-cases (b == 0x0a || ltb max_line (n + 1))) [
  | inl stop ↦ rw (line_from, stop) (bytes b [] _ (omega arith))
  | inr more ↦ rw (line_from, more) (keep_byte-Taken b left _ (line_from-Taken ending (n + 1) left))
]

finish_line-Line :
    (content : Bytes) (r : Io Bytes × Source) → Taken content r → Line content (finish_line r)
unfolding finish_line
finish_line-Line content (ok [], s) (nothing _ h) = lost _ s h
finish_line-Line content (ok (b ∷ line), s) (bytes _ _ _ h) = got _ s h
finish_line-Line content (err e, s) (broken _ _ h) = lost e s h
finish_line-Line content (panicked, s) x = elim x [ ]

pub read_header_line-Line : (s : Source) → Line s.content (read_header_line s)
unfolding read_header_line read_until_crlf
read_header_line-Line s = finish_line-Line s.content _ (line_from-Taken s.ending 0 s.content)

abbrev pub has_lf : Bytes → Bool
has_lf [] = false
has_lf (b ∷ line) = b == 10 || has_lf line

-- A line that is written as it is read: no line feed in it, no line end at its end, and not too long.
pub record IsLine (line : Bytes) : Type 0 where
  pub no_lf : has_lf line ≡ false
  pub bare : strip_eol line ≡ line
  pub short : length line < max_line

abbrev pub crlf : Bytes
crlf = 13 ∷ 10 ∷ []

line_from-crlf :
    (ending : Ending) (n : ℕ) (line rest : Bytes)
    → has_lf line ≡ false
    → n + length line < max_line
    → line_from ending n (line ++ (crlf ++ rest))
      ≡ (ok (line ++ crlf), record { content = rest; ending = ending })
unfolding line_from
line_from-crlf ending n [] rest plain short =
    let more : ltb max_line (n + 1) ≡ false = ground arith in rw more refl
line_from-crlf ending n (b ∷ line) rest plain short =
    let other : (b == 10) ≡ false = ground (arith, plain) in
    let others : has_lf line ≡ false = ground (arith, plain) in
    let more : ltb max_line (n + 1) ≡ false = ground arith in
    let le : n + 1 + length line < max_line = omega arith in
    let go = line_from-crlf ending (n + 1) line rest others le in
    rw (other, more) (ap (keep_byte b) go)

strip_eol-crlf : (line : Bytes) → strip_eol (line ++ crlf) ≡ strip_eol line
unfolding strip_eol
strip_eol-crlf [] = refl
strip_eol-crlf (b ∷ line) = rw (strip_eol, strip_eol-crlf line) refl

-- A line that is not empty is read as such a line; an empty one as the empty line.
pub read_header_line-crlf :
    (ending : Ending) (line rest : Bytes)
    → IsLine line
    → read_header_line (record { content = line ++ (crlf ++ rest); ending = ending })
      ≡ (ok (from_utf8_lossy line), record { content = rest; ending = ending })
unfolding read_header_line read_until_crlf finish_line
read_header_line-crlf ending [] rest l = refl
read_header_line-crlf ending (b ∷ line) rest l =
    ap finish_line (line_from-crlf ending 0 (b ∷ line) rest l.no_lf (omega (arith, l.short)))
    ∙ ap (λ z. (ok (from_utf8_lossy z), record { content = rest; ending = ending }))
        (strip_eol-crlf (b ∷ line) ∙ l.bare)
