-- ===== src/Video/Delim/Search.antt =====
-- `read_until_delim` over a whole stream.
use robocol.Prelude.{
  ℕ, suc, ◌≤◌, ◌<◌, ◌≡◌, ◌≢◌, refl, sym, ap, ◌∙◌, inl, inr, List, [], ◌∷◌, ◌++◌, ltb, Bool-cases,
  length, take, length-append, arith, tests, ltb_false→le,
}
use robocol.Wire.{Bytes}
use robocol.Client.State.{max_frame_bytes}
use robocol.Video.Io.{Source, Ending, Io, IoError, ok, err, at_end}
use robocol.Video.Kmp.Borders.{length-take_le}
use robocol.Video.Kmp.Table.{Table, kmp_failure-Table}
use robocol.Video.Delim.{Feed, feed, scan, read_until_delim}
use robocol.Video.Delim.Occurrence.{NotBefore}
use robocol.Video.Delim.Step.{Fed, advanced, completed, feed-Fed}

-- What reading c up to d comes to: the bytes before the first d, a stream that ends first, or no d before
-- the cap.
pub data Verdict (d c : Bytes) (ending : Ending) : Io Bytes × Source → Type 0 where
  found :
      (body rest : Bytes)
      → c ≡ body ++ (d ++ rest)
      → NotBefore d (length body) c
      → length body ≤ max_frame_bytes
      → Verdict d c ending (ok body, record { content = rest; ending = ending })
  ended :
      ((p q : Bytes) → c ≢ p ++ (d ++ q))
      → Verdict d c ending (err (at_end ending), record { content = []; ending = ending })
  too_long :
      (left : Bytes)
      → NotBefore d (suc max_frame_bytes) c
      → Verdict d c ending (err IoError.invalid_data, record { content = left; ending = ending })

module _ (d : Bytes) where
  module _ (failure : List ℕ) (t : Table d failure) where
    -- The state of the loop after a byte: what is out, the match, and what is left make up c.
    record At (c left : Bytes) (m : ℕ) (out : Bytes) : Type 0 where
      inside : m < length d
      layout : c ≡ out ++ (take m d ++ left)
      none_before : NotBefore d (length out) c
      within : length out ≤ max_frame_bytes

    -- The bytes of a match that is not whole hold no occurrence.
    At-ended : (c : Bytes) (m : ℕ) (out p q : Bytes) → At c [] m out → c ≢ p ++ (d ++ q)
    At-ended c m out p q at at_p =
        let l = ap length (sym at.layout ∙ at_p) in
        absurd (
          omega (
            arith,
            l,
            length-append out (take m d ++ []),
            length-append (take m d) [],
            length-append p (d ++ q),
            length-append d q,
            length-take_le d m (omega (arith, at.inside)),
            at.none_before p q at_p,
            at.inside,
          ))

    scan_byte-Verdict :
        (ending : Ending) (byte m : ℕ) (left out c : Bytes) (result : Feed)
        → feed (suc m) failure d byte m out ≡ result
        → Fed d c left m out result
        → At c (byte ∷ left) m out
        → ((m' : ℕ) (out' : Bytes)
            → At c left m' out'
            → Verdict d c ending (scan ending failure d left m' out'))
        → Verdict d c ending (scan ending failure d (byte ∷ left) m out)
    unfolding scan
    scan_byte-Verdict ending byte m left out c (Feed.advance m' out') e
          (advanced _ _ inside layout none_before) at again =
        elim (Bool-cases (ltb max_frame_bytes (length out'))) [
          | inl over ↦
              rw (scan, e, over)
                (too_long left (λ p q at_p. omega (tests, over, none_before p q at_p)))
          | inr under ↦
              rw (scan, e, under)
                (again m' out' (record {
                  inside = inside;
                  layout = layout;
                  none_before = none_before;
                  within = ltb_false→le _ _ under;
                }))
        ]
    scan_byte-Verdict ending byte m left out c (Feed.complete out') e (completed last layout) at
          again =
        rw (scan, e) (found out left layout at.none_before at.within)
    scan_byte-Verdict ending byte m left out c Feed.broke e x at again = elim x [ ]

    scan-Verdict :
        (ending : Ending) (left : Bytes) (m : ℕ) (out c : Bytes)
        → At c left m out
        → Verdict d c ending (scan ending failure d left m out)
    unfolding scan
    scan-Verdict ending [] m out c at = ended (λ p q. At-ended c m out p q at)
    scan-Verdict ending (byte ∷ left) m out c at =
        scan_byte-Verdict ending byte m left out c (feed (suc m) failure d byte m out) refl
          (feed-Fed d failure t (suc m) m out left c byte (omega arith) at.inside at.layout
            at.none_before)
          at (λ m' out'. scan-Verdict ending left m' out' c)

  -- On a delimiter that is not empty, reading to it never panics, and comes to one of three ends: the first
  -- occurrence of the delimiter with at most 16 MiB before it, of which it gives the bytes before it and
  -- leaves those after it; a stream that ends without an occurrence; or a stream in which no occurrence
  -- starts within the first 16 MiB.
  pub read_until_delim-Verdict :
      (s : Source) → 0 < length d → Verdict d s.content s.ending (read_until_delim d s)
  unfolding read_until_delim
  read_until_delim-Verdict s pos =
      let (table, built, t) = kmp_failure-Table d pos in
      rw (read_until_delim, built)
        (scan-Verdict table t s.ending s.content 0 [] s.content (record {
          inside = pos;
          layout = refl;
          none_before = λ p q at_p. omega arith;
          within = omega arith;
        }))
