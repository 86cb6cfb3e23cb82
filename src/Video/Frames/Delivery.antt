-- ===== src/Video/Frames/Delivery.antt =====
-- `pump_frames` on a stream of parts.
use robocol.Prelude.{
  ℕ, zero, suc, ◌+◌, ◌≤◌, ◌<◌, ◌≡◌, ◌≢◌, refl, ap, ◌∙◌, Bool, true, false, List, [], ◌∷◌, ◌++◌, map,
  Option, none, some, length, length-append, All, arith,
}
use robocol.Wire.{Bytes, from_utf8_lossy, from_utf8_lossy-nonempty}
use robocol.Video.Io.{Source, Ending, ok}
use robocol.Video.Lines.Reading.{IsLine, crlf, read_header_line-crlf}
use robocol.Video.Head.{part_headers, skip_part_headers}
use robocol.Video.Delim.Search.{read_until_delim-Verdict}
use robocol.Video.Frames.{
  Host, after_frame, read_body, read_frame, frames_from, pump_after, pump_sources, pump_frames,
}
use robocol.Video.Frames.Parts.{
  Part, IsPart, write_lines, write_parts, NotBefore-append, Verdict-found, strip_crlf-append,
}

uncons : (xs : Bytes) → xs ≢ [] → (c : ℕ) × (t : Bytes) × (xs ≡ c ∷ t)
uncons [] h = absurd (h refl)
uncons (c ∷ t) h = (c, t, refl)

lossy-cons : (l : Bytes) → l ≢ [] → (c : ℕ) × (t : Bytes) × (from_utf8_lossy l ≡ c ∷ t)
lossy-cons [] h = absurd (h refl)
lossy-cons (b ∷ l) h = uncons (from_utf8_lossy (b ∷ l)) (from_utf8_lossy-nonempty b l)

part_headers-lines :
    (ending : Ending) (rest : Bytes) (fuel : ℕ) (content_length : Option ℕ) (ls : List Bytes)
    → length ls < fuel
    → All IsLine ls
    → All (λ l. l ≢ []) ls
    → (found_length : Option ℕ) × (part_headers fuel content_length
          (record { content = write_lines ls rest; ending = ending })
        ≡ some (ok found_length, record { content = rest; ending = ending }))
unfolding part_headers
part_headers-lines ending rest zero content_length ls enough lines bodied = absurd (omega arith)
part_headers-lines ending rest (suc fuel) content_length [] enough lines bodied =
    (content_length, refl)
part_headers-lines ending rest (suc fuel) content_length (l ∷ ls) enough lines bodied =
    let (c, t, e) = lossy-cons l bodied.0 in
    let read = read_header_line-crlf ending l (write_lines ls rest) lines.0 in
    rw (part_headers, ap (λ r. r.0) read, e, ap (λ r. r.1) read)
      (part_headers-lines ending rest fuel _ ls (omega arith) lines.1 bodied.1)

length-write_lines :
    (ls : List Bytes) (rest : Bytes) → length ls + 2 + length rest ≤ length (write_lines ls rest)
length-write_lines [] rest = omega arith
length-write_lines (l ∷ ls) rest =
    omega (arith, length-append l (crlf ++ write_lines ls rest), length-write_lines ls rest)

read_frame-end :
    (d : Bytes) (ending : Ending)
    → (s : Source) × (read_frame d (record { content = []; ending = ending }) ≡ some (none, s))
unfolding read_frame skip_part_headers part_headers read_body
read_frame-end d Ending.closed = (_, refl)
read_frame-end d (Ending.failed e) = (_, refl)

module _ (d : Bytes) (pos : 0 < length d) (ending : Ending) where
  abbrev pub from : Bytes → Source
  from content = record { content = content; ending = ending }

  skip_part_headers-lines :
      (rest : Bytes) (ls : List Bytes)
      → All IsLine ls
      → All (λ l. l ≢ []) ls
      → (found_length : Option ℕ) × (skip_part_headers (from (write_lines ls rest))
          ≡ some (ok found_length, from rest))
  unfolding skip_part_headers
  skip_part_headers-lines rest ls lines bodied =
      part_headers-lines ending rest (suc (length (write_lines ls rest))) none ls
        (omega (arith, length-write_lines ls rest)) lines bodied

  read_frame-part :
      (p : Part) (rest : Bytes)
      → IsPart d p
      → read_frame d (from (write_lines p.headers ((p.jpeg ++ crlf) ++ (d ++ rest))))
        ≡ some (some p.jpeg, from rest)
  unfolding read_frame read_body
  read_frame-part p rest ok_part =
      let body = p.jpeg ++ crlf in
      let (n, headers) =
        skip_part_headers-lines (body ++ (d ++ rest)) p.headers ok_part.lines ok_part.bodied in
      let body_read =
        Verdict-found d (body ++ (d ++ rest)) body rest ending _
          (read_until_delim-Verdict d (from (body ++ (d ++ rest))) pos) refl
          (NotBefore-append d body rest ok_part.clean) ok_part.short in
      rw
        (
          read_frame,
          headers,
          read_body,
          ap (λ r. r.0) body_read,
          ap (λ r. r.1) body_read,
          strip_crlf-append p.jpeg,
        )
        refl

  module _ (host : Host) (runs : (k : ℕ) → host.stops k ≡ false)
      (takes : (k : ℕ) → host.takes k ≡ true) where
    abbrev pub started : Bool → List Part → Bool
    started delivered [] = delivered
    started delivered (p ∷ ps) = true

    started-true : (ps : List Part) → started true ps ≡ true
    started-true [] = refl
    started-true (p ∷ ps) = refl

    frames_from-parts :
        (fuel k : ℕ) (delivered : Bool) (ps : List Part)
        → length ps < fuel
        → All (IsPart d) ps
        → frames_from fuel host d k delivered [] (from (write_parts d ps))
          ≡ some (record { frames = map (λ p. p.jpeg) ps; delivered = started delivered ps })
    unfolding frames_from
    frames_from-parts zero k delivered ps enough parts = absurd (omega arith)
    frames_from-parts (suc fuel) k delivered [] enough parts =
        rw (frames_from, runs k, (read_frame-end d ending).1) refl
    frames_from-parts (suc fuel) k delivered (p ∷ ps) enough parts =
        rw (frames_from, runs k, read_frame-part p (crlf ++ write_parts d ps) parts.0, takes k)
          (ap (after_frame p.jpeg) (frames_from-parts fuel (suc k) true ps (omega arith) parts.1)
            ∙ ap (λ b. some (record { frames = p.jpeg ∷ map (λ q. q.jpeg) ps; delivered = b }))
                (started-true ps))

    length-write_parts : (ps : List Part) → length ps ≤ length (write_parts d ps)
    length-write_parts [] = omega arith
    length-write_parts (p ∷ ps) =
        let rest = (p.jpeg ++ crlf) ++ (d ++ (crlf ++ write_parts d ps)) in
        omega (
          arith,
          length-write_lines p.headers rest,
          length-append (p.jpeg ++ crlf) (d ++ (crlf ++ write_parts d ps)),
          length-append d (crlf ++ write_parts d ps),
          length-write_parts ps,
        )

    -- From a stream of parts behind a first line, with a host that neither stops nor hangs up, exactly the
    -- parts' frames are sent, in their order and byte by byte, and the stream is reported as delivered
    -- when there is a frame. A part has header lines that are read as they stand, and a frame that the cap
    -- admits and in which, with its line end, the delimiter, which is not empty, does not start.
    pub pump_frames-parts :
        (line : Bytes) (ps : List Part)
        → IsLine line
        → All (IsPart d) ps
        → pump_frames host d (from (line ++ (crlf ++ write_parts d ps)))
          ≡ some (record { frames = map (λ p. p.jpeg) ps; delivered = started false ps })
    unfolding pump_frames pump_sources pump_after
    pump_frames-parts line ps l parts =
        let read = read_header_line-crlf ending line (write_parts d ps) l in
        ap (λ r. pump_after host d [] r.0 r.1) read
        ∙ frames_from-parts (suc (length (write_parts d ps))) 0 false ps
            (omega (arith, length-write_parts ps)) parts
