-- ===== src/Video/Frames/Ends.antt =====
-- `pump_frames` on any stream: what each of its steps takes of it.
use robocol.Prelude.{
  ℕ, zero, suc, ◌≤◌, ◌<◌, ◌≡◌, refl, ap, Bool, true, false, List, [], ◌∷◌, ◌++◌, inl, inr,
  Bool-cases, Option, none, some, length, length-append, arith,
}
use robocol.Wire.{Bytes}
use robocol.Video.Io.{Source, Io, IoError, ok, err, panicked}
use robocol.Video.Lines.{read_header_line}
use robocol.Video.Lines.Reading.{Line, got, lost, read_header_line-Line}
use robocol.Video.Head.{part_headers, skip_part_headers}
use robocol.Video.Delim.{read_until_delim}
use robocol.Video.Delim.Search.{Verdict, found, ended, too_long, read_until_delim-Verdict}
use robocol.Video.Frames.{
  Host, Pumped, after_frame, after_line, total, read_body, read_frame, frames_from, pump_after,
  pump_sources, pump_frames,
}

-- Headers that were read take a byte at least.
data Headers (content : Bytes) : Option (Io (Option ℕ) × Source) → Type 0 where
  read :
      (n : Option ℕ) (s : Source)
      → length s.content < length content
      → Headers content (some (ok n, s))
  cut : (e : IoError) (s : Source) → Headers content (some (err e, s))

-- A frame that was read takes a byte at least, and reading one never panics.
data Frame (content : Bytes) : Option (Option Bytes × Source) → Type 0 where
  whole :
      (jpeg : Bytes) (s : Source)
      → length s.content < length content
      → Frame content (some (some jpeg, s))
  missing : (s : Source) → Frame content (some (none, s))

Headers-less :
    (c c' : Bytes) (r : Option (Io (Option ℕ) × Source))
    → length c' < length c
    → Headers c' r
    → Headers c r
Headers-less c c' (some (ok n, s)) lt (read _ _ h) = read n s (omega arith)
Headers-less c c' (some (err e, s)) lt (cut _ _) = cut e s
Headers-less c c' (some (panicked, s)) lt x = elim x [ ]
Headers-less c c' none lt x = elim x [ ]

-- One line of the headers, whatever it is.
part_headers_line-Headers :
    (fuel : ℕ) (content_length : Option ℕ) (s : Source) (r : Io Bytes × Source)
    → read_header_line s ≡ r
    → Line s.content r
    → ((n : Option ℕ) (s' : Source)
        → length s'.content < length s.content
        → Headers s.content (part_headers fuel n s'))
    → Headers s.content (part_headers (suc fuel) content_length s)
unfolding part_headers
part_headers_line-Headers fuel content_length s (ok [], s') e (got _ _ lt) again =
    rw (part_headers, ap (λ r. r.0) e, ap (λ r. r.1) e) (read content_length s' lt)
part_headers_line-Headers fuel content_length s (ok (c ∷ line), s') e (got _ _ lt) again =
    rw (part_headers, ap (λ r. r.0) e, ap (λ r. r.1) e) (again _ s' lt)
part_headers_line-Headers fuel content_length s (err x, s') e (lost _ _ le) again =
    rw (part_headers, ap (λ r. r.0) e, ap (λ r. r.1) e) (cut x s')
part_headers_line-Headers fuel content_length s (panicked, s') e l again = elim l [ ]

part_headers-Headers :
    (fuel : ℕ) (content_length : Option ℕ) (s : Source)
    → length s.content < fuel
    → Headers s.content (part_headers fuel content_length s)
part_headers-Headers zero content_length s enough = absurd (omega arith)
part_headers-Headers (suc fuel) content_length s enough =
    part_headers_line-Headers fuel content_length s (read_header_line s) refl
      (read_header_line-Line s)
      (λ n s' lt.
        Headers-less s.content s'.content _ lt (part_headers-Headers fuel n s' (omega arith)))

module _ (d : Bytes) (pos : 0 < length d) where
  -- The body's verdict, as far as it counts the bytes.
  read_body-Frame :
      (content : Bytes) (n : Option ℕ) (s : Source) (r : Io Bytes × Source)
      → read_until_delim d s ≡ r
      → Verdict d s.content s.ending r
      → length s.content < length content
      → Frame content (read_body d (ok n) s)
  unfolding read_body
  read_body-Frame content n s r e (found body rest layout first short) lt =
      let less : length rest < length content =
        omega (
          arith,
          lt,
          pos,
          ap length layout,
          length-append body (d ++ rest),
          length-append d rest,
        ) in
      rw (read_body, ap (λ r. r.0) e, ap (λ r. r.1) e) (whole _ _ less)
  read_body-Frame content n s r e (ended never) lt =
      rw (read_body, ap (λ r. r.0) e, ap (λ r. r.1) e) (missing _)
  read_body-Frame content n s r e (too_long left late) lt =
      rw (read_body, ap (λ r. r.0) e, ap (λ r. r.1) e) (missing _)

  read_frame-Frame : (s : Source) → Frame s.content (read_frame d s)
  unfolding read_frame skip_part_headers
  read_frame-Frame s =
      go (skip_part_headers s) refl
        (part_headers-Headers (suc (length s.content)) none s (omega arith))
    where
      go :
          (r : Option (Io (Option ℕ) × Source))
          → skip_part_headers s ≡ r
          → Headers s.content r
          → Frame s.content (read_frame d s)
      go (some (ok n, s')) e (read _ _ lt) =
          rw (read_frame, e)
            (read_body-Frame s.content n s' _ refl (read_until_delim-Verdict d s' pos) lt)
      go (some (err x, s')) e (cut _ _) = rw (read_frame, e, read_body) (missing s')
      go (some (panicked, s')) e l = elim l [ ]
      go none e l = elim l [ ]

  Ended : Option Pumped → Type 0
  Ended r = (p : Pumped) × (r ≡ some p)

  after_frame-Ended : (jpeg : Bytes) (r : Option Pumped) → Ended r → Ended (after_frame jpeg r)
  unfolding Ended
  after_frame-Ended jpeg r (p, e) = rw e (_, refl)

  length-header_line : (s : Source) → length (read_header_line s).1.content ≤ length s.content
  length-header_line s = go (read_header_line s) (read_header_line-Line s)
    where
      go : (r : Io Bytes × Source) → Line s.content r → length r.1.content ≤ length s.content
      go (ok line, s') (got _ _ lt) = omega arith
      go (err e, s') (lost _ _ gone) = omega arith
      go (panicked, s') l = elim l [ ]

  total_more :
      (later : List Source) (s s' : Source)
      → length s'.content ≤ length s.content
      → total later s' ≤ total later s
  total_more [] s s' le = le
  total_more (t ∷ ts) s s' le = omega arith

  -- Passing over an error leaves no more than there was.
  total-after_line :
      (later : List Source) (r : Io Bytes × Source)
      → total (after_line later r).1 (after_line later r).0 ≤ total later r.1
  total-after_line [] (line, s) = omega arith
  total-after_line (t ∷ ts) (err IoError.of_chunks, s) = omega arith
  total-after_line (t ∷ ts) (err IoError.unexpected_eof, s) = omega arith
  total-after_line (t ∷ ts) (err IoError.invalid_data, s) = omega arith
  total-after_line (t ∷ ts) (err IoError.connection, s) = omega arith
  total-after_line (t ∷ ts) (ok line, s) = omega arith
  total-after_line (t ∷ ts) (panicked, s) = omega arith

  total_less :
      (later : List Source) (s s' : Source)
      → length s'.content < length s.content
      → total later s' < total later s
  total_less [] s s' lt = lt
  total_less (t ∷ ts) s s' lt = omega arith

  frames_from_frame-Ended :
      (fuel : ℕ) (host : Host) (k : ℕ) (delivered : Bool) (later : List Source) (s : Source)
      (r : Option (Option Bytes × Source))
      → read_frame d s ≡ r
      → Frame s.content r
      → ((ts : List Source) (t : Source)
          → total ts t < total later s
          → Ended (frames_from fuel host d (suc k) true ts t))
      → Ended (frames_from (suc fuel) host d k delivered later s)
  unfolding frames_from Ended
  frames_from_frame-Ended fuel host k delivered later s (some (some jpeg, s')) e (whole _ _ lt)
        again =
      elim (Bool-cases (host.stops k)) [
        | inl stop ↦ rw (frames_from, stop) (_, refl)
        | inr run ↦ elim (Bool-cases (host.takes k)) [
          | inl take ↦
              let next = after_line later (read_header_line s') in
              rw (frames_from, run, e, take)
                (after_frame-Ended jpeg _ (
                  again next.1 next.0 (
                    omega (
                      arith,
                      total-after_line later (read_header_line s'),
                      total_more later s' (read_header_line s').1 (length-header_line s'),
                      total_less later s s' lt,
                    ))))
          | inr hung_up ↦ rw (frames_from, run, e, hung_up) (_, refl)
        ]
      ]
  frames_from_frame-Ended fuel host k delivered later s (some (none, s')) e (missing _) again =
      elim (Bool-cases (host.stops k)) [
        | inl stop ↦ rw (frames_from, stop) (_, refl)
        | inr run ↦ rw (frames_from, run, e) (_, refl)
      ]
  frames_from_frame-Ended fuel host k delivered later s none e x again = elim x [ ]

  frames_from-Ended :
      (fuel : ℕ) (host : Host) (k : ℕ) (delivered : Bool) (later : List Source) (s : Source)
      → total later s < fuel
      → Ended (frames_from fuel host d k delivered later s)
  frames_from-Ended zero host k delivered later s enough = absurd (omega arith)
  frames_from-Ended (suc fuel) host k delivered later s enough =
      frames_from_frame-Ended fuel host k delivered later s (read_frame d s) refl
        (read_frame-Frame s)
        (λ ts t lt. frames_from-Ended fuel host (suc k) true ts t (omega arith))

  pub pump_sources-ends :
      (host : Host) (s : Source) (later : List Source)
      → (p : Pumped) × (pump_sources host d s later ≡ some p)
  unfolding pump_sources pump_after Ended
  pump_sources-ends host s later = go (read_header_line s) (read_header_line-Line s)
    where
      go :
          (r : Io Bytes × Source)
          → Line s.content r
          → (p : Pumped) × (pump_after host d later r.0 r.1 ≡ some p)
      go (ok line, s') (got _ _ lt) =
          frames_from-Ended (suc (total later s')) host 0 false later s' (omega arith)
      go (err x, s') (lost _ _ gone) = (_, refl)
      go (panicked, s') l = elim l [ ]

  -- With a delimiter that is not empty, pumping ends on every stream and for every host, without a panic.
  pub pump_frames-ends : (host : Host) (s : Source) → (p : Pumped) × (pump_frames host d s ≡ some p)
  unfolding pump_frames
  pump_frames-ends host s = pump_sources-ends host s []
