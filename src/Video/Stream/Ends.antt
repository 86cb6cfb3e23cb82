-- ===== src/Video/Stream/Ends.antt =====
-- `run_stream` on any connections: each of its loops comes to an end.
use robocol.Prelude.{
  ℕ, zero, suc, ◌<◌, ◌≡◌, refl, ap, ◌∙◌, Bool, true, false, List, [], ◌∷◌, ◌++◌, Option, none, some,
  length, arith, Bool-cases, inl, inr, if◌then◌else◌,
}
use robocol.Prelude.Text.{codes}
use robocol.Wire.{Bytes}
use robocol.Wire.Trim.{split_whitespace}
use robocol.Video.Io.{Source, Io, IoError, ok, err, panicked}
use robocol.Video.Lines.{read_header_line}
use robocol.Video.Lines.Reading.{Line, got, lost, read_header_line-Line}
use robocol.Video.Head.{ResponseHead, head_lines, has_token, read_response_head}
use robocol.Video.Chunked.Ends.{unchunk-ends}
use robocol.Video.Frames.{Host, Pumped}
use robocol.Video.Frames.Ends.{pump_frames-ends, pump_sources-ends}
use robocol.Video.Stream.{
  Connection, VideoEvent, buffer_size, pump_unchunked, as_ok, nothing_delivered, pump_body,
  after_head, stream_once, Attempt, outcome, attempt, events_of, then_events, continue, run_stream,
  sleep_or_stop,
}

-- The head is read, or it cannot be.
data Head : Option (Io ResponseHead × Source) → Type 0 where
  whole : (h : ResponseHead) (s : Source) → Head (some (ok h, s))
  cut : (e : IoError) (s : Source) → Head (some (err e, s))

read_next-Head :
    (fuel : ℕ) (boundary : Option Bytes) (chunked : Bool) (s : Source) (r : Io Bytes × Source)
    → read_header_line s ≡ r
    → Line s.content r
    → ((b : Option Bytes) (c : Bool) (s' : Source)
        → length s'.content < length s.content
        → Head (head_lines fuel b c s'))
    → Head (head_lines (suc fuel) boundary chunked s)
unfolding head_lines
read_next-Head fuel none chunked s (ok [], s') e (got _ _ lt) again =
    rw (head_lines, ap (λ r. r.0) e, ap (λ r. r.1) e) (Head.cut IoError.invalid_data s')
read_next-Head fuel (some b) chunked s (ok [], s') e (got _ _ lt) again =
    rw (head_lines, ap (λ r. r.0) e, ap (λ r. r.1) e) (Head.whole _ s')
read_next-Head fuel boundary chunked s (ok (c ∷ line), s') e (got _ _ lt) again =
    rw (head_lines, ap (λ r. r.0) e, ap (λ r. r.1) e) (again _ _ s' lt)
read_next-Head fuel boundary chunked s (err x, s') e (lost _ _ le) again =
    rw (head_lines, ap (λ r. r.0) e, ap (λ r. r.1) e) (Head.cut x s')
read_next-Head fuel boundary chunked s (panicked, s') e l again = elim l [ ]

head_lines-Head :
    (fuel : ℕ) (boundary : Option Bytes) (chunked : Bool) (s : Source)
    → length s.content < fuel
    → Head (head_lines fuel boundary chunked s)
head_lines-Head zero boundary chunked s enough = absurd (omega arith)
head_lines-Head (suc fuel) boundary chunked s enough =
    read_next-Head fuel boundary chunked s (read_header_line s) refl (read_header_line-Line s)
      (λ b c s' lt. head_lines-Head fuel b c s' (omega arith))

read_response_head-Head : (s : Source) → Head (read_response_head s)
unfolding read_response_head
read_response_head-Head s = go (read_header_line s) refl (read_header_line-Line s)
  where
    go :
        (r : Io Bytes × Source)
        → read_header_line s ≡ r
        → Line s.content r
        → Head (read_response_head s)
    go (ok status, s') e (got _ _ lt) =
        elim (Bool-cases (has_token (codes "200") (split_whitespace status))) [
          | inl fine ↦
              rw (read_response_head, ap (λ r. r.0) e, ap (λ r. r.1) e, fine)
                (head_lines-Head (suc (length s'.content)) none false s' (omega arith))
          | inr refused ↦
              rw (read_response_head, ap (λ r. r.0) e, ap (λ r. r.1) e, refused)
                (Head.cut IoError.invalid_data s')
        ]
    go (err x, s') e (lost _ _ le) =
        rw (read_response_head, ap (λ r. r.0) e, ap (λ r. r.1) e) (Head.cut x s')
    go (panicked, s') e l = elim l [ ]

pump_body-ends :
    (host : Host) (conn : Connection) (chunked : Bool) (boundary : Bytes) (s : Source)
    → (p : Pumped) × (pump_body host conn chunked (codes "--" ++ boundary) s ≡ some p)
unfolding pump_body
pump_body-ends host conn false boundary s =
    pump_frames-ends (codes "--" ++ boundary) (omega arith) host s
pump_body-ends host conn true boundary s =
    let ((s', later), e) = unchunk-ends buffer_size conn.offered s in
    let (p, e') = pump_sources-ends (codes "--" ++ boundary) (omega arith) host s' later in
    (p, ap (pump_unchunked host (codes "--" ++ boundary)) e ∙ e')

after_head-ends :
    (host : Host) (conn : Connection) (r : Option (Io ResponseHead × Source))
    → Head r
    → (p : Pumped) × (outcome (after_head host conn r) ≡ some p)
unfolding after_head outcome
after_head-ends host conn (some (ok h, s)) (Head.whole _ _) =
    let (p, e) = pump_body-ends host conn h.chunked h.boundary s in
    (p, ap (λ b. outcome (as_ok b)) e)
after_head-ends host conn (some (err e, s)) (Head.cut _ _) = (_, refl)
after_head-ends host conn (some (panicked, s)) x = elim x [ ]
after_head-ends host conn none x = elim x [ ]

attempt-ends : (a : Attempt) → (p : Pumped) × (attempt a ≡ some p)
unfolding attempt stream_once
attempt-ends a = by_connection a.connection
  where
    by_connection :
        (c : Option Connection)
        → (p : Pumped) × (elim c as (λ _. Option Pumped) [
          | none ↦ some nothing_delivered
          | some conn ↦ outcome (stream_once a.host conn)
        ]
            ≡ some p)
    by_connection none = (_, refl)
    by_connection (some conn) =
        after_head-ends a.host conn (read_response_head conn.response)
          (read_response_head-Head conn.response)

either_ends :
    (b : Bool) (p q : Option (List VideoEvent))
    → (es : List VideoEvent) × (p ≡ some es)
    → (es : List VideoEvent) × (q ≡ some es)
    → (es : List VideoEvent) × ((if b then p else q) ≡ some es)
either_ends true p q h k = h
either_ends false p q h k = k

continue-ends :
    (a : Attempt) (p : Option Pumped) (later : Option (List VideoEvent))
    → (q : Pumped) × (p ≡ some q)
    → (es : List VideoEvent) × (later ≡ some es)
    → (es : List VideoEvent) × (continue a p later ≡ some es)
unfolding continue
continue-ends a p later (q, e) (es, e') =
    let ended =
      either_ends (sleep_or_stop a.stops) (some (events_of a.listens q))
        (then_events (events_of a.listens q) later) (events_of a.listens q, refl)
        (events_of a.listens q ++ es, ap (then_events (events_of a.listens q)) e') in
    (ended.0, ap (λ o. continue a o later) e ∙ ended.1)

-- On any connections, with responses of any bytes that end or fail anywhere, an error of the connection lasting
-- and one of the chunks passed over where the code reads on, each round of `run_stream` comes to an end without
-- a panic: its loops over lines, chunks and frames have the fuel that they need.
pub run_stream-ends :
    (attempts : List Attempt) → (es : List VideoEvent) × (run_stream attempts ≡ some es)
unfolding run_stream
run_stream-ends [] = ([], refl)
run_stream-ends (a ∷ rest) =
    either_ends a.stopped (some []) (continue a (attempt a) (run_stream rest)) ([], refl)
      (continue-ends a (attempt a) (run_stream rest) (attempt-ends a) (run_stream-ends rest))
