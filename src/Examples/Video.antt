-- ===== src/Examples/Video.antt =====
-- The video client's theorems at concrete streams.
use robocol.Prelude.{
  ◌^◌, ℕ, ◌≡◌, ◌==◌, refl, true, false, List, [], ◌∷◌, ◌++◌, none, some, All, arith,
}
use robocol.Prelude.Text.{codes}
use robocol.Wire.{from_utf8_lossy, from_utf8_lossy-nonempty, Bytes}
use robocol.Video.Io.{Source, Ending, ok}
use robocol.Video.Delim.{read_until_delim}
use robocol.Video.Delim.Search.{Verdict, read_until_delim-Verdict}
use robocol.Video.Kmp.{kmp_failure}
use robocol.Video.Kmp.Table.{Table, kmp_failure-Table}
use robocol.Video.Frames.Parts.{Part, IsPart, write_parts, clean_if}
use robocol.Video.Frames.Ends.{pump_frames-ends}
use robocol.Video.Frames.Delivery.{pump_frames-parts}
use robocol.Video.Lines.{strip_eol}
use robocol.Video.Lines.Reading.{IsLine, crlf}
use robocol.Video.Frames.{Host, Pumped, pump_frames}
use robocol.Video.Chunked.{chunk_size, unchunk}
use robocol.Video.Chunked.Decoding.{Chunk, IsChunk, write_chunks}
use robocol.Video.Chunked.Joined.{unchunk-write_chunks}
use robocol.Video.Url
use robocol.Video.Text.{from_str_radix}
use robocol.Video.Url.Address.{parse-address}
use robocol.Video.Stream.{Attempt, VideoEvent, run_stream}
use robocol.Video.Stream.Ends.{run_stream-ends}

abbrev delim : Bytes
delim = codes "--frame"

-- A body in which the delimiter begins twice before it is there.
abbrev near_miss : Source
near_miss = record { content = codes "a--fr--fram--framed"; ending = Ending.closed }

read_until_delim-Verdict_example :
    Verdict delim (codes "a--fr--fram--framed") Ending.closed (read_until_delim delim near_miss)
read_until_delim-Verdict_example = read_until_delim-Verdict delim near_miss (omega arith)

kmp_failure-Table_example : (table : List ℕ) × (kmp_failure delim ≡ some table) × Table delim table
kmp_failure-Table_example = kmp_failure-Table delim (omega arith)

kmp_failure_run : kmp_failure (codes "aabaaab") ≡ some (0 ∷ 1 ∷ 0 ∷ 1 ∷ 2 ∷ 2 ∷ 3 ∷ [])
unfolding kmp_failure
kmp_failure_run = refl

near_miss_run :
    read_until_delim delim near_miss
    ≡ (ok (codes "a--fr--fram"), record { content = codes "d"; ending = Ending.closed })
unfolding read_until_delim
near_miss_run = refl

abbrev willing : Host
willing = record { stops = λ k. false; takes = λ k. true }

-- The first body has a delimiter that is not whole, and the second one has no header.
abbrev parts : List Part
parts =
    (record { headers = codes "Content-Length: 6" ∷ codes "X: y" ∷ []; jpeg = codes "a--fra" })
    ∷ (record { headers = []; jpeg = codes "b" ++ crlf })
    ∷ []

delim-IsLine : IsLine delim
unfolding strip_eol
delim-IsLine = record { no_lf = refl; bare = refl; short = omega arith }

headed-IsPart :
    IsPart delim
      (record { headers = codes "Content-Length: 6" ∷ codes "X: y" ∷ []; jpeg = codes "a--fra" })
unfolding read_until_delim strip_eol
headed-IsPart = record {
  lines = (
    record { no_lf = refl; bare = refl; short = omega arith },
    (record { no_lf = refl; bare = refl; short = omega arith }, tt),
  );
  bodied = (λ e. cc, (λ e. cc, tt));
  clean = clean_if delim (codes "a--fra" ++ crlf) (omega arith) refl;
  short = omega arith;
}

bare-IsPart : IsPart delim (record { headers = []; jpeg = codes "b" ++ crlf })
unfolding read_until_delim
bare-IsPart = record {
  lines = tt;
  bodied = tt;
  clean = clean_if delim (codes "b" ++ crlf ++ crlf) (omega arith) refl;
  short = omega arith;
}

pump_frames-parts_example :
    pump_frames willing delim
      (record { content = delim ++ (crlf ++ write_parts delim parts); ending = Ending.closed })
    ≡ some (record { frames = codes "a--fra" ∷ (codes "b" ++ crlf) ∷ []; delivered = true })
pump_frames-parts_example =
    pump_frames-parts delim (omega arith) Ending.closed willing (λ k. refl) (λ k. refl) delim parts
      delim-IsLine (headed-IsPart, (bare-IsPart, tt))

pump_frames-ends_example : (p : Pumped) × (pump_frames willing delim near_miss ≡ some p)
pump_frames-ends_example = pump_frames-ends delim (omega arith) willing near_miss

chunk_size_run : chunk_size (codes "1A; x=y") ≡ some 26
unfolding chunk_size
chunk_size_run = refl

parse_run :
    Url.parse [] (codes "http://10.0.0.1:5800/cam")
    ≡ some (record { source = []; host = codes "10.0.0.1"; port = 5800; path = codes "/cam" })
unfolding Url.parse
parse_run = refl

abbrev chunks : List Chunk
chunks =
    (record { line = codes "4;x=1"; bytes = codes "abcd" })
    ∷ (record { line = codes " 0A"; bytes = codes "0123456789" })
    ∷ []

chunks-IsChunk : All IsChunk chunks
unfolding strip_eol chunk_size from_utf8_lossy
chunks-IsChunk = (
  record {
    sized = record { no_lf = refl; bare = refl; short = omega arith };
    some_line = λ e. cc;
    some_bytes = omega arith;
    size = refl;
  },
  (
    record {
      sized = record { no_lf = refl; bare = refl; short = omega arith };
      some_line = λ e. cc;
      some_bytes = omega arith;
      size = refl;
    },
    tt,
  ),
)

last-IsLine : IsLine (codes "0")
unfolding strip_eol
last-IsLine = record { no_lf = refl; bare = refl; short = omega arith }

last_size : chunk_size (from_utf8_lossy (codes "0")) ≡ some 0
unfolding chunk_size from_utf8_lossy
last_size = refl

unchunk-write_chunks_example :
    unchunk 3
      (λ k. k)
      (record {
        content = write_chunks chunks (codes "0" ++ (crlf ++ crlf));
        ending = Ending.closed;
      })
    ≡ some (record { content = codes "abcd0123456789"; ending = Ending.closed }, [])
unchunk-write_chunks_example =
    unchunk-write_chunks Ending.closed 3 (omega arith) (λ k. k) (codes "0") crlf last-IsLine
      (from_utf8_lossy-nonempty 48 []) last_size chunks chunks-IsChunk

camera_port : from_str_radix 10 (2 ^ 16) (codes "5800") ≡ some 5800
unfolding from_str_radix
camera_port = refl

parse-address_example :
    Url.parse [] (codes "http://" ++ (codes "[::1]" ++ (58 ∷ codes "5800" ++ (47 ∷ codes "cam"))))
    ≡ some (record { source = []; host = codes "[::1]"; port = 5800; path = codes "/cam" })
parse-address_example =
    parse-address [] (codes "::1]") (codes "5800") (codes "cam") 91 5800 refl refl refl camera_port

abbrev response : Bytes
response =
    codes "HTTP/1.0 200 OK"
    ++ crlf
    ++ codes "Content-Type: multipart/x-mixed-replace; boundary=frame"
    ++ crlf
    ++ crlf
    ++ (delim ++ (crlf ++ write_parts delim parts))

abbrev refused_response : Bytes
refused_response = codes "HTTP/1.0 404 Not Found" ++ crlf ++ crlf

abbrev round : Bytes → Attempt
round content = record {
  stopped = false;
  connection = some (record {
    response = record { content = content; ending = Ending.closed };
    offered = λ k. 7;
  });
  host = willing;
  listens = true;
  stops = λ k. false;
}

-- No connection, a response that is refused, a stream, and no connection again when the host stops.
abbrev rounds : List Attempt
rounds =
    (record (round []) { connection = none })
    ∷ round refused_response
    ∷ round response
    ∷ (record (round []) { connection = none; stops = λ k. k == 3 })
    ∷ []

abbrev rounds_events : List VideoEvent
rounds_events =
    VideoEvent.frame (codes "a--fra")
    ∷ VideoEvent.frame (codes "b" ++ crlf)
    ∷ VideoEvent.disconnected
    ∷ []

run_stream-ends_example : (es : List VideoEvent) × (run_stream rounds ≡ some es)
run_stream-ends_example = run_stream-ends rounds
