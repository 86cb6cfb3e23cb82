-- ===== src/Video/Lines.antt =====
-- `read_until_crlf` and `read_header_line`: one line of a header, at most 8193 bytes of it.
pub mod Reading
use robocol.Prelude.{ℕ, ◌+◌, Bool, ◌&&◌, ◌||◌, [], ◌∷◌, ◌==◌, ltb, length, if◌then◌else◌}
use robocol.Wire.{Bytes, from_utf8_lossy}
use robocol.Video.Io.{Source, Ending, Io, IoError, ok, err, panicked}

abbrev pub max_line : ℕ
max_line = 8192

-- One more byte in front of what the rest of the loop reads.
abbrev pub keep_byte : ℕ → Io Bytes × Source → Io Bytes × Source
keep_byte b (ok line, s) = (ok (b ∷ line), s)
keep_byte b (err e, s) = (err e, s)
keep_byte b (panicked, s) = (panicked, s)

-- The loop, once so many bytes are read. The end of the stream ends the line.
unfoldable pub line_from : Ending → ℕ → Bytes → Io Bytes × Source
line_from Ending.closed read [] = (ok [], record { content = []; ending = Ending.closed })
line_from (Ending.failed e) read [] = (err e, record { content = []; ending = Ending.failed e })
line_from ending read (b ∷ left) =
    let rest = keep_byte b (line_from ending (read + 1) left) in
    if b == 0x0a || ltb max_line (read + 1)
    then (ok (b ∷ []), record { content = left; ending = ending })
    else rest

unfoldable pub read_until_crlf : Source → Io Bytes × Source
unfolding line_from
read_until_crlf s = line_from s.ending 0 s.content

abbrev pub is_eol : ℕ → Bool
is_eol b = b == 0x0d || b == 0x0a

-- `while matches!(line.last(), Some(b'\r' | b'\n')) { line.pop(); }`.
unfoldable pub strip_eol : Bytes → Bytes
strip_eol [] = []
strip_eol (b ∷ line) =
    let rest = strip_eol line in if is_eol b && (length rest == 0) then [] else b ∷ rest

-- The line without its end, or the error of a stream that has no line left.
unfoldable pub finish_line : Io Bytes × Source → Io Bytes × Source
unfolding strip_eol from_utf8_lossy
finish_line (ok [], s) = (err IoError.unexpected_eof, s)
finish_line (ok (b ∷ line), s) = (ok (from_utf8_lossy (strip_eol (b ∷ line))), s)
finish_line (err e, s) = (err e, s)
finish_line (panicked, s) = (panicked, s)

unfoldable pub read_header_line : Source → Io Bytes × Source
unfolding read_until_crlf finish_line
read_header_line s = finish_line (read_until_crlf s)
