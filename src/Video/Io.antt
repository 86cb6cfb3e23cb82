-- ===== src/Video/Io.antt =====
-- What a reader of robocol/src/video.rs reads from, and the outcomes of reading.
use robocol.Wire.{Bytes}

-- The last one stands for each error of a chunked reader.
pub data IoError : Type 0 where
  unexpected_eof invalid_data connection of_chunks : IoError

-- How a stream ends: `read` gives 0 bytes, or fails. An error of a connection is taken to last: every later
-- `read` fails too. A chunked reader may go on behind an error, and is a sequence of sources.
pub data Ending : Type 0 where
  closed : Ending
  failed : IoError → Ending

-- What is still to come. How the bytes are split over the calls of `fill_buf` is not seen by the code.
pub record Source : Type 0 where
  pub content : Bytes
  pub ending : Ending

-- `io::Result`, and an index out of bounds, at which the source panics.
pub data Io {ℓ} (A : Type ℓ) : Type ℓ where
  ok : A → Io A
  err : IoError → Io A
  panicked : Io A

-- The error that the end of the stream gives a reader which wants more.
abbrev pub at_end : Ending → IoError
at_end closed = IoError.unexpected_eof
at_end (failed e) = e
