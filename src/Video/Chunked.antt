-- ===== src/Video/Chunked.antt =====
-- `ChunkedReader`: the body of a chunked HTTP response.
pub mod Decoding
pub mod Joined
pub mod Ends
use robocol.Prelude.{
  ℕ, zero, suc, ◌-◌, ◌^◌, Bool, true, false, ◌||◌, List, [], ◌∷◌, ◌++◌, Option, none, some, ◌==◌,
  ltb, length, take, drop, if◌then◌else◌,
}
use robocol.Wire.{Bytes}
use robocol.Wire.Trim.{trim}
use robocol.Video.Io.{Source, Ending, Io, IoError, ok, err, panicked, at_end}
use robocol.Video.Text.{split_once, from_str_radix}
use robocol.Video.Lines.{read_header_line}

pub record ChunkedReader : Type 0 where
  pub inner : Source
  pub remaining : ℕ
  pub done : Bool

-- `new`.
abbrev pub create : Source → ChunkedReader
create inner = record { inner = inner; remaining = 0; done = false }

-- `while line.is_empty()`: the first line that is not empty. `none` is the fuel run out.
unfoldable pub skip_empty : ℕ → Source → Option (Io Bytes × Source)
unfolding read_header_line
skip_empty zero s = none
skip_empty (suc fuel) s =
    let (line, s') = read_header_line s in
    elim line [
      | err e ↦ some (err e, s')
      | panicked ↦ some (panicked, s')
      | ok [] ↦ skip_empty fuel s'
      | ok (c ∷ line) ↦ some (ok (c ∷ line), s')
    ]

-- The size on a chunk's first line, which extensions may follow.
unfoldable pub chunk_size : Bytes → Option ℕ
unfolding split_once trim from_str_radix
chunk_size line =
    from_str_radix 16 (2 ^ 64)
      (trim (elim (split_once 59 line) [ none ↦ line | some (size, extensions) ↦ size ]))

-- A chunk begins with its size; the last one has size 0.
unfoldable pub begin_chunk : ChunkedReader → Io Bytes → Source → Io ℕ × ChunkedReader
unfolding chunk_size
begin_chunk r (err e) s = (err e, record r { inner = s })
begin_chunk r panicked s = (panicked, record r { inner = s })
begin_chunk r (ok line) s = elim (chunk_size line) [
  | none ↦ (err IoError.invalid_data, record r { inner = s })
  | some zero ↦ (ok 0, record r { inner = s; done = true })
  | some (suc n) ↦ (ok (suc n), record r { inner = s; remaining = suc n })
]

-- The first half of `read`: with nothing left of a chunk, the next one begins.
unfoldable pub next_chunk : ChunkedReader → Option (Io ℕ × ChunkedReader)
unfolding skip_empty begin_chunk
next_chunk r = elim (skip_empty (suc (length r.inner.content)) r.inner) [
  | none ↦ none
  | some (line, s) ↦ some (begin_chunk r line s)
]

abbrev pub least : ℕ → ℕ → ℕ
least a b = if ltb b a then b else a

abbrev pub advance : ℕ → Source → Source
advance n s = record s { content = drop n s.content }

-- The line end after a chunk: two bytes, whichever they are.
unfoldable pub end_chunk : Bytes → ChunkedReader → Io Bytes × ChunkedReader
end_chunk bytes r =
    if ltb 0 r.remaining
    then (ok bytes, r)
    else if ltb (length r.inner.content) 2
    then (err (at_end r.inner.ending), record r { inner = advance 2 r.inner })
    else (ok bytes, record r { inner = advance 2 r.inner })

-- The second half: `inner.read` into at most `want` bytes, of which it fills `offered` at most, and one at least
-- unless the stream is at its end.
unfoldable pub read_chunk : ℕ → ℕ → ChunkedReader → Io Bytes × ChunkedReader
unfolding end_chunk
read_chunk len offered r =
    let want = least (least r.remaining len) (suc offered) in
    let bytes = take want r.inner.content in
    if length bytes == 0
    then (err (at_end r.inner.ending), r)
    else end_chunk bytes
        (record r { inner = advance want r.inner; remaining = r.remaining - length bytes })

-- `read` where a chunk begins, or the body ends.
unfoldable pub read_begun : ℕ → ℕ → Io ℕ → ChunkedReader → Io Bytes × ChunkedReader
unfolding read_chunk
read_begun len offered (err e) r = (err e, r)
read_begun len offered panicked r = (panicked, r)
read_begun len offered (ok zero) r = (ok [], r)
read_begun len offered (ok (suc n)) r = read_chunk len offered r

-- `read` with a buffer of `len` bytes.
unfoldable pub read : ℕ → ℕ → ChunkedReader → Option (Io Bytes × ChunkedReader)
unfolding next_chunk read_chunk read_begun
read len offered r =
    if r.done || (len == 0)
    then some (ok [], r)
    else if ltb 0 r.remaining
    then some (read_chunk len offered r)
    else elim (next_chunk r) [
      | none ↦ none
      | some (size, r') ↦ some (read_begun len offered size r')
    ]

-- The bytes of the reads behind an error are a source of their own.
abbrev pub behind_error : Option (Source × List Source) → Option (Source × List Source)
behind_error none = none
behind_error (some (s, ss)) =
    some (record { content = []; ending = Ending.failed IoError.of_chunks }, s ∷ ss)

-- What one `read` adds to what all reads give: an end, bytes before what the others give, or an error. Behind
-- an error the reader reads on, if its inner stream has a byte left; else every later read fails too.
abbrev pub drained :
    Io Bytes → ChunkedReader → Option (Source × List Source) → Option (Source × List Source)
drained panicked r later = none
drained (ok []) r later = some (record { content = []; ending = Ending.closed }, [])
drained (ok (b ∷ bytes)) r none = none
drained (ok (b ∷ bytes)) r (some (s, ss)) =
    some (record s { content = (b ∷ bytes) ++ s.content }, ss)
drained (err e) r later = elim r.inner.content as (λ _. Option (Source × List Source)) [
  | [] ↦ some (record { content = []; ending = Ending.failed IoError.of_chunks }, [])
  | _ ∷ _ ↦ behind_error later
]

-- `BufReader` over the reader: `read` again and again, the k-th time from an inner stream that has so many
-- bytes on offer, until it gives nothing. `none` is the fuel run out.
unfoldable pub drain : ℕ → ℕ → (ℕ → ℕ) → ℕ → ChunkedReader → Option (Source × List Source)
unfolding read
drain zero len offered k r = none
drain (suc fuel) len offered k r = elim (read len (offered k) r) [
  | none ↦ none
  | some (bytes, r') ↦ drained bytes r' (drain fuel len offered (suc k) r')
]

-- The bytes up to the first error or the end, and the sources behind each error. Each read takes a byte of
-- the stream at least, so its length is fuel enough.
unfoldable pub unchunk : ℕ → (ℕ → ℕ) → Source → Option (Source × List Source)
unfolding drain
unchunk len offered s = drain (suc (length s.content)) len offered 0 (create s)
