-- ===== src/Video/Chunked/Decoding.antt =====
-- A chunked body as a server writes it, and what the reads of `ChunkedReader` come to on it.
use robocol.Prelude.{
  ℕ, zero, suc, ◌-◌, ◌≤◌, ◌<◌, ◌≡◌, ◌≢◌, refl, sym, ap, true, false, List, [], ◌∷◌, ◌++◌, Option,
  some, ◌==◌, ltb, length, take, drop, length-take, length-drop, arith,
}
use robocol.Wire.{Bytes, from_utf8_lossy}
use robocol.Video.Io.{Source, Ending, Io, ok, err, panicked}
use robocol.Video.Lines.{read_header_line}
use robocol.Video.Lines.Reading.{IsLine, crlf, read_header_line-crlf}
use robocol.Video.Chunked.{
  ChunkedReader, skip_empty, chunk_size, begin_chunk, next_chunk, least, end_chunk, read_chunk,
  read_begun, read,
}

pub record Chunk : Type 0 where
  pub line : Bytes
  pub bytes : Bytes

-- A size line that is read as it stands and gives the count of the bytes, of which there is one at least.
pub record IsChunk (c : Chunk) : Type 0 where
  pub sized : IsLine c.line
  pub some_line : from_utf8_lossy c.line ≢ []
  pub some_bytes : 0 < length c.bytes
  pub size : chunk_size (from_utf8_lossy c.line) ≡ some (length c.bytes)

abbrev pub write_chunks : List Chunk → Bytes → Bytes
write_chunks [] tail = tail
write_chunks (c ∷ cs) tail = c.line ++ (crlf ++ (c.bytes ++ (crlf ++ write_chunks cs tail)))

abbrev pub joined : List Chunk → Bytes
joined [] = []
joined (c ∷ cs) = c.bytes ++ joined cs

-- The reader with these bytes left of a chunk.
abbrev pub inside : Ending → Bytes → Bytes → ChunkedReader
inside ending [] tail = record {
  inner = record { content = tail; ending = ending };
  remaining = 0;
  done = false;
}
inside ending (b ∷ left) tail = record {
  inner = record { content = (b ∷ left) ++ (crlf ++ tail); ending = ending };
  remaining = length (b ∷ left);
  done = false;
}

take-within : (n : ℕ) (xs ys : Bytes) → n ≤ length xs → take n (xs ++ ys) ≡ take n xs
take-within zero xs ys h = refl
take-within (suc n) [] ys h = absurd (omega arith)
take-within (suc n) (x ∷ xs) ys h = ap (λ z. x ∷ z) (take-within n xs ys (omega arith))

drop-within : (n : ℕ) (xs ys : Bytes) → n ≤ length xs → drop n (xs ++ ys) ≡ drop n xs ++ ys
drop-within zero xs ys h = refl
drop-within (suc n) [] ys h = absurd (omega arith)
drop-within (suc n) (x ∷ xs) ys h = drop-within n xs ys (omega arith)

end_chunk-inside :
    (ending : Ending) (bytes rest tail : Bytes)
    → end_chunk bytes (record {
      inner = record { content = rest ++ (crlf ++ tail); ending = ending };
      remaining = length rest;
      done = false;
    })
      ≡ (ok bytes, inside ending rest tail)
unfolding end_chunk
end_chunk-inside ending bytes [] tail =
    let full : ltb (suc (suc (length tail))) 2 ≡ false = ground arith in rw full refl
end_chunk-inside ending bytes (b ∷ rest) tail =
    let more : ltb 0 (suc (length rest)) ≡ true = ground arith in rw (end_chunk, more) refl

-- What is read of a chunk at once: at least a byte, and no more than is left of it.
unfoldable pub wanted : ℕ → ℕ → Bytes → ℕ
wanted len offered left = least (least (length left) len) (suc offered)

pub wanted_bounds :
    (len offered : ℕ) (left : Bytes)
    → 0 < len
    → 0 < length left
    → (0 < wanted len offered left) × (wanted len offered left ≤ length left)
unfolding wanted
wanted_bounds len offered left room pos = (ground (arith, room, pos), ground arith)

read_chunk-inside :
    (ending : Ending) (len offered b : ℕ) (left tail : Bytes)
    → 0 < len
    → read_chunk len offered (inside ending (b ∷ left) tail) ≡ (
      ok (take (wanted len offered (b ∷ left)) (b ∷ left)),
      inside ending (drop (wanted len offered (b ∷ left)) (b ∷ left)) tail,
    )
unfolding read_chunk wanted
read_chunk-inside ending len offered b left tail room =
    let all = b ∷ left in
    let w = wanted len offered all in
    let bounds = wanted_bounds len offered all room (omega arith) in
    let lt : length (take w all) ≡ w = omega (arith, length-take w all, bounds) in
    let ld : length (drop w all) ≡ length all - w = length-drop w all in
    let some_read : (w == 0) ≡ false = ground (arith, bounds.0) in
    rw
      (
        read_chunk,
        take-within w all (crlf ++ tail) bounds.1,
        lt,
        some_read,
        drop-within w all (crlf ++ tail) bounds.1,
        sym ld,
      )
      (end_chunk-inside ending (take w all) (drop w all) tail)

not_zero : (n : ℕ) → 0 < n → (n == 0) ≡ false
not_zero n pos = ground (arith, pos)

is_positive : (n : ℕ) → ltb 0 (suc n) ≡ true
is_positive n = ground arith

-- `read` inside a chunk.
pub read-inside :
    (ending : Ending) (len offered b : ℕ) (left tail : Bytes)
    → 0 < len
    → read len offered (inside ending (b ∷ left) tail)
      ≡ some (
        ok (take (wanted len offered (b ∷ left)) (b ∷ left)),
        inside ending (drop (wanted len offered (b ∷ left)) (b ∷ left)) tail,
      )
unfolding read
read-inside ending len offered b left tail room =
    let some_room = not_zero len room in
    let more = is_positive (length left) in
    rw (read, some_room, more) (ap some (read_chunk-inside ending len offered b left tail room))

-- The line at the start of a chunk, which is not empty.
skip_empty-line :
    (fuel : ℕ) (ending : Ending) (line rest : Bytes)
    → IsLine line
    → from_utf8_lossy line ≢ []
    → skip_empty (suc fuel) (record { content = line ++ (crlf ++ rest); ending = ending })
      ≡ some (ok (from_utf8_lossy line), record { content = rest; ending = ending })
unfolding skip_empty
skip_empty-line fuel ending line rest l bodied =
    go (read_header_line (record { content = line ++ (crlf ++ rest); ending = ending }))
      (from_utf8_lossy line) (read_header_line-crlf ending line rest l) bodied
  where
    go :
        (r : Io Bytes × Source) (text : Bytes)
        → r ≡ (ok text, record { content = rest; ending = ending })
        → text ≢ []
        → (elim r.0 as (λ _. Option (Io Bytes × Source)) [
          | err e ↦ some (err e, r.1)
          | panicked ↦ some (panicked, r.1)
          | ok [] ↦ skip_empty fuel r.1
          | ok (c ∷ text') ↦ some (ok (c ∷ text'), r.1)
        ])
          ≡ some (ok text, record { content = rest; ending = ending })
    go r [] e h = absurd (h refl)
    go r (c ∷ text) e h = rw (ap (λ z. z.0) e, ap (λ z. z.1) e) refl

-- Where a chunk begins, `read` does what it does inside the chunk.
pub read-begin :
    (ending : Ending) (len offered b : ℕ) (line left tail : Bytes)
    → 0 < len
    → IsLine line
    → from_utf8_lossy line ≢ []
    → chunk_size (from_utf8_lossy line) ≡ some (suc (length left))
    → read len offered (inside ending [] (line ++ (crlf ++ ((b ∷ left) ++ (crlf ++ tail)))))
      ≡ read len offered (inside ending (b ∷ left) tail)
unfolding read next_chunk begin_chunk read_begun
read-begin ending len offered b line left tail room l bodied size =
    let some_room = not_zero len room in
    let more = is_positive (length left) in
    let content = (b ∷ left) ++ (crlf ++ tail) in
    rw
      (
        read,
        some_room,
        more,
        next_chunk,
        skip_empty-line (length (line ++ (crlf ++ content))) ending line content l bodied,
        begin_chunk,
        size,
      )
      refl

-- A size of 0 ends the body.
pub read-last :
    (ending : Ending) (len offered : ℕ) (line tail : Bytes)
    → 0 < len
    → IsLine line
    → from_utf8_lossy line ≢ []
    → chunk_size (from_utf8_lossy line) ≡ some 0
    → (r : ChunkedReader) × (read len offered (inside ending [] (line ++ (crlf ++ tail)))
        ≡ some (ok [], r))
unfolding read next_chunk begin_chunk read_begun
read-last ending len offered line tail room l bodied size =
    let some_room = not_zero len room in
    rw
      (
        read,
        some_room,
        next_chunk,
        skip_empty-line (length (line ++ (crlf ++ tail))) ending line tail l bodied,
        begin_chunk,
        size,
      )
      (_, refl)
