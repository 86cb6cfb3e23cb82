-- ===== src/Video/Chunked/Joined.antt =====
-- All reads of a chunked body, one after another.
use robocol.Prelude.{
  ℕ, zero, suc, ◌+◌, ◌≤◌, ◌<◌, ◌≡◌, ◌≢◌, refl, sym, ap, ◌∙◌, List, [], ◌∷◌, ◌++◌, append_assoc,
  Option, none, some, length, take, drop, length-append, length-drop, length-take, subst,
  take-append-drop, All, arith,
}
use robocol.Wire.{Bytes, from_utf8_lossy}
use robocol.Video.Io.{Source, Ending, ok}
use robocol.Video.Lines.Reading.{IsLine, crlf}
use robocol.Video.Chunked.{ChunkedReader, chunk_size, drained, drain, unchunk}
use robocol.Video.Chunked.Decoding.{
  Chunk, IsChunk, write_chunks, joined, inside, wanted, wanted_bounds, read-inside, read-begin,
  read-last,
}

drained-bytes :
    (r : ChunkedReader) (bytes content : Bytes)
    → 0 < length bytes
    → drained (ok bytes) r (some (record { content = content; ending = Ending.closed }, []))
      ≡ some (record { content = bytes ++ content; ending = Ending.closed }, [])
drained-bytes r [] content pos = absurd (omega arith)
drained-bytes r (b ∷ bytes) content pos = refl

first_byte : (xs : Bytes) → 0 < length xs → (b : ℕ) × (left : Bytes) × (xs ≡ b ∷ left)
first_byte [] pos = absurd (omega arith)
first_byte (b ∷ left) pos = (b, left, refl)

module _ (ending : Ending) (len : ℕ) (room : 0 < len) (offered : ℕ → ℕ) (last rest : Bytes)
    (l : IsLine last) (bodied : from_utf8_lossy last ≢ [])
    (zero_size : chunk_size (from_utf8_lossy last) ≡ some 0) where
  abbrev after : List Chunk → Bytes
  after cs = write_chunks cs (last ++ (crlf ++ rest))

  abbrev result : Bytes → List Chunk → Option (Source × List Source)
  result left cs = some (record { content = left ++ joined cs; ending = Ending.closed }, [])

  drain_chunk :
      (fuel k b : ℕ) (left : Bytes) (cs : List Chunk)
      → ((left' : Bytes)
          → length left' ≤ length left
          → drain fuel len offered (suc k) (inside ending left' (after cs)) ≡ result left' cs)
      → drain (suc fuel) len offered k (inside ending (b ∷ left) (after cs)) ≡ result (b ∷ left) cs
  unfolding drain
  drain_chunk fuel k b left cs again =
      let all = b ∷ left in
      let w = wanted len (offered k) all in
      let bounds = wanted_bounds len (offered k) all room (omega arith) in
      let shorter : length (drop w all) ≤ length left = omega (arith, length-drop w all, bounds) in
      let some_bytes : 0 < length (take w all) = omega (arith, length-take w all, bounds) in
      rw
        (
          drain,
          read-inside ending len (offered k) b left (after cs) room,
          again (drop w all) shorter,
        )
        (drained-bytes _ (take w all) (drop w all ++ joined cs) some_bytes
          ∙ ap (λ z. some (record { content = z; ending = Ending.closed }, []))
              (sym (append_assoc (take w all) (drop w all) (joined cs))
                ∙ ap (λ z. z ++ joined cs) (take-append-drop w all)))

  Begun : ℕ → ℕ → Bytes → List Chunk → Bytes → Type 0
  Begun fuel k line cs bytes =
      drain (suc fuel) len offered k
        (inside ending [] (line ++ (crlf ++ (bytes ++ (crlf ++ after cs)))))
      ≡ result bytes cs

  -- A chunk that begins is drained like one that has begun.
  begin_chunk-drain :
      (fuel k b : ℕ) (line left : Bytes) (cs : List Chunk)
      → IsLine line
      → from_utf8_lossy line ≢ []
      → chunk_size (from_utf8_lossy line) ≡ some (suc (length left))
      → drain
          (suc fuel)
          len
          offered
          k
          (inside ending [] (line ++ (crlf ++ ((b ∷ left) ++ (crlf ++ after cs)))))
        ≡ drain (suc fuel) len offered k (inside ending (b ∷ left) (after cs))
  unfolding drain
  begin_chunk-drain fuel k b line left cs is_line some_line size =
      ap
        (λ r. elim r as (λ _. Option (Source × List Source)) [
          | none ↦ none
          | some x ↦ drained x.0 x.1 (drain fuel len offered (suc k) x.1)
        ])
        (read-begin ending len (offered k) b line left (after cs) room is_line some_line size)

  drain-inside :
      (fuel k : ℕ) (left : Bytes) (cs : List Chunk)
      → All IsChunk cs
      → length left + length (joined cs) < fuel
      → drain fuel len offered k (inside ending left (after cs)) ≡ result left cs
  unfolding drain Begun
  drain-inside zero k left cs chunks enough = absurd (omega arith)
  drain-inside (suc fuel) k (b ∷ left) cs chunks enough =
      drain_chunk fuel k b left cs
        (λ left' le. drain-inside fuel (suc k) left' cs chunks (omega (arith, le)))
  drain-inside (suc fuel) k [] [] chunks enough =
      rw (drain, (read-last ending len (offered k) last rest room l bodied zero_size).1) refl
  drain-inside (suc fuel) k [] (c ∷ cs) chunks enough =
      let h = chunks.0 in
      let (b, left, e) = first_byte c.bytes h.some_bytes in
      let total = length-append c.bytes (joined cs) in
      let size = h.size ∙ ap (λ z. some (length z)) e in
      subst (Begun fuel k c.line cs) (sym e) (
        begin_chunk-drain fuel k b c.line left cs h.sized h.some_line size
        ∙ drain_chunk fuel k b left cs (λ left' le.
          drain-inside fuel (suc k) left' cs chunks.1
            (omega (arith, le, total, enough, ap length e))))

  length-write_chunks : (cs : List Chunk) → length (joined cs) ≤ length (after cs)
  length-write_chunks [] = omega arith
  length-write_chunks (c ∷ cs) = omega (
    arith,
    length-append c.bytes (joined cs),
    length-append c.line (crlf ++ (c.bytes ++ (crlf ++ after cs))),
    length-append c.bytes (crlf ++ after cs),
    length-write_chunks cs,
  )

  -- Whatever the size of the buffer, which is not 0, and however many bytes the inner stream has on
  -- offer at each read, the reads of a chunked body give the bytes of its chunks one after another, and
  -- then its end. A chunk has a byte at least and a size line that gives their count, and a line of size
  -- 0 follows the last one.
  pub unchunk-write_chunks :
      (cs : List Chunk)
      → All IsChunk cs
      → unchunk len offered
          (record { content = write_chunks cs (last ++ (crlf ++ rest)); ending = ending })
        ≡ some (record { content = joined cs; ending = Ending.closed }, [])
  unfolding unchunk
  unchunk-write_chunks cs chunks =
      drain-inside (suc (length (after cs))) 0 [] cs chunks (omega (arith, length-write_chunks cs))
