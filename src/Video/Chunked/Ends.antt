-- ===== src/Video/Chunked/Ends.antt =====
-- The reads of a chunked body, whatever it holds: each of their loops comes to an end.
use robocol.Prelude.{
  ℕ, zero, suc, ◌-◌, ◌≤◌, ◌<◌, ◌≡◌, refl, ap, ◌∙◌, Bool, true, false, ◌||◌, List, [], ◌∷◌, ◌++◌,
  Option, none, some, length, length-take, length-drop, take, drop, ltb, ◌==◌, arith, Bool-cases,
  inl, inr, if◌then◌else◌,
}
use robocol.Wire.{Bytes}
use robocol.Video.Io.{Source, Ending, Io, IoError, ok, err, panicked, at_end}
use robocol.Video.Lines.{read_header_line}
use robocol.Video.Lines.Reading.{Line, got, lost, read_header_line-Line}
use robocol.Video.Chunked.{
  ChunkedReader, create, skip_empty, begin_chunk, chunk_size, next_chunk, least, advance, end_chunk,
  read_chunk, read_begun, read, drain, unchunk, behind_error, drained,
}

-- A line that is not empty, which takes a byte at least, or none to come.
data Skipped (content : Bytes) : Option (Io Bytes × Source) → Type 0 where
  line :
      (l : Bytes) (s : Source)
      → length s.content < length content
      → Skipped content (some (ok l, s))
  none_left : (e : IoError) (s : Source) → length s.content ≡ 0 → Skipped content (some (err e, s))

Skipped-less :
    (c c' : Bytes) (r : Option (Io Bytes × Source))
    → length c' ≤ length c
    → Skipped c' r
    → Skipped c r
Skipped-less c c' (some (ok l, s)) le (Skipped.line _ _ h) = Skipped.line l s (omega arith)
Skipped-less c c' (some (err e, s)) le (Skipped.none_left _ _ h) = Skipped.none_left e s h
Skipped-less c c' (some (panicked, s)) le x = elim x [ ]
Skipped-less c c' none le x = elim x [ ]

skip_again-Skipped :
    (fuel : ℕ) (s : Source) (r : Io Bytes × Source)
    → read_header_line s ≡ r
    → Line s.content r
    → ((s' : Source)
        → length s'.content < length s.content
        → Skipped s.content (skip_empty fuel s'))
    → Skipped s.content (skip_empty (suc fuel) s)
unfolding skip_empty
skip_again-Skipped fuel s (ok [], s') e (got _ _ lt) again =
    rw (skip_empty, ap (λ r. r.0) e, ap (λ r. r.1) e) (again s' lt)
skip_again-Skipped fuel s (ok (c ∷ l), s') e (got _ _ lt) again =
    rw (skip_empty, ap (λ r. r.0) e, ap (λ r. r.1) e) (Skipped.line (c ∷ l) s' lt)
skip_again-Skipped fuel s (err x, s') e (lost _ _ le) again =
    rw (skip_empty, ap (λ r. r.0) e, ap (λ r. r.1) e) (Skipped.none_left x s' le)
skip_again-Skipped fuel s (panicked, s') e l again = elim l [ ]

skip_empty-Skipped :
    (fuel : ℕ) (s : Source) → length s.content < fuel → Skipped s.content (skip_empty fuel s)
skip_empty-Skipped zero s enough = absurd (omega arith)
skip_empty-Skipped (suc fuel) s enough =
    skip_again-Skipped fuel s (read_header_line s) refl (read_header_line-Line s) (λ s' lt.
      Skipped-less s.content s'.content _ (omega arith) (skip_empty-Skipped fuel s' (omega arith)))

-- One read of the chunked body: bytes, which it takes from the stream, or the end, or an error, which takes
-- a byte too unless none is left.
data Read (content : Bytes) : Io Bytes × ChunkedReader → Type 0 where
  gave :
      (b : ℕ) (bytes : Bytes) (r : ChunkedReader)
      → length r.inner.content < length content
      → Read content (ok (b ∷ bytes), r)
  done : (r : ChunkedReader) → Read content (ok [], r)
  failed :
      (e : IoError) (r : ChunkedReader)
      → (0 < length r.inner.content → length r.inner.content < length content)
      → Read content (err e, r)

either_Read :
    (b : Bool) (content : Bytes) (p q : Io Bytes × ChunkedReader)
    → Read content p
    → Read content q
    → Read content (if b then p else q)
either_Read true content p q h k = h
either_Read false content p q h k = k

ok-Read :
    (content bytes : Bytes) (r : ChunkedReader)
    → length r.inner.content < length content
    → Read content (ok bytes, r)
ok-Read content [] r lt = Read.done r
ok-Read content (b ∷ bytes) r lt = Read.gave b bytes r lt

end_chunk-Read :
    (content bytes : Bytes) (r : ChunkedReader)
    → length r.inner.content < length content
    → Read content (end_chunk bytes r)
unfolding end_chunk
end_chunk-Read content bytes r lt =
    either_Read (ltb 0 r.remaining) content _ _ (ok-Read content bytes r lt) (
      either_Read (ltb (length r.inner.content) 2) content _ _
        (Read.failed (at_end r.inner.ending) (record r { inner = advance 2 r.inner })
          (λ pos. omega (arith, length-drop 2 r.inner.content)))
        (ok-Read content bytes (record r { inner = advance 2 r.inner })
          (omega (arith, length-drop 2 r.inner.content))))

-- The bytes that were taken are gone from the stream.
taken_less :
    (want : ℕ) (content : Bytes)
    → (length (take want content) == 0) ≡ false
    → length (drop want content) < length content
taken_less want content some_bytes =
    ground (arith, length-take want content, length-drop want content)

least-pos : (a b : ℕ) → 0 < a → 0 < b → 0 < least a b
least-pos a b h k = ground arith

-- Where a byte is wanted, none is taken only if none is left.
none_taken :
    (want : ℕ) (content : Bytes)
    → 0 < want
    → (length (take want content) == 0) ≡ true
    → length content ≡ 0
none_taken want content pos empty = ground (arith, length-take want content)

read_chunk-Read :
    (len offered : ℕ) (r : ChunkedReader)
    → 0 < len
    → 0 < r.remaining
    → Read r.inner.content (read_chunk len offered r)
unfolding read_chunk
read_chunk-Read len offered r room inside =
    let want = least (least r.remaining len) (suc offered) in
    let bytes = take want r.inner.content in
    elim (Bool-cases (length bytes == 0)) [
      | inl empty ↦
          let wanted =
            least-pos (least r.remaining len) (suc offered) (least-pos r.remaining len inside room)
              (omega arith) in
          rw (read_chunk, empty)
            (Read.failed (at_end r.inner.ending) r
              (λ pos. absurd (omega (arith, none_taken want r.inner.content wanted empty))))
      | inr some_bytes ↦
          rw (read_chunk, some_bytes)
            (end_chunk-Read r.inner.content bytes
              (record r { inner = advance want r.inner; remaining = r.remaining - length bytes })
              (taken_less want r.inner.content some_bytes))
    ]

Read-less :
    (c c' : Bytes) (p : Io Bytes × ChunkedReader) → length c' ≤ length c → Read c' p → Read c p
Read-less c c' (ok (b ∷ bs), r) le (Read.gave _ _ _ lt) = Read.gave b bs r (omega arith)
Read-less c c' (ok [], r) le (Read.done _) = Read.done r
Read-less c c' (err e, r) le (Read.failed _ _ h) = Read.failed e r (λ pos. omega (arith, h pos))
Read-less c c' (panicked, r) le x = elim x [ ]

-- What the first half of a read leaves.
data Begun (content : Bytes) : Io ℕ × ChunkedReader → Type 0 where
  size :
      (n : ℕ) (r : ChunkedReader)
      → length r.inner.content ≤ length content
      → (0 < n → 0 < r.remaining)
      → Begun content (ok n, r)
  lost_size :
      (e : IoError) (r : ChunkedReader)
      → (0 < length r.inner.content → length r.inner.content < length content)
      → Begun content (err e, r)

begin_chunk-Begun :
    (content l : Bytes) (r : ChunkedReader) (s : Source)
    → length s.content < length content
    → Begun content (begin_chunk r (ok l) s)
unfolding begin_chunk
begin_chunk-Begun content l r s lt = by_size (chunk_size l)
  where
    by_size :
        (o : Option ℕ)
        → Begun content (elim o as (λ _. Io ℕ × ChunkedReader) [
          | none ↦ (err IoError.invalid_data, record r { inner = s })
          | some zero ↦ (ok 0, record r { inner = s; done = true })
          | some (suc n) ↦ (ok (suc n), record r { inner = s; remaining = suc n })
        ])
    by_size none = Begun.lost_size IoError.invalid_data (record r { inner = s }) (λ pos. lt)
    by_size (some zero) =
        Begun.size 0 (record r { inner = s; done = true }) (omega arith)
          (λ pos. absurd (omega arith))
    by_size (some (suc n)) =
        Begun.size (suc n) (record r { inner = s; remaining = suc n }) (omega arith)
          (λ pos. omega arith)

next_chunk-Begun :
    (r : ChunkedReader)
    → (b : Io ℕ × ChunkedReader) × (next_chunk r ≡ some b) × Begun r.inner.content b
unfolding next_chunk
next_chunk-Begun r =
    by_line (skip_empty (suc (length r.inner.content)) r.inner)
      (skip_empty-Skipped (suc (length r.inner.content)) r.inner (omega arith))
  where
    by_line :
        (o : Option (Io Bytes × Source))
        → Skipped r.inner.content o
        → (b : Io ℕ × ChunkedReader) × (elim o as (λ _. Option (Io ℕ × ChunkedReader)) [
          | none ↦ none
          | some (l, s) ↦ some (begin_chunk r l s)
        ]
            ≡ some b)
          × Begun r.inner.content b
    by_line (some (ok l, s)) (Skipped.line _ _ le) =
        (_, refl, begin_chunk-Begun r.inner.content l r s le)
    by_line (some (err e, s)) (Skipped.none_left _ _ le) =
        (_, refl, Begun.lost_size e (record r { inner = s }) (λ pos. absurd (omega arith)))
    by_line (some (panicked, s)) x = elim x [ ]
    by_line none x = elim x [ ]

read_begun-Read :
    (len offered : ℕ) (content : Bytes) (b : Io ℕ × ChunkedReader)
    → 0 < len
    → Begun content b
    → Read content (read_begun len offered b.0 b.1)
unfolding read_begun
read_begun-Read len offered content (ok zero, r) room (Begun.size _ _ le _) = Read.done r
read_begun-Read len offered content (ok (suc n), r) room (Begun.size _ _ le inside) =
    Read-less content r.inner.content _ le
      (read_chunk-Read len offered r room (inside (omega arith)))
read_begun-Read len offered content (err e, r) room (Begun.lost_size _ _ h) = Read.failed e r h
read_begun-Read len offered content (panicked, r) room x = elim x [ ]

read-Read :
    (len offered : ℕ) (r : ChunkedReader)
    → (p : Io Bytes × ChunkedReader) × (read len offered r ≡ some p) × Read r.inner.content p
unfolding read
read-Read len offered r = elim (Bool-cases (r.done || (len == 0))) [
  | inl over ↦ ((ok [], r), rw (read, over) refl, Read.done r)
  | inr open_still ↦
      let room : 0 < len = ground (arith, open_still) in
      elim (Bool-cases (ltb 0 r.remaining)) [
        | inl inside ↦ (
          read_chunk len offered r,
          rw (read, open_still, inside) refl,
          read_chunk-Read len offered r room (ground arith),
        )
        | inr between ↦
            let (b, e, begun) = next_chunk-Begun r in
            (
              read_begun len offered b.0 b.1,
              rw (read, open_still, between, e) refl,
              read_begun-Read len offered r.inner.content b room begun,
            )
      ]
]

-- The reads have an end.
Drains : Option (Source × List Source) → Type 0
Drains o = (all : Source × List Source) × (o ≡ some all)

drained-Drains :
    (content : Bytes) (p : Io Bytes × ChunkedReader) (later : Option (Source × List Source))
    → Read content p
    → (length p.1.inner.content < length content → Drains later)
    → Drains (drained p.0 p.1 later)
unfolding Drains
drained-Drains content (ok (b ∷ bytes), r) later (Read.gave _ _ _ lt) again =
    let ((s, ss), e) = again lt in
    ((record s { content = (b ∷ bytes) ++ s.content }, ss), ap (drained (ok (b ∷ bytes)) r) e)
drained-Drains content (ok [], r) later (Read.done _) again = (_, refl)
drained-Drains content (err x, r) later (Read.failed _ _ h) again = by_left r.inner.content h again
  where
    by_left :
        (left : Bytes)
        → (0 < length left → length left < length content)
        → (length left < length content → Drains later)
        → Drains (elim left as (λ _. Option (Source × List Source)) [
          | [] ↦ some (record { content = []; ending = Ending.failed IoError.of_chunks }, [])
          | _ ∷ _ ↦ behind_error later
        ])
    by_left [] h again = (_, refl)
    by_left (b ∷ left) h again =
        let ((s, ss), e) = again (h (omega arith)) in
        (
          (record { content = []; ending = Ending.failed IoError.of_chunks }, s ∷ ss),
          ap behind_error e,
        )
drained-Drains content (panicked, r) later x again = elim x [ ]

drain-ends :
    (fuel len : ℕ) (offered : ℕ → ℕ) (k : ℕ) (r : ChunkedReader)
    → length r.inner.content < fuel
    → Drains (drain fuel len offered k r)
unfolding drain Drains
drain-ends zero len offered k r enough = absurd (omega arith)
drain-ends (suc fuel) len offered k r enough =
    let (p, e, out) = read-Read len (offered k) r in
    let (all, d) =
      drained-Drains r.inner.content p (drain fuel len offered (suc k) p.1) out
        (λ lt. drain-ends fuel len offered (suc k) p.1 (omega arith)) in
    (
      all,
      ap
            (λ o. elim o as (λ _. Option (Source × List Source)) [
              | none ↦ none
              | some x ↦ drained x.0 x.1 (drain fuel len offered (suc k) x.1)
            ])
            e
          ∙ d,
    )

pub unchunk-ends :
    (len : ℕ) (offered : ℕ → ℕ) (s : Source)
    → (all : Source × List Source) × (unchunk len offered s ≡ some all)
unfolding unchunk Drains
unchunk-ends len offered s =
    drain-ends (suc (length s.content)) len offered 0 (create s) (omega arith)
