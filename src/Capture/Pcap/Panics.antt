-- ===== src/Capture/Pcap/Panics.antt =====
-- Which capture files the readers panic on.
use robocol.Prelude.{
  ℕ, zero, suc, ◌≤◌, ◌<◌, ◌≡◌, refl, ap, ◌∙◌, Bool, true, false, ◌||◌, List, [], ◌∷◌, Result, ok,
  panicked, ◌>>=◌, ◌==◌, ltb, ltb_false→le, length, length-drop, take, drop, arith, Bool-cases, inl,
  inr, if◌then◌else◌,
}
use robocol.Wire.{Bytes, from_be_bytes}
use robocol.Capture.Link.{Frame}
use robocol.Capture.Pcap.{
  Doubles, Endian, RecordHeader, get_u32, get_header, sliced, classic_next, classic_records,
  classic_body, classic_as, read_classic, read_pcapng, read, pcapng_shb,
}

-- The outcome is a value.
abbrev pub Returns {ℓ} : {A : Type ℓ} → Result A → Type ℓ
Returns {A = A} r = (a : A) × (r ≡ ok a)

get_u32-Returns : (e : Endian) (bs : Bytes) → 4 ≤ length bs → Returns (get_u32 e bs)
unfolding get_u32
get_u32-Returns e [] h = absurd (omega arith)
get_u32-Returns e (a ∷ []) h = absurd (omega arith)
get_u32-Returns e (a ∷ b ∷ []) h = absurd (omega arith)
get_u32-Returns e (a ∷ b ∷ c ∷ []) h = absurd (omega arith)
get_u32-Returns Endian.little (a ∷ b ∷ c ∷ d ∷ bs) h = (_, refl)
get_u32-Returns Endian.big (a ∷ b ∷ c ∷ d ∷ bs) h = (_, refl)

Returns-bind {ℓ κ} :
    {A : Type ℓ} {B : Type κ} {r : Result A} {f : A → Result B}
    → Returns r
    → ((a : A) → Returns (f a))
    → Returns (r >>= f)
Returns-bind {f = f} (a, e) h = let (b, e') = h a in (b, ap (λ r. r >>= f) e ∙ e')

get_header-Returns : (e : Endian) (rest : Bytes) → 16 ≤ length rest → Returns (get_header e rest)
unfolding get_header
get_header-Returns e rest h = Returns-bind (get_u32-Returns e rest (omega arith)) (λ sec.
    Returns-bind (get_u32-Returns e (drop 4 rest) (omega (arith, length-drop 4 rest))) (λ frac.
      Returns-bind (get_u32-Returns e (drop 8 rest) (omega (arith, length-drop 8 rest)))
        (λ len. (_, refl))))

-- A slice of bytes that are there.
sliced-Returns : (n : ℕ) (bytes : Bytes) → n ≤ length bytes → Returns (sliced n bytes)
sliced-Returns n bytes there = (take n bytes, ground arith)

classic_next-Returns :
    (d : Doubles) (linktype divisor : ℕ) (records : Bytes → Result (List Frame)) (body : Bytes)
    (h : RecordHeader)
    → ((bs : Bytes) → Returns (records bs))
    → Returns (classic_next d linktype divisor records body h)
unfolding classic_next
classic_next-Returns d linktype divisor records body h returns =
    elim (Bool-cases (ltb (length body) h.incl_len)) [
      | inl cut ↦ rw (classic_next, cut) ([], refl)
      | inr there ↦
          rw (classic_next, there)
            (Returns-bind
              (sliced-Returns h.incl_len body (ltb_false→le (length body) h.incl_len there))
              (λ content. Returns-bind (returns (drop h.incl_len body)) (λ more. (_, refl))))
    ]

classic_records-Returns :
    (d : Doubles) (e : Endian) (linktype divisor fuel : ℕ) (rest : Bytes)
    → Returns (classic_records d e linktype divisor fuel rest)
unfolding classic_records
classic_records-Returns d e linktype divisor zero rest = ([], refl)
classic_records-Returns d e linktype divisor (suc fuel) rest =
    elim (Bool-cases (ltb (length rest) 16)) [
      | inl short ↦ rw (classic_records, short) ([], refl)
      | inr there ↦
          rw (classic_records, there)
            (Returns-bind (get_header-Returns e rest (ltb_false→le (length rest) 16 there)) (λ h.
              classic_next-Returns d linktype divisor (classic_records d e linktype divisor fuel)
                (drop 16 rest) h (classic_records-Returns d e linktype divisor fuel)))
    ]

classic_body-Returns :
    (d : Doubles) (e : Endian) (nanos : Bool) (bytes : Bytes)
    → 24 ≤ length bytes
    → Returns (classic_body d e nanos bytes)
unfolding classic_body
classic_body-Returns d e nanos bytes h =
    Returns-bind (get_u32-Returns e (drop 20 bytes) (omega (arith, length-drop 20 bytes)))
      (λ linktype.
        Returns-bind
          (classic_records-Returns d e linktype (if nanos then d.billion else d.million)
            (length bytes) (drop 24 bytes))
          (λ l. (_, refl)))

-- One way or the other of a test.
either_Returns {ℓ} :
    {A : Type ℓ} (b : Bool) {r s : Result A} → Returns r → Returns s → Returns (if b then r else s)
either_Returns true p q = p
either_Returns false p q = q

read_classic-Returns : (d : Doubles) (bytes : Bytes) → Returns (read_classic d bytes)
unfolding read_classic classic_as
read_classic-Returns d bytes = elim (Bool-cases (ltb (length bytes) 24)) [
  | inl short ↦ rw (read_classic, short) (_, refl)
  | inr long ↦
      let enough : 24 ≤ length bytes = ltb_false→le (length bytes) 24 long in
      rw (read_classic, long)
        (Returns-bind (get_u32-Returns Endian.little bytes (omega arith)) (λ le.
          Returns-bind (get_u32-Returns Endian.big bytes (omega arith)) (λ swapped.
            either_Returns _ (classic_body-Returns d Endian.little false bytes enough) (
              either_Returns _ (classic_body-Returns d Endian.little true bytes enough) (
                either_Returns _ (classic_body-Returns d Endian.big false bytes enough) (
                  either_Returns _ (classic_body-Returns d Endian.big true bytes enough)
                    (_, refl)))))))
]

-- The first four bytes are the pcapng magic number, in one byte order or the other.
abbrev pub is_pcapng : Bytes → Bool
is_pcapng (a ∷ b ∷ c ∷ d ∷ bs) =
    (from_be_bytes (d ∷ c ∷ b ∷ a ∷ []) == pcapng_shb)
    || (from_be_bytes (a ∷ b ∷ c ∷ d ∷ []) == pcapng_shb)
is_pcapng bs = false

-- Any bytes at all that do not begin with the magic number of pcapng are read without a panic, to frames or to
-- an error.
pub read-Returns : (d : Doubles) (bytes : Bytes) → is_pcapng bytes ≡ false → Returns (read d bytes)
unfolding read get_u32
read-Returns d [] h = (_, refl)
read-Returns d (a ∷ []) h = (_, refl)
read-Returns d (a ∷ b ∷ []) h = (_, refl)
read-Returns d (a ∷ b ∷ c ∷ []) h = (_, refl)
read-Returns d (a ∷ b ∷ c ∷ x ∷ bs) h =
    let long : ltb (suc (suc (suc (suc (length bs))))) 4 ≡ false = ground arith in
    rw (read, long, h) (read_classic-Returns d (a ∷ b ∷ c ∷ x ∷ bs))

get_u32_short : (e : Endian) (bs : Bytes) → length bs < 4 → get_u32 e bs ≡ panicked
unfolding get_u32
get_u32_short Endian.little [] h = refl
get_u32_short Endian.little (a ∷ []) h = refl
get_u32_short Endian.little (a ∷ b ∷ []) h = refl
get_u32_short Endian.little (a ∷ b ∷ c ∷ []) h = refl
get_u32_short Endian.little (a ∷ b ∷ c ∷ d ∷ bs) h = absurd (omega arith)
get_u32_short Endian.big [] h = refl
get_u32_short Endian.big (a ∷ []) h = refl
get_u32_short Endian.big (a ∷ b ∷ []) h = refl
get_u32_short Endian.big (a ∷ b ∷ c ∷ []) h = refl
get_u32_short Endian.big (a ∷ b ∷ c ∷ d ∷ bs) h = absurd (omega arith)

-- A file that begins with the magic number of pcapng and ends within its first twelve bytes is not refused:
-- the reader panics.
pub read_panics :
    (d : Doubles) (bytes : Bytes)
    → is_pcapng bytes ≡ true
    → length bytes < 12
    → read d bytes ≡ panicked
unfolding read get_u32 read_pcapng
read_panics d [] h short = cc
read_panics d (a ∷ []) h short = cc
read_panics d (a ∷ b ∷ []) h short = cc
read_panics d (a ∷ b ∷ c ∷ []) h short = cc
read_panics d (a ∷ b ∷ c ∷ x ∷ bs) h short =
    let long : ltb (suc (suc (suc (suc (length bs))))) 4 ≡ false = ground arith in
    let missing : get_u32 Endian.little (drop 4 bs) ≡ panicked =
      get_u32_short Endian.little (drop 4 bs) (omega (arith, length-drop 4 bs)) in
    rw (read, long, h) (rw (read_pcapng, missing) refl)
