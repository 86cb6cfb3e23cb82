-- ===== src/Capture/Pcap.antt =====
-- capture/decode/src/pcap.rs: the two container formats. A read past the end of a slice panics; `f64`
-- arithmetic is a parameter.
use robocol.Prelude.{
  ℕ, zero, suc, ◌+◌, ◌-◌, ◌*◌, ◌/◌, ◌%◌, ◌^◌, Bool, true, false, ◌&&◌, ◌||◌, List, [], ◌∷◌, ◌++◌,
  Option, none, some, Result, ok, panicked, ◌>>=◌, ◌==◌, ltb, leb, length, take, drop, get_elem?,
  if◌then◌else◌,
}
pub mod Classic
pub mod Panics
use robocol.Wire.{Bytes, from_be_bytes}
use robocol.Capture.Link.{Frame}

-- `f64` bits: conversion, arithmetic, `10f64.powi(-k)`, 1e6, 1e9, 1e-6 and 1.0.
pub record Doubles : Type 0 where
  pub of_u64 : ℕ → ℕ
  pub add : ℕ → ℕ → ℕ
  pub mul : ℕ → ℕ → ℕ
  pub div : ℕ → ℕ → ℕ
  pub ten_to_minus : ℕ → ℕ
  pub one : ℕ
  pub million : ℕ
  pub billion : ℕ
  pub micro : ℕ

pub data Endian : Type 0 where
  little big : Endian

unfoldable pub get_u16 : Endian → Bytes → Result ℕ
get_u16 Endian.little (a ∷ b ∷ bs) = ok (from_be_bytes (b ∷ a ∷ []))
get_u16 Endian.big (a ∷ b ∷ bs) = ok (from_be_bytes (a ∷ b ∷ []))
get_u16 e bs = panicked

unfoldable pub get_u32 : Endian → Bytes → Result ℕ
get_u32 Endian.little (a ∷ b ∷ c ∷ d ∷ bs) = ok (from_be_bytes (d ∷ c ∷ b ∷ a ∷ []))
get_u32 Endian.big (a ∷ b ∷ c ∷ d ∷ bs) = ok (from_be_bytes (a ∷ b ∷ c ∷ d ∷ []))
get_u32 e bs = panicked

abbrev pub pcap_magic_us : ℕ
pcap_magic_us = 0xa1b2_c3d4

abbrev pub pcap_magic_ns : ℕ
pcap_magic_ns = 0xa1b2_3c4d

abbrev pub pcapng_shb : ℕ
pcapng_shb = 0x0a0d_0d0a

abbrev pub byte_order_magic : ℕ
byte_order_magic = 0x1a2b_3c4d

-- The texts that `read` returns as errors.
pub data Problem : Type 0 where
  too_short : Problem
  truncated_header : Problem
  not_a_pcap : ℕ → Problem
  bad_byte_order : Problem

pub data Verdict : Type 0 where
  frames : List Frame → Verdict
  refused : Problem → Verdict

-- The 16 bytes before a record; the fourth word, the length on the wire, is not read.
pub record RecordHeader : Type 0 where
  pub sec : ℕ
  pub frac : ℕ
  pub incl_len : ℕ

unfoldable pub get_header : Endian → Bytes → Result RecordHeader
unfolding get_u32
get_header e rest = do
  sec ← get_u32 e rest
  frac ← get_u32 e (drop 4 rest)
  incl_len ← get_u32 e (drop 8 rest)
  ok (record { sec = sec; frac = frac; incl_len = incl_len })

-- `bytes[..n]`, which panics where there are fewer.
abbrev pub sliced : ℕ → Bytes → Result Bytes
sliced n bytes = if ltb (length bytes) n then panicked else ok (take n bytes)

abbrev pub frame_at : Doubles → ℕ → ℕ → RecordHeader → Bytes → Frame
frame_at d linktype divisor h content = record {
  ts = d.add (d.of_u64 h.sec) (d.div (d.of_u64 h.frac) divisor);
  linktype = linktype;
  content = content;
}

-- A record behind its header, and those behind it; one that does not fit ends the file.
unfoldable pub classic_next :
    Doubles → ℕ → ℕ → (Bytes → Result (List Frame)) → Bytes → RecordHeader → Result (List Frame)
classic_next d linktype divisor records body h = elim (ltb (length body) h.incl_len) [
  | true ↦ ok []
  | false ↦ do
    content ← sliced h.incl_len body
    more ← records (drop h.incl_len body)
    ok (frame_at d linktype divisor h content ∷ more)
]

-- The records from `rest` on. Each takes 16 bytes at least, so the file's length is fuel enough.
unfoldable pub classic_records : Doubles → Endian → ℕ → ℕ → ℕ → Bytes → Result (List Frame)
unfolding get_header classic_next
classic_records d e linktype divisor zero rest = ok []
classic_records d e linktype divisor (suc fuel) rest = elim (ltb (length rest) 16) [
  | true ↦ ok []
  | false ↦
      get_header e rest
      >>= classic_next d linktype divisor (classic_records d e linktype divisor fuel) (drop 16 rest)
]

unfoldable pub classic_body : Doubles → Endian → Bool → Bytes → Result Verdict
unfolding get_u32 classic_records
classic_body d e nanos bytes = do
  linktype ← get_u32 e (drop 20 bytes)
  l ←
      classic_records d e linktype (if nanos then d.billion else d.million) (length bytes)
        (drop 24 bytes)
  ok (Verdict.frames l)

-- The magic number in either byte order; `swapped` is `le.swap_bytes()`.
unfoldable pub classic_as : Doubles → ℕ → ℕ → Bytes → Result Verdict
unfolding classic_body
classic_as d le swapped bytes =
    if le == pcap_magic_us
    then classic_body d Endian.little false bytes
    else if le == pcap_magic_ns
    then classic_body d Endian.little true bytes
    else if swapped == pcap_magic_us
    then classic_body d Endian.big false bytes
    else if swapped == pcap_magic_ns
    then classic_body d Endian.big true bytes
    else ok (Verdict.refused (Problem.not_a_pcap swapped))

unfoldable pub read_classic : Doubles → Bytes → Result Verdict
unfolding get_u32 classic_as
read_classic d bytes = elim (ltb (length bytes) 24) [
  | true ↦ ok (Verdict.refused Problem.truncated_header)
  | false ↦ do
    le ← get_u32 Endian.little bytes
    swapped ← get_u32 Endian.big bytes
    classic_as d le swapped bytes
]

-- `1u64 << n`, in a build without overflow checks.
abbrev shifted : ℕ → ℕ
shifted n = 2 ^ (n % 64)

unfoldable pub resolution : Doubles → ℕ → ℕ
resolution d raw =
    if ltb raw 128 then d.ten_to_minus raw else d.div d.one (d.of_u64 (shifted (raw % 128)))

-- `len.next_multiple_of(4)`.
abbrev padded : ℕ → ℕ
padded len = (len + 3) / 4 * 4

-- The options from `options` on; each takes 4 bytes at least.
unfoldable pub tsresol_from : Doubles → Endian → ℕ → Bytes → Result ℕ
unfolding get_u16 resolution
tsresol_from d e zero options = ok d.micro
tsresol_from d e (suc fuel) options = elim (ltb (length options) 4) [
  | true ↦ ok d.micro
  | false ↦ do
    code ← get_u16 e options
    len ← get_u16 e (drop 2 options)
    let value = drop 4 options
    elim (code == 0) [
      | true ↦ ok d.micro
      | false ↦ elim (get_elem? value 0) [
        | none ↦ tsresol_from d e fuel (drop (4 + padded len) options)
        | some raw ↦ elim ((code == 9) && leb 1 len) [
          | true ↦ ok (resolution d raw)
          | false ↦ tsresol_from d e fuel (drop (4 + padded len) options)
        ]
      ]
    ]
]

unfoldable pub tsresol : Doubles → Endian → Bytes → Result ℕ
unfolding tsresol_from
tsresol d e options = tsresol_from d e (length options) options

-- What the loop over the blocks has gathered: the interfaces, with link type and scale, and the frames.
pub record Gathered : Type 0 where
  pub interfaces : List (ℕ × ℕ)
  pub gathered : List Frame

-- An interface description.
unfoldable pub interface_block : Doubles → Endian → Bytes → Gathered → Result Gathered
unfolding get_u16 tsresol
interface_block d e body g = do
  linktype ← get_u16 e body
  scale ← (if ltb (length body) 8 then panicked else tsresol d e (drop 8 body))
  ok (record g { interfaces = g.interfaces ++ (linktype, scale) ∷ [] })

abbrev or_ethernet : Doubles → Option (ℕ × ℕ) → ℕ × ℕ
or_ethernet d none = (1, d.micro)
or_ethernet d (some i) = i

-- An enhanced packet, of 20 bytes at least. A length that leaves the block drops the packet.
unfoldable pub packet_block : Doubles → Endian → Bytes → Gathered → Result Gathered
unfolding get_u32
packet_block d e body g = do
  iface ← get_u32 e body
  high ← get_u32 e (drop 4 body)
  low ← get_u32 e (drop 8 body)
  cap_len ← get_u32 e (drop 12 body)
  let i = or_ethernet d (get_elem? g.interfaces iface)
  ok (
      if ltb (length body) (20 + cap_len) then g else record g {
        gathered =
            g.gathered
            ++ record {
              ts = d.mul (d.of_u64 (high * 2 ^ 32 + low)) i.1;
              linktype = i.0;
              content = take cap_len (drop 20 body);
            }
              ∷ [];
      })

unfoldable pub block : Doubles → Endian → ℕ → Bytes → Gathered → Result Gathered
unfolding interface_block packet_block
block d e block_type body g =
    if block_type == 1
    then interface_block d e body g
    else if (block_type == 6) && leb 20 (length body)
    then packet_block d e body g
    else ok g

-- The blocks from `rest` on. Each takes 12 bytes at least.
unfoldable pub blocks : Doubles → Endian → ℕ → Bytes → Gathered → Result Gathered
unfolding get_u32 block
blocks d e zero rest g = ok g
blocks d e (suc fuel) rest g = elim (ltb (length rest) 12) [
  | true ↦ ok g
  | false ↦ do
    block_type ← get_u32 e rest
    total_len ← get_u32 e (drop 4 rest)
    elim (ltb total_len 12 || ltb (length rest) total_len) [
      | true ↦ ok g
      | false ↦ do
        g ← block d e block_type (take (total_len - 12) (drop 8 rest)) g
        blocks d e fuel (drop total_len rest) g
    ]
]

unfoldable pub read_blocks : Doubles → Endian → Bytes → Result Verdict
unfolding blocks
read_blocks d e bytes = do
  g ← blocks d e (length bytes) bytes (record { interfaces = []; gathered = [] })
  ok (Verdict.frames g.gathered)

unfoldable pub read_pcapng : Doubles → Bytes → Result Verdict
unfolding get_u32 read_blocks
read_pcapng d bytes = do
  bom ← get_u32 Endian.little (drop 8 bytes)
  swapped ← get_u32 Endian.big (drop 8 bytes)
  if bom == byte_order_magic
      then read_blocks d Endian.little bytes
      else if swapped == byte_order_magic
      then read_blocks d Endian.big bytes
      else ok (Verdict.refused Problem.bad_byte_order)

unfoldable pub read : Doubles → Bytes → Result Verdict
unfolding get_u32 read_pcapng read_classic
read d bytes = elim (ltb (length bytes) 4) [
  | true ↦ ok (Verdict.refused Problem.too_short)
  | false ↦ do
    head ← get_u32 Endian.little bytes
    swapped ← get_u32 Endian.big bytes
    if (head == pcapng_shb) || (swapped == pcapng_shb)
        then read_pcapng d bytes
        else read_classic d bytes
]
