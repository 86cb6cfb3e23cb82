-- ===== src/Capture/Pcap/Classic.antt =====
-- Classic capture files as a writer lays them out, in either byte order.
mod Words
use robocol.Prelude.{
  ℕ, zero, suc, ◌+◌, ◌-◌, ◌≤◌, ◌<◌, ◌^◌, ◌≡◌, refl, ap, ◌∙◌, Bool, true, false, List, [], ◌∷◌, ◌++◌,
  map, Result, ok, ◌>>=◌, ltb, ltb_false→le, length, length-append, length-take, take, drop,
  drop-add, All, arith, tests, Bool-cases, inl, inr, if◌then◌else◌,
}
use robocol.Wire.{Bytes, from_be_bytes}
use robocol.Capture.Link.{Frame}
use robocol.Capture.Pcap.{
  Doubles, Endian, Verdict, get_u32, RecordHeader, classic_next, classic_records, classic_body,
  classic_as, read_classic, read, pcap_magic_us, pcap_magic_ns,
}
use Words.{
  word, words, get_u32-word, drop-word, length-word, length-words, drop-words, take-words,
  get_header-words,
}

-- What the writer is given for a record; `original` is the length that the packet had on the wire.
pub record Packet : Type 0 where
  pub sec : ℕ
  pub frac : ℕ
  pub original : ℕ
  pub content : Bytes

pub record IsPacket (p : Packet) : Type 0 where
  pub sec_u32 : p.sec < 2 ^ 32
  pub frac_u32 : p.frac < 2 ^ 32
  pub length_u32 : length p.content < 2 ^ 32

abbrev pub write_packet : Endian → Packet → Bytes → Bytes
write_packet e p rest = words e p.sec p.frac (length p.content) p.original (p.content ++ rest)

abbrev pub write_packets : Endian → List Packet → Bytes → Bytes
write_packets e [] rest = rest
write_packets e (p ∷ ps) rest = write_packet e p (write_packets e ps rest)

abbrev pub frame_of : Doubles → ℕ → ℕ → Packet → Frame
frame_of d linktype divisor p = record {
  ts = d.add (d.of_u64 p.sec) (d.div (d.of_u64 p.frac) divisor);
  linktype = linktype;
  content = p.content;
}

take-append : (xs ys : Bytes) → take (length xs) (xs ++ ys) ≡ xs
take-append [] ys = refl
take-append (x ∷ xs) ys = ap (λ l. x ∷ l) (take-append xs ys)

drop-append : (xs ys : Bytes) → drop (length xs) (xs ++ ys) ≡ ys
drop-append [] ys = refl
drop-append (x ∷ xs) ys = drop-append xs ys

module _ (d : Doubles) (e : Endian) (linktype divisor : ℕ) where
  abbrev records : ℕ → Bytes → Result (List Frame)
  records fuel rest = classic_records d e linktype divisor fuel rest

  -- A header that is there.
  header_step :
      (fuel a b c x : ℕ) (rest : Bytes)
      → a < 2 ^ 32
      → b < 2 ^ 32
      → c < 2 ^ 32
      → records (suc fuel) (words e a b c x rest)
        ≡ classic_next d linktype divisor
            (records fuel)
            rest
            (record { sec = a; frac = b; incl_len = c })
  unfolding classic_records
  header_step fuel a b c x rest ha hb hc =
      let there : ltb (length (words e a b c x rest)) 16 ≡ false =
        ground (arith, length-words e a b c x rest) in
      let next : (Bytes → RecordHeader → Result (List Frame)) =
        classic_next d linktype divisor (records fuel) in
      rw (classic_records, there) refl
      ∙ ap (λ r. r >>= next (drop 16 (words e a b c x rest)))
          (get_header-words e a b c x rest ha hb hc)
      ∙ ap (λ body. next body (record { sec = a; frac = b; incl_len = c }))
          (drop-words e a b c x rest)

  packet_step :
      (p : Packet) (fuel : ℕ) (rest : Bytes)
      → IsPacket p
      → records (suc fuel) (write_packet e p rest)
        ≡ (records fuel rest >>= (λ more. ok (frame_of d linktype divisor p ∷ more)))
  unfolding classic_next
  packet_step p fuel rest v =
      let n = length p.content in
      let fits : ltb (length (p.content ++ rest)) n ≡ false =
        ground (arith, length-append p.content rest) in
      header_step fuel p.sec p.frac n p.original (p.content ++ rest) v.sec_u32 v.frac_u32
        v.length_u32
      ∙ rw (classic_next, fits, fits, drop-append p.content rest, take-append p.content rest) refl

  -- A file that stops in a record, in its header or behind it, has no more records.
  cut_step :
      (p : Packet) (fuel k : ℕ)
      → IsPacket p
      → k < 16 + length p.content
      → records fuel (take k (write_packet e p [])) ≡ ok []
  unfolding classic_records classic_next
  cut_step p zero k v short = refl
  cut_step p (suc fuel) k v short = elim (Bool-cases (ltb k 16)) [
    | inl in_header ↦
        let few : ltb (length (take k (write_packet e p []))) 16 ≡ true =
          ground (arith, length-take k (write_packet e p [])) in
        rw (classic_records, few) refl
    | inr behind ↦
        let j = k - 16 in
        let n = length p.content in
        let back : k ≡ 16 + j = omega (tests, ltb_false→le k 16 behind) in
        let few : ltb (length (take j (p.content ++ []))) n ≡ true =
          ground (arith, length-take j (p.content ++ []), back) in
        ap (λ m. records (suc fuel) (take m (write_packet e p []))) back
        ∙ ap (λ bs. records (suc fuel) bs)
            (take-words e p.sec p.frac n p.original (p.content ++ []) j)
        ∙ header_step fuel p.sec p.frac n p.original (take j (p.content ++ [])) v.sec_u32 v.frac_u32
            v.length_u32
        ∙ rw (classic_next, few) refl
  ]

  records-written :
      (ps : List Packet) (fuel : ℕ) (tail : Bytes)
      → length ps ≤ fuel
      → All IsPacket ps
      → ((fuel : ℕ) → records fuel tail ≡ ok [])
      → records fuel (write_packets e ps tail) ≡ ok (map (frame_of d linktype divisor) ps)
  records-written [] fuel tail enough vs stops = stops fuel
  records-written (p ∷ ps) zero tail enough vs stops = absurd (omega arith)
  records-written (p ∷ ps) (suc fuel) tail enough vs stops =
      packet_step p fuel (write_packets e ps tail) vs.0
      ∙ ap (λ r. r >>= (λ more. ok (frame_of d linktype divisor p ∷ more)))
          (records-written ps fuel tail (omega arith) vs.1 stops)

length-write_packets :
    (e : Endian) (ps : List Packet) (tail : Bytes) → length ps ≤ length (write_packets e ps tail)
length-write_packets e [] tail = omega arith
length-write_packets e (p ∷ ps) tail = omega (
  arith,
  length-words e p.sec p.frac (length p.content) p.original (p.content ++ write_packets e ps tail),
  length-append p.content (write_packets e ps tail),
  length-write_packets e ps tail,
)

-- The file header: the magic number, the version, the zone, the accuracy, the longest length and the link
-- type.
abbrev pub write_file : Endian → Bool → ℕ → ℕ → ℕ → ℕ → ℕ → Bytes → Bytes
write_file e nanos version zone sigfigs snaplen linktype rest =
    words e (if nanos then pcap_magic_ns else pcap_magic_us) version zone sigfigs
      (word e snaplen (word e linktype rest))

module _ (d : Doubles) (version zone sigfigs snaplen linktype : ℕ) (rest : Bytes) where
  file : Endian → Bool → Bytes
  file e nanos = write_file e nanos version zone sigfigs snaplen linktype rest

  length-file : (e : Endian) (nanos : Bool) → length (file e nanos) ≡ 24 + length rest
  unfolding file
  length-file e nanos = omega (
    arith,
    length-words e (if nanos then pcap_magic_ns else pcap_magic_us) version zone sigfigs
        (word e snaplen (word e linktype rest)),
    length-word e snaplen (word e linktype rest),
    length-word e linktype rest,
  )

  file_long :
      (e : Endian) (nanos : Bool)
      → (ltb (length (file e nanos)) 4 ≡ false) × (ltb (length (file e nanos)) 24 ≡ false)
  file_long e nanos = let n = length-file e nanos in (ground (arith, n), ground (arith, n))

  read-write_file :
      (e : Endian) (nanos : Bool) → read d (file e nanos) ≡ classic_body d e nanos (file e nanos)
  unfolding read read_classic classic_as get_u32 file from_be_bytes
  read-write_file Endian.little true =
      let long = file_long Endian.little true in rw (read, long.0, read_classic, long.1) refl
  read-write_file Endian.little false =
      let long = file_long Endian.little false in rw (read, long.0, read_classic, long.1) refl
  read-write_file Endian.big true =
      let long = file_long Endian.big true in rw (read, long.0, read_classic, long.1) refl
  read-write_file Endian.big false =
      let long = file_long Endian.big false in rw (read, long.0, read_classic, long.1) refl

  drop-file :
      (e : Endian) (nanos : Bool)
      → (get_u32 e (drop 20 (file e nanos)) ≡ get_u32 e (word e linktype rest))
        × (drop 24 (file e nanos) ≡ rest)
  unfolding file
  drop-file e nanos =
      let magic = if nanos then pcap_magic_ns else pcap_magic_us in
      let end = word e snaplen (word e linktype rest) in
      let at16 : drop 16 (file e nanos) ≡ end = drop-words e magic version zone sigfigs end in
      let at20 : drop 20 (file e nanos) ≡ word e linktype rest =
        drop-add 16 4 (file e nanos)
        ∙ ap (drop 4) at16
        ∙ drop-word e snaplen 0 (word e linktype rest) in
      (
        ap (get_u32 e) at20,
        drop-add 20 4 (file e nanos) ∙ ap (drop 4) at20 ∙ drop-word e linktype 0 rest,
      )

-- A classic capture file in either byte order, with time stamps of either accuracy: the packets that were
-- written come back, each with its content, the link type of the file and the time of its two words. A file
-- that was cut off anywhere in one more packet gives the packets before it.
pub read-written :
    (d : Doubles) (e : Endian) (nanos : Bool) (version zone sigfigs snaplen linktype : ℕ)
    (ps : List Packet) (last : Packet) (k : ℕ)
    → linktype < 2 ^ 32
    → All IsPacket ps
    → IsPacket last
    → k < 16 + length last.content
    → read d (
        write_file e nanos version zone sigfigs snaplen linktype
          (write_packets e ps (take k (write_packet e last []))))
      ≡ ok (Verdict.frames (map (frame_of d linktype (if nanos then d.billion else d.million)) ps))
unfolding classic_body file
read-written d e nanos version zone sigfigs snaplen linktype ps last k fits vs v cut =
    let tail = take k (write_packet e last []) in
    let rest = write_packets e ps tail in
    let bytes = file d version zone sigfigs snaplen linktype rest e nanos in
    let divisor = if nanos then d.billion else d.million in
    let parts = drop-file d version zone sigfigs snaplen linktype rest e nanos in
    let enough : length ps ≤ length bytes = omega (
      arith,
      length-file d version zone sigfigs snaplen linktype rest e nanos,
      length-write_packets e ps tail,
    ) in
    read-write_file d version zone sigfigs snaplen linktype rest e nanos
    ∙ rw
        (
          classic_body,
          parts.0,
          get_u32-word e linktype rest fits,
          parts.1,
          records-written d e linktype divisor ps (length bytes) tail enough vs
              (λ fuel. cut_step d e linktype divisor last fuel k v cut),
        )
        refl
