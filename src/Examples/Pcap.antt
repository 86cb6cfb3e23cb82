-- ===== src/Examples/Pcap.antt =====
-- Runs of the capture file readers.
use robocol.Prelude.{◌≡◌, refl, true, [], ◌∷◌, map, ok, panicked, arith, take, if◌then◌else◌}
use robocol.Wire.{Bytes, from_be_bytes}
use robocol.Capture.Pcap.{Doubles, Endian, Verdict, read}
use robocol.Capture.Pcap.Classic.{
  Packet, IsPacket, write_packet, write_packets, write_file, frame_of, read-written,
}
use robocol.Capture.Pcap.Panics.{Returns, read-Returns, read_panics}

abbrev doubles : Doubles
doubles = record {
  of_u64 = λ n. n;
  add = λ x y. x;
  mul = λ x y. x;
  div = λ x y. x;
  ten_to_minus = λ k. k;
  one = 1;
  million = 2;
  billion = 3;
  micro = 4;
}

abbrev packet : Packet
packet = record { sec = 7; frac = 9; original = 80; content = 1 ∷ 2 ∷ 3 ∷ [] }

packet-IsPacket : IsPacket packet
packet-IsPacket = record { sec_u32 = omega arith; frac_u32 = omega arith; length_u32 = omega arith }

read-written_example :
    read doubles (
      write_file Endian.big true 0x0002_0004 0 0 65535 1
        (write_packets Endian.big (packet ∷ []) (take 18 (write_packet Endian.big packet []))))
    ≡ ok (
        Verdict.frames (
          map
            (frame_of doubles 1 (if true then doubles.billion else doubles.million))
            (packet ∷ [])))
read-written_example =
    read-written doubles Endian.big true 0x0002_0004 0 0 65535 1 (packet ∷ []) packet 18
      (omega arith) (packet-IsPacket, tt) packet-IsPacket (omega arith)

read-Returns_example : Returns (read doubles (0xd4 ∷ 0xc3 ∷ 0xb2 ∷ 0xa1 ∷ 0 ∷ []))
unfolding from_be_bytes
read-Returns_example = read-Returns doubles (0xd4 ∷ 0xc3 ∷ 0xb2 ∷ 0xa1 ∷ 0 ∷ []) refl

abbrev stub : Bytes
stub = 0x0a ∷ 0x0d ∷ 0x0d ∷ 0x0a ∷ 28 ∷ 0 ∷ 0 ∷ 0 ∷ []

read_panics_example : read doubles stub ≡ panicked
unfolding from_be_bytes
read_panics_example = read_panics doubles stub refl (omega arith)
