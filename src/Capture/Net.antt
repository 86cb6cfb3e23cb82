-- ===== src/Capture/Net.antt =====
-- `datagrams`: from captured frames to UDP datagrams.
use robocol.Prelude.{
  ℕ, ◌+◌, ◌*◌, ◌/◌, Bool, false, not, ◌&&◌, ◌||◌, List, [], ◌∷◌, none, some, ◌==◌, ltb, length,
  get_or, take, drop, bit_and, if◌then◌else◌,
}
use robocol.Wire.{Bytes}
use robocol.Capture.Link.{Frame, be16, strip_link}
use robocol.Capture.Udp.{IpAddr, Datagram, least, parse_udp, push}
use robocol.Capture.Fragments.{Reassembler, handle_fragment}

abbrev slice : Bytes → ℕ → ℕ → Bytes
slice bytes from to = drop from (take to bytes)

-- The header is whole, and says that UDP follows.
unfoldable pub is_udp_v4 : Bytes → Bool
is_udp_v4 ip = not (ltb (length ip) 20) && (get_or ip 9 0 == 17)

unfoldable pub handle_body :
    ℕ → Bytes → ℕ → Bytes → Reassembler × List Datagram → Reassembler × List Datagram
unfolding handle_fragment parse_udp
handle_body ts ip flags_frag body (reasm, out) =
    let more = not (bit_and flags_frag 0x2000 == 0) in
    let offset = bit_and flags_frag 0x1fff * 8 in
    let src = slice ip 12 16 in
    let dst = slice ip 16 20 in
    if not more && (offset == 0)
    then (reasm, push out (parse_udp ts (IpAddr.v4 src) (IpAddr.v4 dst) body false))
    else handle_fragment ts (record { src = src; dst = dst; ident = be16 ip 4 }) offset more body
        (reasm, out)

unfoldable pub handle_v4 : ℕ → Bytes → Reassembler × List Datagram → Reassembler × List Datagram
unfolding is_udp_v4 handle_body
handle_v4 ts ip state =
    let ihl = bit_and (get_or ip 0 0) 0x0f * 4 in
    let total_len = be16 ip 2 in
    if not (is_udp_v4 ip)
    then state
    else if ltb ihl 20 || ltb total_len ihl || ltb (length ip) ihl
    then state
    else handle_body ts ip (be16 ip 6) (slice ip ihl (least total_len (length ip))) state

unfoldable pub handle_v6 : ℕ → Bytes → List Datagram → List Datagram
unfolding parse_udp
handle_v6 ts ip out =
    if ltb (length ip) 40 || not (get_or ip 6 0 == 17)
    then out
    else push out
        (parse_udp ts (IpAddr.v6 (slice ip 8 24)) (IpAddr.v6 (slice ip 24 40)) (drop 40 ip) false)

pub record Decoding : Type 0 where
  pub reasm : Reassembler
  pub out : List Datagram
  pub skipped : ℕ

-- By the version of the IP header.
unfoldable pub handle_ip : ℕ → Bytes → Decoding → Decoding
unfolding handle_v4 handle_v6
handle_ip ts [] s = record s { skipped = s.skipped + 1 }
handle_ip ts (b ∷ ip) s =
    if b / 16 == 4
    then (let (reasm, out) = handle_v4 ts (b ∷ ip) (s.reasm, s.out) in
        record s { reasm = reasm; out = out })
    else if b / 16 == 6
    then record s { out = handle_v6 ts (b ∷ ip) s.out }
    else record s { skipped = s.skipped + 1 }

unfoldable pub handle_frame : Frame → Decoding → Decoding
unfolding strip_link handle_ip
handle_frame f s = elim (strip_link f.linktype f.content) [
  | none ↦ record s { skipped = s.skipped + 1 }
  | some ip ↦ handle_ip f.ts ip s
]

unfoldable pub decode_from : List Frame → Decoding → Decoding
unfolding handle_frame
decode_from [] s = s
decode_from (f ∷ frames) s = decode_from frames (handle_frame f s)

unfoldable pub datagrams : List Frame → List Datagram × ℕ
unfolding decode_from
datagrams frames =
    let s = decode_from frames (record { reasm = []; out = []; skipped = 0 }) in (s.out, s.skipped)
