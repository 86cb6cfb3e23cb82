-- ===== src/Capture/Udp.antt =====
-- capture/decode/src/net.rs: datagrams, and the UDP header.
-- An address is the list of its bytes, a time stamp the 64 bits of an `f64`.
use robocol.Prelude.{
  ℕ, Bool, List, [], ◌∷◌, ◌++◌, Option, none, some, ltb, leb, length, take, drop, if◌then◌else◌,
}
use robocol.Wire.{Bytes}
use robocol.Capture.Link.{be16}

pub data IpAddr : Type 0 where
  v4 v6 : Bytes → IpAddr

pub record Datagram : Type 0 where
  pub ts : ℕ
  pub src : IpAddr
  pub dst : IpAddr
  pub sport : ℕ
  pub dport : ℕ
  pub payload : Bytes
  pub fragmented : Bool

abbrev pub least : ℕ → ℕ → ℕ
least a b = if ltb b a then b else a

unfoldable pub parse_udp : ℕ → IpAddr → IpAddr → Bytes → Bool → Option Datagram
parse_udp ts src dst body fragmented =
    let len = be16 body 4 in
    let end = if leb 8 len then least len (length body) else length body in
    if ltb (length body) 8
    then none
    else some (record {
      ts = ts;
      src = src;
      dst = dst;
      sport = be16 body 0;
      dport = be16 body 2;
      payload = drop 8 (take end body);
      fragmented = fragmented;
    })

-- `out.push` of what was parsed, behind what is there.
abbrev pub push : List Datagram → Option Datagram → List Datagram
push out none = out
push out (some d) = out ++ d ∷ []
