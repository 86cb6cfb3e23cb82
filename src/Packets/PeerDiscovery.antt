-- ===== src/Packets/PeerDiscovery.antt =====
-- robocol/src/packets/peer_discovery.rs. The header is the packet's own: its length field holds 10, and
-- the sequence number stands at offset 5.
use robocol.Prelude.{ℕ, ◌<◌, ◌^◌, ◌≡◌, refl, [], ◌∷◌, ◌++◌, Result, ok, ◌>>=◌, ◌==◌, if◌then◌else◌}
use robocol.Wire.{
  Bytes, put_u8, put_u16, get_u16, get_u8, to_be_bytes, from_be_bytes-to_be_bytes,
  from_be_bytes-byte, zeros,
}
use robocol.Packets.Uid.{uid_peer_discovery}

pub data PeerType : Type 0 where
  unset peer group_owner not_connected_due_to_preexisting_connection : PeerType

unfoldable pub peer_type_from_byte : ℕ → PeerType
peer_type_from_byte b =
    if b == 1
    then PeerType.peer
    else if b == 2
    then PeerType.group_owner
    else if b == 3
    then PeerType.not_connected_due_to_preexisting_connection
    else PeerType.unset

-- `peer_type as u8`.
unfoldable pub peer_type_to_byte : PeerType → ℕ
peer_type_to_byte PeerType.unset = 0
peer_type_to_byte PeerType.peer = 1
peer_type_to_byte PeerType.group_owner = 2
peer_type_to_byte PeerType.not_connected_due_to_preexisting_connection = 3

pub peer_type_from_byte-to_byte : (t : PeerType) → peer_type_from_byte (peer_type_to_byte t) ≡ t
unfolding peer_type_from_byte peer_type_to_byte
peer_type_from_byte-to_byte PeerType.unset = refl
peer_type_from_byte-to_byte t = refl

pub record PeerDiscovery : Type 0 where
  pub seq : ℕ
  pub robocol_version : ℕ
  pub peer_type : PeerType
  pub sdk_build_month : ℕ
  pub sdk_build_year : ℕ
  pub sdk_major_version : ℕ
  pub sdk_minor_version : ℕ

abbrev pub default : PeerDiscovery
default = record {
  seq = 0;
  robocol_version = 124;
  peer_type = PeerType.peer;
  sdk_build_month = 7;
  sdk_build_year = 2026;
  sdk_major_version = 11;
  sdk_minor_version = 2;
}

abbrev pub total_len : ℕ
total_len = 13

unfoldable pub serialize : PeerDiscovery → Result Bytes
unfolding put_u8 put_u16
serialize p = do
  let buf = zeros total_len
  buf ← put_u8 buf 0 uid_peer_discovery
  buf ← put_u16 buf 1 10
  buf ← put_u8 buf 3 p.robocol_version
  buf ← put_u8 buf 4 (peer_type_to_byte p.peer_type)
  buf ← put_u16 buf 5 p.seq
  buf ← put_u8 buf 7 p.sdk_build_month
  buf ← put_u16 buf 8 p.sdk_build_year
  buf ← put_u8 buf 10 p.sdk_major_version
  put_u8 buf 11 p.sdk_minor_version

unfoldable pub parse : Bytes → Result PeerDiscovery
unfolding get_u16 get_u8
parse buf = do
  robocol_version ← get_u8 buf 3
  peer_type ← get_u8 buf 4
  seq ← get_u16 buf 5
  sdk_build_month ← get_u8 buf 7
  sdk_build_year ← get_u16 buf 8
  sdk_major_version ← get_u8 buf 10
  sdk_minor_version ← get_u8 buf 11
  ok (record {
    seq = seq;
    robocol_version = robocol_version;
    peer_type = peer_type_from_byte peer_type;
    sdk_build_month = sdk_build_month;
    sdk_build_year = sdk_build_year;
    sdk_major_version = sdk_major_version;
    sdk_minor_version = sdk_minor_version;
  })

abbrev pub layout : PeerDiscovery → Bytes
layout p =
    uid_peer_discovery
    ∷ (to_be_bytes 2 10
        ++ (p.robocol_version
            ∷ peer_type_to_byte p.peer_type
            ∷ (to_be_bytes 2 p.seq
                ++ (p.sdk_build_month
                    ∷ (to_be_bytes 2 p.sdk_build_year
                        ++ (p.sdk_major_version ∷ p.sdk_minor_version ∷ 0 ∷ []))))))

pub serialize-layout : (p : PeerDiscovery) → serialize p ≡ ok (layout p)
unfolding serialize
serialize-layout p = refl

pub record IsValid (p : PeerDiscovery) : Type 0 where
  pub seq_u16 : p.seq < 2 ^ 16
  pub year_u16 : p.sdk_build_year < 2 ^ 16

pub parse-layout : (p : PeerDiscovery) → IsValid p → parse (layout p) ≡ ok p
unfolding parse
parse-layout p v = rw (
  from_be_bytes-to_be_bytes 2 p.seq v.seq_u16,
  from_be_bytes-to_be_bytes 2 p.sdk_build_year v.year_u16,
  from_be_bytes-byte p.robocol_version,
  from_be_bytes-byte (peer_type_to_byte p.peer_type),
  peer_type_from_byte-to_byte p.peer_type,
  from_be_bytes-byte p.sdk_build_month,
  from_be_bytes-byte p.sdk_major_version,
  from_be_bytes-byte p.sdk_minor_version,
)
