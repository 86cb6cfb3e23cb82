-- ===== src/Packets/Packet.antt =====
-- `Packet` and `Packet::parse` of robocol/src/packets/mod.rs.
use robocol.Prelude.{
  ℕ, List, [], ◌∷◌, Option, none, some, Result, ok, err, truncated, unknown_packet_type, ok_or,
  map_ok, ◌>>=◌, ◌==◌, if◌then◌else◌,
}
use robocol.Wire.{Bytes}
use robocol.Packets.Uid.{
  uid_heartbeat, uid_gamepad, uid_peer_discovery, uid_command, uid_telemetry, uid_keep_alive,
}
use robocol.Packets.Heartbeat
use robocol.Packets.Gamepad
use robocol.Packets.PeerDiscovery
use robocol.Packets.Command
use robocol.Packets.Telemetry
use robocol.Packets.KeepAlive
pub mod RoundTrip
pub mod Safety

pub data Packet : Type 0 where
  heartbeat : Heartbeat.Heartbeat → Packet
  gamepad : Gamepad.Gamepad → Packet
  peer_discovery : PeerDiscovery.PeerDiscovery → Packet
  command : Command.Command → Packet
  telemetry : Telemetry.Telemetry → Packet
  keep_alive : KeepAlive.KeepAlive → Packet

-- `buf.first()`.
abbrev pub first : Bytes → Option ℕ
first [] = none
first (b ∷ bs) = some b

unfoldable pub parse_as : ℕ → Bytes → Result Packet
parse_as uid buf =
    if uid == uid_heartbeat
    then map_ok heartbeat (Heartbeat.parse buf)
    else if uid == uid_gamepad
    then map_ok gamepad (Gamepad.parse buf)
    else if uid == uid_peer_discovery
    then map_ok peer_discovery (PeerDiscovery.parse buf)
    else if uid == uid_command
    then map_ok command (Command.parse buf)
    else if uid == uid_telemetry
    then map_ok telemetry (Telemetry.parse buf)
    else if uid == uid_keep_alive
    then map_ok keep_alive (KeepAlive.parse buf)
    else err (unknown_packet_type uid)

unfoldable pub parse : Bytes → Result Packet
unfolding parse_as
parse buf = do uid ← ok_or (first buf) truncated; parse_as uid buf

-- The `serialize` of whichever packet it is.
unfoldable pub serialize : Packet → Result Bytes
serialize (heartbeat h) = Heartbeat.serialize h
serialize (gamepad g) = Gamepad.serialize g
serialize (peer_discovery p) = PeerDiscovery.serialize p
serialize (command c) = Command.serialize c
serialize (telemetry t) = Telemetry.serialize t
serialize (keep_alive k) = KeepAlive.serialize k
