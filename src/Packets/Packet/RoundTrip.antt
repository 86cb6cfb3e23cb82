-- ===== src/Packets/Packet/RoundTrip.antt =====
-- robocol/src/packets/mod.rs: `Packet::parse` on what the packets' `serialize` writes.
use robocol.Prelude.{◌<◌, ◌^◌, ◌≡◌, ap, ok, map_ok}
use robocol.Wire.{Bytes}
use robocol.Packets.Heartbeat
use robocol.Packets.Gamepad.RoundTrip as GamepadTrip
use robocol.Packets.PeerDiscovery
use robocol.Packets.Command
use robocol.Packets.Telemetry.RoundTrip as TelemetryTrip
use robocol.Packets.KeepAlive
use robocol.Packets.Packet.{
  Packet, heartbeat, gamepad, peer_discovery, command, telemetry, keep_alive, parse, serialize,
}

-- The fields are in the ranges of their machine types, each string and table fits the prefix that
-- measures it, strings are UTF-8, an acknowledgement carries no extra, and numbers are in key order.
abbrev pub IsValid : Packet → Type 0
IsValid (heartbeat h) = Heartbeat.IsValid h
IsValid (gamepad g) = GamepadTrip.IsValid g
IsValid (peer_discovery p) = PeerDiscovery.IsValid p
IsValid (command c) = Command.IsValid c
IsValid (telemetry t) = TelemetryTrip.IsValid t
IsValid (keep_alive k) = k.seq < 2 ^ 16

layout : Packet → Bytes
layout (heartbeat h) = Heartbeat.layout h
layout (gamepad g) = GamepadTrip.layout g
layout (peer_discovery p) = PeerDiscovery.layout p
layout (command c) = Command.layout c
layout (telemetry t) = TelemetryTrip.layout t
layout (keep_alive k) = KeepAlive.layout k

serialize-layout : (p : Packet) → IsValid p → serialize p ≡ ok (layout p)
unfolding serialize layout
serialize-layout (heartbeat h) v = Heartbeat.serialize-layout h v.tz_short
serialize-layout (gamepad g) v = GamepadTrip.serialize-layout g
serialize-layout (peer_discovery p) v = PeerDiscovery.serialize-layout p
serialize-layout (command c) v = Command.serialize-layout c
serialize-layout (telemetry t) v = TelemetryTrip.serialize-layout t v
serialize-layout (keep_alive k) v = KeepAlive.serialize-layout k

parse-layout : (p : Packet) → IsValid p → parse (layout p) ≡ ok p
unfolding parse layout
parse-layout (heartbeat h) v = ap (map_ok heartbeat) (Heartbeat.parse-layout h v)
parse-layout (gamepad g) v = ap (map_ok gamepad) (GamepadTrip.parse-layout g v)
parse-layout (peer_discovery p) v = ap (map_ok peer_discovery) (PeerDiscovery.parse-layout p v)
parse-layout (command c) v = ap (map_ok command) (Command.parse-layout c v)
parse-layout (telemetry t) v = ap (map_ok telemetry) (TelemetryTrip.parse-layout t v)
parse-layout (keep_alive k) v = ap (map_ok keep_alive) (KeepAlive.parse-layout k v)

-- Serializing a valid packet writes inside its buffer, and `Packet::parse` reads the bytes back as that
-- packet, of that type, with every field as it was.
pub parse-serialize :
    (p : Packet) → IsValid p → (bytes : Bytes) × (serialize p ≡ ok bytes) × (parse bytes ≡ ok p)
parse-serialize p v = (layout p, serialize-layout p v, parse-layout p v)
