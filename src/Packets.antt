-- ===== src/Packets.antt =====
-- robocol/src/packets: the six packet codecs, and the parser that tells them apart.
pub mod Uid
pub mod KeepAlive
pub mod Heartbeat
pub mod PeerDiscovery
pub mod Command
pub mod Gamepad
pub mod Telemetry
pub mod Packet
