-- ===== src/Packets/Uid.antt =====
-- The first byte of each packet (robocol/src/packets/mod.rs).
use robocol.Prelude.{ℕ}

abbrev pub uid_heartbeat : ℕ
uid_heartbeat = 1

abbrev pub uid_gamepad : ℕ
uid_gamepad = 2

abbrev pub uid_peer_discovery : ℕ
uid_peer_discovery = 3

abbrev pub uid_command : ℕ
uid_command = 4

abbrev pub uid_telemetry : ℕ
uid_telemetry = 5

abbrev pub uid_keep_alive : ℕ
uid_keep_alive = 6
