-- ===== src/Capture.antt =====
-- capture/decode: the decoder of capture files.
pub mod Link
pub mod Udp
pub mod Fragments
pub mod Net
pub mod Pcap
