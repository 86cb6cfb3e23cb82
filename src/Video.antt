-- ===== src/Video.antt =====
-- robocol/src/video.rs: the MJPEG client. A stream is read byte by byte, up to its end.
pub mod Io
pub mod Text
pub mod Lines
pub mod Kmp
pub mod Delim
pub mod Head
pub mod Chunked
pub mod Frames
pub mod Url
pub mod Stream
