-- ===== src/Lib.antt =====
-- robocol: the Driver Station's side of the FTC Robocol protocol (UDP port 20884), a Rust workspace.
--
-- The parts of the program and the files that model them.
-- - robocol/src/wire.rs (`get_*`, `put_*`, `with_header`): Wire, Wire/Slice, Wire/Endian, Wire/Field and
--   Wire/Utf8; what a filled buffer holds is in Wire/Layout and Wire/Fill. A `&[u8]` is a list of numbers
--   below 256; an integer is its bit pattern; an index out of bounds is the outcome `panicked`.
-- - robocol/src/types.rs: Types.
-- - robocol/src/packets/*.rs: Packets, one file for each packet, with `Packet::parse` in Packets/Packet.
-- - robocol/src/base64.rs: Base64.
-- - robocol/src/cmd.rs: Cmd. `serde_json` is not modelled: the readers and writers that the source derives
--   are the fields of the record `Json`, which every definition that needs them takes.
-- - robocol/src/client.rs: Client. The worker's fields are the record `Worker` (Client/State); its methods
--   are in Client/Commands (`queue_command`, `retransmit_pending`, `transmit_gamepad`, `tick`),
--   Client/Frames (the webcam), Client/Receive (`handle_datagram`, `handle_command`) and Client/Run (`run`);
--   the methods of `RobocolClient` are in Client/Api.
-- - robocol/src/video.rs: Video. The search for the delimiter is in Video/Kmp (`kmp_failure`) and Video/Delim
--   (`read_until_delim`); lines and headers are in Video/Lines and Video/Head, `ChunkedReader` in
--   Video/Chunked, `pump_frames` in Video/Frames, `stream_once` and `run_stream` in Video/Stream,
--   `StreamConfig::parse` in Video/Url, and the methods of `str` that they call in Video/Text. A stream is
--   the bytes still to come and the way it ends; an error of a connection is taken to last, and behind an
--   error of `ChunkedReader` its next bytes are a stream of their own. A round of
--   `run_stream` takes the connection, if there is one, and the answers of the stop flag as inputs.
-- - fake_rc/src/main.rs: FakeRc. The fields of `FakeRc` are the record of FakeRc/State; `handle_command` is in
--   FakeRc/Commands, with the configurations in FakeRc/Configs and the webcam in FakeRc/Webcam; the ticks are
--   in FakeRc/Ticks, `main`'s loop in FakeRc/Run, the canned texts in FakeRc/Canned, and the test pattern in
--   FakeRc/Pixels and FakeRc/Pattern. FakeRc/Outside has what is taken from elsewhere: `f32`, `serde_json`
--   and the JPEG encoder. Properties are in FakeRc/Life, FakeRc/Lock, FakeRc/Replies, FakeRc/Saved and
--   FakeRc/Delivered.
-- - ds_cli/src/main.rs: DsCli. A session is the sequence of what is typed and of the events that come in; an
--   arm of `main`'s match is a clause of `act`. The texts of events are a parameter. Properties are in
--   DsCli/Remembered and DsCli/Listed.
-- - capture/decode/src/pcap.rs: Capture/Pcap; the panics of an index are the outcome `panicked`.
-- - capture/decode/src/net.rs: Capture. `strip_link` is in Capture/Link, `parse_udp` in Capture/Udp, the
--   reassembly of `handle_v4` in Capture/Fragments, and what calls them in Capture/Net. A time stamp is the
--   64 bits of an `f64`, a `HashMap` a list of its entries.
--
-- How the parts interact. A round of the worker takes the waiting messages of the host, then a datagram,
-- which `Packet::parse` decodes, then the timers. What it sends and the events it raises are logs in the
-- state (`sent`, `events`). The socket, the channels and the clocks are inputs of a round; one reading of
-- the clocks serves the messages, and one all that follows `recv_from`. `hangs_up` says after how many
-- events the host's receiver is gone, and each `send` after that fails.
--
-- Bounds and fuel. Most loops recur on lists, or on the count of entries that a packet announces. The loops
-- of video.rs over the lines of a header, the frames and the reads of a chunked body take the length of what
-- is left of the stream as fuel, since each round takes a byte at least, and so does the loop of net.rs over
-- VLAN tags, each of which moves 4 bytes on; the two loops that fall back to a shorter match take the
-- length of the match, which each round shortens. The loops of pcap.rs take the length of the file as fuel:
-- a record takes 16 bytes at least, a block 12 and an option 4.
--
-- Not modelled: threads, sockets and sleeping, the texts of errors and logs, the parts of serde_json; of
-- capture/decode the report and its counters (report.rs) and the command line (main.rs).
pub mod Prelude
pub mod Wire
pub mod Types
pub mod Packets
pub mod Base64
pub mod Cmd
pub mod Client
pub mod Video
pub mod Capture
pub mod FakeRc
pub mod DsCli
pub mod Examples
