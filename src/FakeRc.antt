-- ===== src/FakeRc.antt =====
-- fake_rc/src/main.rs: the simulated robot controller. Its state is a record, and each method is a function
-- from a state to the next one.
pub mod Outside
pub mod Canned
pub mod State
pub mod Webcam
pub mod Configs
pub mod Commands
pub mod Ticks
pub mod Run
pub mod Life
pub mod Lock
pub mod Replies
pub mod Saved
pub mod Delivered
pub mod Pixels
pub mod Pattern
