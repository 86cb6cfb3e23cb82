-- ===== src/Client.antt =====
-- robocol/src/client.rs: the worker thread of the client. Its state is a record, and each method is a
-- function from a state to the next one.
pub mod State
pub mod Commands
pub mod Frames
pub mod Receive
pub mod Run
pub mod Api
pub mod Invariant
pub mod Assembly
pub mod Delivery
pub mod Kept
pub mod PeerLock
pub mod AtMostOnce
pub mod Retry
