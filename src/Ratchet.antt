-- ===== src/Ratchet.antt =====
-- src/rust/ratchet.rs: the double ratchet of one contact. The definitions are in `Crypto`, `State`,
-- `Bootstrap`, `Chain`, `Frame`, `Persist` and `Receive`; the other modules hold their laws.
pub mod Crypto
pub mod State
pub mod Bootstrap
pub mod Chain
pub mod Frame
pub mod Persist
pub mod Receive
pub mod Session
