-- ===== src/Connection.antt =====
-- The connection of one side with its peer (h11/_connection.py).
pub mod Framing
pub mod Defs
pub mod Receive
pub mod Send
pub mod Kept
pub mod Errors
pub mod Framed
pub mod ResponseFramed
pub mod Waiting
pub mod Healthy
pub mod Runs
pub mod Waits
pub mod NextCycle
