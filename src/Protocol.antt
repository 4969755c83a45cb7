-- ===== src/Protocol.antt =====
-- Which exceptions the public methods of a `Connection` (h11/_connection.py) let out.
pub mod Defs
pub mod Headers
pub mod Events
pub mod Buffers
pub mod Readers
pub mod Chunked
pub mod Calls
pub mod Framing
pub mod Fits
pub mod Respond
pub mod Refused
pub mod Machine
pub mod Noted
pub mod Process
pub mod Event
pub mod Tried
pub mod Receive
pub mod CleanUp
pub mod Writable
pub mod Written
pub mod Send
pub mod Runs
pub mod Bounds
pub mod ChunkSize
pub mod Early
