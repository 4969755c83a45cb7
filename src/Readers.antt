-- ===== src/Readers.antt =====
-- The readers (h11/_readers.py): from the received bytes to events.
pub mod Lines
pub mod Defs
