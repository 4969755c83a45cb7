-- ===== src/Writers.antt =====
-- The writers (h11/_writers.py): from events to the bytes that are sent.
pub mod Defs
