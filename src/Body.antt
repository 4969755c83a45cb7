-- ===== src/Body.antt =====
-- Bodies: the body writers (h11/_writers.py) against the body readers (h11/_readers.py).
pub mod Digits
pub mod Header
pub mod Between
pub mod Chunk
pub mod Chunked
pub mod Length
pub mod Fragments
