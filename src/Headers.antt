-- ===== src/Headers.antt =====
-- Headers (h11/_headers.py).
pub mod Defs
pub mod Digits
pub mod Steps
pub mod Normal
