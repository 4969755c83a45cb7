-- ===== src/Buffer.antt =====
-- The receive buffer (h11/_receivebuffer.py).
pub mod Search
pub mod Defs
pub mod Plain
pub mod Cache
pub mod Refines
pub mod Lines
pub mod RoundTrip
