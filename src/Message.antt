-- ===== src/Message.antt =====
-- Whole messages, from the writers (h11/_writers.py) to the readers (h11/_readers.py).
pub mod Accepted
pub mod Again
pub mod Lines
pub mod Request
pub mod StatusCode
pub mod Response
pub mod RoundTrip
pub mod Exchange
