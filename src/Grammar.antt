-- ===== src/Grammar.antt =====
-- The regular expressions of h11/_abnf.py as they are written there, beside the functions of Abnf.
pub mod Regex
pub mod Defs
pub mod Spans
pub mod Classes
pub mod Version
pub mod RequestLine
pub mod StatusParts
pub mod StatusLine
pub mod FieldShape
pub mod FieldValue
pub mod Strips
pub mod HeaderField
pub mod ChunkParts
pub mod ChunkHeader
