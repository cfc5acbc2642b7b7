-- ===== src/Codec.antt =====
-- codec.rs: the writer of records.
mod Examples
pub mod Io
pub mod Writer
