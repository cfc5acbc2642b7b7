-- ===== src/Bytes.antt =====
-- Byte strings: the views of `Bytes`, `BytesMut` and `&[u8]` as the list of their bytes, and the
-- reads, writes and slices that the source makes on them. A read past the end panics.
mod Defs
mod Laws
unfoldable pub use Defs.*
pub use Laws.*
