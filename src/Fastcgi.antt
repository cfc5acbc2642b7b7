-- ===== src/Fastcgi.antt =====
-- fastcgi.rs: the records of the protocol, how they are written and read.
mod Examples
pub mod PairExamples
pub mod Types
pub mod Header
pub mod NameValuePair
pub mod NvBody
pub mod NvBodyList
pub mod Record
pub mod RecordReader
