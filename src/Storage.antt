-- ===== src/Storage.antt =====
-- src/storage: the little-endian codec, the checksum, the Segment header, the Manifest and Segments.
pub mod Stream
pub mod Codec
pub mod Checksum
pub mod Header
pub mod Manifest
pub mod File
pub mod Records
pub mod Validation
pub mod Writing
