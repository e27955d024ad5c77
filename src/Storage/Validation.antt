-- ===== src/Storage/Validation.antt =====
-- src/storage/index_validation.cpp: a Segment is checked section by section and loaded.
pub mod Envelope
pub mod Table
pub mod Terms
pub mod Loading
