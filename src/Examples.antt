-- ===== src/Examples.antt =====
-- The theorems at concrete inputs, and tests of the definitions.
mod Language
mod Evaluation
mod Formats
mod Texts
mod Tables
mod Options
mod Segments
mod Readers
