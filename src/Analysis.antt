-- ===== src/Analysis.antt =====
-- src/analysis: the tokenizer.
pub mod Tokenizer
