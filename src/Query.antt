-- ===== src/Query.antt =====
-- src/query: the query language, its syntax trees and their evaluation.
pub mod Number
pub mod Tree
pub mod Filter
pub mod Lexer
pub mod Operand
pub mod Parser
pub mod Sets
pub mod Postings
pub mod Metadata
pub mod Evaluator
