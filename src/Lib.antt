-- ===== src/Lib.antt =====
-- SnowSeek: a local full-text search engine in C++. Its parts, and the files that model them
-- (paths are from the repository's root):
--
--   Documents are read, split into terms (src/analysis), counted in an index in memory (src/index)
--   beside a table of documents (src/document), and written as Segments that a Manifest names
--   (src/storage). A query is parsed (src/query/query_parser.cpp), evaluated against the table and
--   the index (src/query/query_evaluator.cpp) and ranked.
--
--   Storage/Stream    an output stream with a bound on what it takes: written, room, good
--   Storage/Codec     src/storage/binary_codec.cpp: little-endian integers
--   Storage/Checksum  src/storage/checksum.cpp: CRC32C by tables of eight bytes
--   Storage/Header    src/storage/index_header.cpp: the 200-byte Segment header
--   Storage/Manifest  src/storage/index_manifest.cpp: the Manifest's bytes
--   Storage/File      src/storage/index_file_internal.hpp: a file as its bytes, and the UTF-8 test
--   Storage/Records   src/storage/segment_format_internal.hpp: the records of a Segment
--   Storage/Validation
--                     src/storage/index_validation.cpp: the checks of a Segment (Envelope, Table, Terms)
--                     and the functions that read one (Loading)
--   Storage/Writing   src/storage/index_file.cpp: the sections of a Segment (Fields, Documents, Terms)
--                     and the file; proofs on the documents (Layout to RoundTrip, Accepting), on the
--                     descriptors (Placing, Envelope) and on the file (Streams, Written, File)
--   Analysis          src/analysis/tokenizer.cpp: TokenizerSession and Tokenizer; what a consumer is
--                     called with is a list
--   Documents         src/document/document_store.cpp: DocumentStore as the list of its documents
--   Documents/Reader  src/document/text_reader.cpp: text in chunks, repaired or refused as UTF-8
--   Index             src/index/index.cpp: InMemoryIndex as the list of its entries
--   Query/Number      std::from_chars for unsigned decimal numbers
--   Query/Tree        src/query/query_parser.hpp: QueryNode as a data type
--   Query/Filter      src/query/query_parser.cpp: comparisons, sizes and dates
--   Query/Lexer       the class Lexer there: the input from `position_` on, and the position
--   Query/Operand     the operands of one token in Parser::parse_primary
--   Query/Parser      the class Parser and parse_query
--   Query/Sets, Query/Postings, Query/Metadata, Query/Evaluator
--                     src/query/query_evaluator.cpp: ordered sets, phrases, metadata filters, and
--                     the class Evaluator; fnmatch of the C library is a parameter
--   Arithmetic        src/common/checked_arithmetic.hpp: sums and products of counters
--   Cli               src/cli/application.cpp: the values of its options
--   Prelude           lists, results, tests, integers and the exclusive or on the native numbers
--   Examples          the theorems at concrete inputs, and tests
--
-- Exceptions are values (Prelude/Outcome): an exception's class and message. An operation that throws
-- gives no state, as its callers drop the object. Integers of fixed width are numbers, with the
-- wrap-around of each conversion written out; the theorems' hypotheses say where values fit.
--
-- Fuel. The parser's functions and the evaluator recurse on fuel: the parser is given 5 n + 5 for an
-- expression of n bytes, since a token takes a byte at least and five calls lead from one token to the
-- next; the evaluator is given the depth of the tree, since a conjunction's operands are less deep. The loop
-- of a section's checksum and the loops of the text reader are given as many rounds as there are bytes,
-- since a round takes one at least.
--
-- Not modelled: directories, threads, memory estimates, and the scores of BM25, which are doubles.
-- Merging, publication and the rest of the command line have no model.
pub mod Prelude
pub mod Storage
pub mod Analysis
pub mod Documents
pub mod Index
pub mod Query
pub mod Arithmetic
pub mod Cli
mod Examples
