-- ===== src/Storage/Validation/Loading.antt =====
-- src/storage/index_validation.cpp: the functions that read a whole Segment.
pub mod Consumers
pub mod Agreement
pub mod Counting
pub mod Loaded
use snow_seek.Documents.{DocumentStore, max_document_id}
use snow_seek.Index.{InMemoryIndex, add_posting}
use snow_seek.Prelude.{
  Bool, Bytes, Error, List, Result, [], if◌then◌else◌, length, ltb, not, ok, throw_if, ℕ, ◌==◌,
  ◌>>=◌, ◌>>◌,
}
use snow_seek.Storage.File.{SegmentFile}
use snow_seek.Storage.Records.{PostingRecord}
use snow_seek.Storage.Validation.Envelope.{read_validated_header}
use snow_seek.Storage.Validation.Table.{LoadedDocumentTable, SegmentStats, decode_document_table}
use snow_seek.Storage.Validation.Terms.{count_at, decode_terms_and_postings}

-- `InMemoryIndex(stores_positions)`.
abbrev pub empty_index : Bool → InMemoryIndex
empty_index store_positions = record { dictionary = []; store_positions = store_positions }

pub record LoadedSegment : Type 0 where
  pub documents : DocumentStore
  pub index : InMemoryIndex
  pub stats : SegmentStats

-- The consumer of `load_segment`.
unfoldable pub add_consumed : InMemoryIndex → Bytes → PostingRecord → List ℕ → Result InMemoryIndex
add_consumed index text posting positions =
    add_posting index text posting.document_id posting.frequency positions

-- The consumer of `validate_index_file`.
abbrev pub ignore_consumed : Unit {0} → Bytes → PostingRecord → List ℕ → Result (Unit {0})
ignore_consumed state text posting positions = ok state

unfoldable pub load_segment : SegmentFile → Result LoadedSegment
load_segment file = do
  header ← read_validated_header file
  table ← decode_document_table file header
  (stats, index) ←
      decode_terms_and_postings add_consumed file header table.token_counts table.stats
        (empty_index table.stores_positions)
  ok (record { documents = table.documents; index = index; stats = stats })

unfoldable pub read_index_file : SegmentFile → Result LoadedSegment
read_index_file file = load_segment file

unfoldable pub validate_index_file : SegmentFile → Result SegmentStats
validate_index_file file = do
  header ← read_validated_header file
  table ← decode_document_table file header
  (stats, nothing) ←
      decode_terms_and_postings ignore_consumed file header table.token_counts table.stats tt
  ok stats

unfoldable pub load_document_table : SegmentFile → Result LoadedDocumentTable
load_document_table file = do
  header ← read_validated_header file
  table ← decode_document_table file header
  (stats, nothing) ←
      decode_terms_and_postings ignore_consumed file header table.token_counts table.stats tt
  ok (record table { stats = stats; header = header })

abbrev pub dropped_document : ℕ
dropped_document = 0xffffffffffffffff

-- The consumer of `append_remapped_postings`, at the global identifier of a posting's document.
unfoldable pub add_remapped :
    List ℕ → InMemoryIndex → Bytes → PostingRecord → List ℕ → Result InMemoryIndex
add_remapped document_remap target text posting positions =
    let mapped = count_at document_remap posting.document_id in
    if mapped == dropped_document then ok target else do
      throw_if (ltb max_document_id mapped)
          (Error.runtime_error "global document id exceeds uint32_t")
      add_posting target text mapped posting.frequency positions

unfoldable pub append_remapped_postings :
    SegmentFile → LoadedDocumentTable → List ℕ → InMemoryIndex → Result InMemoryIndex
append_remapped_postings file table document_remap target = do
  throw_if (not (length document_remap == length table.token_counts))
      (Error.runtime_error "document remap does not match Segment document count")
  throw_if (if target.store_positions then not table.stores_positions else table.stores_positions)
      (Error.runtime_error "active Segments have different position capabilities")
  (stats, appended) ←
      decode_terms_and_postings (add_remapped document_remap) file table.header table.token_counts
        table.stats target
  ok appended
