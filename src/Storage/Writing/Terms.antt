-- ===== src/Storage/Writing/Terms.antt =====
-- The Terms, Postings and Positions sections in `write_index_file_bounded` of
-- src/storage/index_file.cpp.
use snow_seek.Arithmetic.{checked_add, checked_multiply}
use snow_seek.Documents.{DocumentMeta, DocumentStore, get, is_tombstone}
use snow_seek.Index.{InMemoryIndex, Posting, PostingList, find}
use snow_seek.Prelude.{
  Bool, Bytes, Error, List, Option, Result, [], false, is_empty, leb, length, none, not, ok, some,
  throw, throw_if, true, ℕ, ◌&&◌, ◌++◌, ◌==◌, ◌>>=◌, ◌>>◌, ◌||◌, ◌∷◌,
}
use snow_seek.Storage.Codec.{write_u32_le, write_u64_le}
use snow_seek.Storage.Records.{
  TermRecord, position_record_size, posting_record_size, term_record_size, write_posting_record,
  write_term_record,
}
use snow_seek.Storage.Stream.{Output, string_stream, write}
use snow_seek.Storage.Writing.Fields.{checked_narrow}

-- What the loop over the terms changes.
pub record TermsState : Type 0 where
  pub postings_stream : Output
  pub positions_stream : Output
  pub term_records : List TermRecord
  pub posting_offset : ℕ
  pub position_offset : ℕ
  pub posting_count : ℕ
  pub position_count : ℕ

unfoldable pub write_positions : Output → List ℕ → Result Output
write_positions output [] = ok output
write_positions output (position ∷ positions) = do
  next ← write_u32_le output position
  write_positions next positions

-- `documents.get(id).state == tombstone`, where the document exists.
abbrev names_tombstone : Result DocumentMeta → Bool
names_tombstone (ok document) = is_tombstone document.state
names_tombstone (throw e) = true

unfoldable pub check_written_posting : DocumentStore → Bool → Posting → Result (Unit {0})
check_written_posting documents stores_positions posting = do
  throw_if
      (leb (length documents) posting.document_id
        || names_tombstone (get documents posting.document_id))
      (Error.runtime_error "posting references a missing or Tombstone document")
  throw_if
      (posting.frequency == 0
        || stores_positions && not (length posting.positions == posting.frequency)
        || not stores_positions && not (is_empty posting.positions))
      (Error.runtime_error "posting frequency and positions mismatch")

-- The positions of a posting, where they are stored.
unfoldable pub write_posting_positions : Bool → TermsState → Posting → Result TermsState
write_posting_positions false state posting = ok state
write_posting_positions true state posting = do
  positions_stream ← write_positions state.positions_stream posting.positions
  size ← checked_multiply posting.frequency position_record_size "position byte length"
  position_offset ← checked_add state.position_offset size "positions section length"
  position_count ← checked_add state.position_count posting.frequency "position count"
  ok (record state {
    positions_stream = positions_stream;
    position_offset = position_offset;
    position_count = position_count;
  })

unfoldable pub write_posting : DocumentStore → Bool → TermsState → Posting → Result TermsState
write_posting documents stores_positions state posting = do
  check_written_posting documents stores_positions posting
  postings_stream ← write_posting_record state.postings_stream (record {
    document_id = posting.document_id;
    frequency = posting.frequency;
    position_offset = state.position_offset;
  })
  write_posting_positions stores_positions (record state { postings_stream = postings_stream })
      posting

unfoldable pub write_postings : DocumentStore → Bool → TermsState → PostingList → Result TermsState
write_postings documents stores_positions state [] = ok state
write_postings documents stores_positions state (posting ∷ postings) = do
  next ← write_posting documents stores_positions state posting
  write_postings documents stores_positions next postings

-- The list of a term, which must not be empty.
unfoldable pub written_postings : Option PostingList → Result PostingList
written_postings none =
    throw (Error.runtime_error "index dictionary contains an empty posting list")
written_postings (some []) =
    throw (Error.runtime_error "index dictionary contains an empty posting list")
written_postings (some (posting ∷ postings)) = ok (posting ∷ postings)

unfoldable pub write_term : DocumentStore → InMemoryIndex → TermsState → Bytes → Result TermsState
write_term documents index state text = do
  postings ← written_postings (find index text)
  document_frequency ← checked_narrow (length postings) "document frequency"
  posting_length ← checked_multiply (length postings) posting_record_size "term posting length"
  term_length ← checked_narrow (length text) "term length"
  let entry : TermRecord = record {
    term_offset = 0;
    term_length = term_length;
    document_frequency = document_frequency;
    posting_offset = state.posting_offset;
    posting_length = posting_length;
  }
  written ←
      write_postings documents index.store_positions
        (record state { term_records = state.term_records ++ (entry ∷ []) }) postings
  posting_offset ← checked_add written.posting_offset posting_length "postings section length"
  posting_count ← checked_add written.posting_count (length postings) "posting count"
  ok (record written { posting_offset = posting_offset; posting_count = posting_count })

unfoldable pub write_terms :
    DocumentStore → InMemoryIndex → TermsState → List Bytes → Result TermsState
write_terms documents index state [] = ok state
write_terms documents index state (text ∷ terms) = do
  next ← write_term documents index state text
  write_terms documents index next terms

-- The loop over `index_value`: each record with its offset, along the terms.
unfoldable pub write_term_records : Output → ℕ → List TermRecord → List Bytes → Result Output
write_term_records output term_offset (entry ∷ records) (text ∷ terms) = do
  next ← write_term_record output (record entry { term_offset = term_offset })
  next_offset ← checked_add term_offset (length text) "terms section length"
  write_term_records next next_offset records terms
write_term_records output term_offset records terms = ok output

unfoldable pub write_term_bytes : Output → List Bytes → Output
write_term_bytes output [] = output
write_term_bytes output (text ∷ terms) = write_term_bytes (write output text) terms

-- The Terms section.
unfoldable pub write_terms_section : List TermRecord → List Bytes → Result Output
write_terms_section records terms = do
  counted ← write_u64_le string_stream (length terms)
  table_size ← checked_multiply (length terms) term_record_size "term table length"
  term_offset ← checked_add 8 table_size "term byte offset"
  recorded ← write_term_records counted term_offset records terms
  ok (write_term_bytes recorded terms)
