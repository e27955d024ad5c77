-- ===== src/Storage/Validation/Loading/Loaded.antt =====
-- What `read_index_file` of src/storage/index_validation.cpp answers.
use snow_seek.Arithmetic.{checked_add, checked_multiply}
use snow_seek.Documents.{DocumentMeta, DocumentStore}
use snow_seek.Documents.Store.{IsStore}
use snow_seek.Index.{InMemoryIndex}
use snow_seek.Index.Invariant.{IsIndex}
use snow_seek.Index.Occurrences.{occurrences}
use snow_seek.Prelude.{
  All, Bool, Bytes, Error, IsByte, List, Returns, Returns->>=, Returns-ok, Returns-then,
  Returns-throw_if, [], ap, arith, drop, length, ltb, map, not, ok, refl, some, sym, ℕ, ◌%◌, ◌+◌,
  ◌==◌, ◌||◌, ◌∙◌, ◌≡◌,
}
use snow_seek.Prelude.Slices.{All-drop}
use snow_seek.Storage.Codec.{read_u64_le}
use snow_seek.Storage.File.{max_stream_offset, open_input, seek_to}
use snow_seek.Storage.Header.{IndexHeader}
use snow_seek.Storage.Records.{section, term_record_size}
use snow_seek.Storage.Validation.Envelope.{read_validated_header}
use snow_seek.Storage.Validation.Loading.{
  LoadedSegment, add_consumed, empty_index, load_segment, read_index_file,
}
use snow_seek.Storage.Validation.Loading.Counting.{
  Counted, CountedTerms, check_remaining-zero, decode_terms-Counted,
}
use snow_seek.Storage.Validation.Table.{LoadedDocumentTable, SegmentStats, decode_document_table}
use snow_seek.Storage.Validation.Table.Pushed.{IsTable, count_live}
use snow_seek.Storage.Validation.Table.Stores.{decode_document_table-IsTable}
use snow_seek.Storage.Validation.Terms.{
  Decoding, check_remaining, count_at, decode_terms, decode_terms_and_postings,
}

abbrev token_counts_of : DocumentStore → List ℕ
token_counts_of documents = map (λ (d : DocumentMeta). d.token_count) documents

-- A loaded Segment: the invariants of its table and its index, and one beside the other.
pub record IsLoaded (loaded : LoadedSegment) : Type 0 where
  pub store : IsStore loaded.documents
  pub valid : IsIndex loaded.index
  pub tokens :
      (d : ℕ)
      → occurrences d loaded.index.dictionary ≡ count_at (token_counts_of loaded.documents) d
  pub physical_is : loaded.stats.physical_document_count ≡ length loaded.documents
  pub live_is : loaded.stats.live_document_count ≡ count_live loaded.documents
  pub tombstones_are :
      loaded.stats.tombstone_count + loaded.stats.live_document_count ≡ length loaded.documents

-- The statistics and the index that the loops leave.
record Decoded (totals : List ℕ) (base : SegmentStats) (answer : SegmentStats × InMemoryIndex)
    : Type 0 where
  valid : IsIndex answer.1
  kept :
      (answer.0.physical_document_count ≡ base.physical_document_count)
      × (answer.0.live_document_count ≡ base.live_document_count)
      × (answer.0.tombstone_count ≡ base.tombstone_count)
  all_counted : (d : ℕ) → occurrences d answer.1.dictionary ≡ count_at totals d

seek_to-bytes :
    (content : Bytes) (offset : ℕ)
    → All IsByte content
    → Returns (All IsByte) (seek_to content offset)
unfolding seek_to
seek_to-bytes content offset h =
    Returns-throw_if (All IsByte) (ltb max_stream_offset offset)
      (Error.runtime_error "index offset exceeds stream limit") (ok (drop offset content))
      λ inside. All-drop offset content h

nothing_counted :
    (totals : List ℕ) (d : ℕ) → count_at totals d + occurrences d [] ≡ count_at totals d
unfolding occurrences
nothing_counted totals d = omega arith

all-Decoded :
    (totals : List ℕ) (base : SegmentStats) (state : Decoding InMemoryIndex)
    → Counted totals base state
    → check_remaining state.token_counts ≡ ok tt
    → Decoded totals base (state.stats, state.consumed)
all-Decoded totals base state c empty = record {
  valid = c.valid;
  kept = c.kept;
  all_counted = λ d.
      let before = c.counted d in
      omega (arith, before, check_remaining-zero state.token_counts empty d);
}

decode_terms_and_postings-Decoded :
    (content : Bytes) (header : IndexHeader) (totals : List ℕ) (base : SegmentStats) (store : Bool)
    → All IsByte content
    → Returns (Decoded totals base) (
        decode_terms_and_postings add_consumed
          (some content)
          header
          totals
          base
          (empty_index store))
unfolding decode_terms_and_postings open_input CountedTerms
decode_terms_and_postings-Decoded content header totals base store h =
    let Q = Decoded totals base in
    let has = not (header.feature_flags % 2 == 0) in
    Returns-then Q (section header 3) _ λ terms_section s3.
      Returns-then Q (section header 4) _ λ postings_section s4.
        Returns-then Q (section header 5) _ λ positions_section s5.
          Returns-then Q (seek_to content terms_section.offset) _ λ terms_input i.
            Returns-then Q (read_u64_le terms_input) _ λ (term_count, rest) t.
              Returns-then Q (checked_multiply term_count term_record_size "term table length") _
                λ table_size m.
                  Returns-then Q (checked_add 8 table_size "term byte offset") _
                    λ term_bytes_begin b.
                      Returns-throw_if Q (ltb terms_section.length term_bytes_begin)
                        (Error.runtime_error "term table exceeds Terms section") _
                        λ inside.
                          Returns->>= (All IsByte) Q (seek_to content postings_section.offset) _
                            (seek_to-bytes content postings_section.offset h)
                            λ postings_input p.
                              Returns-then Q (seek_to content positions_section.offset) _
                                λ positions_input q.
                                  let start : Decoding InMemoryIndex = record {
                                    postings_input = postings_input;
                                    positions_input = positions_input;
                                    token_counts = totals;
                                    stats = record base { term_count = term_count };
                                    expected_position_offset = 0;
                                    consumed = empty_index store;
                                  } in
                                  Returns->>=
                                    (CountedTerms totals base content terms_section postings_section
                                      positions_section has)
                                    Q
                                    (decode_terms add_consumed content terms_section
                                      postings_section positions_section has term_count rest []
                                      term_bytes_begin 0 start)
                                    _
                                    (decode_terms-Counted totals base content terms_section
                                      postings_section positions_section has term_count rest []
                                      term_bytes_begin 0 start
                                      (record {
                                        valid = tt;
                                        input_bytes = p;
                                        kept = (refl, refl, refl);
                                        counted = nothing_counted totals;
                                      }))
                                    λ (state, term_end, posting_end) c.
                                      Returns-throw_if Q
                                        (not (term_end == terms_section.length)
                                          || not (posting_end == postings_section.length)
                                          || not (
                                              state.expected_position_offset
                                              == positions_section.length))
                                        (Error.runtime_error
                                          "index sections contain unreferenced trailing bytes")
                                        _
                                        λ whole.
                                          Returns-then Q (check_remaining state.token_counts) _
                                            λ done empty. all-Decoded totals base state c empty

IsLoaded-parts :
    (header : IndexHeader) (table : LoadedDocumentTable) (stats : SegmentStats)
    (index : InMemoryIndex)
    → IsTable
        (not (header.feature_flags % 2 == 0))
        (length table.documents)
        (length table.documents)
        table
    → Decoded table.token_counts table.stats (stats, index)
    → IsLoaded (record { documents = table.documents; index = index; stats = stats })
IsLoaded-parts header table stats index t d = record {
  store = t.store;
  valid = d.valid;
  tokens = λ n. d.all_counted n ∙ ap (λ (counts : List ℕ). count_at counts n) (sym t.tokens);
  physical_is = d.kept.0 ∙ t.physical_is;
  live_is = d.kept.1 ∙ t.live_is;
  tombstones_are = omega (arith, d.kept.1, d.kept.2, t.live_is, t.tombstones_are);
}

-- Whenever a file of bytes loads, its documents and its index satisfy their invariants, every
-- document occurs in the index exactly as often as its record says, a document that is not in the
-- table or is a tombstone not at all, and the statistics count the documents, the live ones and the
-- tombstones of the table.
pub read_index_file-IsLoaded :
    (content : Bytes) (loaded : LoadedSegment)
    → All IsByte content
    → read_index_file (some content) ≡ ok loaded
    → IsLoaded loaded
unfolding read_index_file load_segment
read_index_file-IsLoaded content loaded h e =
    Returns-ok IsLoaded (read_index_file (some content)) loaded
      (Returns-then IsLoaded (read_validated_header (some content)) _ λ header r.
        Returns->>=
          (λ (table : LoadedDocumentTable).
            IsTable (not (header.feature_flags % 2 == 0)) (length table.documents)
              (length table.documents) table)
          IsLoaded (decode_document_table (some content) header) _
          (decode_document_table-IsTable (some content) header)
          λ table t.
            Returns->>= (Decoded table.token_counts table.stats) IsLoaded
              (decode_terms_and_postings add_consumed (some content) header table.token_counts
                table.stats (empty_index table.stores_positions))
              _
              (decode_terms_and_postings-Decoded content header table.token_counts table.stats
                table.stores_positions h)
              λ (stats, index) d. IsLoaded-parts header table stats index t d)
      e
