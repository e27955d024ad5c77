-- ===== src/Storage/Validation/Loading/Agreement.antt =====
-- `validate_index_file` and `read_index_file` of src/storage/index_validation.cpp side by side.
use mathlib.Core.Path.{subst}
use snow_seek.Arithmetic.{checked_add, checked_multiply}
use snow_seek.Index.{InMemoryIndex}
use snow_seek.Prelude.{
  Bool, Error, List, Result, Returns-ok, [], ap, length, ltb, not, ok, refl, sym, throw_if, ℕ, ◌%◌,
  ◌==◌, ◌>>=◌, ◌>>◌, ◌||◌, ◌≡◌,
}
use snow_seek.Prelude.Simulation.{
  >>=-assoc, >>=-eq, Simulates, Simulates->>=, Simulates-eq, Simulates-same, Simulates-throw_if,
}
use snow_seek.Storage.Codec.{read_u64_le}
use snow_seek.Storage.File.{SegmentFile, open_input, seek_to}
use snow_seek.Storage.Header.{IndexHeader, SectionDescriptor}
use snow_seek.Storage.Records.{section, term_record_size}
use snow_seek.Storage.Validation.Envelope.{read_validated_header}
use snow_seek.Storage.Validation.Loading.{
  add_consumed, empty_index, ignore_consumed, load_segment, read_index_file, validate_index_file,
}
use snow_seek.Storage.Validation.Loading.Consumers.{decode_terms-Simulates, forget}
use snow_seek.Storage.Validation.Table.{LoadedDocumentTable, SegmentStats, decode_document_table}
use snow_seek.Storage.Validation.Table.Pushed.{IsTable}
use snow_seek.Storage.Validation.Table.Stores.{decode_document_table-IsTable}
use snow_seek.Storage.Validation.Terms.{
  Decoding, check_remaining, decode_terms, decode_terms_and_postings,
}

-- The statistics of both are the same.
SameStats : SegmentStats × Unit {0} → SegmentStats × InMemoryIndex → Type 0
SameStats dropped added = dropped.0 ≡ added.0

-- What follows the loop over the terms.
abbrev finish :
    {S : Type 0}
    → SectionDescriptor
    → SectionDescriptor
    → SectionDescriptor
    → Decoding S × ℕ × ℕ
    → Result (SegmentStats × S)
finish terms_section postings_section positions_section (state, term_end, posting_end) = do
  throw_if
      (not (term_end == terms_section.length)
        || not (posting_end == postings_section.length)
        || not (state.expected_position_offset == positions_section.length))
      (Error.runtime_error "index sections contain unreferenced trailing bytes")
  check_remaining state.token_counts
  ok (state.stats, state.consumed)

abbrev SameTerms : Decoding (Unit {0}) × ℕ × ℕ → Decoding InMemoryIndex × ℕ × ℕ → Type 0
SameTerms d a = d ≡ (forget a.0, a.1, a.2)

finish-Simulates :
    (t p q : SectionDescriptor) (d : Decoding (Unit {0}) × ℕ × ℕ)
    (a : Decoding InMemoryIndex × ℕ × ℕ)
    → SameTerms d a
    → Simulates SameStats (finish t p q d) (finish t p q a)
unfolding SameStats forget
finish-Simulates t p q d a same =
    subst
      (λ (x : Decoding (Unit {0}) × ℕ × ℕ). Simulates SameStats (finish t p q x) (finish t p q a))
      (sym same)
      (Simulates-throw_if SameStats
        (not (a.1 == t.length)
          || not (a.2 == p.length)
          || not (a.0.expected_position_offset == q.length))
        (Error.runtime_error "index sections contain unreferenced trailing bytes") _ _
        λ whole. Simulates-same SameStats (check_remaining a.0.token_counts) _ _ λ done c. refl)

decode_terms_and_postings-Simulates :
    (file : SegmentFile) (header : IndexHeader) (token_counts : List ℕ) (stats : SegmentStats)
    (store : Bool)
    → store ≡ not (header.feature_flags % 2 == 0)
    → Simulates SameStats
        (decode_terms_and_postings ignore_consumed file header token_counts stats tt)
        (decode_terms_and_postings add_consumed file header token_counts stats (empty_index store))
unfolding decode_terms_and_postings SameStats forget
decode_terms_and_postings-Simulates file header token_counts stats store e =
    let Q = SameStats in
    let has = not (header.feature_flags % 2 == 0) in
    Simulates-same Q (section header 3) _ _ λ terms_section s3.
      Simulates-same Q (section header 4) _ _ λ postings_section s4.
        Simulates-same Q (section header 5) _ _ λ positions_section s5.
          Simulates-same Q (open_input file) _ _ λ content c.
            Simulates-same Q (seek_to content terms_section.offset) _ _ λ terms_input i.
              Simulates-same Q (read_u64_le terms_input) _ _ λ (term_count, rest) t.
                Simulates-same Q (checked_multiply term_count term_record_size "term table length")
                  _ _
                  λ table_size m.
                    Simulates-same Q (checked_add 8 table_size "term byte offset") _ _
                      λ term_bytes_begin b.
                        Simulates-throw_if Q (ltb terms_section.length term_bytes_begin)
                          (Error.runtime_error "term table exceeds Terms section") _ _
                          λ inside.
                            Simulates-same Q (seek_to content postings_section.offset) _ _
                              λ postings_input p.
                                Simulates-same Q (seek_to content positions_section.offset) _ _
                                  λ positions_input q.
                                    Simulates->>= SameTerms Q
                                      (decode_terms ignore_consumed content terms_section
                                        postings_section positions_section has term_count rest []
                                        term_bytes_begin 0 _)
                                      (decode_terms add_consumed content terms_section
                                        postings_section positions_section has term_count rest []
                                        term_bytes_begin 0 _)
                                      (finish terms_section postings_section positions_section)
                                      (finish terms_section postings_section positions_section)
                                      (decode_terms-Simulates has content terms_section
                                        postings_section positions_section term_count rest []
                                        term_bytes_begin 0
                                        (record {
                                          postings_input = postings_input;
                                          positions_input = positions_input;
                                          token_counts = token_counts;
                                          stats = record stats { term_count = term_count };
                                          expected_position_offset = 0;
                                          consumed = empty_index store;
                                        })
                                        e tt)
                                      (finish-Simulates terms_section postings_section
                                        positions_section)

-- `validate_index_file` answers what `read_index_file` does, for every file: the statistics of the
-- loaded Segment where it loads, and the same error where it does not. In particular the index
-- never refuses a posting that the checks of the Segment accept.
pub validate_index_file_lem :
    (file : SegmentFile)
    → validate_index_file file ≡ (read_index_file file >>= λ loaded. ok loaded.stats)
unfolding validate_index_file read_index_file load_segment SameStats
validate_index_file_lem file = simp >>=-assoc (
    >>=-eq (read_validated_header file) _ _ λ header h.
      >>=-eq (decode_document_table file header) _ _ λ table t.
        let is_table =
          Returns-ok
            (λ (x : LoadedDocumentTable).
              IsTable (not (header.feature_flags % 2 == 0)) (length x.documents)
                (length x.documents) x)
            (decode_document_table file header) table (decode_document_table-IsTable file header)
            t in
        Simulates-eq SameStats
          (decode_terms_and_postings ignore_consumed file header table.token_counts table.stats tt)
          (decode_terms_and_postings add_consumed file header table.token_counts table.stats
            (empty_index table.stores_positions))
          _ _
          (decode_terms_and_postings-Simulates file header table.token_counts table.stats
            table.stores_positions is_table.positions_is)
          λ d a same. ap ok same)
