-- ===== src/Storage/Validation/Table/Stores.antt =====
-- The table that `decode_document_table` of src/storage/index_validation.cpp answers.
use mathlib.Core.Path.{subst}
use snow_seek.Arithmetic.{checked_add, checked_multiply}
use snow_seek.Documents.{
  DocumentMeta, DocumentState, add, add_tombstone, is_tombstone, max_document_id,
}
use snow_seek.Documents.Store.{set_token_count_pushed}
use snow_seek.Prelude.{
  Bool, Bool-cases, Bytes, Error, Returns, Returns->>=, Returns-then, Returns-throw_if, arith,
  if_intro, if◌then◌else◌, inl, inr, length, ltb, ltb-false, none, not, ok, refl, some, suc, sym,
  true, zero, ℕ, ◌%◌, ◌+◌, ◌<◌, ◌==◌, ◌^◌, ◌∙◌, ◌≡◌,
}
use snow_seek.Prelude.Int.{pos}
use snow_seek.Storage.Codec.{read_u64_le}
use snow_seek.Storage.File.{SegmentFile, open_input, seek_to}
use snow_seek.Storage.Header.{IndexHeader, SectionDescriptor}
use snow_seek.Storage.Records.{DocumentRecord, document_record_size, read_document_record, section}
use snow_seek.Storage.Validation.Table.{
  LoadedDocumentTable, add_decoded, add_decoded_live, add_decoded_tombstone, check_document_record,
  decode_document_table, decode_documents, decode_path, empty_table, has_content_crc32c_flag,
  has_tombstone_flag, max_size, timestamp_from_bits,
}
use snow_seek.Storage.Validation.Table.Pushed.{
  IsTable, count_live, count_live-le-length, pushed-IsTable,
}

add_decoded_tombstone-IsTable :
    (has : Bool) (declared n : ℕ) (loaded : LoadedDocumentTable) (entry : DocumentRecord)
    (path : Bytes)
    → entry.token_count ≡ 0
    → IsTable has declared n loaded
    → Returns (IsTable has declared (n + 1)) (add_decoded_tombstone loaded entry path)
unfolding add_decoded_tombstone add_tombstone is_tombstone
add_decoded_tombstone-IsTable has declared n loaded entry path none_ t =
    elim (Bool-cases (ltb max_document_id (length loaded.documents))) [
      | inl full ↦ rw full tt
      | inr room ↦
          let small : n < 2 ^ 32 = omega (arith, ltb-false _ _ room, t.count_is) in
          let few : loaded.stats.tombstone_count < 2 ^ 32 = omega (arith, t.tombstones_are) in
          rw room (
            pushed-IsTable has declared n entry.token_count loaded.stats.live_document_count
              ((loaded.stats.tombstone_count + 1) % 2 ^ 64) loaded
              (record {
                id = length loaded.documents;
                path = path;
                file_size = 0;
                modified_time_ns = pos 0;
                token_count = 0;
                state = DocumentState.tombstone;
                content_crc32c = none;
              })
              t small refl (λ dead. refl) (sym none_) (omega arith) (omega arith))
    ]

add_decoded_live-IsTable :
    (has : Bool) (declared n : ℕ) (loaded : LoadedDocumentTable) (entry : DocumentRecord)
    (path : Bytes)
    → IsTable has declared n loaded
    → Returns (IsTable has declared (n + 1)) (add_decoded_live loaded entry path)
unfolding add_decoded_live add is_tombstone
add_decoded_live-IsTable has declared n loaded entry path t =
    let crc = if has_content_crc32c_flag entry then some entry.content_crc32c else none in
    let fresh : DocumentMeta = record {
      id = length loaded.documents;
      path = path;
      file_size = entry.file_size;
      modified_time_ns = timestamp_from_bits entry.modified_time_bits;
      token_count = 0;
      state = DocumentState.live;
      content_crc32c = crc;
    } in
    elim (Bool-cases (ltb max_document_id (length loaded.documents))) [
      | inl full ↦ rw full tt
      | inr room ↦
          let small : n < 2 ^ 32 = omega (arith, ltb-false _ _ room, t.count_is) in
          let few : loaded.stats.live_document_count < 2 ^ 32 =
            omega (arith, t.live_is, count_live-le-length loaded.documents, t.count_is) in
          rw (room, set_token_count_pushed loaded.documents fresh entry.token_count refl)
            (pushed-IsTable has declared n entry.token_count
              ((loaded.stats.live_document_count + 1) % 2 ^ 64) loaded.stats.tombstone_count loaded
              (record fresh { token_count = entry.token_count }) t small refl (λ dead. cc) refl
              (omega arith) (omega arith))
    ]

add_decoded-IsTable :
    (has : Bool) (declared n : ℕ) (loaded : LoadedDocumentTable) (entry : DocumentRecord)
    (path : Bytes)
    → (has_tombstone_flag entry ≡ true → entry.token_count ≡ 0)
    → IsTable has declared n loaded
    → Returns (IsTable has declared (n + 1)) (add_decoded loaded entry path)
unfolding add_decoded
add_decoded-IsTable has declared n loaded entry path none_ t =
    if_intro (Returns (IsTable has declared (n + 1))) (has_tombstone_flag entry) _ _
      (λ dead. add_decoded_tombstone-IsTable has declared n loaded entry path (none_ dead) t)
      (λ alive. add_decoded_live-IsTable has declared n loaded entry path t)

tombstone_tokens :
    (document_index expected_path_offset paths_length : ℕ) (entry : DocumentRecord)
    → check_document_record document_index expected_path_offset paths_length entry ≡ ok tt
    → has_tombstone_flag entry ≡ true
    → entry.token_count ≡ 0
unfolding check_document_record
tombstone_tokens document_index expected_path_offset paths_length entry checked dead =
    ground (arith, checked, dead)

module _ (content : Bytes) (paths_section : SectionDescriptor) (has : Bool) (declared : ℕ) where
  Decoded : ℕ → LoadedDocumentTable × ℕ → Type 0
  Decoded n (table, path_end) = IsTable has declared n table

  decode_documents-IsTable :
      (rounds n : ℕ) (input : Bytes) (expected : ℕ) (loaded : LoadedDocumentTable)
      → IsTable has declared n loaded
      → Returns
          (Decoded (n + rounds))
          (decode_documents content paths_section rounds n input expected loaded)
  unfolding decode_documents Decoded
  decode_documents-IsTable zero n input expected loaded t =
      subst (λ (m : ℕ). IsTable has declared m loaded) (omega arith) t
  decode_documents-IsTable (suc rounds) n input expected loaded t =
      let Q = Decoded (n + suc rounds) in
      Returns-then Q (read_document_record input) _ λ (entry, rest) now.
        Returns-then Q (check_document_record n expected paths_section.length entry) _
          λ done checked. Returns-then Q (decode_path content paths_section entry) _ λ path p.
            Returns->>= (IsTable has declared (n + 1)) Q (add_decoded loaded entry path) _
              (add_decoded-IsTable has declared n loaded entry path
                (tombstone_tokens n expected paths_section.length entry checked) t)
              λ added t'.
                Returns-then Q (checked_add expected entry.path_length "path byte range") _
                  λ next o.
                    subst
                      (λ (m : ℕ).
                        Returns (Decoded m)
                          (decode_documents content paths_section rounds (n + 1) rest next added))
                      (omega arith) (decode_documents-IsTable rounds (n + 1) rest next added t')

empty_table-IsTable :
    (header : IndexHeader) (declared : ℕ)
    → IsTable (not (header.feature_flags % 2 == 0)) declared 0 (empty_table header declared)
unfolding count_live
empty_table-IsTable header declared = record {
  store = tt;
  count_is = refl;
  tokens = refl;
  physical_is = refl;
  positions_is = refl;
  live_is = refl;
  tombstones_are = omega arith;
  small = omega arith;
}

whole-IsTable :
    (has : Bool) (n : ℕ) (table : LoadedDocumentTable)
    → IsTable has n (0 + n) table
    → IsTable has (length table.documents) (length table.documents) table
whole-IsTable has n table t =
    let total : 0 + n ≡ n = omega arith in
    subst (λ (m : ℕ). IsTable has m m table) (sym (t.count_is ∙ total))
      (subst (λ (m : ℕ). IsTable has n m table) total t)

-- The table of a Segment: as many documents as the section counts.
pub decode_document_table-IsTable :
    (file : SegmentFile) (header : IndexHeader)
    → Returns
        (λ table.
          IsTable
            (not (header.feature_flags % 2 == 0))
            (length table.documents)
            (length table.documents)
            table)
        (decode_document_table file header)
unfolding decode_document_table Decoded
decode_document_table-IsTable file header =
    let has = not (header.feature_flags % 2 == 0) in
    let Q = λ (table : LoadedDocumentTable).
      IsTable has (length table.documents) (length table.documents) table in
    Returns-then Q (section header 1) _ λ documents_section s1.
      Returns-then Q (section header 2) _ λ paths_section s2.
        Returns-then Q (open_input file) _ λ content c.
          Returns-then Q (seek_to content documents_section.offset) _ λ input i.
            Returns-then Q (read_u64_le input) _ λ (document_count, rest) r.
              Returns-then Q
                (checked_multiply document_count document_record_size "documents section length") _
                λ records_size m.
                  Returns-then Q (checked_add 8 records_size "documents section length") _
                    λ expected_size a.
                      Returns-throw_if Q (not (documents_section.length == expected_size))
                        (Error.runtime_error "documents section has inconsistent length") _
                        λ fits.
                          Returns-throw_if Q (ltb max_size document_count)
                            (Error.runtime_error "document count exceeds size_t") _
                            λ small.
                              Returns->>=
                                (Decoded content paths_section has document_count
                                  (0 + document_count))
                                Q
                                (decode_documents content paths_section document_count 0 rest 0
                                  (empty_table header document_count))
                                _
                                (decode_documents-IsTable content paths_section has document_count
                                  document_count 0 rest 0 (empty_table header document_count)
                                  (empty_table-IsTable header document_count))
                                λ (table, path_end) t.
                                  Returns-throw_if Q (not (path_end == paths_section.length))
                                    (Error.runtime_error
                                      "Paths section contains unreferenced trailing bytes")
                                    _ λ whole. whole-IsTable has document_count table t
