-- ===== src/Storage/Writing/RoundTrip.antt =====
-- The round trip of the table of documents, from src/storage/index_file.cpp to
-- src/storage/index_validation.cpp.
use mathlib.Core.Path.{subst}
use snow_seek.Arithmetic.{checked_add, checked_multiply, product_test}
use snow_seek.Documents.{DocumentStore}
use snow_seek.Documents.Store.{IsStore}
use snow_seek.Prelude.{
  All, Bytes, Returns, [], ap, append-nil, append_assoc, arith, drop, false, length, length-append,
  ltb, not, ok, refl, some, sym, true, ℕ, ◌&&◌, ◌*◌, ◌++◌, ◌+◌, ◌-◌, ◌/◌, ◌<◌, ◌==◌, ◌^◌, ◌∙◌, ◌∷◌,
  ◌≡◌, ◌≤◌,
}
use snow_seek.Storage.Codec.{u32_bytes, u64_bytes}
use snow_seek.Storage.Codec.RoundTrip.{length-u64_bytes, read_u64_le-u64_bytes, write_u64_le-memory}
use snow_seek.Storage.File.{max_stream_offset, open_input, seek_to}
use snow_seek.Storage.Header.{IndexHeader, SectionDescriptor, max_u64}
use snow_seek.Storage.Records.{DocumentRecord, document_record_size, section}
use snow_seek.Storage.Records.RoundTrip.{document_bytes}
use snow_seek.Storage.Validation.Table.{
  LoadedDocumentTable, decode_document_table, empty_table, max_size,
}
use snow_seek.Storage.Writing.Decoded.{FitsMeta, with_document}
use snow_seek.Storage.Writing.Documents.{DocumentsState, encode_documents, write_documents}
use snow_seek.Storage.Writing.Layout.{paths_bytes, record_of, records_bytes}
use snow_seek.Storage.Writing.Loop.{AreStored, decode_documents-with_documents, with_documents}
use snow_seek.Storage.Writing.Restored.{StandsAt}
use snow_seek.Storage.Writing.Table.{
  WroteDocuments, counts_after, table_at, write_documents-WroteDocuments,
}

with_documents-documents :
    (loaded : LoadedDocumentTable) (documents : DocumentStore)
    → (with_documents loaded documents).documents ≡ loaded.documents ++ documents
with_documents-documents loaded [] = sym (append-nil loaded.documents)
with_documents-documents loaded (document ∷ documents) =
    with_documents-documents (with_document loaded document) documents
    ∙ append_assoc loaded.documents (document ∷ []) documents

abbrev counts_of : LoadedDocumentTable → ℕ × ℕ
counts_of loaded = (loaded.stats.live_document_count, loaded.stats.tombstone_count)

with_documents-counts :
    (loaded : LoadedDocumentTable) (documents : DocumentStore)
    → counts_of (with_documents loaded documents) ≡ counts_after documents (counts_of loaded)
with_documents-counts loaded [] = refl
with_documents-counts loaded (document ∷ documents) =
    with_documents-counts (with_document loaded document) documents

with_documents-physical :
    (loaded : LoadedDocumentTable) (documents : DocumentStore)
    → (with_documents loaded documents).stats.physical_document_count
      ≡ loaded.stats.physical_document_count
with_documents-physical loaded [] = refl
with_documents-physical loaded (document ∷ documents) =
    with_documents-physical (with_document loaded document) documents

length-document_bytes : (entry : DocumentRecord) → length (document_bytes entry) ≡ 48
unfolding document_bytes u32_bytes u64_bytes
length-document_bytes entry = refl

length-records_bytes :
    (offset : ℕ) (documents : DocumentStore)
    → length (records_bytes offset documents) ≡ length documents * 48
unfolding records_bytes
length-records_bytes offset [] = refl
length-records_bytes offset (document ∷ documents) =
    let entry = record_of document offset in
    let one = length-document_bytes entry in
    let rest = length-records_bytes (offset + length document.path) documents in
    let both =
      length-append (document_bytes entry)
        (records_bytes (offset + length document.path) documents) in
    omega (arith, one, rest, both)

-- A section stands in a file where its descriptor says, within a stream's reach.
abbrev pub IsPlaced : Bytes → SectionDescriptor → Bytes → Type 0
IsPlaced content descriptor bytes =
    (descriptor.length ≡ length bytes)
    × (descriptor.offset + descriptor.length ≤ max_stream_offset)
    × StandsAt content descriptor.offset bytes

-- The documents fit their members.
abbrev pub IsStorable : DocumentStore → Type 0
IsStorable documents = IsStore documents × (length documents ≤ 2 ^ 32) × All FitsMeta documents

-- What the reader returns.
abbrev pub Restored : DocumentStore → DocumentsState → LoadedDocumentTable → Type 0
Restored documents table loaded =
    (loaded.documents ≡ documents)
    × (loaded.stats.physical_document_count ≡ length documents)
    × (loaded.stats.live_document_count ≡ table.live_document_count)
    × (loaded.stats.tombstone_count ≡ table.tombstone_count)

abbrev pub EncodedDocuments : DocumentStore → DocumentsState → Type 0
EncodedDocuments documents table =
    WroteDocuments (u64_bytes (length documents)) [] 0 (0, 0) documents table

pub encode_documents-Encoded :
    (documents : DocumentStore) (table : DocumentsState)
    → encode_documents documents ≡ ok table
    → EncodedDocuments documents table
unfolding encode_documents
encode_documents-Encoded documents table e =
    let start = table_at (u64_bytes (length documents)) [] 0 (0, 0) in
    let h =
      write_documents-WroteDocuments (u64_bytes (length documents)) [] 0 (0, 0) documents
        (omega arith) in
    let now : write_documents start documents ≡ ok table =
      sym (rw (write_u64_le-memory [] (length documents)) refl) ∙ e in
    subst (Returns (EncodedDocuments documents)) now h

product_fits :
    (count : ℕ)
    → count ≤ 2 ^ 32
    → (not (count == 0) && ltb (max_u64 / count) document_record_size) ≡ false
product_fits count few = product_test count 48 ∙ ground (arith, few)

-- A store that the writer takes, with the two sections where a file holds them, is read again: the
-- documents, the number of them, and the numbers of live ones and tombstones are the ones written.
pub decode_document_table-encode_documents :
    (documents : DocumentStore) (table : DocumentsState) (content : Bytes) (header : IndexHeader)
    (documents_section paths_section : SectionDescriptor)
    → IsStorable documents
    → encode_documents documents ≡ ok table
    → section header 1 ≡ ok documents_section
    → section header 2 ≡ ok paths_section
    → IsPlaced content documents_section table.documents_stream.written
    → IsPlaced content paths_section table.paths_stream.written
    → (loaded : LoadedDocumentTable) × (decode_document_table (some content) header ≡ ok loaded)
      × Restored documents table loaded
unfolding decode_document_table open_input seek_to checked_multiply checked_add
decode_document_table-encode_documents documents table content header documents_section
      paths_section (store, few, fit) wrote first_section second_section
      (d_length, d_reach, (d_after, d_stands)) (p_length, p_reach, (p_after, p_stands)) =
    let count = length documents in
    let records = records_bytes 0 documents in
    let (writable, total, table_eq) = encode_documents-Encoded documents table wrote in
    let written_eq : table.documents_stream.written ≡ u64_bytes count ++ records =
      ap (λ (s : DocumentsState). s.documents_stream.written) table_eq in
    let paths_eq : table.paths_stream.written ≡ paths_bytes documents =
      ap (λ (s : DocumentsState). s.paths_stream.written) table_eq in
    let zero_ : paths_section.offset ≡ paths_section.offset + 0 = omega arith in
    let size_eq : paths_section.length ≡ length (paths_bytes documents) =
      p_length ∙ ap length paths_eq in
    let stored : AreStored content paths_section 0 0 documents = record {
      writable = writable;
      fit = fit;
      numbered = store;
      few = omega (arith, few);
      inside = omega (arith, size_eq);
      reach = p_reach;
      stands =
          subst (λ (n : ℕ). StandsAt content n (paths_bytes documents)) zero_
            (p_after, p_stands ∙ ap (λ (b : Bytes). b ++ p_after) paths_eq);
    } in
    let loaded = with_documents (empty_table header count) documents in
    let decoded =
      decode_documents-with_documents content paths_section documents 0 0 (empty_table header count)
        d_after stored refl in
    let input : drop documents_section.offset content ≡ u64_bytes count ++ (records ++ d_after) =
      d_stands
      ∙ ap (λ (b : Bytes). b ++ d_after) written_eq
      ∙ append_assoc (u64_bytes count) records d_after in
    let record_size = length-records_bytes 0 documents in
    let header_size = length-u64_bytes count in
    let both = length-append (u64_bytes count) records in
    let d_size : documents_section.length ≡ 8 + count * 48 =
      let whole : documents_section.length ≡ length (u64_bytes count ++ records) =
        d_length ∙ ap length written_eq in
      omega (arith, whole, both, record_size, header_size) in
    let end_ : 0 + length (paths_bytes documents) ≡ paths_section.length = omega (arith, size_eq) in
    let d_small : ltb max_stream_offset documents_section.offset ≡ false =
      ground (arith, d_reach) in
    let fits_count : count < 2 ^ 64 = omega (arith, few) in
    let small_count : ltb max_size count ≡ false = ground (arith, few) in
    let product : (not (count == 0) && ltb (max_u64 / count) document_record_size) ≡ false =
      product_fits count few in
    let sum : ltb (max_u64 - 8) (count * 48) ≡ false = ground (arith, few) in
    let consistent : documents_section.length == 8 + count * 48 ≡ true = ground (arith, d_size) in
    let ends : 0 + length (paths_bytes documents) == paths_section.length ≡ true =
      ground (arith, end_) in
    let counts = with_documents-counts (empty_table header count) documents in
    let wrote_counts : (table.live_document_count, table.tombstone_count)
        ≡ counts_after documents (0, 0) =
      ap (λ (s : DocumentsState). (s.live_document_count, s.tombstone_count)) table_eq in
    let same_counts = counts ∙ sym wrote_counts in
    (
      loaded,
      rw
          (
            first_section,
            second_section,
            d_small,
            input,
            read_u64_le-u64_bytes count (records ++ d_after) fits_count,
            product,
            sum,
            consistent,
            small_count,
            decoded,
            ends,
          )
          refl,
      (
        with_documents-documents (empty_table header count) documents,
        with_documents-physical (empty_table header count) documents,
        λ i. (same_counts i).0,
        λ i. (same_counts i).1,
      ),
    )
