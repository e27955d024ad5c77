-- ===== src/Storage/Writing/File.antt =====
-- The file that `write_index_file` of src/storage/index_file.cpp writes, read again.
use mathlib.Core.Path.{subst}
use snow_seek.Documents.{DocumentStore}
use snow_seek.Index.{InMemoryIndex}
use snow_seek.Prelude.{
  All, Bool, Bytes, IsByte, Option, Returns, arith, length, ok, refl, some, sym, ℕ, ◌+◌, ◌∙◌, ◌≡◌,
  ◌≤◌,
}
use snow_seek.Storage.File.{max_stream_offset}
use snow_seek.Storage.Header.{IndexHeader}
use snow_seek.Storage.Header.Checks.{IsHeader}
use snow_seek.Storage.Records.{descriptor_of, section}
use snow_seek.Storage.Stream.{Output}
use snow_seek.Storage.Validation.Envelope.{read_validated_header}
use snow_seek.Storage.Validation.Table.{LoadedDocumentTable, SegmentStats, decode_document_table}
use snow_seek.Storage.Writing.{write_index_file}
use snow_seek.Storage.Writing.Documents.{DocumentsState, encode_documents}
use snow_seek.Storage.Writing.Envelope.{
  file_content, file_content-AllPlaced, file_header, read_validated_header-file_content,
}
use snow_seek.Storage.Writing.Placing.{descriptor_at}
use snow_seek.Storage.Writing.RoundTrip.{
  IsPlaced, IsStorable, decode_document_table-encode_documents,
}
use snow_seek.Storage.Writing.Written.{WroteIndex, opened, write_index_file-WroteIndex}

-- What reading the table back gives.
abbrev pub ReadsBack : DocumentStore → SegmentStats → Bytes → Type 0
ReadsBack documents stats file =
    (made : IndexHeader) × (loaded : LoadedDocumentTable) × (read_validated_header (some file)
      ≡ ok made)
    × (decode_document_table (some file) made ≡ ok loaded)
    × (loaded.documents ≡ documents)
    × (loaded.stats.physical_document_count ≡ stats.physical_document_count)
    × (loaded.stats.live_document_count ≡ stats.live_document_count)
    × (loaded.stats.tombstone_count ≡ stats.tombstone_count)

module _ (a b c d e : Bytes) (flag : Bool) (documents : DocumentStore) (stats : SegmentStats)
    (reach : (file_header a b c d e flag).file_size ≤ max_stream_offset) where
  section_1 : section (file_header a b c d e flag) 1 ≡ ok (descriptor_at 200 1 a)
  unfolding section descriptor_of
  section_1 = refl

  section_2 : section (file_header a b c d e flag) 2 ≡ ok (descriptor_at (200 + length a) 2 b)
  unfolding section descriptor_of
  section_2 = refl

  file_content-ReadsBack :
      (table : DocumentsState)
      → IsStorable documents
      → encode_documents documents ≡ ok table
      → a ≡ table.documents_stream.written
      → b ≡ table.paths_stream.written
      → IsHeader (file_header a b c d e flag)
      → All IsByte (file_content a b c d e flag)
      → (stats.physical_document_count ≡ length documents)
        × (stats.live_document_count ≡ table.live_document_count)
        × (stats.tombstone_count ≡ table.tombstone_count)
      → ReadsBack documents stats (file_content a b c d e flag)
  file_content-ReadsBack table storable encoded a_eq b_eq v bytes (n1, n2, n3) =
      let file = file_content a b c d e flag in
      let (place_a, crc_a, (place_b, crc_b, later)) = file_content-AllPlaced a b c d e flag reach in
      let (loaded, decoded, (same, physical, lives, tombstones)) =
        decode_document_table-encode_documents documents table file (file_header a b c d e flag)
          (descriptor_at 200 1 a) (descriptor_at (200 + length a) 2 b) storable encoded section_1
          section_2 (subst (IsPlaced file (descriptor_at 200 1 a)) a_eq place_a)
          (subst (IsPlaced file (descriptor_at (200 + length a) 2 b)) b_eq place_b) in
      (
        file_header a b c d e flag,
        loaded,
        read_validated_header-file_content a b c d e flag v reach bytes,
        decoded,
        same,
        physical ∙ sym n1,
        lives ∙ sym n2,
        tombstones ∙ sym n3,
      )

-- If a table is a store of at most 2 ^ 32 documents whose values fit their members, and
-- `write_index_file` writes it into an open file, of bytes and within a stream's reach, then the
-- header and the checksums of that file are accepted, and its table of documents is read back: the
-- documents, and the numbers of all, of live ones and of tombstones that the writer reported.
pub decode_document_table-write_index_file :
    (available room : Option ℕ) (documents : DocumentStore) (index : InMemoryIndex)
    (stats : SegmentStats) (out : Output)
    → IsStorable documents
    → write_index_file available (some (opened room)) documents index ≡ ok (stats, out)
    → stats.file_size ≤ max_stream_offset
    → All IsByte out.written
    → ReadsBack documents stats out.written
decode_document_table-write_index_file available room documents index stats out storable e reach
      bytes =
    let flag = index.store_positions in
    let (table, terms, postings, positions, encoded, v, written, size, n1, n2, n3) =
      subst (Returns (WroteIndex documents flag)) e
        (write_index_file-WroteIndex available room documents index) in
    let a = table.documents_stream.written in
    let b = table.paths_stream.written in
    subst (ReadsBack documents stats) (sym written) (
      file_content-ReadsBack a b terms postings positions flag documents stats
        (omega (arith, reach, size)) table storable encoded refl refl v
        (subst (All IsByte) written bytes) (n1, n2, n3))
