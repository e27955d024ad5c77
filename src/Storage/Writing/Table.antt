-- ===== src/Storage/Writing/Table.antt =====
-- The loop of src/storage/index_file.cpp over the documents.
use mathlib.Core.Path.{subst}
use snow_seek.Arithmetic.{checked_add}
use snow_seek.Documents.{DocumentMeta, DocumentStore, is_tombstone}
use snow_seek.Prelude.{
  All, Bytes, Result, Returns, Returns->>=, Returns-map, Returns-then, [], ap, append-nil,
  append_assoc, arith, if◌then◌else◌, length, length-append, ok, refl, sym, ℕ, ◌%◌, ◌++◌, ◌+◌, ◌<◌,
  ◌^◌, ◌∙◌, ◌∷◌, ◌≡◌,
}
use snow_seek.Storage.Codec.RoundTrip.{memory}
use snow_seek.Storage.Records.{DocumentRecord, write_document_record}
use snow_seek.Storage.Records.RoundTrip.{document_bytes, write_document_record-memory}
use snow_seek.Storage.Stream.{Output, write, write-took}
use snow_seek.Storage.Writing.Checks.{
  checked_add-eq-ok, checked_narrow-eq-ok, document_flags-Flagged, path_to_utf8-eq-ok,
}
use snow_seek.Storage.Writing.Documents.{
  DocumentsState, document_flags, document_record, write_document, write_documents,
}
use snow_seek.Storage.Writing.Fields.{checked_narrow, path_to_utf8}
use snow_seek.Storage.Writing.Layout.{IsWritable, paths_bytes, record_of, records_bytes}

-- The counts of the writer and of the reader after a document.
abbrev pub count_after : DocumentMeta → ℕ × ℕ → ℕ × ℕ
count_after document (lives, tombstones) = (
  if is_tombstone document.state then lives else (lives + 1) % 2 ^ 64,
  if is_tombstone document.state then (tombstones + 1) % 2 ^ 64 else tombstones,
)

abbrev pub counts_after : DocumentStore → ℕ × ℕ → ℕ × ℕ
counts_after [] counts = counts
counts_after (document ∷ documents) counts = counts_after documents (count_after document counts)

-- The state of the loop with the bytes and the counts so far.
abbrev pub table_at : Bytes → Bytes → ℕ → ℕ × ℕ → DocumentsState
table_at w p offset counts = record {
  paths_stream = memory p;
  documents_stream = memory w;
  path_offset = offset;
  live_document_count = counts.0;
  tombstone_count = counts.1;
}

output_eq : (a b : Output) → ◌≡◌ {A = Result Output} (ok a) (ok b) → a ≡ b
output_eq a b e = cc

module _ (w p : Bytes) (offset : ℕ) (counts : ℕ × ℕ) (small : offset < 2 ^ 64) where
  abbrev WroteDocument : DocumentMeta → DocumentsState → Type 0
  WroteDocument document after =
      IsWritable document
      × (offset + length document.path < 2 ^ 64)
      × (after
          ≡ table_at (w ++ document_bytes (record_of document offset)) (p ++ document.path)
              (offset + length document.path) (count_after document counts))

  write_document-WroteDocument :
      (document : DocumentMeta)
      → Returns (WroteDocument document) (write_document (table_at w p offset counts) document)
  unfolding write_document
  write_document-WroteDocument document =
      let Q = WroteDocument document in
      Returns-then Q (path_to_utf8 document.path) _ λ path_bytes e1.
        Returns-then Q (checked_narrow (length path_bytes) "path length") _ λ path_length e2.
          Returns-then Q (document_flags document) _ λ (flags, crc) e3.
            Returns-then Q
              (write_document_record (memory w)
                (document_record document path_length offset flags crc))
              _
              λ stream e4.
                Returns-then Q (checked_add offset (length path_bytes) "paths section length") _
                  λ next e5.
                    let (same, relative, text) = path_to_utf8-eq-ok document.path path_bytes e1 in
                    let (narrow, fits) =
                      checked_narrow-eq-ok (length path_bytes) path_length "path length" e2 in
                    let (flags_eq, crc_eq, bare) = document_flags-Flagged document flags crc e3 in
                    let (next_eq, inside) =
                      checked_add-eq-ok offset (length path_bytes) next "paths section length" small
                        e5 in
                    let size : length path_bytes ≡ length document.path = ap length same in
                    let length_eq : path_length ≡ length document.path = narrow ∙ size in
                    let record_eq : document_record document path_length offset flags crc
                        ≡ record_of document offset =
                      λ i. document_record document (length_eq i) offset (flags_eq i) (crc_eq i) in
                    let paths_eq : write (memory p) path_bytes ≡ memory (p ++ document.path) =
                      write-took (memory p) path_bytes refl tt
                      ∙ ap (λ (b : Bytes). memory (p ++ b)) same in
                    let stream_eq : stream
                        ≡ memory (w ++ document_bytes (record_of document offset)) =
                      output_eq stream _ (
                        sym e4
                        ∙ write_document_record-memory w
                            (document_record document path_length offset flags crc))
                      ∙ ap (λ (r : DocumentRecord). memory (w ++ document_bytes r)) record_eq in
                    let offset_eq : next ≡ offset + length document.path = omega arith in
                    (
                      record {
                        path_is = relative;
                        text_is = text;
                        path_fits = omega arith;
                        tombstone_is = bare;
                      },
                      omega arith,
                      λ i. record {
                        paths_stream = paths_eq i;
                        documents_stream = stream_eq i;
                        path_offset = offset_eq i;
                        live_document_count = (count_after document counts).0;
                        tombstone_count = (count_after document counts).1;
                      },
                    )

-- The state after the documents.
abbrev pub WroteDocuments : Bytes → Bytes → ℕ → ℕ × ℕ → DocumentStore → DocumentsState → Type 0
WroteDocuments w p offset counts documents after =
    All IsWritable documents
    × (offset + length (paths_bytes documents) < 2 ^ 64)
    × (after
        ≡ table_at (w ++ records_bytes offset documents) (p ++ paths_bytes documents)
            (offset + length (paths_bytes documents)) (counts_after documents counts))

then_documents :
    (w p : Bytes) (offset : ℕ) (counts : ℕ × ℕ) (document : DocumentMeta)
    (documents : DocumentStore) (after : DocumentsState)
    → IsWritable document
    → WroteDocuments
        (w ++ document_bytes (record_of document offset))
        (p ++ document.path)
        (offset + length document.path)
        (count_after document counts)
        documents
        after
    → WroteDocuments w p offset counts (document ∷ documents) after
unfolding records_bytes paths_bytes
then_documents w p offset counts document documents after v (all, fits, e) =
    let size = length-append document.path (paths_bytes documents) in
    let offset_eq : (offset + length document.path) + length (paths_bytes documents)
        ≡ offset + length (document.path ++ paths_bytes documents) =
      omega (arith, size) in
    (
      (v, all),
      omega (arith, size, fits),
      e ∙ λ i.
          table_at
            (append_assoc w (document_bytes (record_of document offset))
              (records_bytes (offset + length document.path) documents) i)
            (append_assoc p document.path (paths_bytes documents) i) (offset_eq i)
            (counts_after documents (count_after document counts)),
    )

no_documents :
    (w p : Bytes) (offset : ℕ) (counts : ℕ × ℕ)
    → offset < 2 ^ 64
    → WroteDocuments w p offset counts [] (table_at w p offset counts)
unfolding records_bytes paths_bytes
no_documents w p offset counts small =
    let nothing : offset ≡ offset + 0 = omega arith in
    let w' = sym (append-nil w) in
    let p' = sym (append-nil p) in (tt, omega arith, λ i. table_at (w' i) (p' i) (nothing i) counts)

pub write_documents-WroteDocuments :
    (w p : Bytes) (offset : ℕ) (counts : ℕ × ℕ) (documents : DocumentStore)
    → offset < 2 ^ 64
    → Returns
        (WroteDocuments w p offset counts documents)
        (write_documents (table_at w p offset counts) documents)
unfolding write_documents
write_documents-WroteDocuments w p offset counts [] small = no_documents w p offset counts small
write_documents-WroteDocuments w p offset counts (document ∷ documents) small =
    let Q = WroteDocuments w p offset counts (document ∷ documents) in
    Returns->>= (WroteDocument w p offset counts small document) Q
      (write_document (table_at w p offset counts) document) _
      (write_document-WroteDocument w p offset counts small document)
      λ next (v, fits, e).
        subst (λ (s : DocumentsState). Returns Q (write_documents s documents)) (sym e)
          (Returns-map
            (WroteDocuments (w ++ document_bytes (record_of document offset)) (p ++ document.path)
              (offset + length document.path) (count_after document counts) documents)
            Q
            (write_documents
              (table_at (w ++ document_bytes (record_of document offset)) (p ++ document.path)
                (offset + length document.path) (count_after document counts))
              documents)
            (write_documents-WroteDocuments (w ++ document_bytes (record_of document offset))
              (p ++ document.path) (offset + length document.path) (count_after document counts)
              documents fits)
            λ after rest. then_documents w p offset counts document documents after v rest)
