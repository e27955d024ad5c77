-- ===== src/Storage/Writing/Loop.antt =====
-- The loop of `decode_document_table` of src/storage/index_validation.cpp over the sections that
-- src/storage/index_file.cpp writes.
use mathlib.Core.Path.{subst}
use snow_seek.Arithmetic.{checked_add}
use snow_seek.Documents.{DocumentMeta, DocumentStore}
use snow_seek.Documents.Store.{IsStoreFrom}
use snow_seek.Prelude.{
  All, Bytes, [], ap, append_assoc, arith, false, length, length-append, ltb, ok, refl, suc, sym, ℕ,
  ◌++◌, ◌+◌, ◌-◌, ◌^◌, ◌∙◌, ◌∷◌, ◌≡◌, ◌≤◌,
}
use snow_seek.Storage.File.{max_stream_offset}
use snow_seek.Storage.Header.{SectionDescriptor, max_u64}
use snow_seek.Storage.Records.RoundTrip.{
  FitsDocument, document_bytes, read_document_record-document_bytes,
}
use snow_seek.Storage.Validation.Table.{
  LoadedDocumentTable, check_document_record, decode_documents, decode_path,
}
use snow_seek.Storage.Writing.Decoded.{
  FitsMeta, add_decoded-with_document, record_of-FitsDocument, with_document,
}
use snow_seek.Storage.Writing.Layout.{IsWritable, paths_bytes, record_of, records_bytes}
use snow_seek.Storage.Writing.Restored.{
  StandsAt, StandsAt-back, StandsAt-front, check_document_record-record_of, decode_path-record_of,
}

-- The table with the documents at its end.
abbrev pub with_documents : LoadedDocumentTable → DocumentStore → LoadedDocumentTable
with_documents loaded [] = loaded
with_documents loaded (document ∷ documents) =
    with_documents (with_document loaded document) documents

-- Where the documents stand and what they hold.
pub record AreStored (content : Bytes) (paths_section : SectionDescriptor) (index offset : ℕ)
    (documents : DocumentStore) : Type 0 where
  pub writable : All IsWritable documents
  pub fit : All FitsMeta documents
  pub numbered : IsStoreFrom index documents
  pub few : index + length documents ≤ 2 ^ 32
  pub inside : offset + length (paths_bytes documents) ≤ paths_section.length
  pub reach : paths_section.offset + paths_section.length ≤ max_stream_offset
  pub stands : StandsAt content (paths_section.offset + offset) (paths_bytes documents)

suc_eq : (n : ℕ) → suc n ≡ n + 1
suc_eq n = omega arith

module _ (content : Bytes) (paths_section : SectionDescriptor) (index offset : ℕ)
    (document : DocumentMeta) (documents : DocumentStore)
    (s : AreStored content paths_section index offset (document ∷ documents)) where
  next_is : AreStored content paths_section (index + 1) (offset + length document.path) documents
  unfolding paths_bytes
  next_is =
      let size = length-append document.path (paths_bytes documents) in
      let sum : (paths_section.offset + offset) + length document.path
          ≡ paths_section.offset + (offset + length document.path) =
        omega arith in
      record {
        writable = s.writable.1;
        fit = s.fit.1;
        numbered = subst (λ (n : ℕ). IsStoreFrom n documents) (suc_eq index) s.numbered.2;
        few = omega (arith, s.few);
        inside = omega (arith, s.inside, size);
        reach = s.reach;
        stands =
            subst (λ (n : ℕ). StandsAt content n (paths_bytes documents)) sum
              (StandsAt-back content (paths_section.offset + offset) document.path
                (paths_bytes documents) s.stands);
      }

  path_inside : offset + length document.path ≤ paths_section.length
  unfolding paths_bytes
  path_inside =
      let size = length-append document.path (paths_bytes documents) in
      omega (arith, s.inside, size)

  decode_path_ok : decode_path content paths_section (record_of document offset) ≡ ok document.path
  unfolding paths_bytes
  decode_path_ok =
      decode_path-record_of content paths_section document offset s.writable.0
        (omega (arith, path_inside, s.reach))
        (StandsAt-front content (paths_section.offset + offset) document.path
          (paths_bytes documents) s.stands)

  check_ok :
      check_document_record index offset paths_section.length (record_of document offset) ≡ ok tt
  check_ok =
      subst
        (λ (n : ℕ).
          check_document_record n offset paths_section.length (record_of document offset) ≡ ok tt)
        s.numbered.0
        (check_document_record-record_of document offset paths_section.length s.writable.0
          path_inside)

  fits : FitsDocument (record_of document offset)
  fits =
      record_of-FitsDocument document offset s.writable.0 s.fit.0
        (omega (arith, s.few, s.numbered.0)) (omega (arith, path_inside, s.reach))

pub decode_documents-with_documents :
    (content : Bytes) (paths_section : SectionDescriptor) (documents : DocumentStore)
    (index offset : ℕ) (loaded : LoadedDocumentTable) (rest : Bytes)
    → AreStored content paths_section index offset documents
    → length loaded.documents ≡ index
    → decode_documents content paths_section
        (length documents)
        index
        (records_bytes offset documents ++ rest)
        offset
        loaded
      ≡ ok (with_documents loaded documents, offset + length (paths_bytes documents))
unfolding decode_documents records_bytes paths_bytes checked_add
decode_documents-with_documents content paths_section [] index offset loaded rest s at =
    let same : offset ≡ offset + 0 = omega arith in ap (λ (n : ℕ). ok (loaded, n)) same
decode_documents-with_documents content paths_section (document ∷ documents) index offset loaded
      rest s at =
    let entry = record_of document offset in
    let later = records_bytes (offset + length document.path) documents in
    let count = s.few in
    let added =
      add_decoded-with_document loaded document offset s.writable.0 s.fit.0 (s.numbered.0 ∙ sym at)
        (omega arith) in
    let here = path_inside content paths_section index offset document documents s in
    let far = s.reach in
    let sum : ltb (max_u64 - offset) (length document.path) ≡ false = ground (arith, here, far) in
    let pushed = length-append loaded.documents (document ∷ []) in
    let next =
      decode_documents-with_documents content paths_section documents (index + 1)
        (offset + length document.path) (with_document loaded document) rest
        (next_is content paths_section index offset document documents s)
        (omega (arith, pushed, at)) in
    let size = length-append document.path (paths_bytes documents) in
    let total : (offset + length document.path) + length (paths_bytes documents)
        ≡ offset + length (document.path ++ paths_bytes documents) =
      omega (arith, size) in
    rw
      (
        append_assoc (document_bytes entry) later rest,
        read_document_record-document_bytes entry (later ++ rest)
            (fits content paths_section index offset document documents s),
        check_ok content paths_section index offset document documents s,
        decode_path_ok content paths_section index offset document documents s,
        added,
        sum,
        next,
        total,
      )
      refl
