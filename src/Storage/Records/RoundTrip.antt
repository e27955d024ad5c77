-- ===== src/Storage/Records/RoundTrip.antt =====
-- Reading and writing of the records of src/storage/segment_format_internal.hpp, together.
use snow_seek.Prelude.{
  Bytes, IsU32, IsU64, Result, [], append_assoc, length, ok, refl, ℕ, ◌++◌, ◌≡◌,
}
use snow_seek.Storage.Codec.{u32_bytes, u64_bytes}
use snow_seek.Storage.Codec.RoundTrip.{
  memory, read_u32_le-u32_bytes, read_u64_le-u64_bytes, write_u32_le-memory, write_u64_le-memory,
}
use snow_seek.Storage.Records.{
  DocumentRecord, PostingRecord, TermRecord, document_record_size, posting_record_size,
  read_document_record, read_posting_record, read_term_record, term_record_size,
  write_document_record, write_posting_record, write_term_record,
}
use snow_seek.Storage.Stream.{Output, string_stream, write}

abbrev pub FitsDocument : DocumentRecord → Type 0
FitsDocument entry =
    IsU32 entry.document_id
    × IsU32 entry.path_length
    × IsU64 entry.path_offset
    × IsU64 entry.file_size
    × IsU64 entry.modified_time_bits
    × IsU32 entry.token_count
    × IsU32 entry.flags
    × IsU32 entry.content_crc32c
    × IsU32 entry.reserved

abbrev pub FitsTerm : TermRecord → Type 0
FitsTerm entry =
    IsU64 entry.term_offset
    × IsU32 entry.term_length
    × IsU32 entry.document_frequency
    × IsU64 entry.posting_offset
    × IsU64 entry.posting_length

abbrev pub FitsPosting : PostingRecord → Type 0
FitsPosting entry = IsU32 entry.document_id × IsU32 entry.frequency × IsU64 entry.position_offset

-- The bytes of the records.
unfoldable pub document_bytes : DocumentRecord → Bytes
document_bytes entry =
    u32_bytes entry.document_id
    ++ (u32_bytes entry.path_length
        ++ (u64_bytes entry.path_offset
            ++ (u64_bytes entry.file_size
                ++ (u64_bytes entry.modified_time_bits
                    ++ (u32_bytes entry.token_count
                        ++ (u32_bytes entry.flags
                            ++ (u32_bytes entry.content_crc32c ++ u32_bytes entry.reserved)))))))

unfoldable pub term_bytes : TermRecord → Bytes
term_bytes entry =
    u64_bytes entry.term_offset
    ++ (u32_bytes entry.term_length
        ++ (u32_bytes entry.document_frequency
            ++ (u64_bytes entry.posting_offset ++ u64_bytes entry.posting_length)))

unfoldable pub posting_bytes : PostingRecord → Bytes
posting_bytes entry =
    u32_bytes entry.document_id ++ (u32_bytes entry.frequency ++ u64_bytes entry.position_offset)

pub write_document_record-memory :
    (w : Bytes) (entry : DocumentRecord)
    → write_document_record (memory w) entry ≡ ok (memory (w ++ document_bytes entry))
unfolding write_document_record document_bytes
write_document_record-memory w entry = simp (write_u32_le-memory, write_u64_le-memory, append_assoc)

pub write_term_record-memory :
    (w : Bytes) (entry : TermRecord)
    → write_term_record (memory w) entry ≡ ok (memory (w ++ term_bytes entry))
unfolding write_term_record term_bytes
write_term_record-memory w entry = simp (write_u32_le-memory, write_u64_le-memory, append_assoc)

pub write_posting_record-memory :
    (w : Bytes) (entry : PostingRecord)
    → write_posting_record (memory w) entry ≡ ok (memory (w ++ posting_bytes entry))
unfolding write_posting_record posting_bytes
write_posting_record-memory w entry = simp (write_u32_le-memory, write_u64_le-memory, append_assoc)

pub read_document_record-document_bytes :
    (entry : DocumentRecord) (rest : Bytes)
    → FitsDocument entry
    → read_document_record (document_bytes entry ++ rest) ≡ ok (entry, rest)
unfolding read_document_record document_bytes
read_document_record-document_bytes entry rest (a, b, c, d, e, f, g, h, i) = simp (
  append_assoc,
  read_u32_le-u32_bytes entry.document_id _ a,
  read_u32_le-u32_bytes entry.path_length _ b,
  read_u64_le-u64_bytes entry.path_offset _ c,
  read_u64_le-u64_bytes entry.file_size _ d,
  read_u64_le-u64_bytes entry.modified_time_bits _ e,
  read_u32_le-u32_bytes entry.token_count _ f,
  read_u32_le-u32_bytes entry.flags _ g,
  read_u32_le-u32_bytes entry.content_crc32c _ h,
  read_u32_le-u32_bytes entry.reserved _ i,
)

pub read_term_record-term_bytes :
    (entry : TermRecord) (rest : Bytes)
    → FitsTerm entry
    → read_term_record (term_bytes entry ++ rest) ≡ ok (entry, rest)
unfolding read_term_record term_bytes
read_term_record-term_bytes entry rest (a, b, c, d, e) = simp (
  append_assoc,
  read_u64_le-u64_bytes entry.term_offset _ a,
  read_u32_le-u32_bytes entry.term_length _ b,
  read_u32_le-u32_bytes entry.document_frequency _ c,
  read_u64_le-u64_bytes entry.posting_offset _ d,
  read_u64_le-u64_bytes entry.posting_length _ e,
)

pub read_posting_record-posting_bytes :
    (entry : PostingRecord) (rest : Bytes)
    → FitsPosting entry
    → read_posting_record (posting_bytes entry ++ rest) ≡ ok (entry, rest)
unfolding read_posting_record posting_bytes
read_posting_record-posting_bytes entry rest (a, b, c) = simp (
  append_assoc,
  read_u32_le-u32_bytes entry.document_id _ a,
  read_u32_le-u32_bytes entry.frequency _ b,
  read_u64_le-u64_bytes entry.position_offset _ c,
)

-- `write` turns `entry` into `size` bytes, from which `read` restores it and leaves what follows.
abbrev pub Restores :
    {A : Type 0} → ℕ → (Output → A → Result Output) → (Bytes → Result (A × Bytes)) → A → Type 0
Restores size write read entry =
    (bytes : Bytes) × (write string_stream entry ≡ ok (memory bytes))
    × (length bytes ≡ size)
    × ((rest : Bytes) → read (bytes ++ rest) ≡ ok (entry, rest))

-- A document, a term and a posting record whose values fit their fields are written as 48, 32 and 16
-- bytes, and reading those bytes gives the record back and leaves whatever follows them.
pub records-Restores :
    (document : DocumentRecord) (entry : TermRecord) (posting : PostingRecord)
    → FitsDocument document
    → FitsTerm entry
    → FitsPosting posting
    → Restores document_record_size write_document_record read_document_record document
      × Restores term_record_size write_term_record read_term_record entry
      × Restores posting_record_size write_posting_record read_posting_record posting
unfolding document_bytes term_bytes posting_bytes u32_bytes u64_bytes
records-Restores document entry posting d t p = (
  (
    document_bytes document,
    write_document_record-memory [] document,
    refl,
    λ rest. read_document_record-document_bytes document rest d,
  ),
  (
    term_bytes entry,
    write_term_record-memory [] entry,
    refl,
    λ rest. read_term_record-term_bytes entry rest t,
  ),
  (
    posting_bytes posting,
    write_posting_record-memory [] posting,
    refl,
    λ rest. read_posting_record-posting_bytes posting rest p,
  ),
)
