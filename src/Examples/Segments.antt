-- ===== src/Examples/Segments.antt =====
-- A Segment of a live document, a tombstone and one term, loaded; and the theorems on Segments there.
use snow_seek.Arithmetic.{checked_add, checked_multiply}
use snow_seek.Documents.{DocumentState, add, add_tombstone, get, is_tombstone, set_token_count}
use snow_seek.Index.{
  add_posting, are_ascending, assign, bytes_less, find, insert, lookup, postings_for, sorted_keys,
  sorted_terms,
}
use snow_seek.Prelude.{
  All, Bytes, IsByte, [], arith, length, none, ok, refl, some, true, ◌<◌, ◌>>=◌, ◌^◌, ◌↔◌, ◌∷◌, ◌≡◌,
}
use snow_seek.Prelude.Int.{pos}
use snow_seek.Storage.Checksum.{
  crc32c, crc32c_tables, shift_bit, shift_bits, update, update_byte, update_eight, update_state,
  update_tail, value,
}
use snow_seek.Storage.Codec.{
  read_u32_le, read_u64_le, require_write, u32_bytes, u64_bytes, write_u32_le, write_u64_le,
}
use snow_seek.Storage.Codec.RoundTrip.{memory}
use snow_seek.Storage.File.{open_input, read_exact, seek_to}
use snow_seek.Storage.File.Utf8.{is_second_byte, is_tail_byte, is_valid_utf8, utf8_length}
use snow_seek.Storage.Header.{
  SectionDescriptor, last_length, read_fields, read_header, read_header_bytes, read_magic,
  read_section, read_sections, serialize_checksummed_prefix, validate_header, validate_section,
  validate_sections, write_fields, write_header, write_section, write_sections,
}
use snow_seek.Storage.Records.{
  descriptor_of, document_record_size, posting_record_size, read_document_record,
  read_posting_record, read_term_record, section, term_record_size, write_document_record,
  write_posting_record, write_term_record,
}
use snow_seek.Storage.Records.RoundTrip.{Restores, records-Restores}
use snow_seek.Storage.Stream.{string_stream, write}
use snow_seek.Storage.Validation.Envelope.{
  checksum_rounds, read_validated_header, validate_checksum, validate_checksums,
}
use snow_seek.Storage.Validation.Envelope.Checksums.{checksum_verdict, validate_checksum_lem}
use snow_seek.Storage.Validation.Loading.{
  LoadedSegment, add_consumed, load_segment, read_index_file, validate_index_file,
}
use snow_seek.Storage.Validation.Loading.Agreement.{validate_index_file_lem}
use snow_seek.Storage.Validation.Loading.Loaded.{IsLoaded, read_index_file-IsLoaded}
use snow_seek.Storage.Validation.Table.{
  add_decoded, add_decoded_live, add_decoded_tombstone, check_document_record, components,
  decode_document_table, decode_documents, decode_path, grown, is_absolute, is_dots,
  is_relative_document_path, none_is_dots, timestamp_from_bits,
}
use snow_seek.Storage.Validation.Terms.{
  all_ascii, check_posting, check_posting_range, check_remaining, check_term_record,
  check_term_text, count_at, decode_postings, decode_term_bytes, decode_terms,
  decode_terms_and_postings, next_position_count, next_position_offset, posting_positions,
  read_positions, take_posting,
}
use snow_seek.Storage.Writing.{
  check_space, encode_sections, make_header, place_sections, write_file, write_index_file,
  write_index_file_bounded, write_sections_bytes,
}
use snow_seek.Storage.Writing.Accepting.{encode_documents-IsWritable}
use snow_seek.Storage.Writing.Documents.{
  DocumentsState, document_flags, encode_documents, write_document, write_documents,
}
use snow_seek.Storage.Writing.Fields.{checked_narrow, finish, path_to_utf8, timestamp_bits}
use snow_seek.Storage.Writing.File.{ReadsBack, decode_document_table-write_index_file}
use snow_seek.Storage.Writing.Layout.{IsWritable, paths_bytes}
use snow_seek.Storage.Writing.RoundTrip.{IsStorable}
use snow_seek.Storage.Writing.Terms.{
  check_written_posting, write_positions, write_posting, write_posting_positions, write_postings,
  write_term, write_term_bytes, write_term_records, write_terms, write_terms_section,
  written_postings,
}

abbrev segment : Bytes
segment =
    83 ∷ 78 ∷ 79 ∷ 87 ∷ 83 ∷ 69 ∷ 69 ∷ 75 ∷ 2 ∷ 0 ∷ 0 ∷ 0 ∷ 1 ∷ 0 ∷ 0 ∷ 0 ∷ 200 ∷ 0 ∷ 0 ∷ 0 ∷ 5 ∷ 0
    ∷ 0 ∷ 0 ∷ 118 ∷ 1 ∷ 0 ∷ 0 ∷ 0 ∷ 0 ∷ 0 ∷ 0 ∷ 1 ∷ 0 ∷ 0 ∷ 0 ∷ 0 ∷ 0 ∷ 0 ∷ 0 ∷ 200 ∷ 0 ∷ 0 ∷ 0 ∷ 0
    ∷ 0 ∷ 0 ∷ 0 ∷ 104 ∷ 0 ∷ 0 ∷ 0 ∷ 0 ∷ 0 ∷ 0 ∷ 0 ∷ 12 ∷ 133 ∷ 96 ∷ 186 ∷ 0 ∷ 0 ∷ 0 ∷ 0 ∷ 2 ∷ 0 ∷ 0
    ∷ 0 ∷ 0 ∷ 0 ∷ 0 ∷ 0 ∷ 48 ∷ 1 ∷ 0 ∷ 0 ∷ 0 ∷ 0 ∷ 0 ∷ 0 ∷ 4 ∷ 0 ∷ 0 ∷ 0 ∷ 0 ∷ 0 ∷ 0 ∷ 0 ∷ 186 ∷ 10
    ∷ 139 ∷ 106 ∷ 0 ∷ 0 ∷ 0 ∷ 0 ∷ 3 ∷ 0 ∷ 0 ∷ 0 ∷ 0 ∷ 0 ∷ 0 ∷ 0 ∷ 52 ∷ 1 ∷ 0 ∷ 0 ∷ 0 ∷ 0 ∷ 0 ∷ 0
    ∷ 42 ∷ 0 ∷ 0 ∷ 0 ∷ 0 ∷ 0 ∷ 0 ∷ 0 ∷ 18 ∷ 159 ∷ 162 ∷ 0 ∷ 0 ∷ 0 ∷ 0 ∷ 0 ∷ 4 ∷ 0 ∷ 0 ∷ 0 ∷ 0 ∷ 0
    ∷ 0 ∷ 0 ∷ 94 ∷ 1 ∷ 0 ∷ 0 ∷ 0 ∷ 0 ∷ 0 ∷ 0 ∷ 16 ∷ 0 ∷ 0 ∷ 0 ∷ 0 ∷ 0 ∷ 0 ∷ 0 ∷ 138 ∷ 50 ∷ 147 ∷ 32
    ∷ 0 ∷ 0 ∷ 0 ∷ 0 ∷ 5 ∷ 0 ∷ 0 ∷ 0 ∷ 0 ∷ 0 ∷ 0 ∷ 0 ∷ 110 ∷ 1 ∷ 0 ∷ 0 ∷ 0 ∷ 0 ∷ 0 ∷ 0 ∷ 8 ∷ 0 ∷ 0
    ∷ 0 ∷ 0 ∷ 0 ∷ 0 ∷ 0 ∷ 179 ∷ 59 ∷ 10 ∷ 238 ∷ 0 ∷ 0 ∷ 0 ∷ 0 ∷ 96 ∷ 254 ∷ 19 ∷ 43 ∷ 0 ∷ 0 ∷ 0 ∷ 0
    ∷ 2 ∷ 0 ∷ 0 ∷ 0 ∷ 0 ∷ 0 ∷ 0 ∷ 0 ∷ 0 ∷ 0 ∷ 0 ∷ 0 ∷ 1 ∷ 0 ∷ 0 ∷ 0 ∷ 0 ∷ 0 ∷ 0 ∷ 0 ∷ 0 ∷ 0 ∷ 0 ∷ 0
    ∷ 5 ∷ 0 ∷ 0 ∷ 0 ∷ 0 ∷ 0 ∷ 0 ∷ 0 ∷ 7 ∷ 0 ∷ 0 ∷ 0 ∷ 0 ∷ 0 ∷ 0 ∷ 0 ∷ 2 ∷ 0 ∷ 0 ∷ 0 ∷ 2 ∷ 0 ∷ 0 ∷ 0
    ∷ 205 ∷ 171 ∷ 0 ∷ 0 ∷ 0 ∷ 0 ∷ 0 ∷ 0 ∷ 1 ∷ 0 ∷ 0 ∷ 0 ∷ 3 ∷ 0 ∷ 0 ∷ 0 ∷ 1 ∷ 0 ∷ 0 ∷ 0 ∷ 0 ∷ 0 ∷ 0
    ∷ 0 ∷ 0 ∷ 0 ∷ 0 ∷ 0 ∷ 0 ∷ 0 ∷ 0 ∷ 0 ∷ 0 ∷ 0 ∷ 0 ∷ 0 ∷ 0 ∷ 0 ∷ 0 ∷ 0 ∷ 0 ∷ 0 ∷ 0 ∷ 0 ∷ 1 ∷ 0 ∷ 0
    ∷ 0 ∷ 0 ∷ 0 ∷ 0 ∷ 0 ∷ 0 ∷ 0 ∷ 0 ∷ 0 ∷ 97 ∷ 98 ∷ 47 ∷ 99 ∷ 1 ∷ 0 ∷ 0 ∷ 0 ∷ 0 ∷ 0 ∷ 0 ∷ 0 ∷ 40 ∷ 0
    ∷ 0 ∷ 0 ∷ 0 ∷ 0 ∷ 0 ∷ 0 ∷ 2 ∷ 0 ∷ 0 ∷ 0 ∷ 1 ∷ 0 ∷ 0 ∷ 0 ∷ 0 ∷ 0 ∷ 0 ∷ 0 ∷ 0 ∷ 0 ∷ 0 ∷ 0 ∷ 16 ∷ 0
    ∷ 0 ∷ 0 ∷ 0 ∷ 0 ∷ 0 ∷ 0 ∷ 104 ∷ 105 ∷ 0 ∷ 0 ∷ 0 ∷ 0 ∷ 2 ∷ 0 ∷ 0 ∷ 0 ∷ 0 ∷ 0 ∷ 0 ∷ 0 ∷ 0 ∷ 0 ∷ 0
    ∷ 0 ∷ 0 ∷ 0 ∷ 0 ∷ 0 ∷ 3 ∷ 0 ∷ 0 ∷ 0 ∷ []

segment_bytes : All IsByte segment
segment_bytes = omega arith

abbrev loaded_segment : LoadedSegment
loaded_segment = record {
  documents =
      record {
        id = 0;
        path = b'a' ∷ [];
        file_size = 5;
        modified_time_ns = pos 7;
        token_count = 2;
        state = DocumentState.live;
        content_crc32c = some 0xabcd;
      }
      ∷ record {
        id = 1;
        path = b'b' ∷ b'/' ∷ b'c' ∷ [];
        file_size = 0;
        modified_time_ns = pos 0;
        token_count = 0;
        state = DocumentState.tombstone;
        content_crc32c = none;
      }
      ∷ [];
  index = record {
    dictionary =
        (b'h' ∷ b'i' ∷ [], record { document_id = 0; frequency = 2; positions = 0 ∷ 3 ∷ [] } ∷ [])
        ∷ [];
    store_positions = true;
  };
  stats = record {
    file_size = length segment;
    physical_document_count = 2;
    live_document_count = 1;
    tombstone_count = 1;
    term_count = 1;
    posting_count = 1;
    position_count = 2;
  };
}

segment_loads : read_index_file (some segment) ≡ ok loaded_segment
unfolding read_index_file load_segment read_validated_header open_input read_header
    read_header_bytes read_magic read_fields read_u32_le read_u64_le read_sections read_section
    crc32c value update update_state update_tail update_eight update_byte crc32c_tables shift_bits
    shift_bit validate_header validate_sections validate_section last_length validate_checksums
    validate_checksum checksum_rounds seek_to read_exact section descriptor_of decode_document_table
    decode_documents read_document_record check_document_record decode_path is_valid_utf8
    utf8_length is_second_byte is_tail_byte is_relative_document_path is_absolute components grown
    none_is_dots is_dots add_decoded add_decoded_live add_decoded_tombstone add add_tombstone
    set_token_count get is_tombstone timestamp_from_bits checked_add checked_multiply
    decode_terms_and_postings decode_terms read_term_record check_term_record decode_term_bytes
    check_term_text all_ascii bytes_less check_posting_range decode_postings read_posting_record
    check_posting take_posting posting_positions read_positions next_position_offset
    next_position_count count_at check_remaining add_consumed add_posting postings_for find lookup
    assign are_ascending
segment_loads = refl

-- Written, it is the same bytes.
segment_written :
    write_index_file (some 1000) (some string_stream) loaded_segment.documents loaded_segment.index
    ≡ ok (loaded_segment.stats, memory segment)
unfolding write_index_file write_index_file_bounded encode_sections encode_documents write_documents
    write_document path_to_utf8 checked_narrow document_flags timestamp_bits write_document_record
    write_u32_le write_u64_le require_write write u32_bytes u64_bytes finish sorted_terms
    sorted_keys insert write_terms write_term written_postings write_postings write_posting
    check_written_posting write_posting_record write_posting_positions write_positions
    write_terms_section write_term_records write_term_record write_term_bytes make_header
    place_sections check_space write_file write_header serialize_checksummed_prefix write_fields
    write_sections write_section write_sections_bytes validate_header validate_sections
    validate_section last_length crc32c value update update_state update_tail update_eight
    update_byte crc32c_tables shift_bits shift_bit checked_add checked_multiply find lookup get
    is_tombstone is_absolute components grown none_is_dots is_dots is_valid_utf8 utf8_length
    is_second_byte is_tail_byte
segment_written = refl

records-Restores_example :
    Restores document_record_size write_document_record read_document_record (record {
      document_id = 0;
      path_length = 1;
      path_offset = 0;
      file_size = 5;
      modified_time_bits = 7;
      token_count = 2;
      flags = 2;
      content_crc32c = 0xabcd;
      reserved = 0;
    })
    × Restores term_record_size write_term_record read_term_record (record {
      term_offset = 40;
      term_length = 2;
      document_frequency = 1;
      posting_offset = 0;
      posting_length = 16;
    })
    × Restores posting_record_size write_posting_record read_posting_record
        (record { document_id = 0; frequency = 2; position_offset = 0 })
records-Restores_example =
    records-Restores
      (record {
        document_id = 0;
        path_length = 1;
        path_offset = 0;
        file_size = 5;
        modified_time_bits = 7;
        token_count = 2;
        flags = 2;
        content_crc32c = 0xabcd;
        reserved = 0;
      })
      (record {
        term_offset = 40;
        term_length = 2;
        document_frequency = 1;
        posting_offset = 0;
        posting_length = 16;
      })
      (record { document_id = 0; frequency = 2; position_offset = 0 }) (omega arith) (omega arith)
      (omega arith)

abbrev last_section : SectionDescriptor
last_section = record { kind = 5; offset = 366; length = 8; checksum = 0xe1cd6f35 }

validate_checksum_lem_example :
    validate_checksum segment last_section ≡ checksum_verdict segment last_section
validate_checksum_lem_example = validate_checksum_lem segment last_section segment_bytes

validate_index_file_lem_example :
    validate_index_file (some segment)
    ≡ (read_index_file (some segment) >>= λ loaded. ok loaded.stats)
validate_index_file_lem_example = validate_index_file_lem (some segment)

read_index_file-IsLoaded_example : IsLoaded loaded_segment
read_index_file-IsLoaded_example =
    read_index_file-IsLoaded segment loaded_segment segment_bytes segment_loads

loaded_documents-IsStorable : IsStorable loaded_segment.documents
unfolding is_tombstone
loaded_documents-IsStorable = (
  (refl, (λ dead. cc), (refl, (λ dead. refl), tt)),
  omega arith,
  (
    record {
      size_fits = omega arith;
      time_fits = omega arith;
      tokens_fit = omega arith;
      content_fits = omega arith;
    },
    (
      record {
        size_fits = omega arith;
        time_fits = omega arith;
        tokens_fit = omega arith;
        content_fits = tt;
      },
      tt,
    ),
  ),
)

decode_document_table-write_index_file_example :
    ReadsBack loaded_segment.documents loaded_segment.stats segment
decode_document_table-write_index_file_example =
    decode_document_table-write_index_file (some 1000) none loaded_segment.documents
      loaded_segment.index loaded_segment.stats (memory segment) loaded_documents-IsStorable
      segment_written (omega arith) segment_bytes

encode_documents-IsWritable_example :
    ((table : DocumentsState) × (encode_documents loaded_segment.documents ≡ ok table)) ↔ (
      All IsWritable loaded_segment.documents
      × length (paths_bytes loaded_segment.documents) < 2 ^ 64)
encode_documents-IsWritable_example = encode_documents-IsWritable loaded_segment.documents
