-- ===== src/Storage/Validation/Terms.antt =====
-- src/storage/index_validation.cpp: `decode_terms_and_postings`. The consumer is a function on a
-- state of its own, and each stream that the loops read is the bytes that are left of it.
pub mod Parts
use snow_seek.Arithmetic.{checked_add, checked_multiply}
use snow_seek.Index.{bytes_less, is_at_or_before}
use snow_seek.Prelude.{
  Bool, Bytes, Error, List, Option, Result, [], false, is_empty, leb, length, ltb, none, not, ok,
  set, some, suc, throw_if, true, zero, ℕ, ◌%◌, ◌&&◌, ◌-◌, ◌==◌, ◌>>=◌, ◌>>◌, ◌||◌, ◌∷◌,
}
use snow_seek.Storage.Codec.{read_u32_le, read_u64_le}
use snow_seek.Storage.File.{SegmentFile, open_input, read_exact, seek_to}
use snow_seek.Storage.Header.{IndexHeader, SectionDescriptor}
use snow_seek.Storage.Records.{
  PostingRecord, TermRecord, position_record_size, posting_record_size, read_posting_record,
  read_term_record, section, term_record_size,
}
use snow_seek.Storage.Validation.Table.{SegmentStats}

-- `token_counts[document_id]`, which the loops read in range only.
unfoldable pub count_at : List ℕ → ℕ → ℕ
count_at [] document_id = 0
count_at (count ∷ counts) zero = count
count_at (count ∷ counts) (suc document_id) = count_at counts document_id

unfoldable pub all_ascii : Bytes → Bool
all_ascii [] = true
all_ascii (c ∷ text) = ltb c 0x80 && all_ascii text

-- What the loops over the postings change, with the consumer's state.
pub record Decoding {ℓ} (S : Type ℓ) : Type ℓ where
  pub postings_input : Bytes
  pub positions_input : Bytes
  pub token_counts : List ℕ
  pub stats : SegmentStats
  pub expected_position_offset : ℕ
  pub consumed : S

-- The loop over `position_index`, with the rounds left and the previous position, if any.
unfoldable pub read_positions : ℕ → Option ℕ → Bytes → Result (List ℕ × Bytes)
read_positions zero previous positions_input = ok ([], positions_input)
read_positions (suc rounds) previous positions_input = do
  (position, rest) ← read_u32_le positions_input
  throw_if (is_at_or_before position previous)
      (Error.runtime_error "posting positions are not increasing")
  (positions, after) ← read_positions rounds (some position) rest
  ok (position ∷ positions, after)

unfoldable pub posting_positions : Bool → ℕ → Bytes → Result (List ℕ × Bytes)
posting_positions true frequency positions_input = read_positions frequency none positions_input
posting_positions false frequency positions_input = ok ([], positions_input)

-- The checks of a posting's record; `previous` is the document of the posting before it, if any.
unfoldable pub check_posting : Bool → List ℕ → ℕ → Option ℕ → PostingRecord → Result (Unit {0})
check_posting has_positions token_counts expected_position_offset previous posting =
    throw_if
      (leb (length token_counts) posting.document_id
        || posting.frequency == 0
        || is_at_or_before posting.document_id previous
        || has_positions && not (posting.position_offset == expected_position_offset)
        || not has_positions && not (posting.position_offset == 0))
      (Error.runtime_error "invalid posting record ordering")

-- The end of a posting's positions.
unfoldable pub next_position_offset : Bool → ℕ → ℕ → Result ℕ
next_position_offset true expected_position_offset frequency = do
  size ← checked_multiply frequency position_record_size "position range length"
  checked_add expected_position_offset size "position offset"
next_position_offset false expected_position_offset frequency = ok expected_position_offset

unfoldable pub next_position_count : Bool → ℕ → ℕ → Result ℕ
next_position_count true position_count frequency =
    checked_add position_count frequency "position count"
next_position_count false position_count frequency = ok position_count

-- The checks of a term's record and text.
unfoldable pub check_term_record : ℕ → ℕ → TermRecord → Result (Unit {0})
check_term_record expected_term_offset terms_length entry =
    throw_if
      (entry.term_length == 0
        || not (entry.term_offset == expected_term_offset)
        || ltb terms_length entry.term_offset
        || ltb (terms_length - entry.term_offset) entry.term_length)
      (Error.runtime_error "invalid term byte range")

unfoldable pub decode_term_bytes : Bytes → SectionDescriptor → TermRecord → Result Bytes
decode_term_bytes content terms_section entry = do
  offset ← checked_add terms_section.offset entry.term_offset "term offset"
  term_bytes_input ← seek_to content offset
  (text, rest) ← read_exact term_bytes_input entry.term_length
  ok text

unfoldable pub check_term_text : Bytes → Bytes → Result (Unit {0})
check_term_text previous_term text =
    throw_if
      (not (is_empty previous_term) && not (bytes_less previous_term text) || not (all_ascii text))
      (Error.runtime_error "terms are not strictly sorted ASCII bytes")

unfoldable pub check_posting_range : ℕ → ℕ → TermRecord → Result (Unit {0})
check_posting_range expected_posting_offset postings_length entry = do
  throw_if (entry.document_frequency == 0 || not (entry.posting_offset == expected_posting_offset))
      (Error.runtime_error "invalid posting range")
  size ← checked_multiply entry.document_frequency posting_record_size "posting length"
  throw_if
      (not (entry.posting_length == size)
        || ltb postings_length entry.posting_offset
        || ltb (postings_length - entry.posting_offset) entry.posting_length)
      (Error.runtime_error "invalid posting range")

-- The last loop.
unfoldable pub check_remaining : List ℕ → Result (Unit {0})
check_remaining [] = ok tt
check_remaining (remaining ∷ counts) = do
  throw_if (not (remaining == 0))
      (Error.runtime_error "document token count does not match postings")
  check_remaining counts

module _ {ℓ} {S : Type ℓ} (consume : S → Bytes → PostingRecord → List ℕ → Result S) where
  -- The body of the loop over `posting_index` after the checks: the positions, the offsets, the
  -- token counts, the consumer and the statistics.
  unfoldable pub take_posting : Bool → ℕ → Bytes → PostingRecord → Decoding S → Result (Decoding S)
  take_posting has_positions positions_length text posting state = do
    (positions, after) ← posting_positions has_positions posting.frequency state.positions_input
    next_offset ←
        next_position_offset has_positions state.expected_position_offset posting.frequency
    throw_if (ltb positions_length next_offset)
        (Error.runtime_error "posting positions exceed section")
    throw_if (ltb (count_at state.token_counts posting.document_id) posting.frequency)
        (Error.runtime_error "document token count does not match postings")
    consumed ← consume state.consumed text posting positions
    posting_count ← checked_add state.stats.posting_count 1 "posting count"
    position_count ← next_position_count has_positions state.stats.position_count posting.frequency
    ok (record state {
      positions_input = after;
      token_counts =
          set state.token_counts posting.document_id
            (count_at state.token_counts posting.document_id - posting.frequency);
      stats = record (state.stats) {
        posting_count = posting_count;
        position_count = position_count;
      };
      expected_position_offset = next_offset;
      consumed = consumed;
    })

  -- The loop over `posting_index`, with the rounds left.
  unfoldable pub decode_postings :
      Bool → ℕ → Bytes → ℕ → Option ℕ → Decoding S → Result (Decoding S)
  decode_postings has_positions positions_length text zero previous state = ok state
  decode_postings has_positions positions_length text (suc rounds) previous state = do
    (posting, rest) ← read_posting_record state.postings_input
    check_posting has_positions state.token_counts state.expected_position_offset previous posting
    taken ←
        take_posting has_positions positions_length text posting
          (record state { postings_input = rest })
    decode_postings has_positions positions_length text rounds (some posting.document_id) taken

  -- The sections that the loop over `term_index` reads.
  module _ (content : Bytes) (terms_section postings_section positions_section : SectionDescriptor)
      (has_positions : Bool) where
    -- The loop, with the rounds left: the state and the next expected offsets of a term and of its
    -- postings.
    unfoldable pub decode_terms :
        ℕ → Bytes → Bytes → ℕ → ℕ → Decoding S → Result (Decoding S × ℕ × ℕ)
    decode_terms zero terms_input previous_term expected_term_offset expected_posting_offset state =
        ok (state, expected_term_offset, expected_posting_offset)
    decode_terms (suc rounds) terms_input previous_term expected_term_offset expected_posting_offset
          state =
        do
          (entry, rest) ← read_term_record terms_input
          check_term_record expected_term_offset terms_section.length entry
          text ← decode_term_bytes content terms_section entry
          check_term_text previous_term text
          next_term_offset ← checked_add expected_term_offset entry.term_length "term byte range"
          check_posting_range expected_posting_offset postings_section.length entry
          decoded ←
              decode_postings has_positions positions_section.length text entry.document_frequency
                none state
          next_posting_offset ←
              checked_add expected_posting_offset entry.posting_length "posting offset"
          decode_terms rounds rest text next_term_offset next_posting_offset decoded

  -- The statistics and what the consumer made of the postings.
  unfoldable pub decode_terms_and_postings :
      SegmentFile → IndexHeader → List ℕ → SegmentStats → S → Result (SegmentStats × S)
  decode_terms_and_postings file header token_counts stats consumed = do
    terms_section ← section header 3
    postings_section ← section header 4
    positions_section ← section header 5
    content ← open_input file
    terms_input ← seek_to content terms_section.offset
    (term_count, rest) ← read_u64_le terms_input
    table_size ← checked_multiply term_count term_record_size "term table length"
    term_bytes_begin ← checked_add 8 table_size "term byte offset"
    throw_if (ltb terms_section.length term_bytes_begin)
        (Error.runtime_error "term table exceeds Terms section")
    postings_input ← seek_to content postings_section.offset
    positions_input ← seek_to content positions_section.offset
    (state, term_end, posting_end) ←
        decode_terms content terms_section postings_section positions_section
          (not (header.feature_flags % 2 == 0)) term_count rest [] term_bytes_begin 0
          (record {
            postings_input = postings_input;
            positions_input = positions_input;
            token_counts = token_counts;
            stats = record stats { term_count = term_count };
            expected_position_offset = 0;
            consumed = consumed;
          })
    throw_if
        (not (term_end == terms_section.length)
          || not (posting_end == postings_section.length)
          || not (state.expected_position_offset == positions_section.length))
        (Error.runtime_error "index sections contain unreferenced trailing bytes")
    check_remaining state.token_counts
    ok (state.stats, state.consumed)
