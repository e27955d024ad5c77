-- ===== src/Storage/Validation/Loading/Counting.antt =====
-- The loops of `decode_terms_and_postings` in src/storage/index_validation.cpp, as `load_segment` runs
-- them: the index, and the tokens of each document that are still to come.
use snow_seek.Arithmetic.{checked_add}
use snow_seek.Index.{InMemoryIndex, add_posting}
use snow_seek.Index.Invariant.{IsIndex, add_posting-IsIndex}
use snow_seek.Index.Occurrences.{add_posting-occurrences, occurrences}
use snow_seek.Prelude.{
  All, Bool, Bytes, Error, IsByte, IsU32, List, Option, Returns, Returns->>=, Returns-map,
  Returns-self, Returns-then, Returns-throw_if, [], arith, false, if◌then◌else◌, leb, length, ltb,
  ltb-false, none, not, ok, refl, set, some, suc, throw_if_then, zero, ℕ, ◌+◌, ◌-◌, ◌<◌, ◌==◌, ◌∷◌,
  ◌≡◌, ◌≤◌,
}
use snow_seek.Storage.Codec.{read_u32_le, read_u64_le}
use snow_seek.Storage.Codec.RoundTrip.{TookU32, TookU64, read_u32_le-TookU32, read_u64_le-TookU64}
use snow_seek.Storage.Header.{SectionDescriptor}
use snow_seek.Storage.Records.{PostingRecord, read_posting_record, read_term_record}
use snow_seek.Storage.Validation.Loading.{add_consumed}
use snow_seek.Storage.Validation.Table.{SegmentStats}
use snow_seek.Storage.Validation.Terms.{
  Decoding, check_posting, check_posting_range, check_remaining, check_term_record, check_term_text,
  count_at, decode_postings, decode_term_bytes, decode_terms, next_position_count,
  next_position_offset, posting_positions, take_posting,
}

count_at-set :
    (counts : List ℕ) (id v d : ℕ)
    → id < length counts
    → count_at (set counts id v) d ≡ (if id == d then v else count_at counts d)
unfolding count_at
count_at-set [] id v d h = absurd (omega arith)
count_at-set (c ∷ counts) zero v zero h = refl
count_at-set (c ∷ counts) zero v (suc d) h = ground arith
count_at-set (c ∷ counts) (suc id) v zero h = ground arith
count_at-set (c ∷ counts) (suc id) v (suc d) h =
    ground (arith, count_at-set counts id v d (omega arith))

pub check_remaining-zero :
    (counts : List ℕ) → check_remaining counts ≡ ok tt → (d : ℕ) → count_at counts d ≡ 0
unfolding check_remaining count_at
check_remaining-zero [] e d = refl
check_remaining-zero (c ∷ counts) e zero = ground (arith, e)
check_remaining-zero (c ∷ counts) e (suc d) =
    throw_if_then (not (c == 0))
      (Error.runtime_error "document token count does not match postings") (check_remaining counts)
      e λ z rest. check_remaining-zero counts rest d

read_u32_le-Returns :
    (bytes : Bytes)
    → All IsByte bytes
    → Returns (λ (r : ℕ × Bytes). TookU32 bytes r.0 r.1) (read_u32_le bytes)
read_u32_le-Returns bytes h =
    Returns-map (λ (r : ℕ × Bytes). read_u32_le bytes ≡ ok r)
      (λ (r : ℕ × Bytes). TookU32 bytes r.0 r.1) (read_u32_le bytes)
      (Returns-self (read_u32_le bytes)) λ (v, rest) e. read_u32_le-TookU32 bytes rest v h e

read_u64_le-Returns :
    (bytes : Bytes)
    → All IsByte bytes
    → Returns (λ (r : ℕ × Bytes). TookU64 bytes r.0 r.1) (read_u64_le bytes)
read_u64_le-Returns bytes h =
    Returns-map (λ (r : ℕ × Bytes). read_u64_le bytes ≡ ok r)
      (λ (r : ℕ × Bytes). TookU64 bytes r.0 r.1) (read_u64_le bytes)
      (Returns-self (read_u64_le bytes)) λ (v, rest) e. read_u64_le-TookU64 bytes rest v h e

-- A posting's frequency is a number of 32 bits.
ReadPosting : PostingRecord × Bytes → Type 0
ReadPosting (posting, rest) = IsU32 posting.frequency × All IsByte rest

read_posting_record-ReadPosting :
    (input : Bytes) → All IsByte input → Returns ReadPosting (read_posting_record input)
unfolding read_posting_record ReadPosting
read_posting_record-ReadPosting input h =
    Returns->>= (λ (r : ℕ × Bytes). TookU32 input r.0 r.1) ReadPosting (read_u32_le input) _
      (read_u32_le-Returns input h)
      λ (document_id, i1) t1.
        Returns->>= (λ (r : ℕ × Bytes). TookU32 i1 r.0 r.1) ReadPosting (read_u32_le i1) _
          (read_u32_le-Returns i1 t1.rest_bytes)
          λ (frequency, i2) t2.
            Returns->>= (λ (r : ℕ × Bytes). TookU64 i2 r.0 r.1) ReadPosting (read_u64_le i2) _
              (read_u64_le-Returns i2 t2.rest_bytes) λ (offset, i3) t3. (t2.in_range, t3.rest_bytes)

-- What the loops over the postings keep: each token of a document is counted once, in the index or
-- among those still to come.
pub record Counted (totals : List ℕ) (base : SegmentStats) (state : Decoding InMemoryIndex)
    : Type 0 where
  pub valid : IsIndex state.consumed
  pub input_bytes : All IsByte state.postings_input
  pub kept :
      (state.stats.physical_document_count ≡ base.physical_document_count)
      × (state.stats.live_document_count ≡ base.live_document_count)
      × (state.stats.tombstone_count ≡ base.tombstone_count)
  pub counted :
      (d : ℕ)
      → count_at state.token_counts d + occurrences d state.consumed.dictionary ≡ count_at totals d

small_posting :
    (posting : PostingRecord) (rest : Bytes)
    → ReadPosting (posting, rest)
    → IsU32 posting.frequency × All IsByte rest
unfolding ReadPosting
small_posting posting rest h = h

posting_inside :
    (has : Bool) (token_counts : List ℕ) (offset : ℕ) (previous : Option ℕ)
    (posting : PostingRecord)
    → check_posting has token_counts offset previous posting ≡ ok tt
    → leb (length token_counts) posting.document_id ≡ false
unfolding check_posting
posting_inside has token_counts offset previous posting h = ground (arith, h)

still_counted :
    (counts : List ℕ) (id f d before after total : ℕ)
    → f ≤ count_at counts id
    → id < length counts
    → count_at counts d + before ≡ total
    → after ≡ before + (if id == d then f else 0)
    → count_at (set counts id (count_at counts id - f)) d + after ≡ total
still_counted counts id f d before after total le lt e k =
    ground (arith, count_at-set counts id (count_at counts id - f) d lt)

module _ (totals : List ℕ) (base : SegmentStats) (has : Bool) (positions_length : ℕ)
    (text : Bytes) where
  take_posting-Counted :
      (posting : PostingRecord) (state : Decoding InMemoryIndex)
      → IsU32 posting.frequency
      → leb (length state.token_counts) posting.document_id ≡ false
      → Counted totals base state
      → Returns
          (Counted totals base)
          (take_posting add_consumed has positions_length text posting state)
  unfolding take_posting add_consumed
  take_posting-Counted posting state small inside c =
      let Q = Counted totals base in
      Returns-then Q (posting_positions has posting.frequency state.positions_input) _
        λ (positions, after) now.
          Returns-then Q (next_position_offset has state.expected_position_offset posting.frequency)
            _
            λ next_offset o.
              Returns-throw_if Q (ltb positions_length next_offset)
                (Error.runtime_error "posting positions exceed section") _
                λ fits.
                  Returns-throw_if Q
                    (ltb (count_at state.token_counts posting.document_id) posting.frequency)
                    (Error.runtime_error "document token count does not match postings") _
                    λ enough.
                      Returns-then Q
                        (add_posting state.consumed text posting.document_id posting.frequency
                          positions)
                        _
                        λ index added.
                          Returns-then Q (checked_add state.stats.posting_count 1 "posting count") _
                            λ posting_count p.
                              Returns-then Q
                                (next_position_count has state.stats.position_count
                                  posting.frequency)
                                _
                                λ position_count q. record {
                                  valid =
                                      add_posting-IsIndex state.consumed text posting.document_id
                                        posting.frequency positions index c.valid small added;
                                  input_bytes = c.input_bytes;
                                  kept = c.kept;
                                  counted = λ d.
                                      let before = c.counted d in
                                      let more =
                                        add_posting-occurrences state.consumed index text
                                          posting.document_id posting.frequency positions added d in
                                      still_counted state.token_counts posting.document_id
                                        posting.frequency d
                                        (occurrences d state.consumed.dictionary)
                                        (occurrences d index.dictionary) (count_at totals d)
                                        (ltb-false _ _ enough) (ground (arith, inside)) before more;
                                }

  decode_postings-Counted :
      (rounds : ℕ) (previous : Option ℕ) (state : Decoding InMemoryIndex)
      → Counted totals base state
      → Returns
          (Counted totals base)
          (decode_postings add_consumed has positions_length text rounds previous state)
  unfolding decode_postings
  decode_postings-Counted zero previous state c = c
  decode_postings-Counted (suc rounds) previous state c =
      let Q = Counted totals base in
      Returns->>= ReadPosting Q (read_posting_record state.postings_input) _
        (read_posting_record-ReadPosting state.postings_input c.input_bytes)
        λ (posting, rest) read.
          Returns-then Q
            (check_posting has state.token_counts state.expected_position_offset previous posting) _
            λ done checked.
              let next : Decoding InMemoryIndex = record state { postings_input = rest } in
              let (small, more) = small_posting posting rest read in
              Returns->>= Q Q (take_posting add_consumed has positions_length text posting next) _
                (take_posting-Counted posting next small
                  (posting_inside has state.token_counts state.expected_position_offset previous
                    posting checked)
                  (record {
                    valid = c.valid;
                    input_bytes = more;
                    kept = c.kept;
                    counted = c.counted;
                  }))
                λ taken c'. decode_postings-Counted rounds (some posting.document_id) taken c'

module _ (totals : List ℕ) (base : SegmentStats) (content : Bytes)
    (terms_section postings_section positions_section : SectionDescriptor) (has : Bool) where
  unfoldable pub CountedTerms : Decoding InMemoryIndex × ℕ × ℕ → Type 0
  CountedTerms (state, term_end, posting_end) = Counted totals base state

  pub decode_terms-Counted :
      (rounds : ℕ) (terms_input previous_term : Bytes) (term_offset posting_offset : ℕ)
      (state : Decoding InMemoryIndex)
      → Counted totals base state
      → Returns CountedTerms (
          decode_terms add_consumed content terms_section postings_section positions_section has
            rounds terms_input previous_term term_offset posting_offset state)
  unfolding decode_terms CountedTerms
  decode_terms-Counted zero terms_input previous_term term_offset posting_offset state c = c
  decode_terms-Counted (suc rounds) terms_input previous_term term_offset posting_offset state c =
      let Q = CountedTerms in
      Returns-then Q (read_term_record terms_input) _ λ (entry, rest) now.
        Returns-then Q (check_term_record term_offset terms_section.length entry) _ λ d1 sized.
          Returns-then Q (decode_term_bytes content terms_section entry) _ λ text read.
            Returns-then Q (check_term_text previous_term text) _ λ d2 checked.
              Returns-then Q (checked_add term_offset entry.term_length "term byte range") _
                λ next_term_offset o.
                  Returns-then Q (check_posting_range posting_offset postings_section.length entry)
                    _
                    λ d3 range.
                      Returns->>= (Counted totals base) Q
                        (decode_postings add_consumed has positions_section.length text
                          entry.document_frequency none state)
                        _
                        (decode_postings-Counted totals base has positions_section.length text
                          entry.document_frequency none state c)
                        λ decoded c'.
                          Returns-then Q
                            (checked_add posting_offset entry.posting_length "posting offset") _
                            λ next_posting_offset n.
                              decode_terms-Counted rounds rest text next_term_offset
                                next_posting_offset decoded c'
