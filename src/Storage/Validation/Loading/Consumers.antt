-- ===== src/Storage/Validation/Loading/Consumers.antt =====
-- The loops of `decode_terms_and_postings` in src/storage/index_validation.cpp with two consumers side
-- by side: the one drops the postings that the other adds to an index.
-- The state of the one that drops them.
use mathlib.Core.Path.{subst}
use snow_seek.Arithmetic.{checked_add}
use snow_seek.Index.{InMemoryIndex, PostingList, bytes_less, find, is_at_or_before, list_of}
use snow_seek.Index.Appending.{Ready, add_posting-Ready, last_document}
use snow_seek.Index.Entries.{AllKeys, AllKeys-map, lookup-eq-none}
use snow_seek.Index.Order.{KeyUpTo, KeyUpTo-next}
use snow_seek.Prelude.{
  Bool, Bytes, Error, List, Option, Result, Returns-ok, [], ap, arith, false, inl, is_empty, last?,
  length, ltb, none, not, ok, refl, some, suc, sym, true, zero, ℕ, ◌&&◌, ◌==◌, ◌∷◌, ◌≡◌,
}
use snow_seek.Prelude.Simulation.{Simulates, Simulates->>=, Simulates-same, Simulates-throw_if}
use snow_seek.Storage.Header.{SectionDescriptor}
use snow_seek.Storage.Records.{PostingRecord, TermRecord, read_posting_record, read_term_record}
use snow_seek.Storage.Validation.Loading.{add_consumed, ignore_consumed}
use snow_seek.Storage.Validation.Terms.{
  Decoding, check_posting, check_posting_range, check_term_record, check_term_text, count_at,
  decode_postings, decode_term_bytes, decode_terms, next_position_count, next_position_offset,
  posting_positions, take_posting,
}
use snow_seek.Storage.Validation.Terms.Parts.{
  IsText, PostingPositions, decode_term_bytes-IsText, posting_positions-PostingPositions,
}

unfoldable pub forget : Decoding InMemoryIndex → Decoding (Unit {0})
forget state = record {
  postings_input = state.postings_input;
  positions_input = state.positions_input;
  token_counts = state.token_counts;
  stats = state.stats;
  expected_position_offset = state.expected_position_offset;
  consumed = tt;
}

has_byte : (text : Bytes) (n : ℕ) → length text ≡ n → (n == 0) ≡ false → is_empty text ≡ false
has_byte [] n e h = ground (arith, e, h)
has_byte (c ∷ text) n e h = refl

check_posting-ordered :
    (has : Bool) (token_counts : List ℕ) (offset : ℕ) (previous : Option ℕ)
    (posting : PostingRecord)
    → check_posting has token_counts offset previous posting ≡ ok tt
    → ((posting.frequency == 0) ≡ false) × (is_at_or_before posting.document_id previous ≡ false)
unfolding check_posting
check_posting-ordered has token_counts offset previous posting h = ground (arith, h)

-- A term that the checks accept has a byte.
text_not_empty :
    (term_offset terms_length : ℕ) (content : Bytes) (terms_section : SectionDescriptor)
    (entry : TermRecord) (text : Bytes)
    → check_term_record term_offset terms_length entry ≡ ok tt
    → decode_term_bytes content terms_section entry ≡ ok text
    → is_empty text ≡ false
unfolding check_term_record
text_not_empty term_offset terms_length content terms_section entry text sized read =
    has_byte text entry.term_length
      (Returns-ok (IsText entry) (decode_term_bytes content terms_section entry) text
        (decode_term_bytes-IsText content terms_section entry) read)
      (ground (arith, sized))

module _ (has : Bool) where
  abbrev Related : Bytes → Option ℕ → Decoding (Unit {0}) → Decoding InMemoryIndex → Type 0
  Related text previous dropped added =
      (dropped ≡ forget added) × Ready has text previous added.consumed

  module _ (positions_length : ℕ) (text : Bytes) (some_ : is_empty text ≡ false) where
    take_posting-Simulates :
        (previous : Option ℕ) (posting : PostingRecord) (state : Decoding InMemoryIndex)
        → (posting.frequency == 0) ≡ false
        → is_at_or_before posting.document_id previous ≡ false
        → Ready has text previous state.consumed
        → Simulates
            (Related text (some posting.document_id))
            (take_posting ignore_consumed has positions_length text posting (forget state))
            (take_posting add_consumed has positions_length text posting state)
    unfolding take_posting forget add_consumed
    take_posting-Simulates previous posting state f later r =
        let Q = Related text (some posting.document_id) in
        Simulates-same Q (posting_positions has posting.frequency state.positions_input) _ _
          λ (positions, after) now.
            let (count, a) =
              Returns-ok (PostingPositions has posting.frequency)
                (posting_positions has posting.frequency state.positions_input) (positions, after)
                (posting_positions-PostingPositions has posting.frequency state.positions_input)
                now in
            Simulates-same Q
              (next_position_offset has state.expected_position_offset posting.frequency) _ _
              λ next_offset o.
                Simulates-throw_if Q (ltb positions_length next_offset)
                  (Error.runtime_error "posting positions exceed section") _ _
                  λ inside.
                    Simulates-throw_if Q
                      (ltb (count_at state.token_counts posting.document_id) posting.frequency)
                      (Error.runtime_error "document token count does not match postings") _ _
                      λ enough.
                        let (index, added, ready) =
                          add_posting-Ready has text previous state.consumed posting.document_id
                            posting.frequency positions some_ f count a later r in
                        rw added (
                          Simulates-same Q (checked_add state.stats.posting_count 1 "posting count")
                            _ _
                            λ posting_count p.
                              Simulates-same Q
                                (next_position_count has state.stats.position_count
                                  posting.frequency)
                                _ _ λ position_count c. (refl, ready))

    abbrev Postings : Decoding (Unit {0}) → Decoding InMemoryIndex → Type 0
    Postings dropped added = (last : Option ℕ) × Related text last dropped added

    decode_postings-Simulates :
        (rounds : ℕ) (previous : Option ℕ) (state : Decoding InMemoryIndex)
        → Ready has text previous state.consumed
        → Simulates Postings
            (decode_postings ignore_consumed has positions_length text rounds previous
              (forget state))
            (decode_postings add_consumed has positions_length text rounds previous state)
    unfolding decode_postings forget check_posting
    decode_postings-Simulates zero previous state r = (previous, (refl, r))
    decode_postings-Simulates (suc rounds) previous state r =
        Simulates-same Postings (read_posting_record state.postings_input) _ _
          λ (posting, rest) now.
            Simulates-same Postings
              (check_posting has state.token_counts state.expected_position_offset previous posting)
              _ _
              λ done checked.
                let (f, later) =
                  check_posting-ordered has state.token_counts state.expected_position_offset
                    previous posting checked in
                Simulates->>= (Related text (some posting.document_id)) Postings
                  (take_posting ignore_consumed has positions_length text posting
                    (forget (record state { postings_input = rest })))
                  (take_posting add_consumed has positions_length text posting
                    (record state { postings_input = rest }))
                  _ _
                  (take_posting-Simulates previous posting (record state { postings_input = rest })
                    f later r)
                  λ dropped added (same, ready).
                    subst
                      (λ (d : Decoding (Unit {0})).
                        Simulates Postings
                          (decode_postings ignore_consumed has positions_length text rounds
                            (some posting.document_id) d)
                          (decode_postings add_consumed has positions_length text rounds
                            (some posting.document_id) added))
                      (sym same)
                      (decode_postings-Simulates rounds (some posting.document_id) added ready)

  -- Between two terms.
  abbrev Between : Bytes → Decoding (Unit {0}) → Decoding InMemoryIndex → Type 0
  Between previous_term dropped added =
      (dropped ≡ forget added)
      × (added.consumed.store_positions ≡ has)
      × AllKeys (KeyUpTo previous_term) added.consumed.dictionary

  first_posting-Ready :
      (previous_term text : Bytes) (index : InMemoryIndex)
      → check_term_text previous_term text ≡ ok tt
      → index.store_positions ≡ has
      → AllKeys (KeyUpTo previous_term) index.dictionary
      → Ready has text none index
  unfolding check_term_text find
  first_posting-Ready previous_term text index checked e keys =
      let sorted : (not (is_empty previous_term) && not (bytes_less previous_term text)) ≡ false =
        ground (arith, checked) in
      let less =
        AllKeys-map (KeyUpTo previous_term) (λ key. bytes_less key text ≡ true) index.dictionary
          (λ key k. KeyUpTo-next previous_term text key sorted k) keys in
      record {
        store_is = e;
        keys =
            AllKeys-map (KeyUpTo previous_term) (KeyUpTo text) index.dictionary
              (λ key k. (k.0, inl (KeyUpTo-next previous_term text key sorted k))) keys;
        last_is =
            ap (λ (found : Option PostingList). last_document (last? (list_of found)))
              (lookup-eq-none text index.dictionary less);
      }

  module _ (content : Bytes)
      (terms_section postings_section positions_section : SectionDescriptor) where
    abbrev dropping :
        ℕ → Bytes → Bytes → ℕ → ℕ → Decoding (Unit {0}) → Result (Decoding (Unit {0}) × ℕ × ℕ)
    dropping =
        decode_terms ignore_consumed content terms_section postings_section positions_section has

    abbrev adding :
        ℕ → Bytes → Bytes → ℕ → ℕ → Decoding InMemoryIndex → Result (Decoding InMemoryIndex × ℕ × ℕ)
    adding = decode_terms add_consumed content terms_section postings_section positions_section has

    pub decode_terms-Simulates :
        (rounds : ℕ) (terms_input previous_term : Bytes) (term_offset posting_offset : ℕ)
        (state : Decoding InMemoryIndex)
        → state.consumed.store_positions ≡ has
        → AllKeys (KeyUpTo previous_term) state.consumed.dictionary
        → Simulates
            (λ (d : Decoding (Unit {0}) × ℕ × ℕ) (a : Decoding InMemoryIndex × ℕ × ℕ).
              d ≡ (forget a.0, a.1, a.2))
            (dropping rounds terms_input previous_term term_offset posting_offset (forget state))
            (adding rounds terms_input previous_term term_offset posting_offset state)
    unfolding decode_terms
    decode_terms-Simulates zero terms_input previous_term term_offset posting_offset state e k =
        refl
    decode_terms-Simulates (suc rounds) terms_input previous_term term_offset posting_offset state e
          k =
        let Q = λ (d : Decoding (Unit {0}) × ℕ × ℕ) (a : Decoding InMemoryIndex × ℕ × ℕ).
          d ≡ (forget a.0, a.1, a.2) in
        Simulates-same Q (read_term_record terms_input) _ _ λ (entry, rest) now.
          Simulates-same Q (check_term_record term_offset terms_section.length entry) _ _
            λ d1 sized.
              Simulates-same Q (decode_term_bytes content terms_section entry) _ _ λ text read.
                Simulates-same Q (check_term_text previous_term text) _ _ λ d2 checked.
                  Simulates-same Q (checked_add term_offset entry.term_length "term byte range") _ _
                    λ next_term_offset o.
                      Simulates-same Q
                        (check_posting_range posting_offset postings_section.length entry) _ _
                        λ d3 range.
                          let some_ =
                            text_not_empty term_offset terms_section.length content terms_section
                              entry text sized read in
                          let R =
                            λ (dropped : Decoding (Unit {0})) (added : Decoding InMemoryIndex).
                              (last : Option ℕ) × Related text last dropped added in
                          Simulates->>= R Q
                            (decode_postings ignore_consumed has positions_section.length text
                              entry.document_frequency none (forget state))
                            (decode_postings add_consumed has positions_section.length text
                              entry.document_frequency none state)
                            _ _
                            (decode_postings-Simulates positions_section.length text some_
                              entry.document_frequency none state
                              (first_posting-Ready previous_term text state.consumed checked e k))
                            λ dropped added (last, (same, ready)).
                              Simulates-same Q
                                (checked_add posting_offset entry.posting_length "posting offset") _
                                _
                                λ next_posting_offset n.
                                  subst
                                    (λ (d : Decoding (Unit {0})).
                                      Simulates Q
                                        (dropping rounds rest text next_term_offset
                                          next_posting_offset d)
                                        (adding rounds rest text next_term_offset
                                          next_posting_offset added))
                                    (sym same)
                                    (decode_terms-Simulates rounds rest text next_term_offset
                                      next_posting_offset added ready.store_is ready.keys)
