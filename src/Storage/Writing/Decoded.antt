-- ===== src/Storage/Writing/Decoded.antt =====
-- The Documents and Paths sections of src/storage/index_file.cpp, read by `decode_document_table` of
-- src/storage/index_validation.cpp.
-- The time is a std::int64_t.
use snow_seek.Documents.{
  DocumentMeta, DocumentState, add, add_tombstone, is_tombstone, max_document_id,
}
use snow_seek.Documents.Store.{set_token_count_pushed}
use snow_seek.Prelude.{
  IsU32, IsU64, Option, Result, [], ap, arith, false, if_intro, if◌then◌else◌, length, ltb, none,
  ok, refl, some, sym, true, ℕ, ◌%◌, ◌++◌, ◌+◌, ◌-◌, ◌<◌, ◌^◌, ◌∷◌, ◌≡◌,
}
use snow_seek.Prelude.Int.{negsuc, pos, ℤ}
use snow_seek.Storage.Records.RoundTrip.{FitsDocument}
use snow_seek.Storage.Validation.Table.{
  LoadedDocumentTable, add_decoded, add_decoded_live, add_decoded_tombstone,
  has_content_crc32c_flag, has_tombstone_flag, timestamp_from_bits,
}
use snow_seek.Storage.Writing.Documents.{content_or_zero, has_content}
use snow_seek.Storage.Writing.Fields.{timestamp_bits}
use snow_seek.Storage.Writing.Layout.{IsWritable, flags_of, record_of}

abbrev pub InInt64 : ℤ → Type 0
InInt64 (pos n) = n < 2 ^ 63
InInt64 (negsuc n) = n < 2 ^ 63

timestamp_from_bits-timestamp_bits :
    (time : ℤ) → InInt64 time → timestamp_from_bits (timestamp_bits time) ≡ time
unfolding timestamp_from_bits timestamp_bits
timestamp_from_bits-timestamp_bits (pos n) h = ground (arith, h)
timestamp_from_bits-timestamp_bits (negsuc n) h =
    let big : ltb (2 ^ 64 - 1 - n) (2 ^ 63) ≡ false = ground (arith, h) in
    let back : 2 ^ 64 - 1 - (2 ^ 64 - 1 - n) ≡ n = omega arith in rw big (ap negsuc back)

timestamp_bits-IsU64 : (time : ℤ) → InInt64 time → IsU64 (timestamp_bits time)
unfolding timestamp_bits
timestamp_bits-IsU64 (pos n) h = omega arith
timestamp_bits-IsU64 (negsuc n) h = omega arith

abbrev ContentFits : Option ℕ → Type 0
ContentFits none = Unit {0}
ContentFits (some crc) = IsU32 crc

-- The values of a document fit the members of DocumentMeta.
pub record FitsMeta (document : DocumentMeta) : Type 0 where
  pub size_fits : IsU64 document.file_size
  pub time_fits : InInt64 document.modified_time_ns
  pub tokens_fit : IsU32 document.token_count
  pub content_fits : ContentFits document.content_crc32c

content_or_zero-IsU32 : (content : Option ℕ) → ContentFits content → IsU32 (content_or_zero content)
content_or_zero-IsU32 none h = omega arith
content_or_zero-IsU32 (some crc) h = h

pub flags_of-lt : (document : DocumentMeta) → flags_of document < 4
unfolding flags_of
flags_of-lt document = ground arith

pub record_of-FitsDocument :
    (document : DocumentMeta) (offset : ℕ)
    → IsWritable document
    → FitsMeta document
    → document.id < 2 ^ 32
    → offset < 2 ^ 64
    → FitsDocument (record_of document offset)
record_of-FitsDocument document offset v f small low = (
  small,
  v.path_fits,
  low,
  f.size_fits,
  timestamp_bits-IsU64 document.modified_time_ns f.time_fits,
  f.tokens_fit,
  omega (arith, flags_of-lt document),
  content_or_zero-IsU32 document.content_crc32c f.content_fits,
  omega arith,
)

-- The flags say what the document is.
pub flags_of-tombstone :
    (document : DocumentMeta) (offset : ℕ)
    → has_tombstone_flag (record_of document offset) ≡ is_tombstone document.state
unfolding flags_of
flags_of-tombstone document offset = ground arith

pub flags_of-content :
    (document : DocumentMeta) (offset : ℕ)
    → is_tombstone document.state ≡ false
    → has_content_crc32c_flag (record_of document offset) ≡ has_content document.content_crc32c
unfolding flags_of
flags_of-content document offset alive = ground (arith, alive)

content_back :
    (content : Option ℕ)
    → (if has_content content then some (content_or_zero content) else none) ≡ content
content_back none = refl
content_back (some crc) = refl

-- The table with a document at its end, as both ways to add one leave it.
abbrev pub with_document : LoadedDocumentTable → DocumentMeta → LoadedDocumentTable
with_document loaded document = record loaded {
  documents = loaded.documents ++ (document ∷ []);
  token_counts = loaded.token_counts ++ (document.token_count ∷ []);
  stats = record (loaded.stats) {
    live_document_count =
        if is_tombstone document.state
        then loaded.stats.live_document_count
        else (loaded.stats.live_document_count + 1) % 2 ^ 64;
    tombstone_count =
        if is_tombstone document.state
        then (loaded.stats.tombstone_count + 1) % 2 ^ 64
        else loaded.stats.tombstone_count;
  };
}

tombstone_state :
    (state : DocumentState) → is_tombstone state ≡ true → state ≡ DocumentState.tombstone
unfolding is_tombstone
tombstone_state DocumentState.tombstone h = refl
tombstone_state DocumentState.live h = cc

live_state : (state : DocumentState) → is_tombstone state ≡ false → state ≡ DocumentState.live
unfolding is_tombstone
live_state DocumentState.tombstone h = cc
live_state DocumentState.live h = refl

module _ (loaded : LoadedDocumentTable) (document : DocumentMeta) (offset : ℕ)
    (v : IsWritable document) (f : FitsMeta document) (at : document.id ≡ length loaded.documents)
    (small : length loaded.documents < 2 ^ 32) where
  room : ltb max_document_id (length loaded.documents) ≡ false
  room = ground (arith, small)

  add_tombstone-with_document :
      is_tombstone document.state ≡ true
      → add_decoded_tombstone loaded (record_of document offset) document.path
        ≡ ok (with_document loaded document)
  unfolding add_decoded_tombstone add_tombstone
  add_tombstone-with_document dead =
      let (size, time, tokens, content) = v.tombstone_is dead in
      let same : record {
        id = length loaded.documents;
        path = document.path;
        file_size = 0;
        modified_time_ns = pos 0;
        token_count = 0;
        state = DocumentState.tombstone;
        content_crc32c = none;
      }
          ≡ document =
        λ i. record {
          id = sym at i;
          path = document.path;
          file_size = sym size i;
          modified_time_ns = sym time i;
          token_count = sym tokens i;
          state = sym (tombstone_state document.state dead) i;
          content_crc32c = sym content i;
        } in
      rw (room, dead)
        λ i. ok (record loaded {
          documents = loaded.documents ++ (same i ∷ []);
          token_counts = loaded.token_counts ++ (document.token_count ∷ []);
          stats = record (loaded.stats) {
            tombstone_count = (loaded.stats.tombstone_count + 1) % 2 ^ 64;
          };
        })

  add_live-with_document :
      is_tombstone document.state ≡ false
      → add_decoded_live loaded (record_of document offset) document.path
        ≡ ok (with_document loaded document)
  unfolding add_decoded_live add is_tombstone
  add_live-with_document alive =
      let entry = record_of document offset in
      let fresh : DocumentMeta = record {
        id = length loaded.documents;
        path = document.path;
        file_size = document.file_size;
        modified_time_ns = timestamp_from_bits entry.modified_time_bits;
        token_count = 0;
        state = DocumentState.live;
        content_crc32c = if has_content_crc32c_flag entry then some entry.content_crc32c else none;
      } in
      let content : (if has_content_crc32c_flag entry then some entry.content_crc32c else none)
          ≡ document.content_crc32c =
        rw (flags_of-content document offset alive) (content_back document.content_crc32c) in
      let same : record fresh { token_count = document.token_count } ≡ document = λ i. record {
        id = sym at i;
        path = document.path;
        file_size = document.file_size;
        modified_time_ns =
            timestamp_from_bits-timestamp_bits document.modified_time_ns f.time_fits i;
        token_count = document.token_count;
        state = sym (live_state document.state alive) i;
        content_crc32c = content i;
      } in
      rw (room, set_token_count_pushed loaded.documents fresh document.token_count refl, alive)
        λ i. ok (record loaded {
          documents = loaded.documents ++ (same i ∷ []);
          token_counts = loaded.token_counts ++ (document.token_count ∷ []);
          stats = record (loaded.stats) {
            live_document_count = (loaded.stats.live_document_count + 1) % 2 ^ 64;
          };
        })

  pub add_decoded-with_document :
      add_decoded loaded (record_of document offset) document.path
      ≡ ok (with_document loaded document)
  unfolding add_decoded
  add_decoded-with_document = rw (flags_of-tombstone document offset) (
      if_intro (λ (r : Result LoadedDocumentTable). r ≡ ok (with_document loaded document))
        (is_tombstone document.state) _ _ add_tombstone-with_document add_live-with_document)
