-- ===== src/Documents/Reader.antt =====
-- src/document/text_reader.cpp: text is read in chunks and repaired or refused as UTF-8. A file is
-- its bytes and whether the stream goes bad after them; what the two consumers are called with are
-- lists. `offset` in the loop is `base_offset + index`, and the input is the bytes from there on.
pub mod Steps
pub mod Scanning
pub mod Resuming
pub mod Outputs
pub mod Chunks
pub mod Whole
pub mod Valid
pub mod Begins
pub mod Strict
use snow_seek.Prelude.{
  Bool, Bytes, Error, List, Option, Result, [], drop, false, if◌then◌else◌, is_empty, leb, length,
  ltb, min, none, ok, some, suc, take, throw, throw_if, true, zero, ℕ, ◌%◌, ◌&&◌, ◌++◌, ◌+◌, ◌-◌,
  ◌==◌, ◌>>=◌, ◌>>◌, ◌^◌, ◌||◌, ◌∷◌,
}

abbrev pub replacement_character : Bytes
replacement_character = 0xef ∷ 0xbf ∷ 0xbd ∷ []

pub data InvalidUtf8Policy : Type 0 where
  replace reject : InvalidUtf8Policy

pub record TextReadStats : Type 0 where
  pub bytes_read : ℕ
  pub bytes_emitted : ℕ
  pub invalid_sequence_count : ℕ

pub record Utf8State : Type 0 where
  pub pending : Bytes
  pub pending_offset : ℕ

-- A sum of std::uint64_t.
abbrev pub add_u64 : ℕ → ℕ → ℕ
add_u64 a b = (a + b) % 2 ^ 64

unfoldable pub is_continuation : ℕ → Bool
is_continuation octet = leb 0x80 octet && leb octet 0xbf

unfoldable pub sequence_length : ℕ → ℕ
sequence_length lead =
    if leb lead 0x7f
    then 1
    else if leb 0xc2 lead && leb lead 0xdf
    then 2
    else if leb 0xe0 lead && leb lead 0xef
    then 3
    else if leb 0xf0 lead && leb lead 0xf4
    then 4
    else 0

unfoldable pub is_valid_second_byte : ℕ → ℕ → Bool
unfolding is_continuation
is_valid_second_byte lead second =
    is_continuation second
    && (if lead == 0xe0
        then leb 0xa0 second
        else if lead == 0xed
        then leb second 0x9f
        else if lead == 0xf0
        then leb 0x90 second
        else if lead == 0xf4
        then leb second 0x8f
        else true)

-- The statistics and the output after an invalid sequence.
unfoldable pub handle_invalid_sequence :
    InvalidUtf8Policy → ℕ → TextReadStats → Bytes → Result (TextReadStats × Bytes)
handle_invalid_sequence reject byte_offset stats output = throw (Error.invalid_utf8 byte_offset)
handle_invalid_sequence replace byte_offset stats output = ok (
  record stats { invalid_sequence_count = add_u64 stats.invalid_sequence_count 1 },
  output ++ replacement_character,
)

-- The loop over `offset` with the rounds left: how many of the bytes are valid. `second` says that
-- the next byte is the second of the sequence.
unfoldable pub valid_more : ℕ → ℕ → Bool → Bytes → ℕ
valid_more zero lead second input = 0
valid_more (suc rounds) lead second [] = 0
valid_more (suc rounds) lead second (octet ∷ input) =
    let more = valid_more rounds lead false input in
    if (if second then is_valid_second_byte lead octet else is_continuation octet)
    then suc more
    else 0

-- What a round of the main loop does with the input: it copies a sequence, it skips an invalid one,
-- or it keeps the rest for the next chunk.
pub data Step : Type 0 where
  copy skip : ℕ → Step
  keep : Step

unfoldable pub multibyte_step : Bool → ℕ → ℕ → Bytes → Step
multibyte_step final expected_length lead rest =
    let available = suc (length rest) in
    let bytes_to_check = min available expected_length in
    let valid_prefix = suc (valid_more (bytes_to_check - 1) lead true rest) in
    if ltb valid_prefix bytes_to_check
    then skip valid_prefix
    else if ltb available expected_length
    then (if final then skip available else keep)
    else copy expected_length

unfoldable pub next_step : Bool → ℕ → Bytes → Step
next_step final lead rest =
    if sequence_length lead == 1
    then copy 1
    else if sequence_length lead == 0
    then skip 1
    else multibyte_step final (sequence_length lead) lead rest

-- What the main loop leaves: the statistics, the output, and the input that it keeps with its offset.
pub record Scanned : Type 0 where
  pub stats : TextReadStats
  pub output : Bytes
  pub kept : Bytes
  pub kept_offset : ℕ

-- The main loop. A round takes a byte at least, so as many rounds as bytes are enough.
unfoldable pub scan :
    ℕ → InvalidUtf8Policy → Bool → ℕ → Bytes → TextReadStats → Bytes → Result Scanned
scan fuel policy final offset [] stats output =
    ok (record { stats = stats; output = output; kept = []; kept_offset = offset })
scan zero policy final offset (lead ∷ rest) stats output = throw Error.out_of_fuel
scan (suc fuel) policy final offset (lead ∷ rest) stats output = elim (next_step final lead rest) [
  | copy n ↦
      scan fuel policy final (add_u64 offset n) (drop n (lead ∷ rest)) stats
        (output ++ take n (lead ∷ rest))
  | skip n ↦ do
    (stats', output') ← handle_invalid_sequence policy offset stats output
    scan fuel policy final (add_u64 offset n) (drop n (lead ∷ rest)) stats' output'
  | keep ↦ ok (record { stats = stats; output = output; kept = lead ∷ rest; kept_offset = offset })
]

-- What a call of `read` changes: the statistics, the state across chunks, and what the consumers got.
pub record Reading : Type 0 where
  pub stats : TextReadStats
  pub state : Utf8State
  pub emitted : List Bytes
  pub observed : List Bytes

-- The state after a chunk: the offset of an empty `pending` is not read.
unfoldable pub finish_chunk : Reading → Scanned → Reading
finish_chunk reading scanned = record reading {
  stats = if is_empty scanned.output then scanned.stats else record (scanned.stats) {
    bytes_emitted = add_u64 scanned.stats.bytes_emitted (length scanned.output);
  };
  state = record { pending = scanned.kept; pending_offset = scanned.kept_offset };
  emitted =
      if is_empty scanned.output then reading.emitted else reading.emitted ++ (scanned.output ∷ []);
}

unfoldable pub emit_valid_utf8 : InvalidUtf8Policy → Bytes → ℕ → Bool → Reading → Result Reading
emit_valid_utf8 policy bytes base_offset final reading = do
  let input = reading.state.pending ++ bytes
  let offset = if is_empty reading.state.pending then base_offset else reading.state.pending_offset
  scanned ← scan (length input) policy final offset input reading.stats []
  ok (finish_chunk reading scanned)

pub record SourceFile : Type 0 where
  pub content : Bytes
  pub is_broken : Bool

abbrev pub fresh : Reading
fresh = record {
  stats = record { bytes_read = 0; bytes_emitted = 0; invalid_sequence_count = 0 };
  state = record { pending = []; pending_offset = 0 };
  emitted = [];
  observed = [];
}

-- A buffer that was read: nothing is done with an empty one.
unfoldable pub take_buffer : InvalidUtf8Policy → Bytes → Reading → Result Reading
take_buffer policy [] reading = ok reading
take_buffer policy (octet ∷ buffer) reading =
    emit_valid_utf8 policy (octet ∷ buffer) reading.stats.bytes_read false (record reading {
      stats = record (reading.stats) {
        bytes_read = add_u64 reading.stats.bytes_read (length (octet ∷ buffer));
      };
      observed = reading.observed ++ ((octet ∷ buffer) ∷ []);
    })

-- The loop over the chunks: a short read ends it. With a positive chunk size every other round takes
-- a byte.
unfoldable pub read_chunks : ℕ → InvalidUtf8Policy → ℕ → Bool → Bytes → Reading → Result Reading
read_chunks zero policy chunk_size is_broken content reading = throw Error.out_of_fuel
read_chunks (suc fuel) policy chunk_size is_broken content reading = do
  next ← take_buffer policy (take chunk_size content) reading
  elim (ltb (length content) chunk_size) [
    | true ↦ do throw_if is_broken (Error.runtime_error "failed to read text file"); ok next
    | false ↦ read_chunks fuel policy chunk_size is_broken (drop chunk_size content) next
  ]

-- The largest std::streamsize.
abbrev pub max_stream_size : ℕ
max_stream_size = 0x7fffffffffffffff

-- The constructor of `TextReader`, then `read` with a consumer.
unfoldable pub read : InvalidUtf8Policy → ℕ → Option SourceFile → Result Reading
read policy chunk_size none = do
  throw_if (chunk_size == 0 || ltb max_stream_size chunk_size)
      (Error.invalid_argument "text reader chunk size is outside the valid range")
  throw (Error.runtime_error "failed to open text file")
read policy chunk_size (some file) = do
  throw_if (chunk_size == 0 || ltb max_stream_size chunk_size)
      (Error.invalid_argument "text reader chunk size is outside the valid range")
  reading ←
      read_chunks (suc (length file.content)) policy chunk_size file.is_broken file.content fresh
  emit_valid_utf8 policy [] reading.stats.bytes_read true reading
