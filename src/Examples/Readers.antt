-- ===== src/Examples/Readers.antt =====
-- Text with a split sequence and an invalid byte, read in chunks; and the theorems on reading there.
-- "a", a byte that begins nothing, and the two bytes of a letter.
use snow_seek.Documents.Reader.{
  InvalidUtf8Policy, TextReadStats, emit_valid_utf8, finish_chunk, handle_invalid_sequence,
  is_continuation, is_valid_second_byte, multibyte_step, next_step, read, read_chunks, scan,
  sequence_length, take_buffer, valid_more,
}
use snow_seek.Documents.Reader.Strict.{IsFirstInvalid, read_whole-strict}
use snow_seek.Documents.Reader.Valid.{read_whole-is_valid_utf8}
use snow_seek.Documents.Reader.Whole.{read-read_whole, read_whole, received}
use snow_seek.Prelude.{
  Bytes, Error, [], arith, false, length, ok, refl, some, throw, true, ℕ, ◌%◌, ◌>>=◌, ◌^◌, ◌∷◌, ◌≡◌,
  ◌⊎◌,
}
use snow_seek.Storage.File.Utf8.{is_valid_utf8}

abbrev mixed : Bytes
mixed = b'a' ∷ 0xff ∷ 0xc3 ∷ 0xa9 ∷ []

abbrev mixed_text : Bytes
mixed_text = b'a' ∷ 0xef ∷ 0xbf ∷ 0xbd ∷ 0xc3 ∷ 0xa9 ∷ []

abbrev mixed_stats : TextReadStats
mixed_stats = record { bytes_read = 4; bytes_emitted = 6; invalid_sequence_count = 1 }

-- In chunks of three bytes the letter is split.
mixed_in_chunks :
    read InvalidUtf8Policy.replace 3 (some (record { content = mixed; is_broken = false }))
    ≡ ok (record {
      stats = mixed_stats;
      state = record { pending = []; pending_offset = 4 };
      emitted = (b'a' ∷ 0xef ∷ 0xbf ∷ 0xbd ∷ []) ∷ (0xc3 ∷ 0xa9 ∷ []) ∷ [];
      observed = (b'a' ∷ 0xff ∷ 0xc3 ∷ []) ∷ (0xa9 ∷ []) ∷ [];
    })
unfolding read read_chunks take_buffer emit_valid_utf8 finish_chunk scan next_step multibyte_step
    valid_more handle_invalid_sequence is_valid_second_byte sequence_length is_continuation
mixed_in_chunks = refl

mixed_refused :
    read InvalidUtf8Policy.reject 1 (some (record { content = mixed; is_broken = false }))
    ≡ throw (Error.invalid_utf8 1)
unfolding read read_chunks take_buffer emit_valid_utf8 finish_chunk scan next_step multibyte_step
    valid_more handle_invalid_sequence is_valid_second_byte sequence_length is_continuation
mixed_refused = refl

read_broken :
    read InvalidUtf8Policy.replace 8 (some (record { content = b'a' ∷ []; is_broken = true }))
    ≡ throw (Error.runtime_error "failed to read text file")
unfolding read read_chunks take_buffer emit_valid_utf8 finish_chunk scan next_step sequence_length
read_broken = refl

mixed_whole : read_whole InvalidUtf8Policy.replace mixed ≡ ok (mixed_stats, mixed_text)
unfolding read_whole scan next_step multibyte_step valid_more handle_invalid_sequence
    is_valid_second_byte sequence_length is_continuation
mixed_whole = refl

read-read_whole_example :
    (read InvalidUtf8Policy.replace 3 (some (record { content = mixed; is_broken = false }))
      >>= λ reading. ok (received reading))
    ≡ (read_whole InvalidUtf8Policy.replace mixed >>= λ (stats, text). ok (stats, text, mixed))
read-read_whole_example =
    read-read_whole InvalidUtf8Policy.replace 3 mixed (omega arith) (omega arith)

read_whole-is_valid_utf8_example : is_valid_utf8 mixed_text ≡ true
read_whole-is_valid_utf8_example =
    read_whole-is_valid_utf8 InvalidUtf8Policy.replace mixed mixed_stats mixed_text mixed_whole

read_whole-strict_example :
    ((is_valid_utf8 mixed ≡ true)
      × (read_whole InvalidUtf8Policy.reject mixed
          ≡ ok (
            record {
              bytes_read = length mixed % 2 ^ 64;
              bytes_emitted = length mixed % 2 ^ 64;
              invalid_sequence_count = 0;
            },
            mixed,
          )))
    ⊎ ((is_valid_utf8 mixed ≡ false)
        × ((k : ℕ) × IsFirstInvalid mixed k
            × (read_whole InvalidUtf8Policy.reject mixed
                ≡ throw (Error.invalid_utf8 (k % 2 ^ 64)))))
read_whole-strict_example = read_whole-strict InvalidUtf8Policy.reject mixed
