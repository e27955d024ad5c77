-- ===== src/Storage/File.antt =====
-- src/storage/index_file_internal.hpp: streams over one Segment file. A file is its bytes, or none
-- where the path cannot be opened; a stream that was positioned is the bytes from there on. Seeking
-- past the end succeeds, and the read that follows fails.
pub mod Utf8
use snow_seek.Prelude.{
  Bytes, Error, Option, Result, drop, length, ltb, none, ok, some, take, throw, throw_if, ℕ, ◌>>=◌,
  ◌>>◌,
}

abbrev pub SegmentFile : Type 0
SegmentFile = Option Bytes

-- The largest std::streamoff.
abbrev pub max_stream_offset : ℕ
max_stream_offset = 0x7fffffffffffffff

unfoldable pub open_input : SegmentFile → Result Bytes
open_input none = throw (Error.runtime_error "failed to open index file")
open_input (some content) = ok content

-- The stream of the file `content`, positioned.
unfoldable pub seek_to : Bytes → ℕ → Result Bytes
seek_to content offset = do
  throw_if (ltb max_stream_offset offset) (Error.runtime_error "index offset exceeds stream limit")
  ok (drop offset content)

-- The bytes read and the stream after them.
unfoldable pub read_exact : Bytes → ℕ → Result (Bytes × Bytes)
read_exact input size = do
  throw_if (ltb (length input) size) (Error.runtime_error "index file is truncated")
  ok (take size input, drop size input)
