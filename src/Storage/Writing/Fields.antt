-- ===== src/Storage/Writing/Fields.antt =====
-- The checks and conversions of src/storage/index_file.cpp. A path's generic form is its bytes, as on
-- a POSIX system.
use Prim.Native.String.{String, ◌++◌ as ◌<>◌}
use snow_seek.Prelude.{
  Bytes, Error, Result, is_empty, ltb, not, ok, throw_if, ℕ, ◌-◌, ◌>>◌, ◌^◌, ◌||◌,
}
use snow_seek.Prelude.Int.{negsuc, pos, ℤ}
use snow_seek.Storage.File.Utf8.{is_valid_utf8}
use snow_seek.Storage.Stream.{Output}
use snow_seek.Storage.Validation.Table.{components, is_absolute, none_is_dots}

unfoldable pub path_to_utf8 : Bytes → Result Bytes
path_to_utf8 path = do
  throw_if (is_empty path || is_absolute path || not (none_is_dots (components path)))
      (Error.runtime_error "document path must be a normalized relative path")
  throw_if (is_empty path || not (is_valid_utf8 path))
      (Error.runtime_error "document path is not valid nonempty UTF-8")
  ok path

-- `checked_narrow` to std::uint32_t.
unfoldable pub checked_narrow : ℕ → String → Result ℕ
checked_narrow number field = do
  throw_if (ltb 0xffffffff number)
      (Error.runtime_error (field <> " exceeds the Segment format limit"))
  ok number

-- The bits of a std::int64_t.
unfoldable pub timestamp_bits : ℤ → ℕ
timestamp_bits (pos n) = n
timestamp_bits (negsuc n) = 2 ^ 64 - 1 - n

unfoldable pub finish : Output → Result Bytes
finish stream = do
  throw_if (not stream.good) (Error.runtime_error "failed to encode index section")
  ok stream.written
