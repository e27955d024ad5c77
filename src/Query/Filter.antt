-- ===== src/Query/Filter.antt =====
-- The filter values of src/query/query_parser.cpp: comparison operators, sizes with an IEC suffix,
-- and UTC dates.
pub mod Size
pub mod Civil
pub mod Date
use snow_seek.Prelude.{
  Bool, Bytes, Error, Option, Result, [], bytes_eq, drop, false, if◌then◌else◌, is_empty, leb, ltb,
  none, not, ok, some, throw, throw_if, true, ℕ, ◌%◌, ◌&&◌, ◌*◌, ◌+◌, ◌-◌, ◌/◌, ◌==◌, ◌>>=◌, ◌>>◌,
  ◌^◌, ◌||◌, ◌∷◌,
}
use snow_seek.Prelude.Int.{sub_ℕ, ℤ}
use snow_seek.Query.Number.{Errc, from_chars, is_digit}
use snow_seek.Query.Tree.{
  ComparisonOperator, equal, greater, greater_equal, less, less_equal, not_equal,
}

pub record ParsedComparison : Type 0 where
  pub comparison : ComparisonOperator
  pub operand : Bytes

-- std::string_view::starts_with.
unfoldable pub starts_with : Bytes → Bytes → Bool
starts_with text [] = true
starts_with [] (p ∷ front) = false
starts_with (c ∷ text) (p ∷ front) = c == p && starts_with text front

-- The operator and its length.
unfoldable pub find_operator : Bytes → ComparisonOperator × ℕ
find_operator text =
    if starts_with text (b'!' ∷ b'=' ∷ [])
    then (not_equal, 2)
    else if starts_with text (b'<' ∷ b'=' ∷ [])
    then (less_equal, 2)
    else if starts_with text (b'>' ∷ b'=' ∷ [])
    then (greater_equal, 2)
    else if starts_with text (b'=' ∷ [])
    then (equal, 1)
    else if starts_with text (b'<' ∷ [])
    then (less, 1)
    else if starts_with text (b'>' ∷ [])
    then (greater, 1)
    else (equal, 0)

unfoldable pub parse_comparison : Bytes → ℕ → Result ParsedComparison
parse_comparison text offset = do
  let found = find_operator text
  let operand = drop found.1 text
  throw_if (is_empty operand) (Error.syntax_error offset "filter value is empty")
  ok (record { comparison = found.0; operand = operand })

abbrev pub max_u64 : ℕ
max_u64 = 0xffffffffffffffff

-- The suffixes of `parse_size`: none for one that is not known.
unfoldable pub multiplier_of : Bytes → Option ℕ
multiplier_of suffix =
    if is_empty suffix || bytes_eq suffix (b'B' ∷ [])
    then some 1
    else if bytes_eq suffix (b'K' ∷ b'i' ∷ b'B' ∷ [])
    then some (2 ^ 10)
    else if bytes_eq suffix (b'M' ∷ b'i' ∷ b'B' ∷ [])
    then some (2 ^ 20)
    else if bytes_eq suffix (b'G' ∷ b'i' ∷ b'B' ∷ [])
    then some (2 ^ 30)
    else if bytes_eq suffix (b'T' ∷ b'i' ∷ b'B' ∷ [])
    then some (2 ^ 40)
    else none

unfoldable pub scale : ℕ → ℕ → Option ℕ → Result ℕ
scale offset value none = throw (Error.syntax_error offset "size has an invalid IEC suffix")
scale offset value (some multiplier) = do
  throw_if (ltb (max_u64 / multiplier) value) (Error.overflow_error "query size exceeds uint64_t")
  ok (value * multiplier)

unfoldable pub is_out_of_range : Errc → Bool
is_out_of_range Errc.result_out_of_range = true
is_out_of_range Errc.invalid = false
is_out_of_range Errc.no_error = false

unfoldable pub is_error : Errc → Bool
is_error Errc.no_error = false
is_error Errc.result_out_of_range = true
is_error Errc.invalid = true

unfoldable pub parse_size : Bytes → ℕ → Result ℕ
parse_size text offset = do
  let result = from_chars (2 ^ 64) text
  throw_if (is_out_of_range result.ec) (Error.overflow_error "query size exceeds uint64_t")
  throw_if (result.taken == 0 || is_error result.ec)
      (Error.syntax_error offset "size must be a nonnegative integer")
  scale offset result.value (multiplier_of result.left)

unfoldable pub is_leap_year : ℕ → Bool
is_leap_year year = year % 4 == 0 && (not (year % 100 == 0) || year % 400 == 0)

-- `days_from_civil` before its last subtraction: days since 0000-03-01. With a positive year no
-- number of the computation is negative and none wraps.
unfoldable pub days_from_march : ℕ → ℕ → ℕ → ℕ
days_from_march year month day =
    let y = if leb month 2 then year - 1 else year in
    let era = y / 400 in
    let year_of_era = y - era * 400 in
    let shifted_month = if ltb 2 month then month - 3 else month + 9 in
    let day_of_year = (153 * shifted_month + 2) / 5 + day - 1 in
    let day_of_era = year_of_era * 365 + year_of_era / 4 - year_of_era / 100 + day_of_year in
    era * 146097 + day_of_era

unfoldable pub days_from_civil : ℕ → ℕ → ℕ → ℤ
days_from_civil year month day = sub_ℕ (days_from_march year month day) 719468

-- The table `month_days`, at `month - 1`.
unfoldable pub month_days : ℕ → ℕ
month_days month =
    if month == 2
    then 28
    else if month == 4 || month == 6 || month == 9 || month == 11
    then 30
    else 31

unfoldable pub maximum_day : ℕ → ℕ → ℕ
maximum_day year month = if month == 2 && is_leap_year year then 29 else month_days month

-- The checks of the parsed numbers and the conversion.
unfoldable pub civil_day : ℕ → ℕ → ℕ → ℕ → Result ℤ
civil_day offset year month day = do
  throw_if (year == 0 || month == 0 || ltb 12 month)
      (Error.syntax_error offset "mtime is not a valid civil date")
  throw_if (day == 0 || ltb (maximum_day year month) day)
      (Error.syntax_error offset "mtime is not a valid civil date")
  ok (days_from_civil year month day)

unfoldable pub parse_mtime_day : Bytes → ℕ → Result ℤ
parse_mtime_day (y1 ∷ y2 ∷ y3 ∷ y4 ∷ s1 ∷ m1 ∷ m2 ∷ s2 ∷ d1 ∷ d2 ∷ []) offset = do
  throw_if
      (not (s1 == b'-')
        || not (s2 == b'-')
        || not (is_digit y1)
        || not (is_digit y2)
        || not (is_digit y3)
        || not (is_digit y4)
        || not (is_digit m1)
        || not (is_digit m2)
        || not (is_digit d1)
        || not (is_digit d2))
      (Error.syntax_error offset "mtime must use YYYY-MM-DD")
  civil_day offset ((y1 - b'0') * 1000 + (y2 - b'0') * 100 + (y3 - b'0') * 10 + (y4 - b'0'))
      ((m1 - b'0') * 10 + (m2 - b'0')) ((d1 - b'0') * 10 + (d2 - b'0'))
parse_mtime_day _ offset = throw (Error.syntax_error offset "mtime must use YYYY-MM-DD")
