-- ===== src/Query/Metadata.antt =====
-- What src/query/query_evaluator.cpp reads in a document's metadata: ascii_lower, compare, utc_day,
-- and the extension of a path, std::filesystem::path::extension.
pub mod Days
use snow_seek.Prelude.{
  Bool, Bytes, [], bytes_eq, false, if◌then◌else◌, is_empty, leb, ltb, not, suc, zero, ℕ, ◌%◌, ◌+◌,
  ◌/◌, ◌==◌, ◌||◌, ◌∷◌,
}
use snow_seek.Prelude.Int.{eq_ℤ, ltb_ℤ, negsuc, pos, ℤ}
use snow_seek.Query.Lexer.{to_lower}
use snow_seek.Query.Tree.{
  ComparisonOperator, equal, greater, greater_equal, less, less_equal, not_equal,
}

unfoldable pub ascii_lower : Bytes → Bytes
ascii_lower [] = []
ascii_lower (c ∷ text) = to_lower c ∷ ascii_lower text

unfoldable pub compare_sizes : ℕ → ℕ → ComparisonOperator → Bool
compare_sizes candidate expected equal = candidate == expected
compare_sizes candidate expected not_equal = not (candidate == expected)
compare_sizes candidate expected less = ltb candidate expected
compare_sizes candidate expected less_equal = leb candidate expected
compare_sizes candidate expected greater = ltb expected candidate
compare_sizes candidate expected greater_equal = leb expected candidate

unfoldable pub compare_days : ℤ → ℤ → ComparisonOperator → Bool
compare_days candidate expected equal = eq_ℤ candidate expected
compare_days candidate expected not_equal = not (eq_ℤ candidate expected)
compare_days candidate expected less = ltb_ℤ candidate expected
compare_days candidate expected less_equal = not (ltb_ℤ expected candidate)
compare_days candidate expected greater = ltb_ℤ expected candidate
compare_days candidate expected greater_equal = not (ltb_ℤ candidate expected)

abbrev pub nanoseconds_per_day : ℕ
nanoseconds_per_day = 86400000000000

-- -n.
abbrev pub minus : ℕ → ℤ
minus zero = pos 0
minus (suc n) = negsuc n

-- The quotient of the source rounds to 0, so one is taken off where the remainder is negative.
unfoldable pub utc_day : ℤ → ℤ
utc_day (pos n) = pos (n / nanoseconds_per_day)
utc_day (negsuc n) =
    let day = (n + 1) / nanoseconds_per_day in
    if (n + 1) % nanoseconds_per_day == 0 then minus day else minus (day + 1)

-- What follows the last slash.
unfoldable pub filename : Bytes → Bytes
filename [] = []
filename (c ∷ path) = let later = filename path in if has_slash (c ∷ path) then later else c ∷ path
  where
    has_slash : Bytes → Bool
    has_slash [] = false
    has_slash (c ∷ text) = c == b'/' || has_slash text

-- What begins at the last dot; nothing where there is no dot.
unfoldable pub from_last_dot : Bytes → Bytes
from_last_dot [] = []
from_last_dot (c ∷ text) =
    let later = from_last_dot text in
    if not (is_empty later) then later else if c == b'.' then c ∷ text else []

-- A dot that begins the name begins no extension, and the name ".." has none.
unfoldable pub extension_of_name : Bytes → Bytes
extension_of_name [] = []
extension_of_name (c ∷ name) =
    if bytes_eq (c ∷ name) (b'.' ∷ b'.' ∷ []) then [] else from_last_dot name

unfoldable pub path_extension : Bytes → Bytes
path_extension path = extension_of_name (filename path)

unfoldable pub without_dot : Bytes → Bytes
without_dot [] = []
without_dot (c ∷ text) = if c == b'.' then text else c ∷ text
