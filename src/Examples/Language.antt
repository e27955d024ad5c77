-- ===== src/Examples/Language.antt =====
-- src/query: the query language at concrete inputs.
use snow_seek.Analysis.Tokenizer.{
  emit_pending, finish, is_ascii_token_character, new_session, normalize_ascii, push, push_byte,
  push_bytes, require_consumer, tokenize, tokenize_with_positions,
}
use snow_seek.Prelude.{
  Bytes, Error, [], arith, if◌then◌else◌, length, ok, refl, throw, ◌*◌, ◌++◌, ◌+◌, ◌∷◌, ◌≡◌, ◌≢◌,
}
use snow_seek.Prelude.Int.{negsuc, next_ℤ, pos}
use snow_seek.Query.Filter.{
  days_from_civil, days_from_march, is_leap_year, maximum_day, parse_mtime_day, parse_size,
}
use snow_seek.Query.Filter.Civil.{IsDate, days_from_civil-day_after}
use snow_seek.Query.Filter.Date.{date_text, is_date, parse_mtime_day-date_text}
use snow_seek.Query.Filter.Size.{Iec, parse_size-decimal, size_or_overflow, suffix_of}
use snow_seek.Query.Lexer.{
  Lexer, classify_word, equals_keyword, find_filter, is_end, is_space, next, next_token, read_bare,
  read_quoted, read_quoted_value, read_word, skip_whitespace, starts_with_ascii_case_insensitive,
  to_lower,
}
use snow_seek.Query.Lexer.Quoted.{escape, read_quoted_value-escape, read_quoted_value_unique}
use snow_seek.Query.Metadata.{utc_day}
use snow_seek.Query.Metadata.Days.{instant, utc_day-instant}
use snow_seek.Query.Number.Decimal.{decimal}
use snow_seek.Query.Operand.{
  find_first_of, is_wildcard, normalize_term, only_term, operand_of, parse_operand, parse_word,
  word_by,
}
use snow_seek.Query.Parser.{
  advance, check_tree, is_conjunction, is_disjunction, is_left_parenthesis, is_negation,
  is_right_parenthesis, new_parser, parse, parse_disjunction, parse_query, starts_operand,
}
use snow_seek.Query.Parser.Fuel.{parse_query-ends}
use snow_seek.Query.Parser.Grammar.{IsTree, parse_query-IsTree}
use snow_seek.Query.Tree.{QueryNode, expression_depth}

-- a OR NOT (b c)
abbrev expression : Bytes
expression =
    b'a' ∷ b' ' ∷ b'O' ∷ b'R' ∷ b' ' ∷ b'N' ∷ b'O' ∷ b'T' ∷ b' ' ∷ b'(' ∷ b'b' ∷ b' ' ∷ b'c' ∷ b')'
    ∷ []

abbrev tree : QueryNode
tree = QueryNode.disjunction (QueryNode.term (b'a' ∷ [])) (
    QueryNode.negation
      (QueryNode.conjunction (QueryNode.term (b'b' ∷ [])) (QueryNode.term (b'c' ∷ []))))

parse_query_test : parse_query expression ≡ ok tree
unfolding parse_query new_parser next skip_whitespace is_space next_token read_word find_filter
    starts_with_ascii_case_insensitive to_lower read_bare classify_word equals_keyword is_end parse
    check_tree parse_disjunction advance is_disjunction is_conjunction is_negation
    is_left_parenthesis is_right_parenthesis starts_operand parse_operand operand_of parse_word
    find_first_of is_wildcard word_by normalize_term only_term tokenize tokenize_with_positions
    new_session push push_bytes push_byte is_ascii_token_character normalize_ascii emit_pending
    finish require_consumer expression_depth
parse_query_test = refl

parse_query-IsTree_example : IsTree expression tree
parse_query-IsTree_example = parse_query-IsTree expression tree parse_query_test

parse_query-ends_example : parse_query expression ≢ throw Error.out_of_fuel
parse_query-ends_example = parse_query-ends expression

-- The last of February in a leap year.
days_from_civil-day_after_example : days_from_civil 2024 3 1 ≡ next_ℤ (days_from_civil 2024 2 29)
unfolding maximum_day is_leap_year
days_from_civil-day_after_example = days_from_civil-day_after 2024 2 29 leap_day
  where
    leap_day : IsDate 2024 2 29
    leap_day = record {
      year_pos = omega arith;
      month_in = (omega arith, omega arith);
      day_in = (omega arith, omega arith);
    }

days_from_civil_test : days_from_civil 1970 1 1 ≡ pos 0
unfolding days_from_civil days_from_march
days_from_civil_test = refl

parse_mtime_day-date_text_example : parse_mtime_day (date_text 2024 2 30) 7 ≡ (
    if is_date 2024 2 30
    then ok (days_from_civil 2024 2 30)
    else throw (Error.syntax_error 7 "mtime is not a valid civil date"))
parse_mtime_day-date_text_example =
    parse_mtime_day-date_text 7 2024 2 30 (omega arith) (omega arith) (omega arith)

parse_size-decimal_example :
    parse_size (decimal 20000000 ++ suffix_of Iec.tib) 3
    ≡ size_or_overflow (20000000 * 1099511627776)
parse_size-decimal_example = parse_size-decimal 20000000 3 Iec.tib

-- A value with a quote and a backslash.
abbrev value_bytes : Bytes
value_bytes = b'x' ∷ b'"' ∷ b'\\' ∷ []

read_quoted_value-escape_example :
    read_quoted_value 0 (record { rest = escape value_bytes ++ (b'"' ∷ b')' ∷ []); position = 1 })
    ≡ ok (value_bytes, record { rest = b')' ∷ []; position = 1 + length (escape value_bytes) + 1 })
read_quoted_value-escape_example = read_quoted_value-escape 0 1 value_bytes (b')' ∷ [])

abbrev quoted : Lexer
quoted = record { rest = b'\\' ∷ b'"' ∷ b'"' ∷ b' ' ∷ []; position = 1 }

read_quoted_value_test :
    read_quoted_value 0 quoted ≡ ok (b'"' ∷ [], record { rest = b' ' ∷ []; position = 4 })
unfolding read_quoted_value read_quoted
read_quoted_value_test = refl

read_quoted_value_unique_example : quoted.rest ≡ escape (b'"' ∷ []) ++ (b'"' ∷ b' ' ∷ [])
read_quoted_value_unique_example =
    read_quoted_value_unique 0 quoted (record { rest = b' ' ∷ []; position = 4 }) (b'"' ∷ [])
      read_quoted_value_test

-- The first nanosecond of the last day of 1969.
utc_day-instant_example : utc_day (instant (negsuc 0) 1) ≡ negsuc 0
utc_day-instant_example = utc_day-instant (negsuc 0) 1 (omega arith)
