-- ===== src/Query/Filter/Date.antt =====
-- What parse_mtime_day makes of a date that is written YYYY-MM-DD.
use snow_seek.Prelude.{
  Bool, Bytes, Error, [], arith, if◌then◌else◌, leb, ok, throw, true, ℕ, ◌%◌, ◌&&◌, ◌*◌, ◌+◌, ◌-◌,
  ◌/◌, ◌<◌, ◌∷◌, ◌≡◌,
}
use snow_seek.Query.Filter.{civil_day, days_from_civil, maximum_day, parse_mtime_day}
use snow_seek.Query.Number.{is_digit}

abbrev pub digit : ℕ → ℕ
digit n = b'0' + n % 10

-- YYYY-MM-DD.
abbrev pub date_text : ℕ → ℕ → ℕ → Bytes
date_text year month day =
    digit (year / 1000)
    ∷ digit (year / 100)
    ∷ digit (year / 10)
    ∷ digit year
    ∷ b'-'
    ∷ digit (month / 10)
    ∷ digit month
    ∷ b'-'
    ∷ digit (day / 10)
    ∷ digit day
    ∷ []

abbrev pub is_date : ℕ → ℕ → ℕ → Bool
is_date year month day =
    leb 1 year && leb 1 month && leb month 12 && leb 1 day && leb day (maximum_day year month)

digit-is_digit : (n : ℕ) → is_digit (digit n) ≡ true
unfolding is_digit
digit-is_digit n = ground arith

civil_day-is_date :
    (offset year month day : ℕ)
    → civil_day offset year month day ≡ (
        if is_date year month day
        then ok (days_from_civil year month day)
        else throw (Error.syntax_error offset "mtime is not a valid civil date"))
unfolding civil_day
civil_day-is_date offset year month day = ground arith

-- A date of four, two and two digits becomes its day number if it is a date of the calendar, and a
-- syntax error if it is not.
pub parse_mtime_day-date_text :
    (offset year month day : ℕ)
    → year < 10000
    → month < 100
    → day < 100
    → parse_mtime_day (date_text year month day) offset ≡ (
        if is_date year month day
        then ok (days_from_civil year month day)
        else throw (Error.syntax_error offset "mtime is not a valid civil date"))
unfolding parse_mtime_day
parse_mtime_day-date_text offset year month day y m d =
    rw
      (
        digit-is_digit (year / 1000),
        digit-is_digit (year / 100),
        digit-is_digit (year / 10),
        digit-is_digit year,
        digit-is_digit (month / 10),
        digit-is_digit month,
        digit-is_digit (day / 10),
        digit-is_digit day,
        ey,
        em,
        ed,
      )
      (civil_day-is_date offset year month day)
  where
    ey :
        (digit (year / 1000) - b'0') * 1000
          + (digit (year / 100) - b'0') * 100
          + (digit (year / 10) - b'0') * 10
          + (digit year - b'0')
        ≡ year
    ey = omega arith

    em : (digit (month / 10) - b'0') * 10 + (digit month - b'0') ≡ month
    em = omega arith

    ed : (digit (day / 10) - b'0') * 10 + (digit day - b'0') ≡ day
    ed = omega arith
