-- ===== src/Query/Filter/Civil.antt =====
-- `days_from_civil` of src/query/query_parser.cpp and the days of the calendar.
use snow_seek.Prelude.{
  Bool-cases, arith, if◌then◌else◌, inl, inr, leb, leb→le, ltb, ltb→lt, suc, zero, ℕ, ◌*◌, ◌+◌, ◌-◌,
  ◌/◌, ◌<◌, ◌≡◌, ◌≤◌,
}
use snow_seek.Prelude.Int.{next_ℤ, sub_ℕ-suc}
use snow_seek.Query.Filter.{days_from_civil, days_from_march, is_leap_year, maximum_day, month_days}

pub record IsDate (year month day : ℕ) : Type 0 where
  pub year_pos : 1 ≤ year
  pub month_in : (1 ≤ month) × (month ≤ 12)
  pub day_in : (1 ≤ day) × (day ≤ maximum_day year month)

-- The calendar: the date that follows a valid one.
abbrev pub day_after : ℕ → ℕ → ℕ → ℕ × ℕ × ℕ
day_after year month day =
    if ltb day (maximum_day year month)
    then (year, month, day + 1)
    else if ltb month 12
    then (year, month + 1, 1)
    else (year + 1, 1, 1)

-- Days from 0000-03-01 to the first of March of a year.
abbrev march : ℕ → ℕ
march y =
    y / 400 * 146097
    + ((y - y / 400 * 400) * 365 + (y - y / 400 * 400) / 4 - (y - y / 400 * 400) / 100)

-- The length of the year from one March to the next is that of its February.
march-suc : (y : ℕ) → march (y + 1) ≡ march y + (if is_leap_year (y + 1) then 366 else 365)
unfolding is_leap_year
march-suc y = ground arith

month_days_bounds : (month : ℕ) → 28 ≤ month_days month
unfolding month_days
month_days_bounds month = ground arith

late_months :
    (year month day : ℕ)
    → 3 ≤ month
    → 1 ≤ day
    → days_from_march year month day ≡ march year + ((153 * (month - 3) + 2) / 5 + day - 1)
unfolding days_from_march
late_months year month day h k = ground arith

early_months :
    (year month day : ℕ)
    → 1 ≤ month
    → month ≤ 2
    → 1 ≤ day
    → days_from_march year month day ≡ march (year - 1) + ((153 * (month + 9) + 2) / 5 + day - 1)
unfolding days_from_march
early_months year month day h k l = ground arith

month_step :
    (m : ℕ) → 3 ≤ m → m < 12 → (153 * (m + 1 - 3) + 2) / 5 ≡ (153 * (m - 3) + 2) / 5 + month_days m
unfolding month_days
month_step m h k = ground arith

maximum_day_late : (year m : ℕ) → 3 ≤ m → maximum_day year m ≡ month_days m
unfolding maximum_day
maximum_day_late year m h = ground arith

same_month :
    (year month day : ℕ)
    → 1 ≤ month
    → 1 ≤ day
    → days_from_march year month (day + 1) ≡ days_from_march year month day + 1
same_month year month day h k = elim (Bool-cases (leb month 2)) [
  | inl early ↦
      let e = leb→le month 2 early in
      omega (
        arith,
        early_months year month day h e k,
        early_months year month (day + 1) h e (omega arith),
      )
  | inr late ↦
      let l : 3 ≤ month = ground (arith, late) in
      omega
        (arith, late_months year month day l k, late_months year month (day + 1) l (omega arith))
]

january_length : (year : ℕ) → maximum_day year 1 ≡ 31
unfolding maximum_day month_days
january_length year = ground arith

december_length : (year : ℕ) → maximum_day year 12 ≡ 31
unfolding maximum_day month_days
december_length year = ground arith

february_length : (year : ℕ) → maximum_day year 2 ≡ (if is_leap_year year then 29 else 28)
unfolding maximum_day month_days
february_length year = ground arith

february_bounds : (year : ℕ) → 28 ≤ maximum_day year 2
unfolding maximum_day month_days
february_bounds year = ground arith

-- The March that a February leads to.
february_march : (year : ℕ) → 1 ≤ year → march year ≡ march (year - 1) + maximum_day year 2 + 337
february_march zero h = absurd (omega arith)
february_march (suc year) h = rw (february_length (suc year)) (ground (arith, march-suc year))

next_month :
    (year month : ℕ)
    → 1 ≤ year
    → 1 ≤ month
    → month < 12
    → days_from_march year (month + 1) 1 ≡ days_from_march year month (maximum_day year month) + 1
next_month year zero y h k = absurd (omega arith)
next_month year (suc zero) y h k =
    let l = january_length year in
    omega (
      arith,
      l,
      early_months year 1 (maximum_day year 1) (omega arith) (omega arith) (omega (arith, l)),
      early_months year 2 1 (omega arith) (omega arith) (omega arith),
    )
next_month year (suc (suc zero)) y h k =
    let l = february_bounds year in
    omega (
      arith,
      l,
      february_march year y,
      early_months year 2 (maximum_day year 2) (omega arith) (omega arith) (omega (arith, l)),
      late_months year 3 1 (omega arith) (omega arith),
    )
next_month year (suc (suc (suc m))) y h k =
    let month = suc (suc (suc m)) in
    let l = maximum_day_late year month (omega arith) in
    let p = month_days_bounds month in
    omega (
      arith,
      l,
      p,
      month_step month (omega arith) k,
      late_months year month (maximum_day year month) (omega arith) (omega (arith, l, p)),
      late_months year (month + 1) 1 (omega arith) (omega arith),
    )

next_year :
    (year : ℕ) → days_from_march (year + 1) 1 1 ≡ days_from_march year 12 (maximum_day year 12) + 1
next_year year =
    let l = december_length year in
    omega (
      arith,
      l,
      late_months year 12 (maximum_day year 12) (omega arith) (omega (arith, l)),
      early_months (year + 1) 1 1 (omega arith) (omega arith) (omega arith),
    )

civil_step :
    (year month day year' month' day' : ℕ)
    → days_from_march year' month' day' ≡ days_from_march year month day + 1
    → days_from_civil year' month' day' ≡ next_ℤ (days_from_civil year month day)
unfolding days_from_civil
civil_step year month day year' month' day' e =
    rw e (sub_ℕ-suc (days_from_march year month day) 719468)

-- The number of the day after a valid date is one more than the date's.
pub days_from_civil-day_after :
    (year month day : ℕ)
    → IsDate year month day
    → let (year', month', day') = day_after year month day in
      days_from_civil year' month' day' ≡ next_ℤ (days_from_civil year month day)
days_from_civil-day_after year month day v = elim (Bool-cases (ltb day (maximum_day year month))) [
  | inl inside ↦ rw inside (
      civil_step year month day year month (day + 1)
        (same_month year month day v.month_in.0 v.day_in.0))
  | inr last ↦
      let e : day ≡ maximum_day year month = ground (arith, last, v.day_in) in
      elim (Bool-cases (ltb month 12)) [
        | inl early ↦
            rw (last, early)
              (civil_step year month day year (month + 1) 1
                (rw e (next_month year month v.year_pos v.month_in.0 (ltb→lt month 12 early))))
        | inr late ↦
            let twelve : month ≡ 12 = ground (arith, late, v.month_in) in
            rw (last, late)
              (civil_step year month day (year + 1) 1 1 (rw (e, twelve) (next_year year)))
      ]
]
