-- ===== src/Accounting/Calendar.antt =====
-- The days that `Date.UTC` and `getUTCFullYear` count, as fiscal-periods.service.ts and
-- company-provisioning.service.ts use them: the proleptic Gregorian calendar from year 1.
use advanced_accountancy.Prelude.{
  ℕ, zero, suc, ◌+◌, ◌-◌, ◌*◌, ◌/◌, ◌%◌, ◌≤◌, ◌<◌, ◌≡◌, refl, ◌≢◌, ◌⊎◌, Bool, true, false, not,
  ◌&&◌, ◌||◌, arith, ◌==◌, leb, ltb, if◌then◌else◌, Bool-cases, inl, inr,
}
use advanced_accountancy.Schema.{Day}

unfoldable pub is_leap : ℕ → Bool
is_leap y = ((y % 4 == 0) && not (y % 100 == 0)) || (y % 400 == 0)

-- The days before 1 January of a year; 1 January of year 1 is day 1.
unfoldable pub days_before_year : ℕ → ℕ
days_before_year y = 365 * (y - 1) + (y - 1) / 4 + (y - 1) / 400 - (y - 1) / 100

-- The months are counted from 0.
unfoldable pub month_length : Bool → ℕ → ℕ
month_length leap m =
    if m == 1
    then (if leap then 29 else 28)
    else if (m == 3) || (m == 5) || (m == 8) || (m == 10)
    then 30
    else 31

unfoldable pub days_before_month : Bool → ℕ → ℕ
days_before_month leap zero = 0
days_before_month leap (suc m) = days_before_month leap m + month_length leap m

-- The year that `Date.UTC` takes a number for: 0 to 99 stand for 1900 to 1999.
unfoldable pub full_year : ℕ → ℕ
full_year year = if ltb year 100 then 1900 + year else year

pub full_year_lem : (year : ℕ) → 100 ≤ year → full_year year ≡ year
unfolding full_year
full_year_lem year h = ground arith

-- `Date.UTC(year, month, date)`: month 12 is January of the next year, date 0 the day before the 1st.
unfoldable pub utc : ℕ → ℕ → ℕ → Day
utc year month date =
    let y = full_year year + month / 12 in
    days_before_year y + days_before_month (is_leap y) (month % 12) + date

year_from : ℕ → ℕ → Day → ℕ
year_from zero y day = y
year_from (suc fuel) y day =
    let later = year_from fuel (suc y) day in
    if leb day (days_before_year (suc y)) then y else later

-- `getUTCFullYear()`, by counting the years up; a day has at most as many years as days before it.
unfoldable pub get_utc_full_year : Day → ℕ
unfolding year_from days_before_year
get_utc_full_year day = year_from day 1 day

year_length : (leap : Bool) → days_before_month leap 12 ≡ (if leap then 366 else 365)
unfolding days_before_month month_length
year_length true = refl
year_length false = refl

leap_year : (y : ℕ) → 1 ≤ y → is_leap y ≡ true → days_before_year (suc y) ≡ days_before_year y + 366
unfolding days_before_year is_leap
leap_year y h leap =
    let facts : ((y % 4 ≡ 0) × (y % 100 ≢ 0)) ⊎ (y % 400 ≡ 0) = ground arith in omega arith

common_year :
    (y : ℕ) → 1 ≤ y → is_leap y ≡ false → days_before_year (suc y) ≡ days_before_year y + 365
unfolding days_before_year is_leap
common_year y h common =
    let facts : ((y % 4 ≢ 0) ⊎ (y % 100 ≡ 0)) × (y % 400 ≢ 0) = ground arith in omega arith

-- A year has the days of its twelve months.
pub days_before_year-suc :
    (y : ℕ)
    → 1 ≤ y
    → days_before_year (suc y) ≡ days_before_year y + days_before_month (is_leap y) 12
days_before_year-suc y h = elim (Bool-cases (is_leap y)) [
  | inl leap ↦ rw (year_length (is_leap y)) (rw leap (leap_year y h leap))
  | inr common ↦ rw (year_length (is_leap y)) (rw common (common_year y h common))
]

year_from_lem :
    (fuel y : ℕ) (day : Day)
    → 1 ≤ y
    → days_before_year y < day
    → day ≤ days_before_year y + fuel
    → let r = year_from fuel y day in
      (1 ≤ r) × (days_before_year r < day) × (day ≤ days_before_year (suc r))
unfolding year_from
year_from_lem zero y day h low high = absurd (omega arith)
year_from_lem (suc fuel) y day h low high =
    let grows = days_before_year-suc y h in
    let some_days : 365 ≤ days_before_month (is_leap y) 12 =
      rw (year_length (is_leap y)) (elim (Bool-cases (is_leap y)) [
        | inl leap ↦ rw leap (omega arith)
        | inr common ↦ rw common (omega arith)
      ]) in
    elim (Bool-cases (leb day (days_before_year (suc y)))) [
      | inl this ↦ rw this (h, low, ground arith)
      | inr later ↦
          rw later
            (year_from_lem fuel (suc y) day (omega arith) (ground arith) (omega (arith, grows)))
    ]

-- The year of a day is the one whose days hold it: counting up to the day's own number suffices.
pub get_utc_full_year_lem :
    (day : Day)
    → 1 ≤ day
    → let y = get_utc_full_year day in
      (1 ≤ y) × (days_before_year y < day) × (day ≤ days_before_year (suc y))
unfolding get_utc_full_year
get_utc_full_year_lem day h =
    year_from_lem day 1 day (omega arith) (unfold days_before_year in omega arith) (omega arith)

pub get_utc_full_year_2021 : get_utc_full_year 738010 ≡ 2021
unfolding get_utc_full_year
get_utc_full_year_2021 = refl

-- The month of a day of the year, counted down from `m`: the last one that begins before the day.
abbrev pub month_from : Bool → ℕ → ℕ → ℕ
month_from leap zero day = zero
month_from leap (suc m) day =
    let earlier = month_from leap m day in
    if ltb (days_before_month leap (suc m)) day then suc m else earlier

-- `getUTCMonth()`
unfoldable pub get_utc_month : Day → ℕ
get_utc_month day =
    let year = get_utc_full_year day in month_from (is_leap year) 11 (day - days_before_year year)
