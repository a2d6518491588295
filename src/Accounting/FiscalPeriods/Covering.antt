-- ===== src/Accounting/FiscalPeriods/Covering.antt =====
-- backend/src/accounting/fiscal-periods: the twelve periods cover each day of the year once.
use native.Mathlib.Decide.{dec_lt}
use mathlib.Core.List.{append-nil, append_assoc}
use mathlib.Core.Path.{subst}
use advanced_accountancy.Prelude.{
  ℕ, zero, suc, ◌+◌, ◌/◌, ◌%◌, ◌≤◌, ◌<◌, ◌≡◌, refl, sym, ap, ◌∙◌, Bool, ◌&&◌, List, [], ◌∷◌, ◌++◌,
  arith, leb, if◌then◌else◌, ◌⊎◌,
}
use advanced_accountancy.Tx.{ok, ◌>>=◌}
use advanced_accountancy.Schema.{Uuid, Day, AccountingPeriod, Db}
use advanced_accountancy.Accounting.Calendar.{
  is_leap, days_before_year, days_before_month, month_length, full_year_lem, utc,
  days_before_year-suc,
}
use advanced_accountancy.Accounting.FiscalPeriods.{month_period, create_periods}

-- The rows that the loop creates.
abbrev pub year_periods : ℕ → Uuid → Uuid → ℕ → ℕ → List AccountingPeriod
year_periods year fy id zero month = []
year_periods year fy id (suc rounds) month =
    month_period year fy month id ∷ year_periods year fy (suc id) rounds (suc month)

pub create_periods_lem :
    (year : ℕ) (fy : Uuid) (rounds month : ℕ) (s : Db)
    → (t : Db) × (create_periods year fy rounds month s ≡ ok (tt, t))
      × (t ≡ record s {
        accounting_periods = s.accounting_periods ++ year_periods year fy s.next_id rounds month;
        next_id = t.next_id;
      })
unfolding create_periods ◌>>=◌
create_periods_lem year fy zero month s = (
  s,
  refl,
  ap (λ (l : List AccountingPeriod). record s { accounting_periods = l })
      (sym (append-nil s.accounting_periods)),
)
create_periods_lem year fy (suc rounds) month s =
    let row = month_period year fy month s.next_id in
    let s' : Db = record s {
      accounting_periods = s.accounting_periods ++ row ∷ [];
      next_id = suc s.next_id;
    } in
    let (t, run, e) = create_periods_lem year fy rounds (suc month) s' in
    (
      t,
      run,
      e
          ∙ ap
              (λ (l : List AccountingPeriod). record s {
                accounting_periods = l;
                next_id = t.next_id;
              })
              (append_assoc s.accounting_periods (row ∷ [])
                (year_periods year fy (suc s.next_id) rounds (suc month))),
    )

abbrev pub covers_day : Day → AccountingPeriod → Bool
covers_day day p = leb p.start_date day && leb day p.end_date

-- How many periods cover a day.
abbrev pub covering : Day → List AccountingPeriod → ℕ
covering day [] = 0
covering day (p ∷ ps) = (if covers_day day p then 1 else 0) + covering day ps

module _ (year : ℕ) (h : 100 ≤ year) where
  abbrev base : ℕ
  base = days_before_year year

  abbrev before : ℕ → ℕ
  before = days_before_month (is_leap year)

  month_start : (m : ℕ) → m < 12 → utc year m 1 ≡ base + before m + 1
  unfolding utc
  month_start m lt =
      let same : year + m / 12 ≡ year = omega arith in
      let month : m % 12 ≡ m = omega arith in rw (full_year_lem year h, same, month)

  month_end : (m : ℕ) → m < 12 → utc year (suc m) 0 ≡ base + before (suc m)
  unfolding utc
  month_end m lt = elim (dec_lt m 11) [
    | yes inside ↦
        let same : year + suc m / 12 ≡ year = omega arith in
        let month : suc m % 12 ≡ suc m = omega arith in
        rw (full_year_lem year h, same, month) (omega arith)
    | no last ↦
        let eleven : m ≡ 11 = omega arith in
        rw eleven (
          let next : year + 12 / 12 ≡ suc year = omega arith in
          rw (full_year_lem year h, next)
            (unfold days_before_month in omega (arith, days_before_year-suc year (omega arith))))
  ]

month_length_pos : (leap : Bool) (m : ℕ) → 1 ≤ month_length leap m
unfolding month_length
month_length_pos leap m = ground arith

-- A period counts 1 on its days and 0 elsewhere.
counts :
    (day : Day) (p : AccountingPeriod)
    → let n : ℕ = if covers_day day p then 1 else 0 in
      ((p.start_date ≤ day) × (day ≤ p.end_date) × (n ≡ 1))
      ⊎ (((day < p.start_date) ⊎ (p.end_date < day)) × (n ≡ 0))
counts day p = ground arith

-- How the months from `month` up to `stop` cover a day.
pub record Tiles (cov first last day : ℕ) : Type 0 where
  pub ordered : first ≤ last
  pub earlier : day ≤ first → cov ≡ 0
  pub within : first < day → day ≤ last → cov ≡ 1
  pub later : last < day → cov ≡ 0

-- One more period in front of a tiling.
tile_front :
    (n cov first last stop day start end : ℕ)
    → start ≡ first + 1
    → end ≡ last
    → first < last
    → ((start ≤ day) × (day ≤ end) × (n ≡ 1)) ⊎ (((day < start) ⊎ (end < day)) × (n ≡ 0))
    → Tiles cov last stop day
    → Tiles (n + cov) first stop day
tile_front n cov first last stop day start end es ee lt c t =
    let ordered : last ≤ stop = t.ordered in
    let earlier : day ≤ last → cov ≡ 0 = t.earlier in
    let within : last < day → day ≤ stop → cov ≡ 1 = t.within in
    let later : stop < day → cov ≡ 0 = t.later in
    record {
      ordered = omega arith;
      earlier = λ d. ground arith;
      within = λ d e. ground arith;
      later = λ d. ground arith;
    }

months_tile :
    (year : ℕ) (h : 100 ≤ year) (fy : Uuid) (day : Day) (id : Uuid) (rounds month stop : ℕ)
    → month + rounds ≡ stop
    → stop ≤ 12
    → Tiles
        (covering day (year_periods year fy id rounds month))
        (days_before_year year + days_before_month (is_leap year) month)
        (days_before_year year + days_before_month (is_leap year) stop)
        day
months_tile year h fy day id zero month stop e le =
    let same : month ≡ stop = omega arith in rw (← same) (omega arith)
months_tile year h fy day id (suc rounds) month stop e le =
    let ih = months_tile year h fy day (suc id) rounds (suc month) stop (omega arith) le in
    let first = month_start year h month (omega arith) in
    let last = month_end year h month (omega arith) in
    let long : 1 ≤ month_length (is_leap year) month = month_length_pos _ month in
    let step : days_before_month (is_leap year) (suc month)
        ≡ days_before_month (is_leap year) month + month_length (is_leap year) month =
      unfold days_before_month in refl in
    let c = counts day (month_period year fy month id) in
    tile_front _ _ _ _ _ day _ _ first last (rw step (omega arith)) c ih

-- The twelve periods of a year, together, cover each day of the year once and no other day.
pub year_covered_once :
    (year : ℕ) (fy id : Uuid) (day : Day)
    → 100 ≤ year
    → Tiles
        (covering day (year_periods year fy id 12 0))
        (days_before_year year)
        (days_before_year (suc year))
        day
year_covered_once year fy id day h =
    let tiles = months_tile year h fy day id 12 0 12 refl (omega arith) in
    let first : days_before_year year + days_before_month (is_leap year) 0 ≡ days_before_year year =
      unfold days_before_month in omega arith in
    subst
      (λ n. Tiles (covering day (year_periods year fy id 12 0)) n (days_before_year (suc year)) day)
      first
      (subst
        (λ n.
          Tiles (covering day (year_periods year fy id 12 0))
            (days_before_year year + days_before_month (is_leap year) 0) n day)
        (sym (days_before_year-suc year (omega arith))) tiles)
