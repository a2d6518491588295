-- ===== src/Accounting/FiscalPeriods/Tiling.antt =====
-- The twelve periods of a year cover each of its days once, and no other day.
use advanced_accountancy.Prelude.{
  ℕ, zero, suc, ◌+◌, ◌/◌, ◌%◌, ◌≤◌, ◌<◌, ◌≡◌, refl, sym, ap, ◌∙◌, List, [], ◌∷◌, ◌++◌, arith, ◌⊎◌,
  inl, inr, length,
}
use advanced_accountancy.Tx.{ok, ◌>>=◌}
use advanced_accountancy.Schema.{Uuid, Day, AccountingPeriod, FiscalYear, Db}
use advanced_accountancy.Accounting.Calendar.{
  days_before_year, days_before_month, month_length, full_year_lem, utc, days_before_year-suc,
}
use advanced_accountancy.Accounting.FiscalPeriods.{create_fiscal_year}
use advanced_accountancy.Accounting.FiscalPeriods.Covering.{
  year_periods, create_periods_lem, covering, year_covered_once,
}

-- Creating a fiscal year adds the year's row and its twelve periods, and they cover each day of the
-- year once and no other day.
pub record YearCreated (company_id : Uuid) (year : ℕ) (fy : FiscalYear) (s t : Db) : Type 0 where
  pub rest : t ≡ record s {
    fiscal_years = t.fiscal_years;
    accounting_periods = t.accounting_periods;
    next_id = t.next_id;
  }
  pub year_added : t.fiscal_years ≡ s.fiscal_years ++ fy ∷ []
  pub owner : fy.company_id ≡ company_id
  pub named : fy.year ≡ year
  pub bounds :
      (fy.start_date ≡ suc (days_before_year year)) × (fy.end_date ≡ days_before_year (suc year))
  pub periods : List AccountingPeriod
  pub periods_added : t.accounting_periods ≡ s.accounting_periods ++ periods
  pub twelve : length periods ≡ 12
  pub once : (day : Day) → fy.start_date ≤ day → day ≤ fy.end_date → covering day periods ≡ 1
  pub no_other :
      (day : Day) → (day < fy.start_date) ⊎ (fy.end_date < day) → covering day periods ≡ 0

year_start : (year : ℕ) → 100 ≤ year → utc year 0 1 ≡ suc (days_before_year year)
unfolding utc days_before_month
year_start year h =
    let same : year + 0 / 12 ≡ year = omega arith in rw (full_year_lem year h, same) (omega arith)

year_end : (year : ℕ) → 100 ≤ year → utc year 11 31 ≡ days_before_year (suc year)
unfolding utc
year_end year h =
    let same : year + 11 / 12 ≡ year = omega arith in
    let month : 11 % 12 ≡ 11 = omega arith in
    rw (full_year_lem year h, same, month)
      (unfold days_before_month month_length in
        omega (arith, days_before_year-suc year (omega arith)))

length-year_periods :
    (year : ℕ) (fy id : Uuid) (rounds month : ℕ)
    → length (year_periods year fy id rounds month) ≡ rounds
length-year_periods year fy id zero month = refl
length-year_periods year fy id (suc rounds) month =
    ap suc (length-year_periods year fy (suc id) rounds (suc month))

-- From year 100 on, creating a fiscal year always commits, and adds the year's row, from its
-- first day to its last, and twelve periods that cover each day of the year once and no other
-- day; besides, it only draws ids.
pub create_fiscal_year-YearCreated :
    (company_id : Uuid) (year : ℕ) (s : Db)
    → 100 ≤ year
    → (fy : FiscalYear) × (t : Db) × (create_fiscal_year company_id year s ≡ ok (fy, t))
      × YearCreated company_id year fy s t
unfolding create_fiscal_year ◌>>=◌
create_fiscal_year-YearCreated company_id year s h =
    let fy : FiscalYear = record {
      id = s.next_id;
      company_id = company_id;
      year = year;
      start_date = utc year 0 1;
      end_date = utc year 11 31;
    } in
    let s' : Db = record s { fiscal_years = s.fiscal_years ++ fy ∷ []; next_id = suc s.next_id } in
    let (t, run, e) = create_periods_lem year s.next_id 12 0 s' in
    let start = year_start year h in
    let end = year_end year h in
    let tiles = λ (day : Day). year_covered_once year s.next_id (suc s.next_id) day h in
    (
      fy,
      t,
      rw run refl,
      record {
        rest =
            e
            ∙ ap
                (λ (y : List FiscalYear). record s {
                  fiscal_years = y;
                  accounting_periods =
                      s.accounting_periods ++ year_periods year s.next_id (suc s.next_id) 12 0;
                  next_id = t.next_id;
                })
                (sym (ap (λ (x : Db). x.fiscal_years) e))
            ∙ ap
                (λ (p : List AccountingPeriod). record s {
                  fiscal_years = t.fiscal_years;
                  accounting_periods = p;
                  next_id = t.next_id;
                })
                (sym (ap (λ (x : Db). x.accounting_periods) e));
        year_added = ap (λ (x : Db). x.fiscal_years) e;
        owner = refl;
        named = refl;
        bounds = (start, end);
        periods = year_periods year s.next_id (suc s.next_id) 12 0;
        periods_added = ap (λ (x : Db). x.accounting_periods) e;
        twelve = length-year_periods year s.next_id (suc s.next_id) 12 0;
        once = λ day a b. (tiles day).within (omega arith) (omega arith);
        no_other = λ day o. elim o [
          | inl a ↦ (tiles day).earlier (omega arith)
          | inr b ↦ (tiles day).later (omega arith)
        ];
      },
    )
