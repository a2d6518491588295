-- ===== src/Assets.antt =====
-- backend/src/assets/fixed-assets.ts: straight-line depreciation, scheduled at the purchase.
pub mod Schedule
pub mod Marked
pub mod Runs
use advanced_accountancy.Prelude.{
  ℕ, suc, zero, ◌+◌, ◌*◌, String, Bool, true, false, ◌&&◌, Option, none, some, List, [], ◌∷◌, ◌++◌,
  ◌==◌, leb, find, find_many, modify_first, sort_by, length, if◌then◌else◌,
}
use advanced_accountancy.Prelude.Int.{ℤ, pos, pos_part, ◌+ℤ◌, ◌-ℤ◌, ◌*ℤ◌}
use advanced_accountancy.Prelude.Text.{Text, codes}
use advanced_accountancy.Tx.{
  Tx, pure, gets, or_throw, modify, throw_if, ◌>>=◌, ◌>>◌, record_missing, nothing_due,
}
use advanced_accountancy.Schema.{
  Uuid, Day, Amount, Cents, FixedAsset, DepreciationSchedule, Company, company_has_id,
  no_dimensions, AuditAction, AuditValue, Db, fresh, from_cents, to_cents, round2, round2_of,
}
use advanced_accountancy.Audit.{record_audit, audit_row}
use advanced_accountancy.Accounting.Calendar.{utc, get_utc_full_year, get_utc_month}
use advanced_accountancy.Accounting.Numbering.Format.{to_string}
use advanced_accountancy.Accounting.Engine.{PostEventParams, post_event}

pub record CreateFixedAssetDto : Type 0 where
  pub company_id : Uuid
  pub asset_code : String
  pub name : String
  pub acquisition_date : Day
  pub acquisition_cost : Amount
  pub useful_life_months : ℕ
  pub residual_value : Amount
  pub asset_account_id : Uuid
  pub depreciation_expense_account_id : Uuid
  pub accumulated_depreciation_account_id : Uuid

abbrev pub depreciable_amount : CreateFixedAssetDto → Amount
depreciable_amount dto = dto.acquisition_cost -ℤ dto.residual_value

-- `round2(amount / months)`
unfoldable pub round2_quotient : Amount → ℕ → Cents
round2_quotient amount months = round2_of amount (months * 100000000)

-- A row to create.
pub record NewSchedule : Type 0 where
  pub period_no : ℕ
  pub period_date : Day
  pub amount : Cents

-- `Date.UTC(year, month + i, 0)` of the purchase: the last day of the month before.
abbrev pub period_date_of : Day → ℕ → Day
period_date_of acquired i = utc (get_utc_full_year acquired) (get_utc_month acquired + i) 0

-- The loop from month `i` on: the rounds left, and what is accumulated so far.
unfoldable pub schedules_from : Day → Amount → Cents → ℕ → ℕ → Cents → List NewSchedule
schedules_from acquired depreciable monthly zero i accumulated = []
schedules_from acquired depreciable monthly (suc rounds) i accumulated =
    let is_last = rounds == 0 in
    let amount = if is_last then round2 (depreciable -ℤ from_cents accumulated) else monthly in
    record { period_no = i; period_date = period_date_of acquired i; amount = amount }
    ∷ schedules_from acquired depreciable monthly rounds (suc i) (accumulated +ℤ amount)

abbrev pub monthly_of : CreateFixedAssetDto → Cents
monthly_of dto = round2_quotient (depreciable_amount dto) dto.useful_life_months

-- The schedule of an asset.
unfoldable pub schedules_of : CreateFixedAssetDto → List NewSchedule
schedules_of dto =
    schedules_from dto.acquisition_date (depreciable_amount dto) (monthly_of dto)
      dto.useful_life_months 1 (pos 0)

abbrev pub new_asset : CreateFixedAssetDto → Uuid → FixedAsset
new_asset dto id = record {
  id = id;
  company_id = dto.company_id;
  asset_code = dto.asset_code;
  name = dto.name;
  acquisition_date = dto.acquisition_date;
  acquisition_cost = to_cents dto.acquisition_cost;
  useful_life_months = dto.useful_life_months;
  residual_value = to_cents dto.residual_value;
  asset_account_id = dto.asset_account_id;
  depreciation_expense_account_id = dto.depreciation_expense_account_id;
  accumulated_depreciation_account_id = dto.accumulated_depreciation_account_id;
}

abbrev pub new_schedule : Uuid → NewSchedule → Uuid → DepreciationSchedule
new_schedule asset_id n id = record {
  id = id;
  fixed_asset_id = asset_id;
  period_no = n.period_no;
  period_date = n.period_date;
  amount = n.amount;
  is_pending = true;
  journal_entry_id = none;
  posted_at = none;
}

-- The nested create of the schedule's rows.
unfoldable pub create_schedules : Uuid → List NewSchedule → Tx Db (Unit {0})
create_schedules asset_id [] = pure tt
create_schedules asset_id (n ∷ rest) = do
  id ← fresh
  modify (λ s. record s {
    depreciation_schedules = s.depreciation_schedules ++ new_schedule asset_id n id ∷ [];
  })
  create_schedules asset_id rest

unfoldable pub create : Uuid → CreateFixedAssetDto → Tx Db FixedAsset
create user_id dto = do
  id ← fresh
  let asset = new_asset dto id
  modify (λ s. record s { fixed_assets = s.fixed_assets ++ asset ∷ [] })
  create_schedules id (schedules_of dto)
  record_audit (
      audit_row dto.company_id user_id AuditAction.create "fixed_asset" id none
        (some (AuditValue.asset_monthly dto.asset_code (monthly_of dto))))
  pure asset

abbrev pub asset_has_id : Uuid → FixedAsset → Bool
asset_has_id id a = a.id == id

abbrev pub schedule_has_id : Uuid → DepreciationSchedule → Bool
schedule_has_id id d = d.id == id

abbrev of_company : Uuid → Option FixedAsset → Bool
of_company company_id none = false
of_company company_id (some a) = a.company_id == company_id

-- The `where` of the search for what is due.
abbrev pub is_due : Uuid → Day → List FixedAsset → DepreciationSchedule → Bool
is_due company_id cutoff assets d =
    d.is_pending
    && leb d.period_date cutoff
    && of_company company_id (find (asset_has_id d.fixed_asset_id) assets)

-- The event of a schedule: its accounts are the asset's own.
abbrev pub depreciation_event :
    Uuid → Uuid → DepreciationSchedule → FixedAsset → Company → PostEventParams
depreciation_event user_id company_id d asset company = record {
  company_id = company_id;
  branch_id = none;
  event_type = "ASSET_DEPRECIATION_POSTED";
  entry_date = d.period_date;
  currency_code = company.base_currency_code;
  exchange_rate = none;
  source_module = "ASSETS";
  source_doc_type = "depreciation_schedule";
  source_doc_id = d.id;
  description = some (
      codes "Depreciation " ++ codes asset.asset_code ++ codes " period " ++ to_string d.period_no);
  amounts = ("amount", from_cents d.amount) ∷ [];
  account_overrides =
      ("depreciationExpenseAccount", asset.depreciation_expense_account_id)
      ∷ ("accumulatedDepreciationAccount", asset.accumulated_depreciation_account_id)
      ∷ [];
  dimensions = no_dimensions;
  created_by = some user_id;
}

abbrev pub mark_posted : Uuid → Day → DepreciationSchedule → DepreciationSchedule
mark_posted entry_id now d = record d {
  is_pending = false;
  journal_entry_id = some entry_id;
  posted_at = some now;
}

unfoldable pub update_schedule :
    Uuid → (DepreciationSchedule → DepreciationSchedule) → Tx Db DepreciationSchedule
update_schedule id change = do
  row ← gets (λ s. find (schedule_has_id id) s.depreciation_schedules)
  before ← or_throw row record_missing
  modify (λ s. record s {
    depreciation_schedules = modify_first (schedule_has_id id) change s.depreciation_schedules;
  })
  pure (change before)

-- One round of the loop over what is due.
unfoldable pub post_schedule : Uuid → Uuid → DepreciationSchedule → Tx Db DepreciationSchedule
post_schedule user_id company_id d = do
  asset_row ← gets (λ s. find (asset_has_id d.fixed_asset_id) s.fixed_assets)
  asset ← or_throw asset_row record_missing
  company_row ← gets (λ s. find (company_has_id company_id) s.companies)
  company ← or_throw company_row record_missing
  entry ← post_event (depreciation_event user_id company_id d asset company)
  now ← gets (λ s. s.now)
  update_schedule d.id (mark_posted entry.id now)

-- The loop.
unfoldable pub post_schedules :
    Uuid → Uuid → List DepreciationSchedule → Tx Db (List DepreciationSchedule)
post_schedules user_id company_id [] = pure []
post_schedules user_id company_id (d ∷ rest) = do
  updated ← post_schedule user_id company_id d
  posted ← post_schedules user_id company_id rest
  pure (updated ∷ posted)

-- `runDepreciation`
unfoldable pub run_depreciation : Uuid → Uuid → Day → Tx Db (List DepreciationSchedule)
run_depreciation user_id company_id cutoff = do
  pending ← gets (λ s.
      sort_by (λ d. d.period_date)
        (find_many (is_due company_id cutoff s.fixed_assets) s.depreciation_schedules))
  posted ← post_schedules user_id company_id pending
  throw_if (length posted == 0) nothing_due
  record_audit (record {
    company_id = some company_id;
    user_id = some user_id;
    action = AuditAction.post;
    entity_type = "depreciation_schedule";
    entity_id = none;
    old_value = none;
    new_value = some (AuditValue.posted_count (length posted) cutoff);
  })
  pure posted
