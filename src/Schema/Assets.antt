-- ===== src/Schema/Assets.antt =====
-- Models FixedAsset and DepreciationSchedule.
use advanced_accountancy.Prelude.{ℕ, String, Bool, Option}
use advanced_accountancy.Schema.Units.{Uuid, Day, Cents}

pub record FixedAsset : Type 0 where
  pub id : Uuid
  pub company_id : Uuid
  pub asset_code : String
  pub name : String
  pub acquisition_date : Day
  pub acquisition_cost : Cents
  pub useful_life_months : ℕ
  pub residual_value : Cents
  pub asset_account_id : Uuid
  pub depreciation_expense_account_id : Uuid
  pub accumulated_depreciation_account_id : Uuid

pub record DepreciationSchedule : Type 0 where
  pub id : Uuid
  pub fixed_asset_id : Uuid
  pub period_no : ℕ
  pub period_date : Day
  pub amount : Cents
  pub is_pending : Bool  -- status: pending, or else posted
  pub journal_entry_id : Option Uuid
  pub posted_at : Option Day
