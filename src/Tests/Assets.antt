-- ===== src/Tests/Assets.antt =====
-- The schedule of a laptop, and its first month.
use advanced_accountancy.Prelude.{ℕ, ◌≡◌, refl, arith, true, none, List, [], ◌∷◌, find_many}
use advanced_accountancy.Tx.{ok}
use advanced_accountancy.Tests.Fixture.{rounding_runs, company_db, committed}
use advanced_accountancy.Tests.Accounting.{engine_runs}
use advanced_accountancy.Assets.Runs.{run_depreciation_clears}
use advanced_accountancy.Prelude.Int.{pos, ◌+ℤ◌, ◌-ℤ◌, ◌*ℤ◌}
use advanced_accountancy.Schema.{
  Uuid, Day, PostingRule, debit, credit, DepreciationSchedule, Db, from_cents,
}
use advanced_accountancy.Audit.{record_audit}
use advanced_accountancy.Assets.{
  CreateFixedAssetDto, depreciable_amount, round2_quotient, new_asset, is_due, run_depreciation,
  post_schedules, post_schedule, update_schedule,
}

-- 1000.00 over 3 months.
abbrev laptop : CreateFixedAssetDto
laptop = record {
  company_id = 1;
  asset_code = "LAP-1";
  name = "Laptop";
  acquisition_date = 738010;
  acquisition_cost = pos 100000000000;
  useful_life_months = 3;
  residual_value = pos 0;
  asset_account_id = 21;
  depreciation_expense_account_id = 22;
  accumulated_depreciation_account_id = 23;
}

monthly_amount : round2_quotient (depreciable_amount laptop) 3 ≡ pos 33333
unfolding round2_quotient rounding_runs ◌+ℤ◌ ◌-ℤ◌ ◌*ℤ◌
monthly_amount = refl

abbrev depreciation_rule : PostingRule
depreciation_rule = record {
  id = 32;
  company_id = 1;
  event_type = "ASSET_DEPRECIATION_POSTED";
  is_active = true;
  lines =
      record {
        line_no = 1;
        side = debit;
        account_resolver = "OVERRIDE:depreciationExpenseAccount";
        amount_source = "amount";
      }
      ∷ record {
        line_no = 2;
        side = credit;
        account_resolver = "OVERRIDE:accumulatedDepreciationAccount";
        amount_source = "amount";
      }
      ∷ [];
}

abbrev month : Uuid → ℕ → Day → DepreciationSchedule
month id n day = record {
  id = id;
  fixed_asset_id = 61;
  period_no = n;
  period_date = day;
  amount = pos 33333;
  is_pending = true;
  journal_entry_id = none;
  posted_at = none;
}

-- A laptop whose second month is not due yet.
abbrev asset_db : Db
asset_db = record company_db {
  posting_rules = depreciation_rule ∷ [];
  fixed_assets = new_asset laptop 61 ∷ [];
  depreciation_schedules = month 62 1 738030 ∷ month 63 2 738061 ∷ [];
}

abbrev after_run : List DepreciationSchedule × Db
unfolding engine_runs run_depreciation post_schedules post_schedule update_schedule from_cents
    record_audit
after_run = committed (run_depreciation 5 1 738040 asset_db) [] asset_db

run_depreciation_runs : run_depreciation 5 1 738040 asset_db ≡ ok after_run
unfolding engine_runs run_depreciation post_schedules post_schedule update_schedule from_cents
    record_audit
run_depreciation_runs = refl

run_depreciation_clears_example :
    find_many (is_due 1 738040 after_run.1.fixed_assets) after_run.1.depreciation_schedules ≡ []
run_depreciation_clears_example =
    run_depreciation_clears 5 1 738040 asset_db after_run.1 after_run.0
      (((λ e. ground arith), tt), (tt, tt)) run_depreciation_runs
