-- ===== src/Tests/Fixture.antt =====
-- A small company: one year of one open period, three accounts, the rule of a sale.
use advanced_accountancy.Prelude.{String, true, none, some, [], ◌∷◌}
use advanced_accountancy.Prelude.Int.{pos}
use advanced_accountancy.Tx.{Result, ok, err}
use advanced_accountancy.Prelude.Int.{neg}
use advanced_accountancy.Schema.Doubles.{
  to_double, hundredfold, round_half_up, round_half_down, nearest, scale_for,
}
use advanced_accountancy.Schema.{
  round2, round2_of, AccountingPeriod, Uuid, ChartOfAccount, AccountType, asset, liability, income,
  PostingRule, debit, credit, open_period, no_dimensions, Db, empty_db,
}
use advanced_accountancy.Accounting.Engine.{PostEventParams}

abbrev pub control : Uuid → String → AccountType → String → ChartOfAccount
control id code account_type control_type = record {
  id = id;
  company_id = 1;
  account_code = code;
  name = control_type;
  account_type = account_type;
  control_type = some control_type;
  mis_category = none;
  currency_code = some "USD";
  is_active = true;
}

abbrev pub sale_rule : PostingRule
sale_rule = record {
  id = 31;
  company_id = 1;
  event_type = "SALES_INVOICE_POSTED";
  is_active = true;
  lines =
      record { line_no = 1; side = debit; account_resolver = "CONTROL:AR"; amount_source = "total" }
      ∷ record {
        line_no = 2;
        side = credit;
        account_resolver = "CONTROL:SALES_REVENUE";
        amount_source = "subtotal";
      }
      ∷ record {
        line_no = 3;
        side = credit;
        account_resolver = "CONTROL:TAX_OUTPUT";
        amount_source = "taxAmount";
      }
      ∷ [];
}

abbrev pub august : AccountingPeriod
august = record {
  id = 11;
  fiscal_year_id = 10;
  period_no = 8;
  start_date = 738003;
  end_date = 738033;
  status = open_period;
}

abbrev pub company_db : Db
company_db = record empty_db {
  companies = record { id = 1; business_group_id = some 9; base_currency_code = "USD" } ∷ [];
  chart_of_accounts =
      control 21 "1100" asset "AR"
      ∷ control 22 "4000" income "SALES_REVENUE"
      ∷ control 23 "2200" liability "TAX_OUTPUT"
      ∷ [];
  posting_rules = sale_rule ∷ [];
  fiscal_years =
      record { id = 10; company_id = 1; year = 2021; start_date = 737791; end_date = 738155 } ∷ [];
  accounting_periods = august ∷ [];
  next_id = 100;
  now = 738010;
}

-- 100.00 and 10.00 of tax.
abbrev pub sale : PostEventParams
sale = record {
  company_id = 1;
  branch_id = none;
  event_type = "SALES_INVOICE_POSTED";
  entry_date = 738010;
  currency_code = "USD";
  exchange_rate = none;
  source_module = "SALES";
  source_doc_type = "sales_invoice";
  source_doc_id = 77;
  description = none;
  amounts =
      ("subtotal", pos 10000000000)
      ∷ ("taxAmount", pos 1000000000)
      ∷ ("total", pos 11000000000)
      ∷ [];
  account_overrides = [];
  dimensions = record no_dimensions { customer_id = some 51 };
  created_by = some 5;
}

-- The value and state of a transaction that commits.
abbrev pub committed {ℓ} : {S A : Type ℓ} → Result (A × S) → A → S → A × S
committed (ok r) a s = r
committed (err _) a s = (a, s)

-- The definitions that a rounding unfolds.
unfoldable pub rounding_runs : Unit {0}
unfolding round2 round2_of to_double hundredfold round_half_up round_half_down nearest scale_for neg
rounding_runs = tt
