-- ===== src/Tests/Operations.antt =====
-- The theorems on deliveries, stock counts and payroll runs at the company of Fixture.
use advanced_accountancy.Prelude.{◌≡◌, refl, true, none, some, [], ◌∷◌}
use advanced_accountancy.Prelude.Int.{pos}
use advanced_accountancy.Tx.{ok}
use advanced_accountancy.Schema.{
  Delivery, StockCount, PayrollRun, Db, asset, expense, liability, debit, credit, doc_eq,
  from_cents,
}
use advanced_accountancy.Audit.{record_audit}
use advanced_accountancy.Accounting.Engine.Balance.{entry_debits, entry_credits}
use advanced_accountancy.Accounting.Provisioning.{StarterPostingRule, rule_row}
use advanced_accountancy.Inventory.{record_stock_in}
use advanced_accountancy.Inventory.StockCounts
use advanced_accountancy.Inventory.StockCounts.{
  CreateStockCountDto, new_count, count_lines, add_variance, adjust_lines, post_variance,
  update_count,
}
use advanced_accountancy.Inventory.StockCounts.Posting.{CountPosted, post-CountPosted}
use advanced_accountancy.Sales.Deliveries
use advanced_accountancy.Sales.Deliveries.{
  CreateDeliveryDto, new_delivery, draw_lines, update_delivery,
}
use advanced_accountancy.Payroll
use advanced_accountancy.Payroll.{
  CreatePayrollRunDto, latest_structure, pay_employees, no_totals, new_run, create_run, update_run,
}
use advanced_accountancy.Payroll.Runs.{RunTotalled, create-RunTotalled, RunPosted}
use advanced_accountancy.Payroll.Success.{run_posts}
use advanced_accountancy.Tests.Fixture.{company_db, august, control, committed}
use advanced_accountancy.Tests.Accounting.{engine_runs}
use advanced_accountancy.Tests.Inventory.{stock_runs, shelf}

abbrev pub delivery_rule : StarterPostingRule
delivery_rule = record {
  event_type = "DELIVERY_POSTED";
  lines =
      record {
        line_no = 1;
        side = debit;
        account_resolver = "CONTROL:COGS";
        amount_source = "cost";
      }
      ∷ record {
        line_no = 2;
        side = credit;
        account_resolver = "CONTROL:INVENTORY";
        amount_source = "cost";
      }
      ∷ [];
}

abbrev payroll_rule : StarterPostingRule
payroll_rule = record {
  event_type = "PAYROLL_RUN_POSTED";
  lines =
      record {
        line_no = 1;
        side = debit;
        account_resolver = "CONTROL:SALARY_EXPENSE";
        amount_source = "totalGross";
      }
      ∷ record {
        line_no = 2;
        side = credit;
        account_resolver = "CONTROL:SALARY_PAYABLE";
        amount_source = "totalNet";
      }
      ∷ record {
        line_no = 3;
        side = credit;
        account_resolver = "CONTROL:STATUTORY_PAYABLE";
        amount_source = "totalDeductions";
      }
      ∷ [];
}

abbrev count_rule : StarterPostingRule
count_rule = record {
  event_type = "INVENTORY_ADJUSTMENT_POSTED";
  lines =
      record {
        line_no = 1;
        side = debit;
        account_resolver = "CONTROL:INVENTORY";
        amount_source = "increaseAmount";
      }
      ∷ record {
        line_no = 2;
        side = credit;
        account_resolver = "CONTROL:COGS";
        amount_source = "increaseAmount";
      }
      ∷ record {
        line_no = 3;
        side = debit;
        account_resolver = "CONTROL:COGS";
        amount_source = "decreaseAmount";
      }
      ∷ record {
        line_no = 4;
        side = credit;
        account_resolver = "CONTROL:INVENTORY";
        amount_source = "decreaseAmount";
      }
      ∷ [];
}

abbrev operations_db : Db
operations_db = record company_db {
  chart_of_accounts =
      control 25 "5000" expense "COGS"
      ∷ control 26 "1200" asset "INVENTORY"
      ∷ control 27 "6000" expense "SALARY_EXPENSE"
      ∷ control 28 "2300" liability "SALARY_PAYABLE"
      ∷ control 29 "2400" liability "STATUTORY_PAYABLE"
      ∷ [];
  posting_rules =
      rule_row 1 delivery_rule 33 ∷ rule_row 1 count_rule 34 ∷ rule_row 1 payroll_rule 35 ∷ [];
  employees = record { id = 95; company_id = 1; is_active = true } ∷ [];
  salary_structures =
      record {
        employee_id = 95;
        effective_from = 737791;
        basic_salary = pos 300000;
        allowances = pos 20000;
        deductions = pos 45000;
      }
      ∷ [];
}

unfoldable pub operations_run : Unit {0}
unfolding engine_runs stock_runs doc_eq record_audit from_cents Deliveries.create Deliveries.post
    draw_lines update_delivery StockCounts.create StockCounts.post count_lines add_variance
    adjust_lines post_variance update_count Payroll.create Payroll.approve Payroll.post
    latest_structure pay_employees create_run update_run
operations_run = tt

abbrev stocked : Db
unfolding operations_run
stocked =
    (committed (record_stock_in shelf (pos 100000) (pos 25000) operations_db)
      (record { numerator = pos 0; denominator = 1 }) operations_db).1

-- 4 of the 10 on the shelf.
abbrev dispatch : CreateDeliveryDto
dispatch = record {
  company_id = 1;
  sales_order_id = none;
  warehouse_id = 61;
  delivery_date = 738011;
  lines = record { product_id = 71; quantity = pos 40000 } ∷ [];
}

abbrev blank_delivery : Delivery
blank_delivery = new_delivery dispatch [] 0

abbrev pub dispatched : Delivery × Db
unfolding operations_run
dispatched = committed (Deliveries.create 5 dispatch stocked) blank_delivery stocked

abbrev after_delivery : Delivery × Db
unfolding operations_run
after_delivery = committed (Deliveries.post 5 101 dispatched.1) blank_delivery stocked

delivery_runs : Deliveries.post 5 101 dispatched.1 ≡ ok after_delivery
unfolding operations_run
delivery_runs = refl

-- 9 counted of the 10.
abbrev counting : CreateStockCountDto
counting = record {
  company_id = 1;
  warehouse_id = 61;
  count_date = 738012;
  lines = record { product_id = 71; counted_quantity = pos 90000 } ∷ [];
}

abbrev blank_count : StockCount
blank_count = new_count counting [] [] 0

abbrev counted : StockCount × Db
unfolding operations_run
counted = committed (StockCounts.create 5 counting stocked) blank_count stocked

abbrev after_count : StockCount × Db
unfolding operations_run
after_count = committed (StockCounts.post 5 101 counted.1) blank_count stocked

count_runs : StockCounts.post 5 101 counted.1 ≡ ok after_count
unfolding operations_run
count_runs = refl

post-CountPosted_example : CountPosted 5 101 counted.1 after_count.1
post-CountPosted_example = post-CountPosted 5 101 counted.1 after_count.1 after_count.0 count_runs

abbrev month : CreatePayrollRunDto
month = record { company_id = 1; period_start = 738003; period_end = 738033; employee_ids = none }

abbrev blank_run : PayrollRun
blank_run = new_run month [] no_totals 0

abbrev drafted : PayrollRun × Db
unfolding operations_run
drafted = committed (Payroll.create 5 month operations_db) blank_run operations_db

create_runs : Payroll.create 5 month operations_db ≡ ok drafted
unfolding operations_run
create_runs = refl

create-RunTotalled_example : RunTotalled drafted.0
create-RunTotalled_example =
    create-RunTotalled 5 month operations_db drafted.1 drafted.0 create_runs

abbrev approved_run : PayrollRun × Db
unfolding operations_run
approved_run = committed (Payroll.approve 6 101 drafted.1) blank_run operations_db

abbrev after_run : PayrollRun × Db
unfolding operations_run
after_run = committed (Payroll.post 6 101 approved_run.1) blank_run operations_db

post_runs : Payroll.post 6 101 approved_run.1 ≡ ok after_run
unfolding operations_run
post_runs = refl

run_posts_example :
    (posted : PayrollRun) × (t : Db) × (Payroll.post 6 101 approved_run.1 ≡ ok (posted, t))
    × ((p : RunPosted 6 101 approved_run.1 t posted) × (entry_debits p.entry
          ≡ entry_credits p.entry))
unfolding operations_run
run_posts_example =
    run_posts 6 101 approved_run.1 approved_run.0
      (record { id = 1; business_group_id = some 9; base_currency_code = "USD" })
      (rule_row 1 payroll_rule 35) august refl refl refl refl refl refl refl
      (refl, (refl, (refl, tt))) refl refl
