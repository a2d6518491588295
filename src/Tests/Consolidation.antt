-- ===== src/Tests/Consolidation.antt =====
-- A run over two companies that trade with each other, one of them the company of Tests/Reports.
use advanced_accountancy.Prelude.{◌↔◌, ◌≡◌, refl, some, List, [], ◌∷◌, sum_by}
use advanced_accountancy.Prelude.Int.{pos, neg, ◌+ℤ◌, ◌*ℤ◌}
use advanced_accountancy.Tx.{ok, ◌>>=◌}
use advanced_accountancy.Schema.{
  Company, IntercompanyTransaction, matched, match_eq, ConsolidationRun, Db,
}
use advanced_accountancy.Audit.{record_audit}
use advanced_accountancy.Tables.{create_row, update_row}
use advanced_accountancy.Accounting.Reports.{trial_balance}
use advanced_accountancy.Consolidation.Runs.{
  CreateConsolidationRunDto, RunWithLines, SummaryRow, new_run, newest_rate, resolve_rate,
  translate, elimination_total, write_lines, consolidate, create, finalize, add_line, add_lines,
  consolidated_summary,
}
use advanced_accountancy.Consolidation.Runs.Final.{MadeFinal, finalize_iff}
use advanced_accountancy.Consolidation.Runs.Summary.{Summarizes, consolidated_summary-Summarizes}
use advanced_accountancy.Consolidation.Runs.Elimination.{eliminations_twice}
use advanced_accountancy.Tests.Fixture.{committed}
use advanced_accountancy.Tests.Reports.{code_order, report_db, report_runs}

abbrev two_companies : List Company
two_companies =
    record { id = 1; business_group_id = some 9; base_currency_code = "USD" }
    ∷ record { id = 2; business_group_id = some 9; base_currency_code = "USD" }
    ∷ []

-- 50.00 between the two.
abbrev trade : IntercompanyTransaction
trade = record {
  id = 301;
  business_group_id = 9;
  company_a_id = 1;
  company_b_id = 2;
  company_a_entry_id = 101;
  company_b_entry_id = some 102;
  amount = pos 5000;
  currency_code = "USD";
  status = matched;
}

abbrev group_db : Db
group_db = record report_db {
  companies = two_companies;
  intercompany_transactions = trade ∷ [];
  exchange_rates =
      record {
        company_id = 1;
        from_currency = "USD";
        to_currency = "EUR";
        rate = pos 90000000;
        rate_date = 738000;
      }
      ∷ record {
        company_id = 2;
        from_currency = "USD";
        to_currency = "EUR";
        rate = pos 90000000;
        rate_date = 738000;
      }
      ∷ [];
}

abbrev august : CreateConsolidationRunDto
august = record {
  business_group_id = 9;
  period_label = "2021-08";
  presentation_currency = "EUR";
  as_of_date = 738040;
}

group_runs : Unit {0}
unfolding report_runs create finalize create_row update_row trial_balance newest_rate resolve_rate
    translate elimination_total write_lines consolidate match_eq record_audit add_line add_lines
    consolidated_summary ◌*ℤ◌ ◌>>=◌
group_runs = tt

abbrev begun : RunWithLines × Db
unfolding group_runs
begun =
    committed (create code_order 5 august group_db) (record { run = new_run august 0; lines = [] })
      group_db

abbrev closed : ConsolidationRun × Db
unfolding group_runs
closed = committed (finalize 5 begun.0.run.id begun.1) (new_run august 0) begun.1

finalize_runs : finalize 5 begun.0.run.id begun.1 ≡ ok closed
unfolding group_runs
finalize_runs = refl

finalize_iff_example :
    (finalize 5 begun.0.run.id begun.1 ≡ ok (closed.0, closed.1))
    ↔ MadeFinal 5 begun.0.run.id begun.1 closed.0 closed.1
finalize_iff_example = finalize_iff 5 begun.0.run.id begun.1 closed.1 closed.0

closed-MadeFinal : MadeFinal 5 begun.0.run.id begun.1 closed.0 closed.1
closed-MadeFinal = (finalize_iff 5 begun.0.run.id begun.1 closed.1 closed.0).0 finalize_runs

abbrev summary : List SummaryRow × Db
unfolding group_runs
summary = committed (consolidated_summary code_order begun.0.run.id begun.1) [] begun.1

summary_runs : consolidated_summary code_order begun.0.run.id begun.1 ≡ ok summary
unfolding group_runs
summary_runs = refl

consolidated_summary-Summarizes_example : Summarizes begun.1 begun.0.run.id summary.0 summary.1
consolidated_summary-Summarizes_example =
    consolidated_summary-Summarizes code_order begun.0.run.id begun.1 summary.1 summary.0
      summary_runs

eliminations_twice_example :
    sum_by (λ c. elimination_total c.id (trade ∷ [])) two_companies
    ≡ neg (pos 5000 +ℤ pos 0 +ℤ (pos 5000 +ℤ pos 0))
eliminations_twice_example = eliminations_twice two_companies (trade ∷ []) (refl, tt)
