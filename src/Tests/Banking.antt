-- ===== src/Tests/Banking.antt =====
-- A line of 110.00 from a customer with one open invoice of 110.00.
use advanced_accountancy.Prelude.{◌≤◌, ◌≡◌, refl, none, some, [], ◌∷◌, All}
use advanced_accountancy.Prelude.Int.{pos, abs, ◌-ℤ◌}
use advanced_accountancy.Prelude.Text.{codes}
use advanced_accountancy.Schema.{
  SalesInvoice, BankStatementLine, line_suggested, customer_receipt, doc_posted, doc_eq, Db,
}
use advanced_accountancy.Banking.Matching.{
  first_word, starts_with, includes, name_mentioned_in, score_of, consider, best_of, receivables,
  suggest_receipt,
}
use advanced_accountancy.Banking.Matching.Choice.{worth, limit, IsChosen, best_of_highest}
use advanced_accountancy.Tests.Sales.{sales_db}

abbrev open_invoice : SalesInvoice
open_invoice = record {
  id = 101;
  company_id = 1;
  customer_id = 51;
  sales_order_id = none;
  invoice_number = codes "INV-000001";
  invoice_date = 738010;
  due_date = 738040;
  currency_code = "USD";
  subtotal = pos 10000;
  tax_amount = pos 1000;
  total = pos 11000;
  amount_paid = pos 0;
  status = doc_posted;
  journal_entry_id = none;
  posted_at = none;
  lines = [];
}

abbrev money_in : BankStatementLine
money_in = record {
  id = 402;
  bank_statement_id = 401;
  line_no = 1;
  transaction_date = 738015;
  description = codes "TRANSFER ACME LTD";
  amount = pos 11000;
  status = line_suggested;
  suggested_type = some customer_receipt;
  suggested_customer_id = some 51;
  suggested_supplier_id = none;
  suggested_invoice_id = some 101;
  confidence_score = some 100;
  matched_journal_entry_id = none;
  reconciled_at = none;
}

abbrev pub bank_db : Db
bank_db = record sales_db {
  customers = record { id = 51; name = codes "Acme Trading" } ∷ [];
  sales_invoices = open_invoice ∷ [];
  bank_statements =
      record { id = 401; company_id = 1; bank_account_id = 91; statement_date = 738020 } ∷ [];
  bank_statement_lines = money_in ∷ [];
}

match_runs : Unit {0}
unfolding first_word starts_with includes name_mentioned_in score_of consider best_of
    suggest_receipt doc_eq abs ◌-ℤ◌
match_runs = tt

suggested :
    suggest_receipt 1 money_in.description money_in.amount bank_db
    ≡ some (record {
      suggested_type = customer_receipt;
      suggested_customer_id = some 51;
      suggested_supplier_id = none;
      suggested_invoice_id = 101;
      confidence_score = 100;
    })
unfolding match_runs
suggested = refl

best_of_highest_example :
    let cs = receivables 1 bank_db in
    let r = best_of money_in.description money_in.amount none cs in
    All (λ c. worth money_in.description money_in.amount c ≤ limit r) cs
    × IsChosen money_in.description money_in.amount cs r
best_of_highest_example =
    best_of_highest money_in.description money_in.amount (receivables 1 bank_db)
