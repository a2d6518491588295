-- ===== src/Tests/Sales.antt =====
-- The theorems on fiscal years, tax, sales and receipts at the company of Fixture.
use advanced_accountancy.Prelude.{true, ◌≡◌, refl, ◌≤◌, ◌+◌, ◌⊎◌, none, some, [], ◌∷◌, arith, first}
use advanced_accountancy.Prelude.Int.{pos, negsuc, pos_part, neg_part, ◌+ℤ◌, ◌*ℤ◌}
use advanced_accountancy.Tx.{ok}
use advanced_accountancy.Schema.{
  TaxRate, FiscalYear, SalesInvoice, CustomerReceipt, Db, asset, debit, credit, doc_eq, round2,
  from_cents, PostingRule,
}
use advanced_accountancy.Audit.{record_audit}
use advanced_accountancy.Accounting.FiscalPeriods.{create_fiscal_year}
use advanced_accountancy.Accounting.FiscalPeriods.Tiling.{
  YearCreated, create_fiscal_year-YearCreated,
}
use advanced_accountancy.Accounting.TaxRates.{
  in_effect, latest_rate, current_tax_rate_percent, InEffect, Untaxed,
  current_tax_rate_percent-Searched,
}
use advanced_accountancy.Accounting.Engine.Balance.{entry_debits, entry_credits}
use advanced_accountancy.Accounting.Calendar.{get_utc_full_year, get_utc_full_year_2021}
use advanced_accountancy.Accounting.Provisioning.{provision}
use advanced_accountancy.Accounting.Provisioning.Resolve.{AllResolve, provision-AllResolve}
use advanced_accountancy.Accounting.Provisioning.Balance.{
  TotalsAgree, FollowsStarter, starter_rule_exact,
}
use advanced_accountancy.Sales.Pricing.{line_total_of, tax_of, stored_price, price_lines}
use advanced_accountancy.Sales.Invoices.{
  CreateSalesInvoiceDto, new_invoice, create_invoice, update_invoice, create, transition, submit,
  approve, post,
}
use advanced_accountancy.Sales.Invoices.Totals.{Totalled, create-Totalled}
use advanced_accountancy.Schema.Closeness.{round2_nearest}
use advanced_accountancy.Sales.Invoices.Posting.{InvoicePosted}
use advanced_accountancy.Sales.Invoices.Success.{invoice_posts}
use advanced_accountancy.Sales.Histories.{
  SalesHistory, start, then_step, created, submitted, approved, posted, InvoicesTotalled,
  SalesHistory-Totalled,
}
use advanced_accountancy.Sales.Receipts
use advanced_accountancy.Sales.Receipts.{
  CreateCustomerReceiptDto, create_receipt, update_receipt, pay_invoices, new_receipt,
}
use advanced_accountancy.Sales.Receipts.Paid.{ReceiptPosted}
use advanced_accountancy.Sales.Receipts.Success.{receipt_posts}
use advanced_accountancy.Tests.Fixture.{
  rounding_runs, company_db, august, sale, sale_rule, control, committed,
}
use advanced_accountancy.Tests.Accounting.{engine_runs, sale-AreWhole, post_event_runs, after_sale}

abbrev receipt_rule : PostingRule
receipt_rule = record {
  id = 32;
  company_id = 1;
  event_type = "CUSTOMER_RECEIPT_POSTED";
  is_active = true;
  lines =
      record {
        line_no = 1;
        side = debit;
        account_resolver = "OVERRIDE:bankAccount";
        amount_source = "amount";
      }
      ∷ record {
        line_no = 2;
        side = credit;
        account_resolver = "CONTROL:AR";
        amount_source = "amount";
      }
      ∷ [];
}

-- 10 percent since day 737791.
abbrev ten_percent : TaxRate
ten_percent = record {
  tax_code_id = 41;
  rate_percent = pos 100000;
  effective_from = 737791;
  effective_to = none;
}

abbrev pub sales_db : Db
sales_db = record company_db {
  chart_of_accounts = control 24 "1900" asset "BANK" ∷ company_db.chart_of_accounts;
  posting_rules = sale_rule ∷ receipt_rule ∷ [];
  tax_rates = ten_percent ∷ [];
  bank_accounts =
      record { id = 91; company_id = 1; currency_code = "USD"; gl_account_id = 24 } ∷ [];
}

-- 2 at 50.00, taxed.
abbrev pub order : CreateSalesInvoiceDto
order = record {
  company_id = 1;
  customer_id = 51;
  sales_order_id = none;
  invoice_date = 738010;
  due_date = 738040;
  currency_code = "USD";
  lines =
      record {
        product_id = 71;
        description = none;
        quantity = pos 20000;
        unit_price = pos 500000;
        tax_code_id = some 41;
      }
      ∷ [];
}

unfoldable pub sales_runs : Unit {0}
unfolding engine_runs create submit approve post transition create_invoice update_invoice
    price_lines line_total_of tax_of stored_price current_tax_rate_percent latest_rate in_effect
    rounding_runs doc_eq record_audit ◌*ℤ◌ from_cents Receipts.create Receipts.post create_receipt
    update_receipt pay_invoices
sales_runs = tt

abbrev blank_invoice : SalesInvoice
blank_invoice = new_invoice order (record { subtotal = pos 0; tax_amount = pos 0; lines = [] }) [] 0

abbrev pub invoiced : SalesInvoice × Db
unfolding sales_runs
invoiced = committed (create 5 order sales_db) blank_invoice sales_db

create_runs : create 5 order sales_db ≡ ok invoiced
unfolding sales_runs
create_runs = refl

create-Totalled_example : Totalled order invoiced.0
create-Totalled_example = create-Totalled 5 order sales_db invoiced.1 invoiced.0 create_runs

abbrev after_submit : SalesInvoice × Db
unfolding sales_runs
after_submit = committed (submit 5 101 invoiced.1) blank_invoice sales_db

abbrev after_approve : SalesInvoice × Db
unfolding sales_runs
after_approve = committed (approve 6 101 after_submit.1) blank_invoice sales_db

abbrev after_post : SalesInvoice × Db
unfolding sales_runs
after_post = committed (post 6 101 after_approve.1) blank_invoice sales_db

invoice_runs : post 6 101 after_approve.1 ≡ ok after_post
unfolding sales_runs
invoice_runs = refl

sale_rule-FollowsStarter : FollowsStarter sale_rule
sale_rule-FollowsStarter = record {
  template = record { event_type = "SALES_INVOICE_POSTED"; lines = sale_rule.lines };
  listed = first;
  same = refl;
}

invoice_posts_example :
    (posted : SalesInvoice) × (t : Db) × (post 6 101 after_approve.1 ≡ ok (posted, t))
    × ((p : InvoicePosted 6 101 after_approve.1 t posted) × (entry_debits p.entry
          ≡ entry_credits p.entry))
unfolding sales_runs
invoice_posts_example =
    invoice_posts 6 101 after_approve.1 after_approve.0 sale_rule august refl refl refl refl refl
      refl (refl, (refl, (refl, tt))) refl refl

sale-TotalsAgree : TotalsAgree sale.amounts
unfolding ◌+ℤ◌
sale-TotalsAgree = (refl, refl)

starter_rule_exact_example : entry_debits after_sale.0 ≡ entry_credits after_sale.0
starter_rule_exact_example =
    starter_rule_exact sale company_db after_sale.1 after_sale.0 sale_rule sale-AreWhole
      sale-TotalsAgree refl sale_rule-FollowsStarter post_event_runs

-- 60.00 of the invoice.
abbrev pub payment : CreateCustomerReceiptDto
payment = record {
  company_id = 1;
  customer_id = 51;
  bank_account_id = 91;
  receipt_date = 738012;
  allocations = record { sales_invoice_id = 101; amount = pos 6000000000 } ∷ [];
}

abbrev blank_receipt : CustomerReceipt
blank_receipt = new_receipt (record payment { allocations = [] }) [] 0

abbrev received_payment : CustomerReceipt × Db
unfolding sales_runs
received_payment = committed (Receipts.create 5 payment after_post.1) blank_receipt sales_db

abbrev after_receipt : CustomerReceipt × Db
unfolding sales_runs
after_receipt =
    committed (Receipts.post 5 received_payment.0.id received_payment.1) blank_receipt sales_db

receipt_runs : Receipts.post 5 received_payment.0.id received_payment.1 ≡ ok after_receipt
unfolding sales_runs
receipt_runs = refl

receipt_posts_example :
    (r : CustomerReceipt) × (t : Db) × (Receipts.post 5 105 received_payment.1 ≡ ok (r, t))
    × ((d : ReceiptPosted 5 105 received_payment.1 t) × (entry_debits d.entry
          ≡ entry_credits d.entry))
unfolding sales_runs
receipt_posts_example =
    receipt_posts 5 105 received_payment.1 received_payment.0
      (record { id = 91; company_id = 1; currency_code = "USD"; gl_account_id = 24 }) receipt_rule
      august refl refl refl refl ((_, refl), tt) refl refl refl (refl, (refl, tt)) refl refl

round2_nearest_example :
    let f = from_cents (round2 (pos 1234500000)) in
    (pos_part (pos 1234500000) + neg_part f ≤ pos_part f + neg_part (pos 1234500000) + 510000)
    × (pos_part f + neg_part (pos 1234500000) ≤ pos_part (pos 1234500000) + neg_part f + 510000)
round2_nearest_example = round2_nearest (pos 1234500000) (omega arith)

-- The double of 1.005 is below it, that of 0.505 times 100 is 50.5.
round2_below : round2 (pos 100500000) ≡ pos 100
unfolding rounding_runs
round2_below = refl

round2_half : round2 (pos 50500000) ≡ pos 51
unfolding rounding_runs
round2_half = refl

-- -0.505: the half of -50.5 goes up.
round2_half_negative : round2 (negsuc 50499999) ≡ negsuc 49
unfolding rounding_runs
round2_half_negative = refl

create_fiscal_year-YearCreated_example :
    (fy : FiscalYear) × (t : Db) × (create_fiscal_year 1 2024 company_db ≡ ok (fy, t))
    × YearCreated 1 2024 fy company_db t
create_fiscal_year-YearCreated_example =
    create_fiscal_year-YearCreated 1 2024 company_db (omega arith)

current_tax_rate_percent-Searched_example :
    ((r : TaxRate) × InEffect 41 738010 r sales_db.tax_rates
      × (current_tax_rate_percent (some 41) 738010 sales_db ≡ ok (r.rate_percent, sales_db)))
    ⊎ (Untaxed 41 738010 sales_db.tax_rates
        × (current_tax_rate_percent (some 41) 738010 sales_db ≡ ok (pos 0, sales_db)))
current_tax_rate_percent-Searched_example = current_tax_rate_percent-Searched 41 738010 sales_db

provision-AllResolve_example :
    (t : Db) × (provision 2 "USD" company_db ≡ ok (tt, t))
    × AllResolve 2 t.chart_of_accounts
    × ((fy : FiscalYear) × (u : Db) × YearCreated 2 (get_utc_full_year 738010) fy u t)
provision-AllResolve_example =
    provision-AllResolve 2 "USD" company_db (rw get_utc_full_year_2021 (omega arith)) refl refl

submit_runs : submit 5 101 invoiced.1 ≡ ok after_submit
unfolding sales_runs
submit_runs = refl

approve_runs : approve 6 101 after_submit.1 ≡ ok after_approve
unfolding sales_runs
approve_runs = refl

sales_history : SalesHistory sales_db after_post.1
sales_history =
    then_step
      (then_step
        (then_step (then_step start (created 5 order invoiced.0 create_runs))
          (submitted 5 101 after_submit.0 submit_runs))
        (approved 6 101 after_approve.0 approve_runs))
      (posted 6 101 after_post.0 invoice_runs)

SalesHistory-Totalled_example : InvoicesTotalled after_post.1
SalesHistory-Totalled_example = SalesHistory-Totalled sales_history tt
