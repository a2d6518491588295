-- ===== src/Tests/Courses.antt =====
-- A course at the company of Fixture: an invoice, its receipt, two requests that are refused, and the
-- approval of a bank match.
use advanced_accountancy.Prelude.{◌≡◌, refl, some, length}
use advanced_accountancy.Schema.{Db, is_suggested}
use advanced_accountancy.Tables.{update_row}
use advanced_accountancy.Accounting.JournalEntries
use advanced_accountancy.Accounting.Engine.Ledger.{Reconciled}
use advanced_accountancy.Accounting.JournalEntries.Lifecycle.{Preserves}
use advanced_accountancy.Banking.Approvals.{read_line, book, reconcile, approve_line, approve_match}
use advanced_accountancy.Operations.Calls.{
  after, create_sales_invoice, submit_sales_invoice, approve_sales_invoice, post_sales_invoice,
  create_receipt, post_receipt, reverse_entry, approve_bank_match,
}
use advanced_accountancy.Operations.Courses.{
  Course, begin, request, Course-Reconciled, Course-Preserves,
}
use advanced_accountancy.Tests.Sales.{sales_db, sales_runs, order, payment}
use advanced_accountancy.Tests.Banking.{bank_db}

abbrev invoiced : Db
invoiced = after (post_sales_invoice 6 101) (
    after (approve_sales_invoice 6 101)
      (after (submit_sales_invoice 5 101) (after (create_sales_invoice 5 order) sales_db)))

-- The second posting of the invoice and the reversal of an entry that is not there are refused.
abbrev paid : Db
paid = after (post_receipt 5 105) (
    after (create_receipt 5 payment)
      (after (reverse_entry 6 999 (some 738020)) (after (post_sales_invoice 6 101) invoiced)))

course : Course sales_db paid
course =
    request
      (request
        (request
          (request
            (request
              (request
                (request (request begin (create_sales_invoice 5 order))
                  (submit_sales_invoice 5 101))
                (approve_sales_invoice 6 101))
              (post_sales_invoice 6 101))
            (post_sales_invoice 6 101))
          (reverse_entry 6 999 (some 738020)))
        (create_receipt 5 payment))
      (post_receipt 5 105)

-- One entry of the invoice and one of the receipt.
entries_of_course : length paid.journal_entries ≡ 2
unfolding sales_runs after JournalEntries.reverse
entries_of_course = refl

sales_db-Reconciled : Reconciled sales_db
sales_db-Reconciled w = record { debits = refl; credits = refl }

Course-Reconciled_example : Reconciled paid
Course-Reconciled_example = Course-Reconciled course sales_db-Reconciled

Course-Preserves_example : Preserves sales_db.journal_entries paid.journal_entries
Course-Preserves_example = Course-Preserves course

-- The receipt that an approval creates and posts.
entries_of_match : length (after (approve_bank_match 5 402) bank_db).journal_entries ≡ 1
unfolding sales_runs after approve_match read_line approve_line book reconcile is_suggested
    update_row
entries_of_match = refl
