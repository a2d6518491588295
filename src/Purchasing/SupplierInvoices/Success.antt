-- ===== src/Purchasing/SupplierInvoices/Success.antt =====
-- backend/src/purchasing/supplier-invoices.ts: an approved invoice posts.
use mathlib.Core.Path.{subst}
use advanced_accountancy.Prelude.{◌≡◌, refl, sym, ap, ◌∙◌, true, some, find, All, first, later}
use advanced_accountancy.Prelude.Int.{◌+ℤ◌}
use advanced_accountancy.Tx.{ok}
use advanced_accountancy.Tx.Commits.{
  Commits, Commits-bind, Commits-gets, Commits-or_throw, Commits-throw_if, false_of_not,
}
use advanced_accountancy.Schema.{
  Uuid, SupplierInvoice, AccountingPeriod, PostingRule, is_open, doc_approved, doc_eq, Db,
}
use advanced_accountancy.Tables.{find_row}
use advanced_accountancy.Tables.Success.{event-Commits, finish-Commits}
use advanced_accountancy.Accounting.Engine.{is_rule, covers}
use advanced_accountancy.Accounting.Engine.Balance.{entry_debits, entry_credits}
use advanced_accountancy.Accounting.Engine.Postable.{Postable}
use advanced_accountancy.Accounting.Provisioning.Balance.{
  FollowsStarter, starter_posting_rules-Balances, Balances,
}
use advanced_accountancy.Accounting.Provisioning.Resolve.{Resolves}
use advanced_accountancy.Accounting.Provisioning.Postable.{
  starter_lines, OverridesOwned, balanced_rule-Postable,
}
use advanced_accountancy.Purchasing.SupplierInvoices.{
  supplier_invoices, invoice_event, mark_posted, post,
}
use advanced_accountancy.Purchasing.SupplierInvoices.Posting.{
  InvoicePosted, supplier_invoice_exact, invoice_amounts-TotalsAgree,
}

post-Commits :
    (user_id id : Uuid) (s : Db) (invoice : SupplierInvoice)
    → find_row supplier_invoices id s ≡ some invoice
    → doc_eq invoice.status doc_approved ≡ true
    → Postable (invoice_event user_id invoice) s
    → Commits (post user_id id s)
unfolding post
post-Commits user_id id s invoice found approved postable =
    let (e, t, run, same) =
      event-Commits (λ x. x.supplier_invoices ≡ s.supplier_invoices) (invoice_event user_id invoice)
        s (λ x q i j g h. h) refl postable in
    Commits-gets _ _ s (
      Commits-or_throw _ _ _ s invoice found (
        Commits-throw_if _ _ _ s (false_of_not _ approved) (
          Commits-bind _ _ s e t run (
            Commits-gets _ _ t (
              finish-Commits supplier_invoices id (mark_posted e.id t.now) _ t invoice
                (ap (find _) same ∙ found))))))

-- An approved supplier invoice whose total is its subtotal and its tax, whose company's rule for
-- it is active, has the starter rule's lines and finds their accounts in the chart, and whose
-- date is covered by an open period, posts: the call commits, the invoice is marked posted with
-- the event's entry, the journal is as the event left it, and the entry's stored debits equal
-- its stored credits.
pub supplier_invoice_posts :
    (user_id id : Uuid) (s : Db) (invoice : SupplierInvoice) (rule : PostingRule)
    (period : AccountingPeriod)
    → find_row supplier_invoices id s ≡ some invoice
    → doc_eq invoice.status doc_approved ≡ true
    → invoice.total ≡ invoice.subtotal +ℤ invoice.tax_amount
    → find (is_rule invoice.company_id "PURCHASE_INVOICE_POSTED") s.posting_rules ≡ some rule
    → rule.is_active ≡ true
    → rule.lines ≡ starter_lines "PURCHASE_INVOICE_POSTED"
    → All (Resolves invoice.company_id s.chart_of_accounts) rule.lines
    → find (covers s.fiscal_years invoice.company_id invoice.invoice_date) s.accounting_periods
      ≡ some period
    → is_open period.status ≡ true
    → (posted : SupplierInvoice) × (t : Db) × (post user_id id s ≡ ok (posted, t))
      × ((p : InvoicePosted user_id id s t posted) × (entry_debits p.entry ≡ entry_credits p.entry))
supplier_invoice_posts user_id id s invoice rule period found approved total listed active lines
      resolve covered opened =
    let params = invoice_event user_id invoice in
    let balances =
      starter_posting_rules-Balances params.amounts (invoice_amounts-TotalsAgree invoice total) in
    let (posted, t, run) = post-Commits user_id id s invoice found approved (
      balanced_rule-Postable params s rule period listed active covered opened resolve
        (subst (All (OverridesOwned params s.chart_of_accounts)) (sym lines) (tt, (tt, (tt, tt))))
        (subst (Balances params.amounts) (sym lines) balances.1.0)) in
    let starter : FollowsStarter rule = record {
      template = record {
        event_type = "PURCHASE_INVOICE_POSTED";
        lines = starter_lines "PURCHASE_INVOICE_POSTED";
      };
      listed = later first;
      same = lines;
    } in
    (
      posted,
      t,
      run,
      supplier_invoice_exact user_id id s t posted invoice rule found total listed starter run,
    )
