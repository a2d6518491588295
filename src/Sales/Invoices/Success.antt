-- ===== src/Sales/Invoices/Success.antt =====
-- backend/src/sales/sales-invoices.ts: when an invoice posts.
use mathlib.Core.Path.{subst}
use advanced_accountancy.Prelude.{◌≡◌, refl, sym, ap, ◌∙◌, ◌↔◌, true, some, find, All, first}
use advanced_accountancy.Prelude.Int.{◌+ℤ◌}
use advanced_accountancy.Tx.{ok}
use advanced_accountancy.Tx.Commits.{
  Commits, Commits-bind, Commits-gets, Commits-or_throw, Commits-throw_if, Commits-modify,
  false_of_not,
}
use advanced_accountancy.Schema.{
  Uuid, SalesInvoice, AccountingPeriod, PostingRule, is_open, doc_approved, doc_eq, Db,
}
use advanced_accountancy.Accounting.Engine.{is_rule, covers}
use advanced_accountancy.Accounting.Engine.Balance.{entry_debits, entry_credits}
use advanced_accountancy.Accounting.Engine.Postable.{Postable, post_event-Postable}
use advanced_accountancy.Accounting.Provisioning.Balance.{
  FollowsStarter, starter_posting_rules-Balances, Balances,
}
use advanced_accountancy.Accounting.Provisioning.Resolve.{Resolves}
use advanced_accountancy.Accounting.Provisioning.Postable.{
  starter_lines, OverridesOwned, balanced_rule-Postable,
}
use advanced_accountancy.Tables.Success.{event-Commits, audit-Commits}
use advanced_accountancy.Sales.Invoices.{
  invoice_has_id, update_invoice, invoice_event, mark_posted, post,
}
use advanced_accountancy.Sales.Invoices.Posting.{
  InvoicePosted, post-InvoicePosted, invoice_exact, invoice_amounts-TotalsAgree,
}

update_invoice-Commits :
    (id : Uuid) (change : SalesInvoice → SalesInvoice) (s : Db) (before : SalesInvoice)
    → find (invoice_has_id id) s.sales_invoices ≡ some before
    → Commits (update_invoice id change s)
unfolding update_invoice
update_invoice-Commits id change s before found =
    Commits-gets _ _ s (Commits-or_throw _ _ _ s before found (Commits-modify _ _ s (_, _, refl)))

-- What an invoice needs to post.
pub record CanPost (user_id id : Uuid) (s : Db) : Type 0 where
  pub invoice : SalesInvoice
  pub found : find (invoice_has_id id) s.sales_invoices ≡ some invoice
  pub approved : doc_eq invoice.status doc_approved ≡ true
  pub postable : Postable (invoice_event user_id invoice) s

post-Commits : (user_id id : Uuid) (s : Db) → CanPost user_id id s → Commits (post user_id id s)
unfolding post
post-Commits user_id id s c =
    let (e, t, run, same_rows) =
      event-Commits (λ x. x.sales_invoices ≡ s.sales_invoices) (invoice_event user_id c.invoice) s
        (λ x q i j g h. h) refl c.postable in
    let (i, u, updated) =
      update_invoice-Commits id (mark_posted e.id t.now) t c.invoice
        (ap (find (invoice_has_id id)) same_rows ∙ c.found) in
    Commits-gets _ _ s (
      Commits-or_throw _ _ _ s c.invoice c.found (
        Commits-throw_if _ _ _ s (false_of_not _ c.approved) (
          Commits-bind _ _ s e t run
            (Commits-gets _ _ t (Commits-bind _ _ t i u updated (audit-Commits _ i u))))))

post-CanPost : (user_id id : Uuid) (s : Db) → Commits (post user_id id s) → CanPost user_id id s
post-CanPost user_id id s (posted, t, run) =
    let p = post-InvoicePosted user_id id s t posted run in
    record {
      invoice = p.invoice;
      found = p.found;
      approved = p.approved;
      postable =
          post_event-Postable (invoice_event user_id p.invoice) s (p.entry, p.after, p.event);
    }

-- An invoice posts exactly where
pub post_iff : (user_id id : Uuid) (s : Db) → Commits (post user_id id s) ↔ CanPost user_id id s
post_iff user_id id s = (post-CanPost user_id id s, post-Commits user_id id s)

-- An approved invoice whose total is its subtotal and its tax, whose company's rule for it is
-- active, has the starter rule's lines and finds their accounts in the chart, and whose date is
-- covered by an open period, posts: the call commits, the invoice is marked posted with the
-- event's entry, and the entry's stored debits equal its stored credits.
pub invoice_posts :
    (user_id id : Uuid) (s : Db) (invoice : SalesInvoice) (rule : PostingRule)
    (period : AccountingPeriod)
    → find (invoice_has_id id) s.sales_invoices ≡ some invoice
    → doc_eq invoice.status doc_approved ≡ true
    → invoice.total ≡ invoice.subtotal +ℤ invoice.tax_amount
    → find (is_rule invoice.company_id "SALES_INVOICE_POSTED") s.posting_rules ≡ some rule
    → rule.is_active ≡ true
    → rule.lines ≡ starter_lines "SALES_INVOICE_POSTED"
    → All (Resolves invoice.company_id s.chart_of_accounts) rule.lines
    → find (covers s.fiscal_years invoice.company_id invoice.invoice_date) s.accounting_periods
      ≡ some period
    → is_open period.status ≡ true
    → (posted : SalesInvoice) × (t : Db) × (post user_id id s ≡ ok (posted, t))
      × ((p : InvoicePosted user_id id s t posted) × (entry_debits p.entry ≡ entry_credits p.entry))
invoice_posts user_id id s invoice rule period found approved total listed active lines resolve
      covered opened =
    let params = invoice_event user_id invoice in
    let balances =
      starter_posting_rules-Balances params.amounts (invoice_amounts-TotalsAgree invoice total) in
    let postable : Postable params s =
      balanced_rule-Postable params s rule period listed active covered opened resolve
        (subst (All (OverridesOwned params s.chart_of_accounts)) (sym lines) (tt, (tt, (tt, tt))))
        (subst (Balances params.amounts) (sym lines) balances.0) in
    let (posted, t, run) =
      post-Commits user_id id s
        (record { invoice = invoice; found = found; approved = approved; postable = postable }) in
    let starter : FollowsStarter rule = record {
      template = record {
        event_type = "SALES_INVOICE_POSTED";
        lines = starter_lines "SALES_INVOICE_POSTED";
      };
      listed = first;
      same = lines;
    } in
    (
      posted,
      t,
      run,
      invoice_exact user_id id s t posted invoice rule found total listed starter run,
    )
