-- ===== src/Sales/Invoices/Posting.antt =====
-- Posting an invoice: the entry in the ledger, and the way an invoice goes.
use mathlib.Core.Path.{subst}
use advanced_accountancy.Prelude.{◌≡◌, refl, ap, ◌∙◌, some, true, find}
use advanced_accountancy.Prelude.Int.{◌+ℤ◌, int_laws}
use advanced_accountancy.Tx.{ok, ◌>>=◌}
use advanced_accountancy.Tx.Ends.{
  Ends, Ends→, Ends-intro, Ends-bind, Ends-gets, Ends-or_throw, Ends-throw_if,
}
use advanced_accountancy.Schema.{
  Uuid, Day, AuditLog, SalesInvoice, doc_approved, doc_eq, JournalEntry, PostingRule, Db,
  from_cents,
}
use advanced_accountancy.Schema.Rounding.{from_cents-add}
use advanced_accountancy.Audit.{record_audit}
use advanced_accountancy.Accounting.Engine.{is_rule, post_event}
use advanced_accountancy.Accounting.Engine.Frame.{post_event-Frame}
use advanced_accountancy.Accounting.Engine.Update.{true_of_not}
use advanced_accountancy.Accounting.Engine.Balance.{AreWhole, entry_debits, entry_credits}
use advanced_accountancy.Accounting.Provisioning.Balance.{
  TotalsAgree, FollowsStarter, starter_rule_exact,
}
use advanced_accountancy.Sales.Invoices.{
  invoice_has_id, update_invoice, invoice_amounts, invoice_event, mark_posted, post,
}

pub update_invoice-Ends :
    (id : Uuid) (change : SalesInvoice → SalesInvoice) (s : Db) (before : SalesInvoice)
    → find (invoice_has_id id) s.sales_invoices ≡ some before
    → Ends
        (λ i t. (i ≡ change before) × (t.journal_entries ≡ s.journal_entries))
        (update_invoice id change s)
unfolding update_invoice ◌>>=◌
update_invoice-Ends id change s before found = rw found (refl, refl)

-- What posting an invoice did.
pub record InvoicePosted (user_id id : Uuid) (s t : Db) (posted : SalesInvoice) : Type 0 where
  pub invoice : SalesInvoice
  pub found : find (invoice_has_id id) s.sales_invoices ≡ some invoice
  pub approved : doc_eq invoice.status doc_approved ≡ true
  pub entry : JournalEntry
  pub after : Db
  pub event : post_event (invoice_event user_id invoice) s ≡ ok (entry, after)
  pub marked : posted ≡ mark_posted entry.id s.now invoice
  pub journal : t.journal_entries ≡ after.journal_entries

record_audit_journal :
    (log : AuditLog) (s : Db)
    → Ends (λ x t. t.journal_entries ≡ s.journal_entries) (record_audit log s)
unfolding record_audit
record_audit_journal log s = refl

post-Ends :
    (user_id id : Uuid) (s : Db) → Ends (λ i t. InvoicePosted user_id id s t i) (post user_id id s)
unfolding post
post-Ends user_id id s = Ends-gets _ _ _ s (
    Ends-or_throw _ _ _ _ s λ invoice found. Ends-throw_if _ _ _ _ s λ approved.
      Ends-bind _ (λ e u. post_event (invoice_event user_id invoice) s ≡ ok (e, u)) _ _ s
        (Ends-intro _ _ (λ e u run. run))
        λ e u run. Ends-gets _ _ _ u (
          let same_rows : u.sales_invoices ≡ s.sales_invoices =
            (post_event-Frame {P = λ x. x.sales_invoices ≡ s.sales_invoices} (λ x q i j g h. h)
                (invoice_event user_id invoice)).at
              s refl e u run in
          let same_day : u.now ≡ s.now =
            (post_event-Frame {P = λ x. x.now ≡ s.now} (λ x q i j g h. h)
                (invoice_event user_id invoice)).at
              s refl e u run in
          Ends-bind _
            (λ i v. (i ≡ mark_posted e.id u.now invoice) × (v.journal_entries ≡ u.journal_entries))
            _ _ u
            (update_invoice-Ends id (mark_posted e.id u.now) u invoice
              (ap (find (invoice_has_id id)) same_rows ∙ found))
            λ i v marked.
              Ends-bind _ (λ x w. w.journal_entries ≡ v.journal_entries) _ _ v
                (record_audit_journal _ v)
                λ x w kept. record {
                  invoice = invoice;
                  found = found;
                  approved = true_of_not _ approved;
                  entry = e;
                  after = u;
                  event = run;
                  marked = marked.0 ∙ ap (λ (d : Day). mark_posted e.id d invoice) same_day;
                  journal = kept ∙ marked.1;
                }))

-- An invoice that posts was found approved, an event with its totals posted, and it is marked posted
-- with the day and the event's entry, the journal being as the event left it.
pub post-InvoicePosted :
    (user_id id : Uuid) (s t : Db) (posted : SalesInvoice)
    → post user_id id s ≡ ok (posted, t)
    → InvoicePosted user_id id s t posted
post-InvoicePosted user_id id s t posted e =
    Ends→ _ (post user_id id s) posted t e (post-Ends user_id id s)

invoice_amounts-AreWhole : (i : SalesInvoice) → AreWhole (invoice_amounts i)
invoice_amounts-AreWhole i = ((i.subtotal, refl), ((i.tax_amount, refl), ((i.total, refl), tt)))

pub invoice_amounts-TotalsAgree :
    (i : SalesInvoice) → i.total ≡ i.subtotal +ℤ i.tax_amount → TotalsAgree (invoice_amounts i)
invoice_amounts-TotalsAgree i h =
    (ap from_cents h ∙ from_cents-add i.subtotal i.tax_amount, omega int_laws)

-- An invoice whose total is its subtotal and its tax, and whose company has a starter rule for it,
-- posts, where it posts, an entry whose stored debits equal its stored credits.
pub invoice_exact :
    (user_id id : Uuid) (s t : Db) (posted invoice : SalesInvoice) (rule : PostingRule)
    → find (invoice_has_id id) s.sales_invoices ≡ some invoice
    → invoice.total ≡ invoice.subtotal +ℤ invoice.tax_amount
    → find (is_rule invoice.company_id "SALES_INVOICE_POSTED") s.posting_rules ≡ some rule
    → FollowsStarter rule
    → post user_id id s ≡ ok (posted, t)
    → (p : InvoicePosted user_id id s t posted) × (entry_debits p.entry ≡ entry_credits p.entry)
invoice_exact user_id id s t posted invoice rule found total rule_found f e =
    let p = post-InvoicePosted user_id id s t posted e in
    let same : invoice ≡ p.invoice = cc (found, p.found) in
    (
      p,
      starter_rule_exact (invoice_event user_id p.invoice) s p.after p.entry rule
          (invoice_amounts-AreWhole p.invoice)
          (subst (λ (i : SalesInvoice). TotalsAgree (invoice_amounts i)) same
            (invoice_amounts-TotalsAgree invoice total))
          (subst
            (λ (i : SalesInvoice).
              find (is_rule i.company_id "SALES_INVOICE_POSTED") s.posting_rules ≡ some rule)
            same rule_found)
          f p.event,
    )
