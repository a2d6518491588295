-- ===== src/Purchasing/SupplierInvoices/Posting.antt =====
-- backend/src/purchasing/supplier-invoices.ts: posting an invoice, and its entry in the ledger.
use mathlib.Core.Path.{subst}
use advanced_accountancy.Prelude.{◌≡◌, refl, ap, ◌∙◌, some, true, find}
use advanced_accountancy.Prelude.Int.{◌+ℤ◌, int_laws}
use advanced_accountancy.Tx.{ok}
use advanced_accountancy.Tx.Ends.{
  Ends, Ends→, Ends-bind, Ends-gets, Ends-or_throw, Ends-throw_if, Ends-map,
}
use advanced_accountancy.Schema.{
  Uuid, SupplierInvoice, doc_approved, doc_eq, JournalEntry, PostingRule, Db, from_cents,
}
use advanced_accountancy.Schema.Rounding.{from_cents-add}
use advanced_accountancy.Tables.{find_row}
use advanced_accountancy.Tables.Finish.{event-Ends, finish-Ends}
use advanced_accountancy.Accounting.Engine.{is_rule, post_event}
use advanced_accountancy.Accounting.Engine.Update.{true_of_not}
use advanced_accountancy.Accounting.Engine.Balance.{AreWhole, entry_debits, entry_credits}
use advanced_accountancy.Accounting.Provisioning.Balance.{
  TotalsAgree, FollowsStarter, starter_rule_exact,
}
use advanced_accountancy.Purchasing.SupplierInvoices.{
  supplier_invoices, invoice_amounts, invoice_event, mark_posted, post,
}

-- What posting an invoice did.
pub record InvoicePosted (user_id id : Uuid) (s t : Db) (posted : SupplierInvoice) : Type 0 where
  pub invoice : SupplierInvoice
  pub found : find_row supplier_invoices id s ≡ some invoice
  pub approved : doc_eq invoice.status doc_approved ≡ true
  pub entry : JournalEntry
  pub after : Db
  pub event : post_event (invoice_event user_id invoice) s ≡ ok (entry, after)
  pub marked : posted ≡ mark_posted entry.id after.now invoice
  pub journal : t.journal_entries ≡ after.journal_entries

post-Ends :
    (user_id id : Uuid) (s : Db) → Ends (λ i t. InvoicePosted user_id id s t i) (post user_id id s)
unfolding post
post-Ends user_id id s = Ends-gets _ _ _ s (
    Ends-or_throw _ _ _ _ s λ invoice found. Ends-throw_if _ _ _ _ s λ approved.
      Ends-bind _
        (λ e u.
          (post_event (invoice_event user_id invoice) s ≡ ok (e, u))
          × (u.supplier_invoices ≡ s.supplier_invoices))
        _ _ s
        (event-Ends (λ x. x.supplier_invoices ≡ s.supplier_invoices) (invoice_event user_id invoice)
          s (λ x q i j g h. h) refl)
        λ e u ran. Ends-gets _ _ _ u (
          Ends-map (λ i t. InvoicePosted user_id id s t i) _ _
            (finish-Ends supplier_invoices id (mark_posted e.id u.now) _ u invoice
              (ap (find _) ran.1 ∙ found))
            λ i t done. record {
              invoice = invoice;
              found = found;
              approved = true_of_not _ approved;
              entry = e;
              after = u;
              event = ran.0;
              marked = done.value;
              journal = done.journal;
            }))

pub post-InvoicePosted :
    (user_id id : Uuid) (s t : Db) (posted : SupplierInvoice)
    → post user_id id s ≡ ok (posted, t)
    → InvoicePosted user_id id s t posted
post-InvoicePosted user_id id s t posted e =
    Ends→ _ (post user_id id s) posted t e (post-Ends user_id id s)

invoice_amounts-AreWhole : (i : SupplierInvoice) → AreWhole (invoice_amounts i)
invoice_amounts-AreWhole i = ((i.subtotal, refl), ((i.tax_amount, refl), ((i.total, refl), tt)))

pub invoice_amounts-TotalsAgree :
    (i : SupplierInvoice) → i.total ≡ i.subtotal +ℤ i.tax_amount → TotalsAgree (invoice_amounts i)
invoice_amounts-TotalsAgree i h =
    (ap from_cents h ∙ from_cents-add i.subtotal i.tax_amount, omega int_laws)

-- A supplier invoice whose total is its subtotal and its tax, whose company has a starter rule
-- for it, and which posts, was found approved and posts an entry whose stored debits equal its
-- stored credits; it is marked posted with that entry, and the journal is as the event left it.
pub supplier_invoice_exact :
    (user_id id : Uuid) (s t : Db) (posted invoice : SupplierInvoice) (rule : PostingRule)
    → find_row supplier_invoices id s ≡ some invoice
    → invoice.total ≡ invoice.subtotal +ℤ invoice.tax_amount
    → find (is_rule invoice.company_id "PURCHASE_INVOICE_POSTED") s.posting_rules ≡ some rule
    → FollowsStarter rule
    → post user_id id s ≡ ok (posted, t)
    → (p : InvoicePosted user_id id s t posted) × (entry_debits p.entry ≡ entry_credits p.entry)
supplier_invoice_exact user_id id s t posted invoice rule found total rule_found f e =
    let p = post-InvoicePosted user_id id s t posted e in
    let same : invoice ≡ p.invoice = cc (found, p.found) in
    (
      p,
      starter_rule_exact (invoice_event user_id p.invoice) s p.after p.entry rule
          (invoice_amounts-AreWhole p.invoice)
          (subst (λ (i : SupplierInvoice). TotalsAgree (invoice_amounts i)) same
            (invoice_amounts-TotalsAgree invoice total))
          (subst
            (λ (i : SupplierInvoice).
              find (is_rule i.company_id "PURCHASE_INVOICE_POSTED") s.posting_rules ≡ some rule)
            same rule_found)
          f p.event,
    )
