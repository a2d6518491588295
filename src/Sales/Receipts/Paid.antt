-- ===== src/Sales/Receipts/Paid.antt =====
-- What a receipt pays.
use advanced_accountancy.Prelude.{
  ◌≡◌, refl, ap, ◌∙◌, some, true, false, List, [], ◌∷◌, ◌==◌, arith, find, modify_first,
  find-modify_first, sum_by, if◌then◌else◌, Bool-cases, Option-cases, inl, inr,
}
use advanced_accountancy.Prelude.Int.{pos, ◌+ℤ◌, int_laws}
use advanced_accountancy.Tx.{ok, ◌>>=◌}
use advanced_accountancy.Tx.Ends.{
  Ends, Ends→, Ends-bind, Ends-gets, Ends-or_throw, Ends-throw_if, Ends-map,
}
use advanced_accountancy.Schema.{
  Uuid, Cents, SalesInvoice, ReceiptAllocation, CustomerReceipt, BankAccount, JournalEntry,
  AuditLog, doc_eq, doc_draft, Db,
}
use advanced_accountancy.Audit.{record_audit}
use advanced_accountancy.Accounting.Engine.{post_event}
use advanced_accountancy.Tables.Finish.{event-Ends}
use advanced_accountancy.Accounting.Engine.Update.{true_of_not}
use advanced_accountancy.Sales.Invoices.{invoice_has_id, update_invoice}
use advanced_accountancy.Sales.Receipts.{
  pay, pay_invoices, receipt_has_id, bank_has_id, receipt_event, update_receipt, mark_posted, post,
}

-- What an allocation gives an invoice.
abbrev pub share : Uuid → ReceiptAllocation → Cents
share id a = if a.sales_invoice_id == id then a.amount else pos 0

-- Every invoice has been paid an amount, and is otherwise as it was.
abbrev pub Paid : (Uuid → Cents) → Db → Db → Type 0
Paid amount s t =
    (id : Uuid) (i : SalesInvoice)
    → find (invoice_has_id id) s.sales_invoices ≡ some i
    → find (invoice_has_id id) t.sales_invoices ≡ some (pay (amount id) i)

pay_zero : (i : SalesInvoice) → i ≡ pay (pos 0) i
pay_zero i = ap (λ (x : Cents). record i { amount_paid = x }) (omega int_laws)

pay_add : (a b : Cents) (i : SalesInvoice) → pay b (pay a i) ≡ pay (a +ℤ b) i
pay_add a b i = ap (λ (x : Cents). record i { amount_paid = x }) (omega int_laws)

find-pay_other :
    (id other : Uuid) (amount : Cents) (rows : List SalesInvoice)
    → (other == id) ≡ false
    → find (invoice_has_id id) (modify_first (invoice_has_id other) (pay amount) rows)
      ≡ find (invoice_has_id id) rows
find-pay_other id other amount [] h = refl
find-pay_other id other amount (r ∷ rows) h = ground (arith, find-pay_other id other amount rows)

pub find-pay :
    (a : ReceiptAllocation) (rows : List SalesInvoice) (id : Uuid) (i : SalesInvoice)
    → find (invoice_has_id id) rows ≡ some i
    → find
        (invoice_has_id id)
        (modify_first (invoice_has_id a.sales_invoice_id) (pay a.amount) rows)
      ≡ some (pay (share id a) i)
find-pay a rows id i h = elim (Bool-cases (a.sales_invoice_id == id)) [
  | inl same ↦
      let e : a.sales_invoice_id ≡ id = ground arith in
      rw same (rw e (find-modify_first (invoice_has_id id) (pay a.amount) rows (λ x. refl) h))
  | inr other ↦
      rw other (find-pay_other id a.sales_invoice_id a.amount rows other ∙ h ∙ ap some (pay_zero i))
]

-- One payment.
pay-Paid :
    (a : ReceiptAllocation) (s : Db)
    → Ends
        (λ i t. Paid (λ id. share id a) s t × (t.journal_entries ≡ s.journal_entries))
        (update_invoice a.sales_invoice_id (pay a.amount) s)
unfolding update_invoice ◌>>=◌
pay-Paid a s = elim (Option-cases (find (invoice_has_id a.sales_invoice_id) s.sales_invoices)) [
  | inl missing ↦ rw missing tt
  | inr (before, found) ↦ rw found ((λ id i h. find-pay a s.sales_invoices id i h), refl)
]

pay_invoices-Paid :
    (ls : List ReceiptAllocation) (s : Db)
    → Ends
        (λ x t. Paid (λ id. sum_by (share id) ls) s t × (t.journal_entries ≡ s.journal_entries))
        (pay_invoices ls s)
unfolding pay_invoices
pay_invoices-Paid [] s = ((λ id i h. h ∙ ap some (pay_zero i)), refl)
pay_invoices-Paid (a ∷ ls) s =
    Ends-bind _ (λ i t. Paid (λ id. share id a) s t × (t.journal_entries ≡ s.journal_entries)) _ _ s
      (pay-Paid a s)
      λ i t one.
        Ends-map
          (λ x u.
            Paid (λ id. sum_by (share id) (a ∷ ls)) s u × (u.journal_entries ≡ s.journal_entries))
          (λ x u. Paid (λ id. sum_by (share id) ls) t u × (u.journal_entries ≡ t.journal_entries))
          (pay_invoices ls t) (pay_invoices-Paid ls t)
          λ x u rest. (
            (λ id j h.
                rest.0 id (pay (share id a) j) (one.0 id j h)
                ∙ ap some (pay_add (share id a) (sum_by (share id) ls) j)),
            rest.1 ∙ one.1,
          )

-- The invoices and the journal are as they were.
abbrev Still : Db → Db → Type 0
Still s t = (t.sales_invoices ≡ s.sales_invoices) × (t.journal_entries ≡ s.journal_entries)

update_receipt-Ends :
    (id : Uuid) (change : CustomerReceipt → CustomerReceipt) (s : Db)
    → Ends (λ r t. Still s t) (update_receipt id change s)
unfolding update_receipt ◌>>=◌
update_receipt-Ends id change s =
    elim (Option-cases (find (receipt_has_id id) s.customer_receipts)) [
      | inl missing ↦ rw missing tt
      | inr (before, found) ↦ rw found (refl, refl)
    ]

record_audit-Ends : (log : AuditLog) (s : Db) → Ends (λ x t. Still s t) (record_audit log s)
unfolding record_audit
record_audit-Ends log s = (refl, refl)

-- What posting a receipt did: an event of its amount, and the payment of the invoices.
pub record ReceiptPosted (user_id id : Uuid) (s t : Db) : Type 0 where
  pub receipt : CustomerReceipt
  pub found : find (receipt_has_id id) s.customer_receipts ≡ some receipt
  pub draft : doc_eq receipt.status doc_draft ≡ true
  pub bank_account : BankAccount
  pub bank_found : find (bank_has_id receipt.bank_account_id) s.bank_accounts ≡ some bank_account
  pub entry : JournalEntry
  pub after : Db
  pub event : post_event (receipt_event user_id receipt bank_account) s ≡ ok (entry, after)
  pub journal : t.journal_entries ≡ after.journal_entries
  pub paid : Paid (λ i. sum_by (share i) receipt.allocations) s t

post-Ends :
    (user_id id : Uuid) (s : Db) → Ends (λ r t. ReceiptPosted user_id id s t) (post user_id id s)
unfolding post
post-Ends user_id id s = Ends-gets _ _ _ s (
    Ends-or_throw _ _ _ _ s λ receipt found. Ends-throw_if _ _ _ _ s λ draft. Ends-gets _ _ _ s (
      Ends-or_throw _ _ _ _ s λ bank bank_found.
        let params = receipt_event user_id receipt bank in
        Ends-bind _
          (λ e u. (post_event params s ≡ ok (e, u)) × (u.sales_invoices ≡ s.sales_invoices)) _ _ s
          (event-Ends (λ x. x.sales_invoices ≡ s.sales_invoices) params s (λ x q i j g h. h) refl)
          λ e u ran.
            Ends-bind _
              (λ x v.
                Paid (λ i. sum_by (share i) receipt.allocations) u v
                × (v.journal_entries ≡ u.journal_entries))
              _ _ u (pay_invoices-Paid receipt.allocations u)
              λ x v paid. Ends-gets _ _ _ v (
                Ends-bind _ (λ r w. Still v w) _ _ v
                  (update_receipt-Ends id (mark_posted e.id v.now) v)
                  λ r w kept.
                    Ends-bind _ (λ y z. Still w z) _ _ w (record_audit-Ends _ w)
                      λ y z logged. record {
                        receipt = receipt;
                        found = found;
                        draft = true_of_not _ draft;
                        bank_account = bank;
                        bank_found = bank_found;
                        entry = e;
                        after = u;
                        event = ran.0;
                        journal = logged.1 ∙ kept.1 ∙ paid.1;
                        paid = λ i j h.
                            ap (find (invoice_has_id i)) (logged.0 ∙ kept.0)
                            ∙ paid.0 i j (ap (find (invoice_has_id i)) ran.1 ∙ h);
                      })))

pub post-ReceiptPosted :
    (user_id id : Uuid) (s t : Db) (r : CustomerReceipt)
    → post user_id id s ≡ ok (r, t)
    → ReceiptPosted user_id id s t
post-ReceiptPosted user_id id s t r e = Ends→ _ (post user_id id s) r t e (post-Ends user_id id s)
