-- ===== src/Sales/Histories.antt =====
-- Every invoice keeps the total that it was created with, whatever happens to it.
use advanced_accountancy.Prelude.{
  ◌≡◌, sym, Bool, List, [], ◌∷◌, find, modify_first, All, All-append, Bool-cases, Option-cases, inl,
  inr,
}
use mathlib.Core.Path.{subst}
use advanced_accountancy.Prelude.Int.{◌+ℤ◌}
use advanced_accountancy.Prelude.{Option, none, some}
use advanced_accountancy.Schema.{CreditNote, Cents}
use advanced_accountancy.Tx.{ok, ◌>>=◌}
use advanced_accountancy.Tx.Keeps.{
  Keeps, Keeps-by, Keeps-pure, Keeps-bind, Keeps-modify, keeps_rules,
}
use advanced_accountancy.Schema.{
  Uuid, SalesInvoice, CustomerReceipt, ReceiptAllocation, DocStatus, doc_draft, doc_submitted,
  doc_approved, AuditLog, Db,
}
use advanced_accountancy.Audit.{record_audit, record_audit-Keeps}
use advanced_accountancy.Accounting.Numbering.Sequence.{next-Keeps}
use advanced_accountancy.Accounting.Engine.Frame.{post_event-Frame}
use advanced_accountancy.Accounting.Engine.{PostEventParams, post_event}
use advanced_accountancy.Accounting.Numbering.{next}
use advanced_accountancy.Prelude.{String}
use advanced_accountancy.Prelude.Text.{Text}
use advanced_accountancy.Sales.Pricing.Sums.{price_lines-Keeps}
use advanced_accountancy.Sales.Invoices.{
  CreateSalesInvoiceDto, invoice_has_id, create_invoice, update_invoice, create, transition, submit,
  approve, post,
}
use advanced_accountancy.Tables.{update_row-All, update_row-Keeps}
use advanced_accountancy.Sales.CreditNotes
use advanced_accountancy.Sales.CreditNotes.{sales_invoices, credit_notes, note_event, settle}
use advanced_accountancy.Sales.Receipts
use advanced_accountancy.Sales.Receipts.{
  pay, pay_invoices, receipt_has_id, receipt_event, update_receipt,
}

-- The total is the subtotal and the tax.
abbrev pub HasTotal : SalesInvoice → Type 0
HasTotal i = i.total ≡ i.subtotal +ℤ i.tax_amount

abbrev pub InvoicesTotalled : Db → Type 0
InvoicesTotalled s = All HasTotal s.sales_invoices

All-modify_first :
    (p : SalesInvoice → Bool) (change : SalesInvoice → SalesInvoice) (rows : List SalesInvoice)
    → ((i : SalesInvoice) → HasTotal i → HasTotal (change i))
    → All HasTotal rows
    → All HasTotal (modify_first p change rows)
All-modify_first p change [] k h = tt
All-modify_first p change (i ∷ rows) k h = elim (Bool-cases (p i)) [
  | inl this ↦ rw this (k i h.0, h.1)
  | inr other ↦ rw other (h.0, All-modify_first p change rows k h.1)
]

update_invoice-Keeps :
    (id : Uuid) (change : SalesInvoice → SalesInvoice)
    → ((i : SalesInvoice) → HasTotal i → HasTotal (change i))
    → Keeps InvoicesTotalled (update_invoice id change)
unfolding update_invoice ◌>>=◌
update_invoice-Keeps id change k = Keeps-by λ s h.
    elim (Option-cases (find (invoice_has_id id) s.sales_invoices)) [
      | inl missing ↦ rw missing tt
      | inr (before, found) ↦
          rw found (All-modify_first (invoice_has_id id) change s.sales_invoices k h)
    ]

create_invoice-Keeps :
    (make : Uuid → SalesInvoice)
    → ((id : Uuid) → HasTotal (make id))
    → Keeps InvoicesTotalled (create_invoice make)
unfolding create_invoice ◌>>=◌
create_invoice-Keeps make k =
    Keeps-by λ s h. All-append HasTotal s.sales_invoices (make s.next_id ∷ []) h (k s.next_id, tt)

audit-Keeps : (log : AuditLog) → Keeps InvoicesTotalled (record_audit log)
audit-Keeps log = record_audit-Keeps log (λ s l h. h)

event-Keeps : (params : PostEventParams) → Keeps InvoicesTotalled (post_event params)
event-Keeps params = post_event-Frame (λ s q i j g h. h) params

number-Keeps : (c : Uuid) (d : String) (prefix : Text) → Keeps InvoicesTotalled (next c d prefix)
number-Keeps c d prefix = next-Keeps c d prefix (λ s q i h. h)

ruleset totalled_rules = (keeps_rules, audit-Keeps, event-Keeps, number-Keeps, update_invoice-Keeps)

create-Keeps :
    (user : Uuid) (dto : CreateSalesInvoiceDto) → Keeps InvoicesTotalled (create user dto)
unfolding create
create-Keeps user dto = search (totalled_rules, price_lines-Keeps, create_invoice-Keeps) depth 20

transition-Keeps :
    (user id : Uuid) (from to : DocStatus) → Keeps InvoicesTotalled (transition user id from to)
unfolding transition
transition-Keeps user id from to = search totalled_rules depth 20

post-Keeps : (user id : Uuid) → Keeps InvoicesTotalled (post user id)
unfolding post
post-Keeps user id = search totalled_rules depth 20

pay_invoices-Keeps : (ls : List ReceiptAllocation) → Keeps InvoicesTotalled (pay_invoices ls)
unfolding pay_invoices
pay_invoices-Keeps [] = Keeps-pure tt
pay_invoices-Keeps (a ∷ ls) =
    Keeps-bind _ _ (update_invoice-Keeps a.sales_invoice_id (pay a.amount) (λ i h. h))
      λ paid. pay_invoices-Keeps ls

update_receipt-Keeps :
    (id : Uuid) (change : CustomerReceipt → CustomerReceipt)
    → Keeps InvoicesTotalled (update_receipt id change)
unfolding update_receipt
update_receipt-Keeps id change = search (keeps_rules, Keeps-modify) depth 20

receipt-Keeps : (user id : Uuid) → Keeps InvoicesTotalled (Receipts.post user id)
unfolding Receipts.post
receipt-Keeps user id = search (totalled_rules, pay_invoices-Keeps, update_receipt-Keeps) depth 28

settle-Keeps : (o : Option Uuid) (amount : Cents) → Keeps InvoicesTotalled (settle o amount)
unfolding settle
settle-Keeps none amount = Keeps-pure tt
settle-Keeps (some id) amount =
    Keeps-bind _ _ (update_row-All sales_invoices HasTotal id (pay amount) (λ i h. h))
      λ paid. Keeps-pure tt

note-Keeps : (user id : Uuid) → Keeps InvoicesTotalled (CreditNotes.post user id)
unfolding CreditNotes.post
note-Keeps user id = search (totalled_rules, settle-Keeps, update_row-Keeps) depth 28

-- One committed transaction.
pub data SalesStep (s t : Db) : Type 0 where
  created :
      (user : Uuid) (dto : CreateSalesInvoiceDto) (i : SalesInvoice)
      → create user dto s ≡ ok (i, t)
      → SalesStep s t
  submitted : (user id : Uuid) (i : SalesInvoice) → submit user id s ≡ ok (i, t) → SalesStep s t
  approved : (user id : Uuid) (i : SalesInvoice) → approve user id s ≡ ok (i, t) → SalesStep s t
  posted : (user id : Uuid) (i : SalesInvoice) → post user id s ≡ ok (i, t) → SalesStep s t
  received :
      (user id : Uuid) (r : CustomerReceipt) → Receipts.post user id s ≡ ok (r, t) → SalesStep s t
  credited :
      (user id : Uuid) (n : CreditNote) → CreditNotes.post user id s ≡ ok (n, t) → SalesStep s t
  elsewhere : t.sales_invoices ≡ s.sales_invoices → SalesStep s t

pub data SalesHistory (s : Db) : Db → Type 0 where
  start : SalesHistory s s
  then_step : {t u : Db} → SalesHistory s t → SalesStep t u → SalesHistory s u

SalesStep-Totalled : (s t : Db) → SalesStep s t → InvoicesTotalled s → InvoicesTotalled t
unfolding submit approve
SalesStep-Totalled s t (created user dto i run) h = (create-Keeps user dto).at s h i t run
SalesStep-Totalled s t (submitted user id i run) h =
    (transition-Keeps user id doc_draft doc_submitted).at s h i t run
SalesStep-Totalled s t (approved user id i run) h =
    (transition-Keeps user id doc_submitted doc_approved).at s h i t run
SalesStep-Totalled s t (posted user id i run) h = (post-Keeps user id).at s h i t run
SalesStep-Totalled s t (received user id r run) h = (receipt-Keeps user id).at s h r t run
SalesStep-Totalled s t (credited user id n run) h = (note-Keeps user id).at s h n t run
SalesStep-Totalled s t (elsewhere same) h = subst (All HasTotal) (sym same) h

-- After any history of committed steps on invoices, receipts and credit notes that begins with every invoice's total
-- being its subtotal and its tax, every invoice's total is its subtotal and its tax.
pub SalesHistory-Totalled : {s t : Db} → SalesHistory s t → InvoicesTotalled s → InvoicesTotalled t
SalesHistory-Totalled start h = h
SalesHistory-Totalled (then_step {t} {u} past step) h =
    SalesStep-Totalled t u step (SalesHistory-Totalled past h)
