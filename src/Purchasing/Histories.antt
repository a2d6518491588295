-- ===== src/Purchasing/Histories.antt =====
-- backend/src/purchasing: the sequences of the operations on supplier invoices.
use mathlib.Core.Path.{subst}
use advanced_accountancy.Prelude.{◌≡◌, refl, sym, Option, none, some, List, [], ◌∷◌, All}
use advanced_accountancy.Prelude.Int.{◌+ℤ◌}
use advanced_accountancy.Tx.{ok}
use advanced_accountancy.Tx.Keeps.{Keeps, Keeps-pure, Keeps-bind, keeps_rules}
use advanced_accountancy.Accounting.Engine.{PostEventParams, post_event}
use advanced_accountancy.Accounting.Numbering.{next}
use advanced_accountancy.Prelude.{String}
use advanced_accountancy.Prelude.Text.{Text}
use advanced_accountancy.Schema.{
  Uuid, SupplierInvoice, SupplierPayment, DebitNote, PaymentAllocation, Cents, DocStatus, doc_draft,
  doc_submitted, doc_approved, AuditLog, Db,
}
use advanced_accountancy.Tables.{
  create_row, update_row, update_row-All, update_row-Keeps, create_row-All,
}
use advanced_accountancy.Audit.{record_audit, record_audit-Keeps}
use advanced_accountancy.Accounting.Numbering.Sequence.{next-Keeps}
use advanced_accountancy.Accounting.Engine.Frame.{post_event-Frame}
use advanced_accountancy.Sales.Pricing.Sums.{price_lines-Keeps}
use advanced_accountancy.Purchasing.SupplierInvoices.{
  CreateSupplierInvoiceDto, supplier_invoices, pay, create, transition, submit, approve, post,
}
use advanced_accountancy.Purchasing.SupplierPayments
use advanced_accountancy.Purchasing.SupplierPayments.{
  supplier_payments, payment_event, pay_invoices,
}
use advanced_accountancy.Purchasing.DebitNotes
use advanced_accountancy.Purchasing.DebitNotes.{debit_notes, note_event, settle}

-- The total is the subtotal and the tax.
abbrev pub HasTotal : SupplierInvoice → Type 0
HasTotal i = i.total ≡ i.subtotal +ℤ i.tax_amount

abbrev pub InvoicesTotalled : Db → Type 0
InvoicesTotalled s = All HasTotal s.supplier_invoices

audit-Keeps : (log : AuditLog) → Keeps InvoicesTotalled (record_audit log)
audit-Keeps log = record_audit-Keeps log (λ s l h. h)

event-Keeps : (params : PostEventParams) → Keeps InvoicesTotalled (post_event params)
event-Keeps params = post_event-Frame (λ s q i j g h. h) params

number-Keeps : (c : Uuid) (d : String) (prefix : Text) → Keeps InvoicesTotalled (next c d prefix)
number-Keeps c d prefix = next-Keeps c d prefix (λ s q i h. h)

-- A change that leaves the total, the subtotal and the tax.
change-Keeps :
    (id : Uuid) (change : SupplierInvoice → SupplierInvoice)
    → ((i : SupplierInvoice) → HasTotal i → HasTotal (change i))
    → Keeps InvoicesTotalled (update_row supplier_invoices id change)
change-Keeps id change k = update_row-All supplier_invoices HasTotal id change k

new-Keeps :
    (make : Uuid → SupplierInvoice)
    → ((id : Uuid) → HasTotal (make id))
    → Keeps InvoicesTotalled (create_row supplier_invoices make)
new-Keeps make k = create_row-All supplier_invoices HasTotal make k (λ s i. refl)

ruleset totalled_rules = (keeps_rules, audit-Keeps, event-Keeps, number-Keeps, change-Keeps)

create-Keeps :
    (user : Uuid) (dto : CreateSupplierInvoiceDto) → Keeps InvoicesTotalled (create user dto)
unfolding create
create-Keeps user dto = search (totalled_rules, price_lines-Keeps, new-Keeps) depth 20

transition-Keeps :
    (user id : Uuid) (from to : DocStatus) → Keeps InvoicesTotalled (transition user id from to)
unfolding transition
transition-Keeps user id from to = search totalled_rules depth 20

post-Keeps : (user id : Uuid) → Keeps InvoicesTotalled (post user id)
unfolding post
post-Keeps user id = search totalled_rules depth 20

pay_invoices-Keeps : (ls : List PaymentAllocation) → Keeps InvoicesTotalled (pay_invoices ls)
unfolding pay_invoices
pay_invoices-Keeps [] = Keeps-pure tt
pay_invoices-Keeps (a ∷ ls) =
    Keeps-bind _ _ (change-Keeps a.supplier_invoice_id (pay a.amount) (λ i h. h))
      λ paid. pay_invoices-Keeps ls

payment-Keeps : (user id : Uuid) → Keeps InvoicesTotalled (SupplierPayments.post user id)
unfolding SupplierPayments.post
payment-Keeps user id = search (totalled_rules, pay_invoices-Keeps, update_row-Keeps) depth 28

settle-Keeps : (o : Option Uuid) (amount : Cents) → Keeps InvoicesTotalled (settle o amount)
unfolding settle
settle-Keeps none amount = Keeps-pure tt
settle-Keeps (some id) amount =
    Keeps-bind _ _ (change-Keeps id (pay amount) (λ i h. h)) λ paid. Keeps-pure tt

note-Keeps : (user id : Uuid) → Keeps InvoicesTotalled (DebitNotes.post user id)
unfolding DebitNotes.post
note-Keeps user id = search (totalled_rules, settle-Keeps, update_row-Keeps) depth 28

-- One committed transaction.
pub data PurchaseStep (s t : Db) : Type 0 where
  created :
      (user : Uuid) (dto : CreateSupplierInvoiceDto) (i : SupplierInvoice)
      → create user dto s ≡ ok (i, t)
      → PurchaseStep s t
  submitted :
      (user id : Uuid) (i : SupplierInvoice) → submit user id s ≡ ok (i, t) → PurchaseStep s t
  approved :
      (user id : Uuid) (i : SupplierInvoice) → approve user id s ≡ ok (i, t) → PurchaseStep s t
  posted : (user id : Uuid) (i : SupplierInvoice) → post user id s ≡ ok (i, t) → PurchaseStep s t
  paid :
      (user id : Uuid) (p : SupplierPayment)
      → SupplierPayments.post user id s ≡ ok (p, t)
      → PurchaseStep s t
  debited :
      (user id : Uuid) (n : DebitNote) → DebitNotes.post user id s ≡ ok (n, t) → PurchaseStep s t
  elsewhere : t.supplier_invoices ≡ s.supplier_invoices → PurchaseStep s t

pub data PurchaseHistory (s : Db) : Db → Type 0 where
  start : PurchaseHistory s s
  then_step : {t u : Db} → PurchaseHistory s t → PurchaseStep t u → PurchaseHistory s u

PurchaseStep-Totalled : (s t : Db) → PurchaseStep s t → InvoicesTotalled s → InvoicesTotalled t
unfolding submit approve
PurchaseStep-Totalled s t (created user dto i run) h = (create-Keeps user dto).at s h i t run
PurchaseStep-Totalled s t (submitted user id i run) h =
    (transition-Keeps user id doc_draft doc_submitted).at s h i t run
PurchaseStep-Totalled s t (approved user id i run) h =
    (transition-Keeps user id doc_submitted doc_approved).at s h i t run
PurchaseStep-Totalled s t (posted user id i run) h = (post-Keeps user id).at s h i t run
PurchaseStep-Totalled s t (paid user id p run) h = (payment-Keeps user id).at s h p t run
PurchaseStep-Totalled s t (debited user id n run) h = (note-Keeps user id).at s h n t run
PurchaseStep-Totalled s t (elsewhere same) h = subst (All HasTotal) (sym same) h

-- After any history of committed steps on supplier invoices (created, submitted, approved,
-- posted, paid, debited, or a step that leaves them alone) that begins with every supplier
-- invoice's total being its subtotal and its tax, every supplier invoice's total is its subtotal
-- and its tax.
pub PurchaseHistory-Totalled :
    {s t : Db} → PurchaseHistory s t → InvoicesTotalled s → InvoicesTotalled t
PurchaseHistory-Totalled start h = h
PurchaseHistory-Totalled (then_step {t} {u} past step) h =
    PurchaseStep-Totalled t u step (PurchaseHistory-Totalled past h)
