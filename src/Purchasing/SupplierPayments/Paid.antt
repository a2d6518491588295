-- ===== src/Purchasing/SupplierPayments/Paid.antt =====
-- backend/src/purchasing/supplier-payments.ts: what a payment pays.
use advanced_accountancy.Prelude.{◌≡◌, refl, ap, ◌∙◌, some, true, List, [], ◌∷◌, find, sum_by}
use advanced_accountancy.Prelude.Int.{int_laws}
use advanced_accountancy.Tx.{ok}
use advanced_accountancy.Tx.Keeps.{Keeps, Keeps-bind, Keeps-pure}
use advanced_accountancy.Tx.Ends.{
  Ends, Ends→, Ends-intro, Ends-bind, Ends-gets, Ends-or_throw, Ends-throw_if, Ends-map,
}
use advanced_accountancy.Schema.{
  Uuid, Cents, BankAccount, SupplierInvoice, SupplierPayment, PaymentAllocation, doc_draft, doc_eq,
  JournalEntry, Db,
}
use advanced_accountancy.Tables.{find_row, update_row-Keeps}
use advanced_accountancy.Tables.Increments.{
  Increment, Given, part, increment-Given, Given-none, Given-then, Given-between,
}
use advanced_accountancy.Tables.Finish.{event-Ends, finish-Keeps}
use advanced_accountancy.Accounting.Engine.{post_event}
use advanced_accountancy.Accounting.Engine.Update.{true_of_not}
use advanced_accountancy.Sales.Receipts.{bank_has_id}
use advanced_accountancy.Purchasing.SupplierInvoices.{supplier_invoices, pay}
use advanced_accountancy.Purchasing.SupplierPayments.{
  supplier_payments, payment_event, pay_invoices, mark_posted, post,
}

abbrev pub paid_amount : Increment supplier_invoices
paid_amount = record {
  add = pay;
  same_id = λ c i. refl;
  add_zero = λ i. ap (λ (x : Cents). record i { amount_paid = x }) (omega int_laws);
  add_twice = λ b c i. ap (λ (x : Cents). record i { amount_paid = x }) (omega int_laws);
}

-- What the allocations give an invoice.
abbrev pub shares : List PaymentAllocation → Uuid → Cents
shares ls id = sum_by (λ a. part supplier_invoices paid_amount a.supplier_invoice_id a.amount id) ls

pay_invoices-Given :
    (ls : List PaymentAllocation) (s : Db)
    → Ends (λ x t. Given supplier_invoices paid_amount (shares ls) s t) (pay_invoices ls s)
unfolding pay_invoices
pay_invoices-Given [] s = Given-none supplier_invoices paid_amount s
pay_invoices-Given (a ∷ ls) s =
    Ends-bind _
      (λ i t.
        Given supplier_invoices paid_amount
          (part supplier_invoices paid_amount a.supplier_invoice_id a.amount) s t)
      _ _ s (increment-Given supplier_invoices paid_amount a.supplier_invoice_id a.amount s)
      λ i t one.
        Ends-map (λ x u. Given supplier_invoices paid_amount (shares (a ∷ ls)) s u)
          (λ x u. Given supplier_invoices paid_amount (shares ls) t u) (pay_invoices ls t)
          (pay_invoices-Given ls t)
          λ x u rest. Given-then supplier_invoices paid_amount _ (shares ls) s t u one rest

pub pay_invoices-Keeps :
    {P : Db → Type 0} (ls : List PaymentAllocation)
    → ((s : Db) (xs : List SupplierInvoice) → P s → P (record s { supplier_invoices = xs }))
    → Keeps P (pay_invoices ls)
unfolding pay_invoices
pay_invoices-Keeps [] k = Keeps-pure tt
pay_invoices-Keeps (a ∷ ls) k =
    Keeps-bind _ _ (update_row-Keeps supplier_invoices a.supplier_invoice_id (pay a.amount) k)
      λ paid. pay_invoices-Keeps ls k

-- What posting a payment did: an event of its amount, and the payment of the invoices.
pub record PaymentPosted (user_id id : Uuid) (s t : Db) : Type 0 where
  pub payment : SupplierPayment
  pub found : find_row supplier_payments id s ≡ some payment
  pub draft : doc_eq payment.status doc_draft ≡ true
  pub bank_account : BankAccount
  pub bank_found : find (bank_has_id payment.bank_account_id) s.bank_accounts ≡ some bank_account
  pub entry : JournalEntry
  pub after : Db
  pub event : post_event (payment_event user_id payment bank_account) s ≡ ok (entry, after)
  pub journal : t.journal_entries ≡ after.journal_entries
  pub paid : Given supplier_invoices paid_amount (shares payment.allocations) s t

post-Ends :
    (user_id id : Uuid) (s : Db) → Ends (λ p t. PaymentPosted user_id id s t) (post user_id id s)
unfolding post
post-Ends user_id id s = Ends-gets _ _ _ s (
    Ends-or_throw _ _ _ _ s λ payment found. Ends-throw_if _ _ _ _ s λ draft. Ends-gets _ _ _ s (
      Ends-or_throw _ _ _ _ s λ bank bank_found.
        let params = payment_event user_id payment bank in
        Ends-bind _
          (λ e u. (post_event params s ≡ ok (e, u)) × (u.supplier_invoices ≡ s.supplier_invoices)) _
          _ s
          (event-Ends (λ x. x.supplier_invoices ≡ s.supplier_invoices) params s (λ x q i j g h. h)
            refl)
          λ e u ran.
            Ends-bind _
              (λ x v.
                Given supplier_invoices paid_amount (shares payment.allocations) u v
                × (v.journal_entries ≡ u.journal_entries))
              _ _ u (pays payment.allocations u)
              λ x v paid. Ends-gets _ _ _ v (
                Ends-intro (λ p t. PaymentPosted user_id id s t) _
                  λ p t run.
                    let kept =
                      (finish-Keeps supplier_payments
                          {P = λ y.
                            (y.supplier_invoices ≡ v.supplier_invoices)
                            × (y.journal_entries ≡ v.journal_entries)}
                          id (mark_posted e.id v.now) _ (λ y xs h. h) (λ y l h. h)).at
                        v (refl, refl) p t run in
                    record {
                      payment = payment;
                      found = found;
                      draft = true_of_not _ draft;
                      bank_account = bank;
                      bank_found = bank_found;
                      entry = e;
                      after = u;
                      event = ran.0;
                      journal = kept.1 ∙ paid.1;
                      paid =
                          Given-between supplier_invoices paid_amount (shares payment.allocations) s
                            u v t ran.1 kept.0 paid.0;
                    })))
  where
    pays :
        (ls : List PaymentAllocation) (u : Db)
        → Ends
            (λ x v.
              Given supplier_invoices paid_amount (shares ls) u v
              × (v.journal_entries ≡ u.journal_entries))
            (pay_invoices ls u)
    pays ls u = Ends-intro _ (pay_invoices ls u) λ x v run. (
      Ends→ _ (pay_invoices ls u) x v run (pay_invoices-Given ls u),
      (pay_invoices-Keeps {P = λ y. y.journal_entries ≡ u.journal_entries} ls (λ y xs h. h)).at u
          refl x v run,
    )

-- A supplier payment that posts was found in draft, its bank account was found and an event of
-- it posted an entry; it adds to the amount paid of every supplier invoice just what its
-- allocations to that invoice sum to, and changes nothing else of any; the journal is as the
-- event left it.
pub post-PaymentPosted :
    (user_id id : Uuid) (s t : Db) (p : SupplierPayment)
    → post user_id id s ≡ ok (p, t)
    → PaymentPosted user_id id s t
post-PaymentPosted user_id id s t p e = Ends→ _ (post user_id id s) p t e (post-Ends user_id id s)
