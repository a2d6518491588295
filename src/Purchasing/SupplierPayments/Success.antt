-- ===== src/Purchasing/SupplierPayments/Success.antt =====
-- backend/src/purchasing/supplier-payments.ts: a draft payment posts.
use mathlib.Core.Path.{subst}
use advanced_accountancy.Prelude.{
  ◌≡◌, refl, sym, ap, ◌∙◌, true, some, List, [], ◌∷◌, find, modify_first, All, first, later,
}
use advanced_accountancy.Prelude.Int.{int_laws}
use advanced_accountancy.Tx.{ok, ◌>>=◌}
use advanced_accountancy.Tx.Commits.{
  Commits, Commits-bind, Commits-gets, Commits-or_throw, Commits-throw_if, false_of_not,
}
use advanced_accountancy.Tx.Ends.{Ends→}
use advanced_accountancy.Schema.{
  Uuid, Cents, BankAccount, SupplierInvoice, SupplierPayment, PaymentAllocation, AccountingPeriod,
  PostingRule, is_open, doc_draft, doc_eq, Db,
}
use advanced_accountancy.Tables.{has_id, find_row, update_row}
use advanced_accountancy.Tables.Increments.{Given, increment-Given}
use advanced_accountancy.Tables.Success.{event-Commits, update_row_run, finish-Commits}
use advanced_accountancy.Accounting.Engine.{is_rule, covers}
use advanced_accountancy.Accounting.Engine.Resolving.{Owned}
use advanced_accountancy.Accounting.Engine.Balance.{entry_debits, entry_credits}
use advanced_accountancy.Accounting.Engine.Postable.{Postable}
use advanced_accountancy.Accounting.Provisioning.Balance.{
  FollowsStarter, starter_posting_rules-Balances, starter_rule_exact, Balances,
}
use advanced_accountancy.Accounting.Provisioning.Resolve.{Resolves}
use advanced_accountancy.Accounting.Provisioning.Postable.{
  starter_lines, OverridesOwned, balanced_rule-Postable,
}
use advanced_accountancy.Sales.Receipts.{bank_has_id}
use advanced_accountancy.Purchasing.SupplierInvoices.{supplier_invoices, pay}
use advanced_accountancy.Purchasing.SupplierPayments.{
  supplier_payments, payment_event, pay_invoices, mark_posted, post,
}
use advanced_accountancy.Purchasing.SupplierPayments.Paid.{
  paid_amount, PaymentPosted, post-PaymentPosted,
}

-- The invoice of every allocation is there.
abbrev pub AllThere : List PaymentAllocation → Db → Type 0
AllThere ls s =
    All (λ a. (i : SupplierInvoice) × (find_row supplier_invoices a.supplier_invoice_id s ≡ some i))
      ls

-- A payment takes no invoice away.
Given-AllThere :
    (amount : Uuid → Cents) (s t : Db) (ls : List PaymentAllocation)
    → Given supplier_invoices paid_amount amount s t
    → AllThere ls s
    → AllThere ls t
Given-AllThere amount s t [] g h = tt
Given-AllThere amount s t (a ∷ ls) g ((i, found), h) =
    ((_, g a.supplier_invoice_id i found), Given-AllThere amount s t ls g h)

pay_invoices-Commits :
    (ls : List PaymentAllocation) (s : Db)
    → AllThere ls s
    → (t : Db) × (pay_invoices ls s ≡ ok (tt, t)) × (t.supplier_payments ≡ s.supplier_payments)
unfolding pay_invoices ◌>>=◌
pay_invoices-Commits [] s h = (s, refl, refl)
pay_invoices-Commits (a ∷ ls) s ((i, found), h) =
    let id = a.supplier_invoice_id in
    let u = record s {
      supplier_invoices =
          modify_first (has_id supplier_invoices id) (pay a.amount) s.supplier_invoices;
    } in
    let run = update_row_run supplier_invoices id (pay a.amount) s i found in
    let given =
      Ends→ _ (update_row supplier_invoices id (pay a.amount) s) (pay a.amount i) u run
        (increment-Given supplier_invoices paid_amount id a.amount s) in
    let (t, rest, kept) = pay_invoices-Commits ls u (Given-AllThere _ s u ls given h) in
    (t, rw run rest, kept)

post-Commits :
    (user_id id : Uuid) (s : Db) (payment : SupplierPayment) (bank : BankAccount)
    → find_row supplier_payments id s ≡ some payment
    → doc_eq payment.status doc_draft ≡ true
    → find (bank_has_id payment.bank_account_id) s.bank_accounts ≡ some bank
    → AllThere payment.allocations s
    → Postable (payment_event user_id payment bank) s
    → Commits (post user_id id s)
unfolding post
post-Commits user_id id s payment bank found draft of_bank there postable =
    let (e, t, run, same) =
      event-Commits
        (λ x. AllThere payment.allocations x × (x.supplier_payments ≡ s.supplier_payments))
        (payment_event user_id payment bank) s (λ x q i j g h. h) (there, refl) postable in
    let (u, paid, kept) = pay_invoices-Commits payment.allocations t same.0 in
    Commits-gets _ _ s (
      Commits-or_throw _ _ _ s payment found (
        Commits-throw_if _ _ _ s (false_of_not _ draft) (
          Commits-gets _ _ s (
            Commits-or_throw _ _ _ s bank of_bank (
              Commits-bind _ _ s e t run (
                Commits-bind _ _ t tt u paid (
                  Commits-gets _ _ u (
                    finish-Commits supplier_payments id (mark_posted e.id u.now) _ u payment
                      (ap (find _) (kept ∙ same.1) ∙ found)))))))))

-- A draft supplier payment whose bank account is there and is kept in an account of its company,
-- whose company has an active rule for it with the starter rule's lines, the accounts of which
-- are in the chart, each allocation of which names a supplier invoice that is there, and whose
-- date is covered by an open period, posts: the call commits, the entry that its event posts has
-- stored debits equal to its stored credits, the journal is as the event left it, and the amount
-- paid of every supplier invoice grows by just what the allocations to that invoice sum to, and
-- nothing else of any changes.
pub payment_posts :
    (user_id id : Uuid) (s : Db) (payment : SupplierPayment) (bank : BankAccount)
    (rule : PostingRule) (period : AccountingPeriod)
    → find_row supplier_payments id s ≡ some payment
    → doc_eq payment.status doc_draft ≡ true
    → find (bank_has_id payment.bank_account_id) s.bank_accounts ≡ some bank
    → Owned payment.company_id s.chart_of_accounts (some bank.gl_account_id)
    → AllThere payment.allocations s
    → find (is_rule payment.company_id "SUPPLIER_PAYMENT_POSTED") s.posting_rules ≡ some rule
    → rule.is_active ≡ true
    → rule.lines ≡ starter_lines "SUPPLIER_PAYMENT_POSTED"
    → All (Resolves payment.company_id s.chart_of_accounts) rule.lines
    → find (covers s.fiscal_years payment.company_id payment.payment_date) s.accounting_periods
      ≡ some period
    → is_open period.status ≡ true
    → (p : SupplierPayment) × (t : Db) × (post user_id id s ≡ ok (p, t))
      × ((d : PaymentPosted user_id id s t) × (entry_debits d.entry ≡ entry_credits d.entry))
payment_posts user_id id s payment bank rule period found draft of_bank owned there listed active
      lines resolve covered opened =
    let params = payment_event user_id payment bank in
    let balances = starter_posting_rules-Balances params.amounts (omega int_laws, omega int_laws) in
    let (p, t, run) = post-Commits user_id id s payment bank found draft of_bank there (
      balanced_rule-Postable params s rule period listed active covered opened resolve
        (subst (All (OverridesOwned params s.chart_of_accounts)) (sym lines) (tt, (owned, tt)))
        (subst (Balances params.amounts) (sym lines) balances.1.1.1.0)) in
    let starter : FollowsStarter rule = record {
      template = record {
        event_type = "SUPPLIER_PAYMENT_POSTED";
        lines = starter_lines "SUPPLIER_PAYMENT_POSTED";
      };
      listed = later (later (later first));
      same = lines;
    } in
    let d = post-PaymentPosted user_id id s t p run in
    let same : payment ≡ d.payment = cc (found, d.found) in
    (
      p,
      t,
      run,
      (
        d,
        starter_rule_exact (payment_event user_id d.payment d.bank_account) s d.after d.entry rule
            ((d.payment.amount, refl), tt) (omega int_laws, omega int_laws)
            (subst
              (λ (i : SupplierPayment).
                find (is_rule i.company_id "SUPPLIER_PAYMENT_POSTED") s.posting_rules ≡ some rule)
              same listed)
            starter d.event,
      ),
    )
