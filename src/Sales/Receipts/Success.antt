-- ===== src/Sales/Receipts/Success.antt =====
-- backend/src/sales/customer-receipts.ts: a draft receipt posts.
use mathlib.Core.Path.{subst}
use advanced_accountancy.Prelude.{
  ◌≡◌, refl, sym, ap, ◌∙◌, true, some, List, [], ◌∷◌, find, modify_first, All, first, later,
}
use advanced_accountancy.Prelude.Int.{int_laws}
use advanced_accountancy.Tx.{ok, ◌>>=◌}
use advanced_accountancy.Tx.Commits.{
  Commits, Commits-bind, Commits-gets, Commits-or_throw, Commits-throw_if, Commits-modify,
  false_of_not,
}
use advanced_accountancy.Schema.{
  Uuid, BankAccount, SalesInvoice, CustomerReceipt, ReceiptAllocation, AccountingPeriod,
  PostingRule, is_open, doc_draft, doc_eq, Db,
}
use advanced_accountancy.Tables.Success.{event-Commits, audit-Commits}
use advanced_accountancy.Accounting.Engine.{is_rule, covers}
use advanced_accountancy.Accounting.Engine.Resolving.{Owned}
use advanced_accountancy.Accounting.Engine.Balance.{entry_debits, entry_credits}
use advanced_accountancy.Accounting.Engine.Postable.{Postable}
use advanced_accountancy.Accounting.Provisioning.Balance.{
  FollowsStarter, starter_posting_rules-Balances, starter_rule_exact, Balances,
}
use advanced_accountancy.Accounting.Provisioning.Resolve.{Resolves}
use advanced_accountancy.Accounting.Provisioning.Postable.{
  starter_lines, OverridesOwned, balanced_rule-Postable,
}
use advanced_accountancy.Sales.Invoices.{invoice_has_id, update_invoice}
use advanced_accountancy.Sales.Receipts.{
  pay, pay_invoices, receipt_has_id, bank_has_id, receipt_event, update_receipt, mark_posted, post,
}
use advanced_accountancy.Sales.Receipts.Paid.{find-pay, ReceiptPosted, post-ReceiptPosted}

-- The invoice of every allocation is there.
abbrev pub AllThere : List ReceiptAllocation → List SalesInvoice → Type 0
AllThere ls invoices =
    All (λ a. (i : SalesInvoice) × (find (invoice_has_id a.sales_invoice_id) invoices ≡ some i)) ls

-- A payment takes no invoice away.
AllThere-pay :
    (a : ReceiptAllocation) (rows : List SalesInvoice) (ls : List ReceiptAllocation)
    → AllThere ls rows
    → AllThere ls (modify_first (invoice_has_id a.sales_invoice_id) (pay a.amount) rows)
AllThere-pay a rows [] h = tt
AllThere-pay a rows (b ∷ ls) ((i, found), h) =
    ((_, find-pay a rows b.sales_invoice_id i found), AllThere-pay a rows ls h)

pay_invoices-Commits :
    (ls : List ReceiptAllocation) (s : Db)
    → AllThere ls s.sales_invoices
    → (t : Db) × (pay_invoices ls s ≡ ok (tt, t)) × (t.customer_receipts ≡ s.customer_receipts)
unfolding pay_invoices update_invoice ◌>>=◌
pay_invoices-Commits [] s h = (s, refl, refl)
pay_invoices-Commits (a ∷ ls) s ((i, found), h) =
    let id = a.sales_invoice_id in
    let rows = modify_first (invoice_has_id id) (pay a.amount) s.sales_invoices in
    let (t, rest, kept) =
      pay_invoices-Commits ls (record s { sales_invoices = rows })
        (AllThere-pay a s.sales_invoices ls h) in
    (t, rw found rest, kept)

update_receipt-Commits :
    (id : Uuid) (change : CustomerReceipt → CustomerReceipt) (s : Db) (before : CustomerReceipt)
    → find (receipt_has_id id) s.customer_receipts ≡ some before
    → Commits (update_receipt id change s)
unfolding update_receipt
update_receipt-Commits id change s before found =
    Commits-gets _ _ s (Commits-or_throw _ _ _ s before found (Commits-modify _ _ s (_, _, refl)))

post-Commits :
    (user_id id : Uuid) (s : Db) (receipt : CustomerReceipt) (bank : BankAccount)
    → find (receipt_has_id id) s.customer_receipts ≡ some receipt
    → doc_eq receipt.status doc_draft ≡ true
    → find (bank_has_id receipt.bank_account_id) s.bank_accounts ≡ some bank
    → AllThere receipt.allocations s.sales_invoices
    → Postable (receipt_event user_id receipt bank) s
    → Commits (post user_id id s)
unfolding post
post-Commits user_id id s receipt bank found draft of_bank there postable =
    let (e, t, run, same) =
      event-Commits
        (λ x.
          AllThere receipt.allocations x.sales_invoices
          × (x.customer_receipts ≡ s.customer_receipts))
        (receipt_event user_id receipt bank) s (λ x q i j g h. h) (there, refl) postable in
    let (u, paid, kept) = pay_invoices-Commits receipt.allocations t same.0 in
    let (r, v, updated) =
      update_receipt-Commits id (mark_posted e.id u.now) u receipt
        (ap (find (receipt_has_id id)) (kept ∙ same.1) ∙ found) in
    Commits-gets _ _ s (
      Commits-or_throw _ _ _ s receipt found (
        Commits-throw_if _ _ _ s (false_of_not _ draft) (
          Commits-gets _ _ s (
            Commits-or_throw _ _ _ s bank of_bank (
              Commits-bind _ _ s e t run (
                Commits-bind _ _ t tt u paid
                  (Commits-gets _ _ u (Commits-bind _ _ u r v updated (audit-Commits _ r v)))))))))

-- A draft customer receipt whose bank account is there and is kept in an account of its company,
-- whose company has an active rule for it with the starter rule's lines, the accounts of which
-- are in the chart, each allocation of which names an invoice that is there, and whose date is
-- covered by an open period, posts: the call commits, the entry that its event posts has stored
-- debits equal to its stored credits, the journal is as the event left it, and the amount paid of
-- every invoice grows by just what the allocations to that invoice sum to, and nothing else of
-- any invoice changes.
pub receipt_posts :
    (user_id id : Uuid) (s : Db) (receipt : CustomerReceipt) (bank : BankAccount)
    (rule : PostingRule) (period : AccountingPeriod)
    → find (receipt_has_id id) s.customer_receipts ≡ some receipt
    → doc_eq receipt.status doc_draft ≡ true
    → find (bank_has_id receipt.bank_account_id) s.bank_accounts ≡ some bank
    → Owned receipt.company_id s.chart_of_accounts (some bank.gl_account_id)
    → AllThere receipt.allocations s.sales_invoices
    → find (is_rule receipt.company_id "CUSTOMER_RECEIPT_POSTED") s.posting_rules ≡ some rule
    → rule.is_active ≡ true
    → rule.lines ≡ starter_lines "CUSTOMER_RECEIPT_POSTED"
    → All (Resolves receipt.company_id s.chart_of_accounts) rule.lines
    → find (covers s.fiscal_years receipt.company_id receipt.receipt_date) s.accounting_periods
      ≡ some period
    → is_open period.status ≡ true
    → (r : CustomerReceipt) × (t : Db) × (post user_id id s ≡ ok (r, t))
      × ((d : ReceiptPosted user_id id s t) × (entry_debits d.entry ≡ entry_credits d.entry))
receipt_posts user_id id s receipt bank rule period found draft of_bank owned there listed active
      lines resolve covered opened =
    let params = receipt_event user_id receipt bank in
    let balances = starter_posting_rules-Balances params.amounts (omega int_laws, omega int_laws) in
    let (r, t, run) = post-Commits user_id id s receipt bank found draft of_bank there (
      balanced_rule-Postable params s rule period listed active covered opened resolve
        (subst (All (OverridesOwned params s.chart_of_accounts)) (sym lines) (owned, (tt, tt)))
        (subst (Balances params.amounts) (sym lines) balances.1.1.0)) in
    let starter : FollowsStarter rule = record {
      template = record {
        event_type = "CUSTOMER_RECEIPT_POSTED";
        lines = starter_lines "CUSTOMER_RECEIPT_POSTED";
      };
      listed = later (later first);
      same = lines;
    } in
    let d = post-ReceiptPosted user_id id s t r run in
    let same : receipt ≡ d.receipt = cc (found, d.found) in
    (
      r,
      t,
      run,
      (
        d,
        starter_rule_exact (receipt_event user_id d.receipt d.bank_account) s d.after d.entry rule
            ((d.receipt.amount, refl), tt) (omega int_laws, omega int_laws)
            (subst
              (λ (i : CustomerReceipt).
                find (is_rule i.company_id "CUSTOMER_RECEIPT_POSTED") s.posting_rules ≡ some rule)
              same listed)
            starter d.event,
      ),
    )
