-- ===== src/Sales/CreditNotes/Settled.antt =====
-- backend/src/sales/credit-notes.ts: a note that posts, its entry, and what it settles.
use mathlib.Core.Path.{subst}
use advanced_accountancy.Prelude.{◌≡◌, refl, ap, ◌∙◌, Option, none, some, true, find, List}
use advanced_accountancy.Prelude.Int.{pos, int_laws}
use advanced_accountancy.Tx.{ok}
use advanced_accountancy.Tx.Keeps.{Keeps, Keeps-bind, Keeps-pure}
use advanced_accountancy.Tx.Ends.{
  Ends, Ends→, Ends-intro, Ends-bind, Ends-gets, Ends-or_throw, Ends-throw_if,
}
use advanced_accountancy.Schema.{
  Uuid, Cents, CreditNote, SalesInvoice, Company, company_has_id, doc_draft, doc_eq, JournalEntry,
  PostingRule, Db,
}
use advanced_accountancy.Tables.{find_row, update_row-Keeps}
use advanced_accountancy.Tables.Increments.{
  Increment, Given, part, increment-Given, Given-none, Given-between,
}
use advanced_accountancy.Tables.Finish.{event-Ends, finish-Keeps}
use advanced_accountancy.Accounting.Engine.{is_rule, post_event}
use advanced_accountancy.Accounting.Engine.Update.{true_of_not}
use advanced_accountancy.Accounting.Engine.Balance.{entry_debits, entry_credits}
use advanced_accountancy.Accounting.Provisioning.Balance.{FollowsStarter, starter_rule_exact}
use advanced_accountancy.Sales.Receipts.{pay}
use advanced_accountancy.Sales.CreditNotes.{
  sales_invoices, credit_notes, note_event, settle, mark_posted, post,
}

abbrev pub paid_amount : Increment sales_invoices
paid_amount = record {
  add = pay;
  same_id = λ c i. refl;
  add_zero = λ i. ap (λ (x : Cents). record i { amount_paid = x }) (omega int_laws);
  add_twice = λ b c i. ap (λ (x : Cents). record i { amount_paid = x }) (omega int_laws);
}

-- What a note gives an invoice.
abbrev pub settlement : Option Uuid → Cents → Uuid → Cents
settlement none amount id = pos 0
settlement (some invoice_id) amount id = part sales_invoices paid_amount invoice_id amount id

settle-Given :
    (o : Option Uuid) (amount : Cents) (s : Db)
    → Ends (λ x t. Given sales_invoices paid_amount (settlement o amount) s t) (settle o amount s)
unfolding settle
settle-Given none amount s = Given-none sales_invoices paid_amount s
settle-Given (some invoice_id) amount s =
    Ends-bind _ (λ i t. Given sales_invoices paid_amount (settlement (some invoice_id) amount) s t)
      _ _ s (increment-Given sales_invoices paid_amount invoice_id amount s) λ i t given. given

settle-Keeps :
    {P : Db → Type 0} (o : Option Uuid) (amount : Cents)
    → ((s : Db) (xs : List SalesInvoice) → P s → P (record s { sales_invoices = xs }))
    → Keeps P (settle o amount)
unfolding settle
settle-Keeps none amount k = Keeps-pure tt
settle-Keeps (some invoice_id) amount k =
    Keeps-bind _ _ (update_row-Keeps sales_invoices invoice_id (paid_amount.add amount) k)
      λ paid. Keeps-pure tt

-- What posting a note did.
pub record NotePosted (user_id id : Uuid) (s t : Db) : Type 0 where
  pub note : CreditNote
  pub found : find_row credit_notes id s ≡ some note
  pub draft : doc_eq note.status doc_draft ≡ true
  pub company : Company
  pub company_found : find (company_has_id note.company_id) s.companies ≡ some company
  pub entry : JournalEntry
  pub after : Db
  pub event : post_event (note_event user_id note company) s ≡ ok (entry, after)
  pub journal : t.journal_entries ≡ after.journal_entries
  pub settled : Given sales_invoices paid_amount (settlement note.sales_invoice_id note.amount) s t

settles :
    (o : Option Uuid) (amount : Cents) (u : Db)
    → Ends
        (λ x v.
          Given sales_invoices paid_amount (settlement o amount) u v
          × (v.journal_entries ≡ u.journal_entries))
        (settle o amount u)
settles o amount u = Ends-intro _ (settle o amount u) λ x v run. (
  Ends→ _ (settle o amount u) x v run (settle-Given o amount u),
  (settle-Keeps {P = λ y. y.journal_entries ≡ u.journal_entries} o amount (λ y xs h. h)).at u refl x
      v run,
)

post-Ends :
    (user_id id : Uuid) (s : Db) → Ends (λ n t. NotePosted user_id id s t) (post user_id id s)
unfolding post
post-Ends user_id id s = Ends-gets _ _ _ s (
    Ends-or_throw _ _ _ _ s λ note found. Ends-throw_if _ _ _ _ s λ draft. Ends-gets _ _ _ s (
      Ends-or_throw _ _ _ _ s λ company company_found.
        let params = note_event user_id note company in
        Ends-bind _
          (λ e u. (post_event params s ≡ ok (e, u)) × (u.sales_invoices ≡ s.sales_invoices)) _ _ s
          (event-Ends (λ x. x.sales_invoices ≡ s.sales_invoices) params s (λ x q i j g h. h) refl)
          λ e u ran.
            Ends-bind _
              (λ x v.
                Given sales_invoices paid_amount (settlement note.sales_invoice_id note.amount) u v
                × (v.journal_entries ≡ u.journal_entries))
              _ _ u (settles note.sales_invoice_id note.amount u)
              λ x v given.
                Ends-intro (λ n t. NotePosted user_id id s t) _
                  λ n t run.
                    let kept =
                      (finish-Keeps credit_notes
                          {P = λ y.
                            (y.sales_invoices ≡ v.sales_invoices)
                            × (y.journal_entries ≡ v.journal_entries)}
                          id (mark_posted e.id) _ (λ y xs h. h) (λ y l h. h)).at
                        v (refl, refl) n t run in
                    record {
                      note = note;
                      found = found;
                      draft = true_of_not _ draft;
                      company = company;
                      company_found = company_found;
                      entry = e;
                      after = u;
                      event = ran.0;
                      journal = kept.1 ∙ given.1;
                      settled =
                          Given-between sales_invoices paid_amount
                            (settlement note.sales_invoice_id note.amount) s u v t ran.1 kept.0
                            given.0;
                    }))

pub post-NotePosted :
    (user_id id : Uuid) (s t : Db) (n : CreditNote)
    → post user_id id s ≡ ok (n, t)
    → NotePosted user_id id s t
post-NotePosted user_id id s t n e = Ends→ _ (post user_id id s) n t e (post-Ends user_id id s)

-- A credit note whose company has a starter rule for it, and which posts, was found in draft and
-- posts an entry whose stored debits equal its stored credits; where it names a sales invoice,
-- that invoice's amount paid grows by the note's amount, and no invoice changes otherwise.
pub credit_note_exact :
    (user_id id : Uuid) (s t : Db) (n note : CreditNote) (rule : PostingRule)
    → find_row credit_notes id s ≡ some note
    → find (is_rule note.company_id "CREDIT_NOTE_POSTED") s.posting_rules ≡ some rule
    → FollowsStarter rule
    → post user_id id s ≡ ok (n, t)
    → (p : NotePosted user_id id s t) × (entry_debits p.entry ≡ entry_credits p.entry)
credit_note_exact user_id id s t n note rule found rule_found f e =
    let p = post-NotePosted user_id id s t n e in
    let same : note ≡ p.note = cc (found, p.found) in
    (
      p,
      starter_rule_exact (note_event user_id p.note p.company) s p.after p.entry rule
          ((p.note.amount, refl), tt) (omega int_laws, omega int_laws)
          (subst
            (λ (i : CreditNote).
              find (is_rule i.company_id "CREDIT_NOTE_POSTED") s.posting_rules ≡ some rule)
            same rule_found)
          f p.event,
    )
