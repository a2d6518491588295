-- ===== src/Sales/CreditNotes/Success.antt =====
-- backend/src/sales/credit-notes.ts: a draft note posts.
use mathlib.Core.Path.{subst}
use advanced_accountancy.Prelude.{
  ◌≡◌, refl, sym, ap, ◌∙◌, true, Option, none, some, List, find, modify_first, All, first, later,
}
use advanced_accountancy.Prelude.Int.{int_laws}
use advanced_accountancy.Tx.{ok, ◌>>=◌}
use advanced_accountancy.Tx.Commits.{
  Commits, Commits-bind, Commits-gets, Commits-or_throw, Commits-throw_if, false_of_not,
}
use advanced_accountancy.Schema.{
  Uuid, Cents, DocumentNumberSequence, JournalEntry, GlAccountBalance, CreditNote, Company,
  company_has_id, AccountingPeriod, PostingRule, is_open, doc_draft, doc_eq, Db,
}
use advanced_accountancy.Tables.{has_id, find_row}
use advanced_accountancy.Tables.Success.{event-Commits, update_row_run, finish-Commits, IsThere}
use advanced_accountancy.Accounting.Engine.{is_rule, covers}
use advanced_accountancy.Accounting.Engine.Balance.{entry_debits, entry_credits}
use advanced_accountancy.Accounting.Engine.Postable.{Postable}
use advanced_accountancy.Accounting.Provisioning.Balance.{
  FollowsStarter, starter_posting_rules-Balances, Balances,
}
use advanced_accountancy.Accounting.Provisioning.Resolve.{Resolves}
use advanced_accountancy.Accounting.Provisioning.Postable.{
  starter_lines, OverridesOwned, balanced_rule-Postable,
}
use advanced_accountancy.Sales.Receipts.{pay}
use advanced_accountancy.Sales.CreditNotes.{
  sales_invoices, credit_notes, note_event, settle, mark_posted, post,
}
use advanced_accountancy.Sales.CreditNotes.Settled.{NotePosted, credit_note_exact}

-- An event leaves the invoices.
still :
    (o : Option Uuid) (s : Db) (q : List DocumentNumberSequence) (i : Uuid) (j : List JournalEntry)
    (g : List GlAccountBalance)
    → IsThere sales_invoices o s
    → IsThere sales_invoices o
        (record s { sequences = q; next_id = i; journal_entries = j; gl_balances = g })
still none s q i j g h = tt
still (some id) s q i j g h = h

settle-Commits :
    (o : Option Uuid) (amount : Cents) (s : Db)
    → IsThere sales_invoices o s
    → (t : Db) × (settle o amount s ≡ ok (tt, t)) × (t.credit_notes ≡ s.credit_notes)
unfolding settle ◌>>=◌
settle-Commits none amount s h = (s, refl, refl)
settle-Commits (some id) amount s (i, found) = (
  record s {
    sales_invoices = modify_first (has_id sales_invoices id) (pay amount) s.sales_invoices;
  },
  rw (update_row_run sales_invoices id (pay amount) s i found) refl,
  refl,
)

post-Commits :
    (user_id id : Uuid) (s : Db) (note : CreditNote) (company : Company)
    → find_row credit_notes id s ≡ some note
    → doc_eq note.status doc_draft ≡ true
    → find (company_has_id note.company_id) s.companies ≡ some company
    → IsThere sales_invoices note.sales_invoice_id s
    → Postable (note_event user_id note company) s
    → Commits (post user_id id s)
unfolding post
post-Commits user_id id s note company found draft of_company there postable =
    let (e, t, run, same) =
      event-Commits
        (λ x. IsThere sales_invoices note.sales_invoice_id x × (x.credit_notes ≡ s.credit_notes))
        (note_event user_id note company) s
        (λ x q i j g h. (still note.sales_invoice_id x q i j g h.0, h.1)) (there, refl) postable in
    let (u, settled, kept) = settle-Commits note.sales_invoice_id note.amount t same.0 in
    Commits-gets _ _ s (
      Commits-or_throw _ _ _ s note found (
        Commits-throw_if _ _ _ s (false_of_not _ draft) (
          Commits-gets _ _ s (
            Commits-or_throw _ _ _ s company of_company (
              Commits-bind _ _ s e t run (
                Commits-bind _ _ t tt u settled (
                  finish-Commits credit_notes id (mark_posted e.id) _ u note
                    (ap (find _) (kept ∙ same.1) ∙ found))))))))

-- A draft credit note whose company is there and has an active rule for it with the starter
-- rule's lines, the accounts of which are in the chart, whose sales invoice, where it names one,
-- is there, and whose date is covered by an open period, posts: the call commits, its entry's
-- stored debits equal its stored credits, the amount paid of the invoice that it names grows by
-- the note's amount, and no sales invoice changes otherwise.
pub credit_note_posts :
    (user_id id : Uuid) (s : Db) (note : CreditNote) (company : Company) (rule : PostingRule)
    (period : AccountingPeriod)
    → find_row credit_notes id s ≡ some note
    → doc_eq note.status doc_draft ≡ true
    → find (company_has_id note.company_id) s.companies ≡ some company
    → IsThere sales_invoices note.sales_invoice_id s
    → find (is_rule note.company_id "CREDIT_NOTE_POSTED") s.posting_rules ≡ some rule
    → rule.is_active ≡ true
    → rule.lines ≡ starter_lines "CREDIT_NOTE_POSTED"
    → All (Resolves note.company_id s.chart_of_accounts) rule.lines
    → find (covers s.fiscal_years note.company_id note.credit_note_date) s.accounting_periods
      ≡ some period
    → is_open period.status ≡ true
    → (n : CreditNote) × (t : Db) × (post user_id id s ≡ ok (n, t))
      × ((p : NotePosted user_id id s t) × (entry_debits p.entry ≡ entry_credits p.entry))
credit_note_posts user_id id s note company rule period found draft of_company there listed active
      lines resolve covered opened =
    let params = note_event user_id note company in
    let balances = starter_posting_rules-Balances params.amounts (omega int_laws, omega int_laws) in
    let (n, t, run) = post-Commits user_id id s note company found draft of_company there (
      balanced_rule-Postable params s rule period listed active covered opened resolve
        (subst (All (OverridesOwned params s.chart_of_accounts)) (sym lines) (tt, (tt, tt)))
        (subst (Balances params.amounts) (sym lines) balances.1.1.1.1.0)) in
    let starter : FollowsStarter rule = record {
      template = record {
        event_type = "CREDIT_NOTE_POSTED";
        lines = starter_lines "CREDIT_NOTE_POSTED";
      };
      listed = later (later (later (later first)));
      same = lines;
    } in
    (n, t, run, credit_note_exact user_id id s t n note rule found listed starter run)
