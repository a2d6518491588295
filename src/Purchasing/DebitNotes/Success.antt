-- ===== src/Purchasing/DebitNotes/Success.antt =====
-- backend/src/purchasing/debit-notes.ts: a draft note posts.
use mathlib.Core.Path.{subst}
use advanced_accountancy.Prelude.{
  ◌≡◌, refl, sym, ap, ◌∙◌, true, Option, none, some, List, find, modify_first, All, first, later,
}
use advanced_accountancy.Prelude.Int.{int_laws}
use advanced_accountancy.Tx.{ok, ◌>>=◌}
use advanced_accountancy.Tx.Commits.{
  Commits, Commits-bind, Commits-gets, Commits-or_throw, Commits-throw_if, false_of_not,
}
use advanced_accountancy.Schema.{
  Uuid, Cents, DocumentNumberSequence, JournalEntry, GlAccountBalance, DebitNote, Company,
  company_has_id, AccountingPeriod, PostingRule, is_open, doc_draft, doc_eq, Db,
}
use advanced_accountancy.Tables.{has_id, find_row}
use advanced_accountancy.Tables.Success.{event-Commits, update_row_run, finish-Commits, IsThere}
use advanced_accountancy.Accounting.Engine.{is_rule, covers}
use advanced_accountancy.Accounting.Engine.Balance.{entry_debits, entry_credits}
use advanced_accountancy.Accounting.Engine.Postable.{Postable}
use advanced_accountancy.Accounting.Provisioning.Balance.{
  FollowsStarter, starter_posting_rules-Balances, Balances,
}
use advanced_accountancy.Accounting.Provisioning.Resolve.{Resolves}
use advanced_accountancy.Accounting.Provisioning.Postable.{
  starter_lines, OverridesOwned, balanced_rule-Postable,
}
use advanced_accountancy.Purchasing.SupplierInvoices.{supplier_invoices, pay}
use advanced_accountancy.Purchasing.DebitNotes.{debit_notes, note_event, settle, mark_posted, post}
use advanced_accountancy.Purchasing.DebitNotes.Settled.{NotePosted, debit_note_exact}

-- An event leaves the invoices.
still :
    (o : Option Uuid) (s : Db) (q : List DocumentNumberSequence) (i : Uuid) (j : List JournalEntry)
    (g : List GlAccountBalance)
    → IsThere supplier_invoices o s
    → IsThere supplier_invoices o
        (record s { sequences = q; next_id = i; journal_entries = j; gl_balances = g })
still none s q i j g h = tt
still (some id) s q i j g h = h

settle-Commits :
    (o : Option Uuid) (amount : Cents) (s : Db)
    → IsThere supplier_invoices o s
    → (t : Db) × (settle o amount s ≡ ok (tt, t)) × (t.debit_notes ≡ s.debit_notes)
unfolding settle ◌>>=◌
settle-Commits none amount s h = (s, refl, refl)
settle-Commits (some id) amount s (i, found) = (
  record s {
    supplier_invoices = modify_first (has_id supplier_invoices id) (pay amount) s.supplier_invoices;
  },
  rw (update_row_run supplier_invoices id (pay amount) s i found) refl,
  refl,
)

post-Commits :
    (user_id id : Uuid) (s : Db) (note : DebitNote) (company : Company)
    → find_row debit_notes id s ≡ some note
    → doc_eq note.status doc_draft ≡ true
    → find (company_has_id note.company_id) s.companies ≡ some company
    → IsThere supplier_invoices note.supplier_invoice_id s
    → Postable (note_event user_id note company) s
    → Commits (post user_id id s)
unfolding post
post-Commits user_id id s note company found draft of_company there postable =
    let (e, t, run, same) =
      event-Commits
        (λ x.
          IsThere supplier_invoices note.supplier_invoice_id x × (x.debit_notes ≡ s.debit_notes))
        (note_event user_id note company) s
        (λ x q i j g h. (still note.supplier_invoice_id x q i j g h.0, h.1)) (there, refl)
        postable in
    let (u, settled, kept) = settle-Commits note.supplier_invoice_id note.amount t same.0 in
    Commits-gets _ _ s (
      Commits-or_throw _ _ _ s note found (
        Commits-throw_if _ _ _ s (false_of_not _ draft) (
          Commits-gets _ _ s (
            Commits-or_throw _ _ _ s company of_company (
              Commits-bind _ _ s e t run (
                Commits-bind _ _ t tt u settled (
                  finish-Commits debit_notes id (mark_posted e.id) _ u note
                    (ap (find _) (kept ∙ same.1) ∙ found))))))))

-- A draft debit note whose company is there and has an active rule for it with the starter
-- rule's lines, the accounts of which are in the chart, whose supplier invoice, where it names
-- one, is there, and whose date is covered by an open period, posts: the call commits, its
-- entry's stored debits equal its stored credits, the amount paid of the invoice that it names
-- grows by the note's amount, and no supplier invoice changes otherwise.
pub debit_note_posts :
    (user_id id : Uuid) (s : Db) (note : DebitNote) (company : Company) (rule : PostingRule)
    (period : AccountingPeriod)
    → find_row debit_notes id s ≡ some note
    → doc_eq note.status doc_draft ≡ true
    → find (company_has_id note.company_id) s.companies ≡ some company
    → IsThere supplier_invoices note.supplier_invoice_id s
    → find (is_rule note.company_id "DEBIT_NOTE_POSTED") s.posting_rules ≡ some rule
    → rule.is_active ≡ true
    → rule.lines ≡ starter_lines "DEBIT_NOTE_POSTED"
    → All (Resolves note.company_id s.chart_of_accounts) rule.lines
    → find (covers s.fiscal_years note.company_id note.debit_note_date) s.accounting_periods
      ≡ some period
    → is_open period.status ≡ true
    → (n : DebitNote) × (t : Db) × (post user_id id s ≡ ok (n, t))
      × ((p : NotePosted user_id id s t) × (entry_debits p.entry ≡ entry_credits p.entry))
debit_note_posts user_id id s note company rule period found draft of_company there listed active
      lines resolve covered opened =
    let params = note_event user_id note company in
    let balances = starter_posting_rules-Balances params.amounts (omega int_laws, omega int_laws) in
    let (n, t, run) = post-Commits user_id id s note company found draft of_company there (
      balanced_rule-Postable params s rule period listed active covered opened resolve
        (subst (All (OverridesOwned params s.chart_of_accounts)) (sym lines) (tt, (tt, tt)))
        (subst (Balances params.amounts) (sym lines) balances.1.1.1.1.1.0)) in
    let starter : FollowsStarter rule = record {
      template = record {
        event_type = "DEBIT_NOTE_POSTED";
        lines = starter_lines "DEBIT_NOTE_POSTED";
      };
      listed = later (later (later (later (later first))));
      same = lines;
    } in
    (n, t, run, debit_note_exact user_id id s t n note rule found listed starter run)
