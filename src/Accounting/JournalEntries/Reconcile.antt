-- ===== src/Accounting/JournalEntries/Reconcile.antt =====
-- The manual workflow keeps the balances reconciled with the journal.
use mathlib.Core.Path.{subst, subst₂}
use advanced_accountancy.Prelude.{
  ◌≡◌, refl, sym, ap, ◌∙◌, false, some, find, modify_first, sum_by-snoc, sum_by-modify_same,
  sum_by-modify_new,
}
use advanced_accountancy.Prelude.Int.{ℤ, pos, ◌+ℤ◌, int_laws}
use advanced_accountancy.Prelude.{String}
use advanced_accountancy.Prelude.Text.{Text}
use advanced_accountancy.Accounting.Numbering.{next}
use advanced_accountancy.Tx.{◌>>=◌}
use advanced_accountancy.Tx.Keeps.{Keeps, Keeps-by, keeps_rules}
use advanced_accountancy.Tx.Ends.{
  Ends, Ends-intro, Ends-bind, Ends-gets, Ends-or_throw, Ends-throw_if, Ends-map,
}
use advanced_accountancy.Schema.{
  Uuid, Cents, JournalEntry, JournalStatus, approved, AuditAction, AuditLog, Db,
}
use advanced_accountancy.Audit.{record_audit, record_audit-Keeps}
use advanced_accountancy.Accounting.Numbering.Sequence.{next-Keeps}
use advanced_accountancy.Accounting.Engine.{has_id, create_entry}
use advanced_accountancy.Accounting.Engine.Ledger.{
  Reconciled, Added, add_to_balances-Added, entry_debit, entry_credit, lines_debit, lines_credit,
  in_ledger, picked, journal_debit, journal_credit,
}
use advanced_accountancy.Accounting.Engine.Update.{
  Updated, update_entry-Ends, status_eq→≡, true_of_not,
}
use advanced_accountancy.Accounting.JournalEntries.{
  CreateJournalEntryDto, manual_entry, create, transition, post, mark_posted,
}

uncounted : (j : JournalStatus) (x : Cents) → in_ledger j ≡ false → picked (in_ledger j) x ≡ pos 0
uncounted j x p = rw p

plus_zero : (a b : ℤ) → b ≡ pos 0 → a +ℤ b ≡ a
plus_zero a b h = rw h (omega int_laws)

-- A new entry outside the ledger counts for nothing.
create_entry-Keeps :
    (make : Uuid → JournalEntry)
    → ((i : Uuid) → in_ledger (make i).status ≡ false)
    → Keeps Reconciled (create_entry make)
unfolding create_entry ◌>>=◌
create_entry-Keeps make out = Keeps-by λ s r w.
    let e = make s.next_id in
    record {
      debits =
          (r w).debits
          ∙ sym (
              sum_by-snoc (entry_debit w) s.journal_entries e
              ∙ plus_zero _ _ (uncounted e.status (lines_debit w e e.lines) (out s.next_id)));
      credits =
          (r w).credits
          ∙ sym (
              sum_by-snoc (entry_credit w) s.journal_entries e
              ∙ plus_zero _ _ (uncounted e.status (lines_credit w e e.lines) (out s.next_id)));
    }

manual-Keeps :
    (dto : CreateJournalEntryDto) (user period : Uuid) (n : Text)
    → Keeps Reconciled (create_entry (manual_entry dto user period n))
manual-Keeps dto user period n = create_entry-Keeps _ (λ i. refl)

number-Keeps : (c : Uuid) (d : String) (prefix : Text) → Keeps Reconciled (next c d prefix)
number-Keeps c d prefix = next-Keeps c d prefix (λ s q i h. h)

audit-Keeps : (log : AuditLog) → Keeps Reconciled (record_audit log)
audit-Keeps log = record_audit-Keeps log (λ s l h. h)

-- Creating a manual entry keeps the balances equal to the sums of the journal.
pub create-Keeps : (user : Uuid) (dto : CreateJournalEntryDto) → Keeps Reconciled (create user dto)
unfolding create
create-Keeps user dto = search (keeps_rules, number-Keeps, manual-Keeps, audit-Keeps) depth 12

-- Outside the ledger a change of status counts for nothing.
pub transition-Holds :
    (user id : Uuid) (from to : JournalStatus) (a : AuditAction) (s : Db)
    → in_ledger from ≡ false
    → in_ledger to ≡ false
    → Reconciled s
    → Ends (λ e t. Reconciled t) (transition user id from to a s)
unfolding transition
transition-Holds user id from to a s f g r = Ends-gets _ _ _ s (
    Ends-or_throw _ _ _ _ s λ entry found. Ends-throw_if _ _ _ _ s λ same.
      let was : entry.status ≡ from = status_eq→≡ _ _ (true_of_not _ same) in
      let change : JournalEntry → JournalEntry = λ e. record e { status = to } in
      let out : in_ledger entry.status ≡ false = ap in_ledger was ∙ f in
      Ends-bind _ (λ e t. Reconciled t) _ _ s
        (Ends-map _ (Updated id change entry s) _ (update_entry-Ends id change s entry found)
          λ e t made. subst Reconciled (sym made.1) λ w. record {
            debits =
                (r w).debits
                ∙ sym (
                    sum_by-modify_same (entry_debit w) (has_id id) change s.journal_entries found
                      (uncounted to _ g ∙ sym (uncounted entry.status _ out)));
            credits =
                (r w).credits
                ∙ sym (
                    sum_by-modify_same (entry_credit w) (has_id id) change s.journal_entries found
                      (uncounted to _ g ∙ sym (uncounted entry.status _ out)));
          })
        λ e t rt.
          Ends-bind _ (λ x u. Reconciled u) _ _ t
            (Ends-intro _ _
              λ x u run. (record_audit-Keeps {P = Reconciled} _ (λ s l h. h)).at t rt x u run)
            λ x u ru. ru)

posted_in_place :
    (id : Uuid) (entry : JournalEntry) (s v : Db)
    → find (has_id id) s.journal_entries ≡ some entry
    → in_ledger entry.status ≡ false
    → Reconciled s
    → let e = mark_posted s.now entry in
      Added e e.lines
        (record s {
          journal_entries = modify_first (has_id id) (mark_posted s.now) s.journal_entries;
        })
        v
      → Reconciled v
posted_in_place id entry s v found out r a w =
    let e = mark_posted s.now entry in
    let journal = ap (λ (x : Db). x.journal_entries) a.rest in
    record {
      debits =
          a.debits w
          ∙ ap (λ (x : ℤ). x +ℤ lines_debit w e e.lines) (r w).debits
          ∙ sym (
              sum_by-modify_new (entry_debit w) (has_id id) (mark_posted s.now) s.journal_entries
                found (uncounted entry.status _ out))
          ∙ ap (journal_debit w) (sym journal);
      credits =
          a.credits w
          ∙ ap (λ (x : ℤ). x +ℤ lines_credit w e e.lines) (r w).credits
          ∙ sym (
              sum_by-modify_new (entry_credit w) (has_id id) (mark_posted s.now) s.journal_entries
                found (uncounted entry.status _ out))
          ∙ ap (journal_credit w) (sym journal);
    }

-- Posting an approved entry brings its lines into the journal's sums and into the balances alike.
pub post-Holds :
    (user id : Uuid) (s : Db) → Reconciled s → Ends (λ e t. Reconciled t) (post user id s)
unfolding post
post-Holds user id s r = Ends-gets _ _ _ s (
    Ends-or_throw _ _ _ _ s λ entry found. Ends-throw_if _ _ _ _ s λ same. Ends-gets _ _ _ s (
      Ends-or_throw _ _ _ _ s λ period _. Ends-throw_if _ _ _ _ s λ _. Ends-gets _ _ _ s (
        Ends-bind _ (Updated id (mark_posted s.now) entry s) _ _ s
          (update_entry-Ends id (mark_posted s.now) s entry found)
          λ e t made.
            let (v, run, a) = add_to_balances-Added e e.lines t in
            let moved = subst₂ (λ x y. Added x x.lines y v) made.0 made.1 a in
            let was : entry.status ≡ approved = status_eq→≡ _ _ (true_of_not _ same) in
            Ends-bind _ (λ x u. Reconciled u) _ _ t
              (rw run (posted_in_place id entry s v found (ap in_ledger was) r moved))
              λ x u ru.
                Ends-bind _ (λ x u. Reconciled u) _ _ u
                  (Ends-intro _ _
                    λ y v run. (record_audit-Keeps {P = Reconciled} _ (λ s l h. h)).at u ru y v run)
                  λ x u ru. ru)))
