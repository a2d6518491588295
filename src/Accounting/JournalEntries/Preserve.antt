-- ===== src/Accounting/JournalEntries/Preserve.antt =====
-- Each operation of the journal keeps every entry on its way.
use mathlib.Core.Path.{subst}
use advanced_accountancy.Prelude.{
  ◌≡◌, sym, ap, ◌∙◌, Option, some, List, [], ◌∷◌, ◌++◌, find, find-append,
}
use advanced_accountancy.Prelude.{String}
use advanced_accountancy.Prelude.Text.{Text}
use advanced_accountancy.Accounting.Numbering.{next}
use advanced_accountancy.Tx.{ok, ◌>>=◌}
use advanced_accountancy.Tx.Keeps.{Keeps, Keeps-by, keeps_rules}
use advanced_accountancy.Tx.Ends.{
  Ends, Ends→, Ends-intro, Ends-bind, Ends-gets, Ends-or_throw, Ends-throw_if, Ends-map,
}
use advanced_accountancy.Schema.{
  Uuid, Day, JournalEntry, JournalEntryLine, JournalStatus, approved, posted, reversed,
  AccountingPeriod, PostingRule, AuditAction, AuditLog, Db,
}
use advanced_accountancy.Audit.{record_audit, record_audit-Keeps}
use advanced_accountancy.Accounting.Numbering.Sequence.{next-Keeps}
use advanced_accountancy.Accounting.Engine.{
  PostEventParams, LineInput, has_id, create_entry, update_entry, add_to_balances, record_event,
  post_event,
}
use advanced_accountancy.Accounting.Engine
use advanced_accountancy.Accounting.Engine.Ledger.{add_to_balances-Added}
use advanced_accountancy.Accounting.Engine.Post.{build_lines-Keeps}
use advanced_accountancy.Accounting.Engine.Reverse.{reverse-Ends}
use advanced_accountancy.Accounting.Engine.Mirror.{found_by_id}
use advanced_accountancy.Accounting.Engine.Update.{
  Updated, update_entry-Ends, status_eq→≡, true_of_not,
}
use advanced_accountancy.Accounting.JournalEntries.{
  CreateJournalEntryDto, create, transition, post, mark_posted,
}
use advanced_accountancy.Accounting.JournalEntries.Lifecycle.{
  Edge, Preserves, Preserves-trans, Preserves-append, Preserves-change,
}

-- The journal has kept what it held in `j`.
abbrev pub Since : List JournalEntry → Db → Type 0
Since j x = Preserves j x.journal_entries

module _ (j : List JournalEntry) where
  create_entry-Since : (make : Uuid → JournalEntry) → Keeps (Since j) (create_entry make)
  unfolding create_entry ◌>>=◌
  create_entry-Since make =
      Keeps-by λ s h. Preserves-trans _ _ _ h (Preserves-append s.journal_entries (make s.next_id))

  add_to_balances-Since :
      (e : JournalEntry) (ls : List JournalEntryLine) → Keeps (Since j) (add_to_balances e ls)
  add_to_balances-Since e ls = Keeps-by λ s h.
      let (t, run, a) = add_to_balances-Added e ls s in rw run (subst (Since j) (sym a.rest) h)

  record_audit-Since : (log : AuditLog) → Keeps (Since j) (record_audit log)
  record_audit-Since log = record_audit-Keeps log (λ s l h. h)

  number-Since : (c : Uuid) (d : String) (prefix : Text) → Keeps (Since j) (next c d prefix)
  number-Since c d prefix = next-Keeps c d prefix (λ s q i h. h)

  ruleset since_rules =
      (keeps_rules, number-Since, create_entry-Since, add_to_balances-Since, record_audit-Since)

  record_event-Since :
      (params : PostEventParams) (period : AccountingPeriod) (rule : PostingRule)
      (inputs : List LineInput)
      → Keeps (Since j) (record_event params period rule inputs)
  unfolding record_event
  record_event-Since params period rule inputs = search since_rules depth 12

  pub post_event-Since : (params : PostEventParams) → Keeps (Since j) (post_event params)
  unfolding post_event
  post_event-Since params = search (since_rules, build_lines-Keeps, record_event-Since) depth 12

  pub create-Since : (user : Uuid) (dto : CreateJournalEntryDto) → Keeps (Since j) (create user dto)
  unfolding create
  create-Since user dto = search since_rules depth 12

-- A change of status along an edge of the life.
pub transition-Preserves :
    (user id : Uuid) (from to : JournalStatus) (a : AuditAction) (s : Db)
    → Edge from to
    → Ends (λ e t. Since s.journal_entries t) (transition user id from to a s)
unfolding transition
transition-Preserves user id from to a s edge = Ends-gets _ _ _ s (
    Ends-or_throw _ _ _ _ s λ entry found. Ends-throw_if _ _ _ _ s λ same.
      let was : entry.status ≡ from = status_eq→≡ _ _ (true_of_not _ same) in
      Ends-bind _ (λ e t. Since s.journal_entries t) _ _ s
        (Ends-map _ (Updated id (λ e. record e { status = to }) entry s) _
          (update_entry-Ends id _ s entry found)
          λ e t made. subst (Since s.journal_entries) (sym made.1) (
            Preserves-change id to (λ at. at) s.journal_entries entry found
              (subst (λ (b : JournalStatus). Edge b to) (sym was) edge)))
        λ e t kept.
          Ends-bind _ (λ x u. Since s.journal_entries u) _ _ t
            (Ends-intro _ _ λ x u run. (record_audit-Since s.journal_entries _).at t kept x u run)
            λ x u ru. ru)

pub post-Preserves :
    (user id : Uuid) (s : Db) → Ends (λ e t. Since s.journal_entries t) (post user id s)
unfolding post
post-Preserves user id s = Ends-gets _ _ _ s (
    Ends-or_throw _ _ _ _ s λ entry found. Ends-throw_if _ _ _ _ s λ same. Ends-gets _ _ _ s (
      Ends-or_throw _ _ _ _ s λ period _. Ends-throw_if _ _ _ _ s λ _. Ends-gets _ _ _ s (
        Ends-bind _ (λ e t. Since s.journal_entries t) _ _ s
          (Ends-map _ (Updated id (mark_posted s.now) entry s) _
            (update_entry-Ends id (mark_posted s.now) s entry found)
            λ e t made.
              let was : entry.status ≡ approved = status_eq→≡ _ _ (true_of_not _ same) in
              subst (Since s.journal_entries) (sym made.1) (
                Preserves-change id posted (λ at. some s.now) s.journal_entries entry found
                  (subst (λ (b : JournalStatus). Edge b posted) (sym was) Edge.post)))
          λ e t kept.
            Ends-bind _ (λ x u. Since s.journal_entries u) _ _ t
              (Ends-intro _ _
                λ x u run. (add_to_balances-Since s.journal_entries e e.lines).at t kept x u run)
              λ x u ru.
                Ends-bind _ (λ x u. Since s.journal_entries u) _ _ u
                  (Ends-intro _ _
                    λ y v run. (record_audit-Since s.journal_entries _).at u ru y v run)
                  λ x u ru. ru)))

pub reverse-Preserves :
    (id : Uuid) (date : Day) (by : Option Uuid) (s t : Db) (e : JournalEntry)
    → Engine.reverse id date by s ≡ ok (e, t)
    → Since s.journal_entries t
reverse-Preserves id date by s t e run =
    let (original, found, p, r) =
      Ends→ _ (Engine.reverse id date by s) e t run (reverse-Ends id date by s) in
    let found' : find (has_id original.id) s.journal_entries ≡ some original =
      ap (λ (i : Uuid). find (has_id i) s.journal_entries)
        (found_by_id id original s.journal_entries found)
      ∙ found in
    subst (Preserves s.journal_entries) (sym r.journal) (
      Preserves-trans _ _ _ (Preserves-append s.journal_entries e) (
        Preserves-change original.id reversed (λ at. at) (s.journal_entries ++ e ∷ []) original
          (find-append (has_id original.id) s.journal_entries (e ∷ []) found')
          (subst (λ (b : JournalStatus). Edge b reversed) (sym p) Edge.reverse)))
