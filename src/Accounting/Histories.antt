-- ===== src/Accounting/Histories.antt =====
-- Any sequence of committed transactions: those of the engine (accounting-engine.service.ts) and of
-- the manual workflow (journal-entries.service.ts), between those of services that do not write
-- the journal. Concurrent transactions are serialised by the database, in some order.
use mathlib.Core.Path.{subst, subst₂}
use advanced_accountancy.Prelude.{◌≡◌, refl, sym, Option, some, List}
use advanced_accountancy.Tx.{ok}
use advanced_accountancy.Tx.Ends.{Ends→, Ends-intro, Ends-bind, Ends-gets}
use advanced_accountancy.Schema.{
  Uuid, Day, JournalEntry, draft, submitted, approved, AuditAction, AuditLog, Db,
}
use advanced_accountancy.Audit.{record_audit-Keeps}
use advanced_accountancy.Accounting.Engine
use advanced_accountancy.Accounting.Engine.{PostEventParams, has_id, post_event}
use advanced_accountancy.Accounting.Engine.Ledger.{Agrees, Reconciled}
use advanced_accountancy.Accounting.Engine.Post.{post_event-Keeps}
use advanced_accountancy.Accounting.Engine.Mirror.{reverse-Reconciled}
use advanced_accountancy.Accounting.JournalEntries
use advanced_accountancy.Accounting.JournalEntries.{
  CreateJournalEntryDto, create, submit, approve, post, reversal_day,
}
use advanced_accountancy.Accounting.JournalEntries.Reconcile.{
  create-Keeps, transition-Holds, post-Holds,
}
use advanced_accountancy.Accounting.JournalEntries.Lifecycle
use advanced_accountancy.Accounting.JournalEntries.Lifecycle.{
  Follows, Preserves, Preserves-refl, Preserves-trans,
}
use advanced_accountancy.Accounting.JournalEntries.Preserve.{
  Since, create-Since, post_event-Since, transition-Preserves, post-Preserves, reverse-Preserves,
}

-- One committed transaction.
pub data Step (s t : Db) : Type 0 where
  posted_event :
      (params : PostEventParams) (e : JournalEntry) → post_event params s ≡ ok (e, t) → Step s t
  reversed_event :
      (id : Uuid) (date : Day) (by : Option Uuid) (e : JournalEntry)
      → Engine.reverse id date by s ≡ ok (e, t)
      → Step s t
  created :
      (user : Uuid) (dto : CreateJournalEntryDto) (e : JournalEntry)
      → create user dto s ≡ ok (e, t)
      → Step s t
  submitted_entry : (user id : Uuid) (e : JournalEntry) → submit user id s ≡ ok (e, t) → Step s t
  approved_entry : (user id : Uuid) (e : JournalEntry) → approve user id s ≡ ok (e, t) → Step s t
  posted_entry : (user id : Uuid) (e : JournalEntry) → post user id s ≡ ok (e, t) → Step s t
  reversed_entry :
      (user id : Uuid) (date : Option Day) (e : JournalEntry)
      → JournalEntries.reverse user id date s ≡ ok (e, t)
      → Step s t
  elsewhere : t.journal_entries ≡ s.journal_entries → t.gl_balances ≡ s.gl_balances → Step s t

pub data History (s : Db) : Db → Type 0 where
  start : History s s
  then_step : {t u : Db} → History s t → Step t u → History s u

-- What the engine's reversal establishes for each later state, the audited one has too.
audited_reverse :
    (Q : Db → Type 0) (user id : Uuid) (date : Option Day) (s t : Db) (e : JournalEntry)
    → ((x : Db) (l : List AuditLog) → Q x → Q (record x { audit_logs = l }))
    → ((d : Day) (x : JournalEntry) (u : Db) → Engine.reverse id d (some user) s ≡ ok (x, u) → Q u)
    → JournalEntries.reverse user id date s ≡ ok (e, t)
    → Q t
audited_reverse Q user id date s t e logs engine run =
    Ends→ (λ x u. Q u) (JournalEntries.reverse user id date s) e t run
      (unfold JournalEntries.reverse in
        Ends-gets _ _ _ s (
          Ends-bind _ (λ x u. Q u) _ _ s (Ends-intro _ _ λ x u done. engine _ x u done)
            λ x u q.
              Ends-bind _ (λ y v. Q v) _ _ u
                (Ends-intro _ _ λ y v audit. (record_audit-Keeps {P = Q} _ logs).at u q y v audit)
                λ y v qv. qv))

pub Step-Reconciled : (s t : Db) → Step s t → Reconciled s → Reconciled t
unfolding submit approve
Step-Reconciled s t (posted_event params e run) r = (post_event-Keeps params).at s r e t run
Step-Reconciled s t (reversed_event id date by e run) r = reverse-Reconciled id date by s t e r run
Step-Reconciled s t (created user dto e run) r = (create-Keeps user dto).at s r e t run
Step-Reconciled s t (submitted_entry user id e run) r =
    Ends→ _ (submit user id s) e t run
      (transition-Holds user id draft submitted AuditAction.edit s refl refl r)
Step-Reconciled s t (approved_entry user id e run) r =
    Ends→ _ (approve user id s) e t run
      (transition-Holds user id submitted approved AuditAction.approve s refl refl r)
Step-Reconciled s t (posted_entry user id e run) r =
    Ends→ _ (post user id s) e t run (post-Holds user id s r)
Step-Reconciled s t (reversed_entry user id date e run) r =
    audited_reverse Reconciled user id date s t e (λ x l h. h)
      (λ d x u done. reverse-Reconciled id d (some user) s u x r done) run
Step-Reconciled s t (elsewhere j g) r = λ w. subst₂ (λ b k. Agrees w b k) (sym g) (sym j) (r w)

-- After any history that begins reconciled, as an empty journal does, the balances total over every
-- selection of keys what the posted and reversed entries total.
pub History-Reconciled : {s t : Db} → History s t → Reconciled s → Reconciled t
History-Reconciled start r = r
History-Reconciled (then_step {t} {u} h step) r = Step-Reconciled t u step (History-Reconciled h r)

pub Step-Preserves : (s t : Db) → Step s t → Since s.journal_entries t
unfolding submit approve
Step-Preserves s t (posted_event params e run) =
    (post_event-Since s.journal_entries params).at s (Preserves-refl s.journal_entries) e t run
Step-Preserves s t (reversed_event id date by e run) = reverse-Preserves id date by s t e run
Step-Preserves s t (created user dto e run) =
    (create-Since s.journal_entries user dto).at s (Preserves-refl s.journal_entries) e t run
Step-Preserves s t (submitted_entry user id e run) =
    Ends→ _ (submit user id s) e t run
      (transition-Preserves user id draft submitted AuditAction.edit s Lifecycle.submit)
Step-Preserves s t (approved_entry user id e run) =
    Ends→ _ (approve user id s) e t run
      (transition-Preserves user id submitted approved AuditAction.approve s Lifecycle.approve)
Step-Preserves s t (posted_entry user id e run) =
    Ends→ _ (post user id s) e t run (post-Preserves user id s)
Step-Preserves s t (reversed_entry user id date e run) =
    audited_reverse (Since s.journal_entries) user id date s t e (λ x l h. h)
      (λ d x u done. reverse-Preserves id d (some user) s u x done) run
Step-Preserves s t (elsewhere j g) =
    subst (Preserves s.journal_entries) (sym j) (Preserves-refl s.journal_entries)

-- No history loses an entry or changes what it says: an entry stays under its id with all but its
-- status and posting time, and its status only moves from draft through submitted and approved to
-- posted and on to reversed.
pub History-Preserves : {s t : Db} → History s t → Preserves s.journal_entries t.journal_entries
History-Preserves {s} start = Preserves-refl s.journal_entries
History-Preserves {s} (then_step {t} {u} h step) =
    Preserves-trans s.journal_entries t.journal_entries u.journal_entries (History-Preserves h)
      (Step-Preserves t u step)
