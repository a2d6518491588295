-- ===== src/Tables/Success.antt =====
-- The two ends of a document's posting commit: the event that the tables let post, and the update of
-- a row that is there.
use advanced_accountancy.Prelude.{◌≡◌, refl, Option, none, some, modify_first}
use advanced_accountancy.Tx.{ok, ◌>>=◌}
use advanced_accountancy.Tx.Commits.{Commits, Commits-bind, Commits-modify}
use advanced_accountancy.Schema.{Uuid, AuditLog, JournalEntry, Db}
use advanced_accountancy.Audit.{record_audit}
use advanced_accountancy.Accounting.Engine.{PostEventParams, post_event}
use advanced_accountancy.Accounting.Engine.Frame.{Frame, post_event-Frame}
use advanced_accountancy.Accounting.Engine.Postable.{Postable, post_event-Commits}
use advanced_accountancy.Tables.{Table, has_id, find_row, update_row}
use advanced_accountancy.Tables.Finish.{finish}

-- An event posts, and what it keeps still holds.
pub event-Commits :
    (P : Db → Type 0) (params : PostEventParams) (s : Db)
    → Frame P
    → P s
    → Postable params s
    → (e : JournalEntry) × (u : Db) × (post_event params s ≡ ok (e, u)) × P u
event-Commits P params s k h p =
    let (e, u, run) = post_event-Commits params s p in
    (e, u, run, (post_event-Frame k params).at s h e u run)

-- The line in the audit trail, and the value.
pub audit-Commits :
    {A : Type 0} (log : AuditLog) (a : A) (s : Db)
    → Commits ((record_audit log >>= λ x t. ok (a, t)) s)
unfolding record_audit
audit-Commits log a s = Commits-modify _ _ s (_, _, refl)

pub update_row_run :
    {A : Type 0} (T : Table A) (id : Uuid) (change : A → A) (s : Db) (before : A)
    → find_row T id s ≡ some before
    → update_row T id change s
      ≡ ok (change before, T.set_rows (modify_first (has_id T id) change (T.rows s)) s)
unfolding update_row ◌>>=◌
update_row_run T id change s before found = rw found refl

pub finish-Commits :
    {A : Type 0} (T : Table A) (id : Uuid) (change : A → A) (log : AuditLog) (s : Db) (before : A)
    → find_row T id s ≡ some before
    → Commits (finish T id change log s)
finish-Commits T id change log s before found =
    let t = T.set_rows (modify_first (has_id T id) change (T.rows s)) s in
    Commits-bind _ _ s (change before) t (update_row_run T id change s before found)
      (audit-Commits log (change before) t)

-- The row that a document names, where it names one, is there.
abbrev pub IsThere : {A : Type 0} → Table A → Option Uuid → Db → Type 0
IsThere {A} T none s = Unit
IsThere {A} T (some id) s = (a : A) × (find_row T id s ≡ some a)
