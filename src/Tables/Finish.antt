-- ===== src/Tables/Finish.antt =====
-- The two ends of a document's posting: the event, which leaves the document's table alone, and the
-- update of the row with its line in the audit trail.
use advanced_accountancy.Prelude.{◌≡◌, refl, ◌∙◌, some, List, modify_first}
use advanced_accountancy.Tx.{Tx, pure, ok, ◌>>=◌, ◌>>◌}
use advanced_accountancy.Tx.Keeps.{Keeps, Keeps-bind, Keeps-pure}
use advanced_accountancy.Tx.Ends.{Ends, Ends-intro, Ends-bind}
use advanced_accountancy.Schema.{Uuid, AuditLog, Db}
use advanced_accountancy.Audit.{record_audit, record_audit-Keeps}
use advanced_accountancy.Accounting.Engine.{PostEventParams, post_event}
use advanced_accountancy.Accounting.Engine.Frame.{Frame, post_event-Frame}
use advanced_accountancy.Tables.{
  Table, has_id, find_row, update_row, update_row-Ends, update_row-Keeps,
}

-- An event that posts, and what it keeps.
pub event-Ends :
    (P : Db → Type 0) (params : PostEventParams) (s : Db)
    → Frame P
    → P s
    → Ends (λ e u. (post_event params s ≡ ok (e, u)) × P u) (post_event params s)
event-Ends P params s k h =
    Ends-intro (λ e u. (post_event params s ≡ ok (e, u)) × P u) (post_event params s)
      λ e u run. (run, (post_event-Frame k params).at s h e u run)

module _ {A : Type 0} (T : Table A) where
  abbrev pub finish : Uuid → (A → A) → AuditLog → Tx Db A
  finish id change log = update_row T id change >>= λ posted. record_audit log >> pure posted

  -- What is returned, the rows, and the journal as it was.
  pub record Finished (id : Uuid) (change : A → A) (s : Db) (before a : A) (t : Db) : Type 0 where
    pub value : a ≡ change before
    pub rows : T.rows t ≡ modify_first (has_id T id) change (T.rows s)
    pub journal : t.journal_entries ≡ s.journal_entries

  audit-Ends :
      (log : AuditLog) (s : Db)
      → Ends
          (λ x t. (T.rows t ≡ T.rows s) × (t.journal_entries ≡ s.journal_entries))
          (record_audit log s)
  unfolding record_audit
  audit-Ends log s = (T.audited _ s, refl)

  pub finish-Ends :
      (id : Uuid) (change : A → A) (log : AuditLog) (s : Db) (before : A)
      → find_row T id s ≡ some before
      → Ends (λ a t. Finished id change s before a t) (finish id change log s)
  finish-Ends id change log s before found =
      Ends-bind _
        (λ a t.
          (a ≡ change before)
          × (T.rows t ≡ modify_first (has_id T id) change (T.rows s))
          × (t.journal_entries ≡ s.journal_entries))
        _ _ s (update_row-Ends T id change s before found)
        λ a t done.
          Ends-bind _ (λ x u. (T.rows u ≡ T.rows t) × (u.journal_entries ≡ t.journal_entries)) _ _ t
            (audit-Ends log t)
            λ x u logged. record {
              value = done.0;
              rows = logged.0 ∙ done.1;
              journal = logged.1 ∙ done.2;
            }

  -- What reads neither the table nor the trail is kept.
  pub finish-Keeps :
      {P : Db → Type 0} (id : Uuid) (change : A → A) (log : AuditLog)
      → ((s : Db) (xs : List A) → P s → P (T.set_rows xs s))
      → ((s : Db) (logs : List AuditLog) → P s → P (record s { audit_logs = logs }))
      → Keeps P (finish id change log)
  finish-Keeps id change log k l =
      Keeps-bind _ _ (update_row-Keeps T id change k)
        λ a. Keeps-bind _ _ (record_audit-Keeps log l) λ _. Keeps-pure a
