-- ===== src/Audit.antt =====
-- backend/src/common/audit/audit.service.ts: one row for each business change, in its transaction.
use advanced_accountancy.Prelude.{String, Option, some, List, [], ◌∷◌, ◌++◌}
use advanced_accountancy.Tx.{Tx, modify}
use advanced_accountancy.Tx.Keeps.{Keeps, Keeps-modify}
use advanced_accountancy.Schema.{Uuid, AuditAction, AuditValue, AuditLog, Db}

-- `AuditService.record`
unfoldable pub record_audit : AuditLog → Tx Db (Unit {0})
record_audit entry = modify (λ s. record s { audit_logs = s.audit_logs ++ entry ∷ [] })

-- A row of the trail for a user's change of an entity.
abbrev pub audit_row :
    Uuid → Uuid → AuditAction → String → Uuid → Option AuditValue → Option AuditValue → AuditLog
audit_row company_id user_id action entity_type entity_id old_value new_value = record {
  company_id = some company_id;
  user_id = some user_id;
  action = action;
  entity_type = entity_type;
  entity_id = some entity_id;
  old_value = old_value;
  new_value = new_value;
}

-- The trail touches no other table.
pub record_audit-Keeps :
    {P : Db → Type 0} (entry : AuditLog)
    → ((s : Db) (logs : List AuditLog) → P s → P (record s { audit_logs = logs }))
    → Keeps P (record_audit entry)
unfolding record_audit
record_audit-Keeps entry k = Keeps-modify _ (λ s h. k s _ h)
