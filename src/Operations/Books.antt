-- ===== src/Operations/Books.antt =====
-- What every service does to the books: it posts events, or writes tables that are not the books.
use advanced_accountancy.Prelude.{◌≡◌, refl, String}
use advanced_accountancy.Prelude.Text.{Text}
use advanced_accountancy.Tx.{modify}
use advanced_accountancy.Tx.Keeps.{Keeps, Keeps-by, Keeps-modify, keeps_rules}
use advanced_accountancy.Schema.{Uuid, AuditLog, Db, fresh}
use advanced_accountancy.Audit.{record_audit, record_audit-Keeps}
use advanced_accountancy.Tables.{Table, create_row, update_row, create_row-Keeps, update_row-Keeps}
use advanced_accountancy.Accounting.Numbering.{next}
use advanced_accountancy.Accounting.Numbering.Sequence.{next-Keeps}
use advanced_accountancy.Accounting.Engine.{PostEventParams, post_event}

-- A predicate of the books, the journal and its balances, that the posting of an event keeps.
pub record Books (P : Db → Type 0) : Type 0 where
  pub frame :
      (s t : Db) → t.journal_entries ≡ s.journal_entries → t.gl_balances ≡ s.gl_balances → P s → P t
  pub event : (params : PostEventParams) → Keeps P (post_event params)

module _ {P : Db → Type 0} (b : Books P) where
  pub event-Keeps : (params : PostEventParams) → Keeps P (post_event params)
  event-Keeps params = b.event params

  pub audit-Keeps : (log : AuditLog) → Keeps P (record_audit log)
  audit-Keeps log = record_audit-Keeps log (λ s l h. b.frame s _ refl refl h)

  pub number-Keeps : (c : Uuid) (d : String) (prefix : Text) → Keeps P (next c d prefix)
  number-Keeps c d prefix = next-Keeps c d prefix (λ s q i h. b.frame s _ refl refl h)

  pub fresh-Keeps : Keeps P fresh
  fresh-Keeps = Keeps-by (λ s h. b.frame s _ refl refl h)

  -- A write that is not of the books.
  pub write-Keeps :
      (f : Db → Db)
      → ((s : Db) → (f s).journal_entries ≡ s.journal_entries)
      → ((s : Db) → (f s).gl_balances ≡ s.gl_balances)
      → Keeps P (modify f)
  write-Keeps f j g = Keeps-modify f (λ s h. b.frame s (f s) (j s) (g s) h)

  pub create_row-Books : {A : Type 0} (T : Table A) (make : Uuid → A) → Keeps P (create_row T make)
  create_row-Books T make =
      create_row-Keeps T make
        (λ s i xs h. b.frame s _ (T.same_journal xs _) (T.same_balances xs _) h)

  pub update_row-Books :
      {A : Type 0} (T : Table A) (id : Uuid) (change : A → A) → Keeps P (update_row T id change)
  update_row-Books T id change =
      update_row-Keeps T id change
        (λ s xs h. b.frame s _ (T.same_journal xs s) (T.same_balances xs s) h)

pub ruleset books_rules = (
  keeps_rules, event-Keeps, audit-Keeps, number-Keeps, fresh-Keeps, write-Keeps, create_row-Books,
  update_row-Books,
)
