-- ===== src/Banking/Statements.antt =====
-- backend/src/banking/bank-statements.ts: a statement that is imported, and its lines.
use advanced_accountancy.Prelude.{
  ℕ, suc, Bool, Option, none, some, List, [], ◌∷◌, ◌==◌, length, find_many, refl,
}
use advanced_accountancy.Prelude.Text.{Text}
use advanced_accountancy.Tx.{Tx, pure, gets, or_throw, ◌>>=◌, ◌>>◌, not_found}
use advanced_accountancy.Schema.{
  Uuid, Day, Amount, BankStatement, BankStatementLine, line_unmatched, line_suggested, line_ignored,
  AuditAction, AuditValue, Db, to_cents,
}
use advanced_accountancy.Tables.{Table, find_row, create_row, update_row}
use advanced_accountancy.Audit.{record_audit, audit_row}
use advanced_accountancy.Banking.Matching.{MatchSuggestion, suggest}

pub record BankStatementLineInputDto : Type 0 where
  pub transaction_date : Day
  pub description : Text
  pub amount : Amount

pub record ImportBankStatementDto : Type 0 where
  pub company_id : Uuid
  pub bank_account_id : Uuid
  pub statement_date : Day
  pub lines : List BankStatementLineInputDto

abbrev pub bank_statements : Table BankStatement
bank_statements = record {
  rows = λ s. s.bank_statements;
  set_rows = λ xs s. record s { bank_statements = xs };
  id_of = λ r. r.id;
  holds = λ xs s. refl;
  audited = λ logs s. refl;
  same_journal = λ xs s. refl;
  same_balances = λ xs s. refl;
}

abbrev pub statement_lines : Table BankStatementLine
statement_lines = record {
  rows = λ s. s.bank_statement_lines;
  set_rows = λ xs s. record s { bank_statement_lines = xs };
  id_of = λ r. r.id;
  holds = λ xs s. refl;
  audited = λ logs s. refl;
  same_journal = λ xs s. refl;
  same_balances = λ xs s. refl;
}

abbrev pub new_statement : ImportBankStatementDto → Uuid → BankStatement
new_statement dto id = record {
  id = id;
  company_id = dto.company_id;
  bank_account_id = dto.bank_account_id;
  statement_date = dto.statement_date;
}

abbrev pub new_line : Uuid → ℕ → BankStatementLineInputDto → Uuid → BankStatementLine
new_line statement_id line_no l id = record {
  id = id;
  bank_statement_id = statement_id;
  line_no = line_no;
  transaction_date = l.transaction_date;
  description = l.description;
  amount = to_cents l.amount;
  status = line_unmatched;
  suggested_type = none;
  suggested_customer_id = none;
  suggested_supplier_id = none;
  suggested_invoice_id = none;
  confidence_score = none;
  matched_journal_entry_id = none;
  reconciled_at = none;
}

-- The lines that `bankStatement.create` writes, from line number `n` on.
unfoldable pub create_lines :
    Uuid → ℕ → List BankStatementLineInputDto → Tx Db (List BankStatementLine)
create_lines statement_id n [] = pure []
create_lines statement_id n (l ∷ rest) = do
  line ← create_row statement_lines (new_line statement_id n l)
  lines ← create_lines statement_id (suc n) rest
  pure (line ∷ lines)

abbrev pub with_suggestion : MatchSuggestion → BankStatementLine → BankStatementLine
with_suggestion m l = record l {
  status = line_suggested;
  suggested_type = some m.suggested_type;
  suggested_customer_id = m.suggested_customer_id;
  suggested_supplier_id = m.suggested_supplier_id;
  suggested_invoice_id = some m.suggested_invoice_id;
  confidence_score = some m.confidence_score;
}

-- `if (suggestion)`
unfoldable pub store_suggestion : Uuid → Option MatchSuggestion → Tx Db (Unit {0})
store_suggestion line_id none = pure tt
store_suggestion line_id (some m) = do
  updated ← update_row statement_lines line_id (with_suggestion m)
  pure tt

-- The loop over the lines.
unfoldable pub suggest_lines : Uuid → List BankStatementLine → Tx Db (Unit {0})
suggest_lines company_id [] = pure tt
suggest_lines company_id (l ∷ rest) = do
  suggestion ← suggest company_id l.description l.amount
  store_suggestion l.id suggestion
  suggest_lines company_id rest

abbrev pub of_statement : Uuid → BankStatementLine → Bool
of_statement id l = l.bank_statement_id == id

-- A statement with its lines.
pub record StatementWithLines : Type 0 where
  pub statement : BankStatement
  pub lines : List BankStatementLine

-- `import`
unfoldable pub import_statement : Uuid → ImportBankStatementDto → Tx Db StatementWithLines
import_statement user_id dto = do
  statement ← create_row bank_statements (new_statement dto)
  lines ← create_lines statement.id 1 dto.lines
  suggest_lines dto.company_id lines
  record_audit (
      audit_row dto.company_id user_id AuditAction.create "bank_statement" statement.id none
        (some (AuditValue.line_count (length lines))))
  stored ← gets (λ s. find_many (of_statement statement.id) s.bank_statement_lines)
  pure (record { statement = statement; lines = stored })

abbrev pub mark_ignored : BankStatementLine → BankStatementLine
mark_ignored l = record l { status = line_ignored }

-- `ignoreLine`
unfoldable pub ignore_line : Uuid → Uuid → Tx Db BankStatementLine
ignore_line user_id line_id = do
  found ← gets (find_row statement_lines line_id)
  line ← or_throw found not_found
  updated ← update_row statement_lines line_id mark_ignored
  record_audit (record {
    company_id = none;
    user_id = some user_id;
    action = AuditAction.edit;
    entity_type = "bank_statement_line";
    entity_id = some line_id;
    old_value = none;
    new_value = some (AuditValue.line_status line_ignored);
  })
  pure updated
