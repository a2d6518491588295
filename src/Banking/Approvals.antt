-- ===== src/Banking/Approvals.antt =====
-- backend/src/banking/bank-statements.ts: the approval of a line, a request of several transactions.
use advanced_accountancy.Prelude.{not, Option, none, some, [], ◌∷◌, if◌then◌else◌}
use advanced_accountancy.Prelude.Int.{neg}
use advanced_accountancy.Tx.{
  ok, Tx, pure, gets, or_throw, ◌>>=◌, ◌>>◌, not_found, no_suggestion, record_missing,
}
use advanced_accountancy.Schema.{
  Uuid, Day, BankStatement, BankStatementLine, line_reconciled, is_suggested, SuggestedType,
  customer_receipt, supplier_payment, AuditAction, AuditValue, Db, from_cents,
}
use advanced_accountancy.Tables.{find_row, update_row}
use advanced_accountancy.Audit.{record_audit, audit_row}
use advanced_accountancy.Sales.Receipts
use advanced_accountancy.Sales.Receipts.{CreateCustomerReceiptDto}
use advanced_accountancy.Purchasing.SupplierPayments
use advanced_accountancy.Purchasing.SupplierPayments.{CreateSupplierPaymentDto}
use advanced_accountancy.Tx.Requests.{Request, in_transaction, and_then, refuse}
use advanced_accountancy.Banking.Statements.{bank_statements, statement_lines}

-- The line that is to be approved, with its statement.
pub record Approvable : Type 0 where
  pub line : BankStatementLine
  pub statement : BankStatement

unfoldable pub read_line : Uuid → Tx Db Approvable
read_line line_id = do
  found ← gets (find_row statement_lines line_id)
  line ← or_throw found not_found
  of_line ← gets (find_row bank_statements line.bank_statement_id)
  statement ← or_throw of_line record_missing
  pure (record { line = line; statement = statement })

-- `line.suggestedCustomerId!`, which the type only asserts to be there.
abbrev pub id_or_zero : Option Uuid → Uuid
id_or_zero none = 0
id_or_zero (some id) = id

abbrev pub receipt_dto : BankStatementLine → BankStatement → Uuid → CreateCustomerReceiptDto
receipt_dto l b invoice_id = record {
  company_id = b.company_id;
  customer_id = id_or_zero l.suggested_customer_id;
  bank_account_id = b.bank_account_id;
  receipt_date = l.transaction_date;
  allocations = record { sales_invoice_id = invoice_id; amount = from_cents l.amount } ∷ [];
}

abbrev pub payment_dto : BankStatementLine → BankStatement → Uuid → CreateSupplierPaymentDto
payment_dto l b invoice_id = record {
  company_id = b.company_id;
  supplier_id = id_or_zero l.suggested_supplier_id;
  bank_account_id = b.bank_account_id;
  payment_date = l.transaction_date;
  allocations =
      record { supplier_invoice_id = invoice_id; amount = neg (from_cents l.amount) } ∷ [];
}

-- The document that the suggestion asks for: created, then posted, each in a transaction of its own.
-- The answer is the journal entry's id.
unfoldable pub book :
    Uuid
    → BankStatementLine
    → BankStatement
    → Uuid
    → Option SuggestedType
    → Request Db (Option Uuid)
book user_id l b invoice_id (some customer_receipt) =
    and_then (in_transaction (Receipts.create user_id (receipt_dto l b invoice_id))) λ receipt.
      and_then (in_transaction (Receipts.post user_id receipt.id))
        λ posted s. (ok posted.journal_entry_id, s)
book user_id l b invoice_id (some supplier_payment) =
    and_then (in_transaction (SupplierPayments.create user_id (payment_dto l b invoice_id)))
      λ payment.
        and_then (in_transaction (SupplierPayments.post user_id payment.id))
          λ posted s. (ok posted.journal_entry_id, s)
book user_id l b invoice_id none = refuse no_suggestion

abbrev pub mark_reconciled : Option Uuid → Day → BankStatementLine → BankStatementLine
mark_reconciled entry_id now l = record l {
  status = line_reconciled;
  matched_journal_entry_id = entry_id;
  reconciled_at = some now;
}

abbrev pub entry_value : Option Uuid → Option AuditValue
entry_value none = none
entry_value (some id) = some (AuditValue.journal_entry id)

unfoldable pub reconcile : Uuid → BankStatement → Uuid → Option Uuid → Tx Db BankStatementLine
reconcile user_id b line_id entry_id = do
  now ← gets (λ s. s.now)
  reconciled ← update_row statement_lines line_id (mark_reconciled entry_id now)
  record_audit (
      audit_row b.company_id user_id AuditAction.post "bank_statement_line" line_id none
        (entry_value entry_id))
  pure reconciled

-- The guard, and what follows it.
unfoldable pub approve_line : Uuid → Uuid → Approvable → Option Uuid → Request Db BankStatementLine
approve_line user_id line_id x none = refuse no_suggestion
approve_line user_id line_id x (some invoice_id) =
    if not (is_suggested x.line.status)
    then refuse no_suggestion
    else and_then (book user_id x.line x.statement invoice_id x.line.suggested_type)
        λ entry_id. in_transaction (reconcile user_id x.statement line_id entry_id)

-- `approveMatch`
unfoldable pub approve_match : Uuid → Uuid → Request Db BankStatementLine
approve_match user_id line_id =
    and_then (in_transaction (read_line line_id))
      λ x. approve_line user_id line_id x x.line.suggested_invoice_id
