-- ===== src/Consolidation/Intercompany.antt =====
-- backend/src/consolidation/intercompany-transactions.ts: a pair of entries in two companies' books.
use advanced_accountancy.Prelude.{String, not, Option, none, some, refl}
use advanced_accountancy.Tx.{
  Tx, pure, gets, or_throw, throw_if, ◌>>=◌, ◌>>◌, not_found, wrong_status,
}
use advanced_accountancy.Schema.{
  Uuid, Amount, IntercompanyTransaction, unmatched, matched, match_eq, AuditAction, AuditValue,
  AuditLog, Db, to_cents,
}
use advanced_accountancy.Tables.{Table, find_row, create_row, update_row}
use advanced_accountancy.Audit.{record_audit}

pub record RecordIntercompanyTransactionDto : Type 0 where
  pub business_group_id : Uuid
  pub company_a_id : Uuid
  pub company_b_id : Uuid
  pub company_a_entry_id : Uuid
  pub amount : Amount
  pub currency_code : String

abbrev pub intercompany_transactions : Table IntercompanyTransaction
intercompany_transactions = record {
  rows = λ s. s.intercompany_transactions;
  set_rows = λ xs s. record s { intercompany_transactions = xs };
  id_of = λ r. r.id;
  holds = λ xs s. refl;
  audited = λ logs s. refl;
  same_journal = λ xs s. refl;
  same_balances = λ xs s. refl;
}

abbrev pub new_transaction : RecordIntercompanyTransactionDto → Uuid → IntercompanyTransaction
new_transaction dto id = record {
  id = id;
  business_group_id = dto.business_group_id;
  company_a_id = dto.company_a_id;
  company_b_id = dto.company_b_id;
  company_a_entry_id = dto.company_a_entry_id;
  company_b_entry_id = none;
  amount = to_cents dto.amount;
  currency_code = dto.currency_code;
  status = unmatched;
}

-- A row of the trail that names no company.
abbrev pub group_row : Uuid → AuditAction → String → Uuid → Option AuditValue → AuditLog
group_row user_id action entity_type entity_id new_value = record {
  company_id = none;
  user_id = some user_id;
  action = action;
  entity_type = entity_type;
  entity_id = some entity_id;
  old_value = none;
  new_value = new_value;
}

unfoldable pub create : Uuid → RecordIntercompanyTransactionDto → Tx Db IntercompanyTransaction
create user_id dto = do
  row ← create_row intercompany_transactions (new_transaction dto)
  record_audit (
      group_row user_id AuditAction.create "intercompany_transaction" row.id (
        some (
          AuditValue.intercompany_dto dto.business_group_id dto.company_a_id dto.company_b_id
            dto.company_a_entry_id dto.amount dto.currency_code)))
  pure row

abbrev pub mark_matched : Uuid → IntercompanyTransaction → IntercompanyTransaction
mark_matched company_b_entry_id r = record r {
  company_b_entry_id = some company_b_entry_id;
  status = matched;
}

-- `match`
unfoldable pub match_entry : Uuid → Uuid → Uuid → Tx Db IntercompanyTransaction
match_entry user_id id company_b_entry_id = do
  found ← gets (find_row intercompany_transactions id)
  row ← or_throw found not_found
  throw_if (not (match_eq row.status unmatched)) wrong_status
  updated ← update_row intercompany_transactions id (mark_matched company_b_entry_id)
  record_audit (
      group_row user_id AuditAction.edit "intercompany_transaction" id
        (some (AuditValue.match_status matched)))
  pure updated
