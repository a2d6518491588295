-- ===== src/Accounting/Engine/Store.antt =====
-- The reads and writes of the journal that the engine and the manual entries share.
use advanced_accountancy.Prelude.{
  Bool, true, false, not, ◌&&◌, ◌||◌, Option, none, some, List, [], ◌∷◌, ◌++◌, ◌==◌, leb, find,
  modify_first, if◌then◌else◌,
}
use advanced_accountancy.Prelude.Int.{◌+ℤ◌}
use advanced_accountancy.Tx.{
  Tx, pure, gets, or_throw, modify, throw_if, ◌>>=◌, ◌>>◌, record_missing, immutable_row,
}
use advanced_accountancy.Schema.{
  Uuid, Day, Cents, FiscalYear, AccountingPeriod, JournalStatus, JournalEntry, JournalEntryLine,
  GlKey, GlAccountBalance, posted, reversed, status_eq, key_eq, Db, fresh,
}

-- `fiscalYear: { companyId }`: the period's year belongs to the company.
abbrev pub year_of : Uuid → Uuid → FiscalYear → Bool
year_of company_id id y = (y.id == id) && (y.company_id == company_id)

abbrev pub is_some {ℓ} : {A : Type ℓ} → Option A → Bool
is_some none = false
is_some (some _) = true

-- The `where` of the search for the period that covers a date.
unfoldable pub covers : List FiscalYear → Uuid → Day → AccountingPeriod → Bool
covers years company_id date p =
    is_some (find (year_of company_id p.fiscal_year_id) years)
    && leb p.start_date date
    && leb date p.end_date

abbrev pub has_id : Uuid → JournalEntry → Bool
has_id id e = e.id == id

-- `gl_balance_key` of a line; a missing dimension is the empty string there.
abbrev pub gl_key : JournalEntry → JournalEntryLine → GlKey
gl_key entry line = record {
  company_id = entry.company_id;
  accounting_period_id = entry.accounting_period_id;
  account_id = line.account_id;
  branch_id = entry.branch_id;
  department_id = line.dimensions.department_id;
  cost_centre_id = line.dimensions.cost_centre_id;
  profit_centre_id = line.dimensions.profit_centre_id;
}

-- The upsert on the unique key: increment the row, or create it.
unfoldable pub upsert_balance :
    GlKey → Cents → Cents → List GlAccountBalance → List GlAccountBalance
upsert_balance key debit credit [] =
    record { key = key; debit_total = debit; credit_total = credit } ∷ []
upsert_balance key debit credit (b ∷ rest) =
    if key_eq b.key key
    then record b { debit_total = b.debit_total +ℤ debit; credit_total = b.credit_total +ℤ credit }
      ∷ rest
    else b ∷ upsert_balance key debit credit rest

unfoldable pub update_gl_balance : GlKey → Cents → Cents → Tx Db (Unit {0})
update_gl_balance key debit credit =
    modify (λ s. record s { gl_balances = upsert_balance key debit credit s.gl_balances })

unfoldable pub create_entry : (Uuid → JournalEntry) → Tx Db JournalEntry
create_entry make = do
  id ← fresh
  modify (λ s. record s { journal_entries = s.journal_entries ++ make id ∷ [] })
  pure (make id)

-- The trigger on an update of `journal_entries`: of a posted or reversed row only the change from
-- posted to reversed is let through.
unfoldable pub frozen : JournalStatus → JournalStatus → Bool
unfolding status_eq
frozen old new =
    not (status_eq old posted && status_eq new reversed)
    && (status_eq old posted || status_eq old reversed)

-- `journalEntry.update({ where: { id } })`, which throws where there is no row.
unfoldable pub update_entry : Uuid → (JournalEntry → JournalEntry) → Tx Db JournalEntry
update_entry id change = do
  row ← gets (λ s. find (has_id id) s.journal_entries)
  before ← or_throw row record_missing
  throw_if (frozen before.status (change before).status) immutable_row
  modify (λ s. record s { journal_entries = modify_first (has_id id) change s.journal_entries })
  pure (change before)
