-- ===== src/Accounting/Engine.antt =====
-- backend/src/accounting/accounting-engine.service.ts: the one place that writes posted entries by
-- rule. `post_event` and `reverse` are the service's methods, the others its private ones.
mod Store
mod Params
pub mod Ledger
pub mod Update
pub mod Post
pub mod Frame
pub mod Reverse
pub mod Mirror
pub mod Origin
pub mod Balance
pub mod Totals
pub mod Resolving
pub mod Postable
unfoldable pub use Store.*
unfoldable pub use Params.*
use advanced_accountancy.Prelude.{
  ℕ, String, Bool, true, false, not, ◌&&◌, Option, none, some, List, [], ◌∷◌, ◌++◌, map, ◌==◌, ltb,
  leb, find, sum_by, sort_by, lookup, str_eq, if◌then◌else◌,
}
use advanced_accountancy.Prelude.Int.{ℤ, pos, ◌-ℤ◌, neg, abs, is_zero}
use advanced_accountancy.Prelude.Text.{Text, codes, strip_prefix}
use advanced_accountancy.Tx.{
  Tx, pure, throw, gets, or_throw, throw_if, ◌>>=◌, ◌>>◌, no_posting_rule, no_period,
  period_not_open, rule_unbalanced, entry_not_found, not_posted, no_open_period, no_control_account,
  missing_override, foreign_override, unknown_resolver,
}
use advanced_accountancy.Schema.{
  Uuid, Day, Amount, ChartOfAccount, Side, debit, credit, PostingRule, PostingRuleLine,
  AccountingPeriod, is_open, JournalEntry, JournalEntryLine, posted, reversed, status_eq,
  Dimensions, Db, to_cents,
}
use advanced_accountancy.Accounting.Numbering.{next}

-- `BALANCE_TOLERANCE`, 0.01
abbrev pub balance_tolerance : ℕ
balance_tolerance = 1000000

abbrev pub is_control : Uuid → String → ChartOfAccount → Bool
is_control company_id control_type a =
    (a.company_id == company_id)
    && (elim a.control_type [ none ↦ false | some c ↦ str_eq c control_type ])
    && a.is_active

abbrev pub is_account : Uuid → Uuid → ChartOfAccount → Bool
is_account company_id id a = (a.id == id) && (a.company_id == company_id)

control_account : Uuid → String → Tx Db Uuid
control_account company_id control_type = do
  account ← gets (λ s. find (is_control company_id control_type) s.chart_of_accounts)
  found ← or_throw account no_control_account
  pure found.id

override_account : Uuid → Option Uuid → Tx Db Uuid
override_account company_id override = do
  account_id ← or_throw override missing_override
  account ← gets (λ s. find (is_account company_id account_id) s.chart_of_accounts)
  found ← or_throw account foreign_override
  pure found.id

resolve_override : Uuid → List (String × Uuid) → Option String → Tx Db Uuid
unfolding override_account
resolve_override company_id overrides (some key) =
    override_account company_id (lookup key overrides)
resolve_override company_id overrides none = throw unknown_resolver

pub resolve_by : Uuid → String → List (String × Uuid) → Option String → Tx Db Uuid
unfolding control_account resolve_override
resolve_by company_id resolver overrides (some control_type) =
    control_account company_id control_type
resolve_by company_id resolver overrides none =
    resolve_override company_id overrides (strip_prefix "OVERRIDE:" resolver)

unfoldable pub resolve_account : Uuid → String → List (String × Uuid) → Tx Db Uuid
unfolding resolve_by
resolve_account company_id resolver overrides =
    resolve_by company_id resolver overrides (strip_prefix "CONTROL:" resolver)

-- `Number(params.amounts[source])`, 0 where there is none.
abbrev pub or_zero : Option Amount → Amount
or_zero none = pos 0
or_zero (some a) = a

abbrev pub amount_of : List (String × Amount) → String → Amount
amount_of amounts source = or_zero (lookup source amounts)

abbrev pub on_debit : Side → Amount → Amount
on_debit debit a = a
on_debit credit a = pos 0

abbrev pub on_credit : Side → Amount → Amount
on_credit debit a = pos 0
on_credit credit a = a

abbrev pub to_input : PostingRuleLine → Amount → Uuid → LineInput
to_input rule_line amount account_id = record {
  line_no = rule_line.line_no;
  account_id = account_id;
  debit = on_debit rule_line.side amount;
  credit = on_credit rule_line.side amount;
}

-- The loop over the rule's lines; a zero amount has no line.
unfoldable pub build_lines : PostEventParams → List PostingRuleLine → Tx Db (List LineInput)
build_lines params [] = pure []
build_lines params (rule_line ∷ rest) =
    let later = build_lines params rest in
    let amount = amount_of params.amounts rule_line.amount_source in
    if is_zero amount then later else do
      account_id ←
          resolve_account params.company_id rule_line.account_resolver params.account_overrides
      inputs ← later
      pure (to_input rule_line amount account_id ∷ inputs)

abbrev pub to_line : Dimensions → LineInput → JournalEntryLine
to_line dimensions l = record {
  line_no = l.line_no;
  account_id = l.account_id;
  debit = to_cents l.debit;
  credit = to_cents l.credit;
  base_currency_amount = to_cents (l.debit -ℤ l.credit);
  dimensions = dimensions;
  description = none;
}

-- The loop that adds an entry's lines to the balances.
unfoldable pub add_to_balances : JournalEntry → List JournalEntryLine → Tx Db (Unit {0})
add_to_balances entry [] = pure tt
add_to_balances entry (l ∷ rest) = do
  update_gl_balance (gl_key entry l) l.debit l.credit
  add_to_balances entry rest

abbrev pub total_debit : List LineInput → Amount
total_debit = sum_by (λ l. l.debit)

abbrev pub total_credit : List LineInput → Amount
total_credit = sum_by (λ l. l.credit)

abbrev pub is_rule : Uuid → String → PostingRule → Bool
is_rule company_id event_type r = (r.company_id == company_id) && str_eq r.event_type event_type

-- The entry that an event posts.
abbrev pub event_entry :
    PostEventParams → Uuid → Uuid → Text → List LineInput → Day → Uuid → JournalEntry
event_entry params period_id rule_id entry_number inputs now id = record {
  id = id;
  company_id = params.company_id;
  branch_id = params.branch_id;
  accounting_period_id = period_id;
  posting_rule_id = some rule_id;
  entry_number = entry_number;
  source_module = params.source_module;
  source_doc_type = some params.source_doc_type;
  source_doc_id = some params.source_doc_id;
  entry_date = params.entry_date;
  currency_code = params.currency_code;
  exchange_rate = elim params.exchange_rate [ none ↦ pos 100000000 | some r ↦ r ];
  status = posted;
  reversal_of_id = none;
  description = params.description;
  created_by = params.created_by;
  posted_at = some now;
  lines = map (to_line params.dimensions) inputs;
}

-- What follows the guards: number, create, add to the balances.
unfoldable pub record_event :
    PostEventParams → AccountingPeriod → PostingRule → List LineInput → Tx Db JournalEntry
record_event params period rule inputs = do
  entry_number ← next params.company_id "JOURNAL_ENTRY" (codes "JE-")
  now ← gets (λ s. s.now)
  entry ← create_entry (event_entry params period.id rule.id entry_number inputs now)
  add_to_balances entry entry.lines
  pure entry

unfoldable pub post_event : PostEventParams → Tx Db JournalEntry
post_event params = do
  found ← gets (λ s. find (is_rule params.company_id params.event_type) s.posting_rules)
  rule ← or_throw found no_posting_rule
  throw_if (not rule.is_active) no_posting_rule
  covering ←
      gets
        (λ s. find (covers s.fiscal_years params.company_id params.entry_date) s.accounting_periods)
  period ← or_throw covering no_period
  throw_if (not (is_open period.status)) period_not_open
  inputs ← build_lines params (sort_by (λ l. l.line_no) rule.lines)
  throw_if (ltb balance_tolerance (abs (total_debit inputs -ℤ total_credit inputs))) rule_unbalanced
  record_event params period rule inputs

-- A line of the reversal: debit and credit swapped.
abbrev pub mirror_line : JournalEntryLine → JournalEntryLine
mirror_line l = record l {
  debit = l.credit;
  credit = l.debit;
  base_currency_amount = neg l.base_currency_amount;
  description = none;
}

abbrev pub mirror_entry : JournalEntry → Uuid → Text → Day → Option Uuid → Day → Uuid → JournalEntry
mirror_entry original period_id entry_number reversal_date created_by now id = record {
  id = id;
  company_id = original.company_id;
  branch_id = original.branch_id;
  accounting_period_id = period_id;
  posting_rule_id = none;
  entry_number = entry_number;
  source_module = original.source_module;
  source_doc_type = original.source_doc_type;
  source_doc_id = original.source_doc_id;
  entry_date = reversal_date;
  currency_code = original.currency_code;
  exchange_rate = original.exchange_rate;
  status = posted;
  reversal_of_id = some original.id;
  description = some (codes "Reversal of " ++ original.entry_number);
  created_by = created_by;
  posted_at = some now;
  lines = map mirror_line original.lines;
}

unfoldable pub record_reversal :
    JournalEntry → AccountingPeriod → Day → Option Uuid → Tx Db JournalEntry
record_reversal original period reversal_date created_by = do
  entry_number ← next original.company_id "JOURNAL_ENTRY" (codes "JE-")
  now ← gets (λ s. s.now)
  reversal ←
      create_entry (mirror_entry original period.id entry_number reversal_date created_by now)
  update_entry original.id (λ e. record e { status = reversed })
  add_to_balances reversal reversal.lines
  pure reversal

unfoldable pub reverse : Uuid → Day → Option Uuid → Tx Db JournalEntry
reverse journal_entry_id reversal_date created_by = do
  found ← gets (λ s. find (has_id journal_entry_id) s.journal_entries)
  original ← or_throw found entry_not_found
  throw_if (not (status_eq original.status posted)) not_posted
  covering ←
      gets
        (λ s. find (covers s.fiscal_years original.company_id reversal_date) s.accounting_periods)
  period ← or_throw covering no_open_period
  throw_if (not (is_open period.status)) no_open_period
  record_reversal original period reversal_date created_by
