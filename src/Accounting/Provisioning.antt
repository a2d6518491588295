-- ===== src/Accounting/Provisioning.antt =====
-- backend/src/accounting/company-provisioning.service.ts: what a new company is created with.
pub mod Starter
pub mod Balance
mod Keys
pub mod Resolve
pub mod Postable
unfoldable pub use Starter.*
use advanced_accountancy.Prelude.{
  String, Bool, ◌==◌, ◌&&◌, str_eq, find, true, none, some, List, [], ◌∷◌, ◌++◌,
}
use advanced_accountancy.Tx.{Tx, pure, gets, modify, throw_if, duplicate_row, ◌>>=◌, ◌>>◌}
use advanced_accountancy.Schema.{Uuid, ChartOfAccount, PostingRule, Db, fresh}
use advanced_accountancy.Accounting.Engine.{is_rule, is_some}
use advanced_accountancy.Accounting.FiscalPeriods.{provision_current_fiscal_year}

abbrev pub chart_row : Uuid → String → StarterAccount → Uuid → ChartOfAccount
chart_row company_id base_currency_code acc id = record {
  id = id;
  company_id = company_id;
  account_code = acc.account_code;
  name = acc.name;
  account_type = acc.account_type;
  control_type = acc.control_type;
  mis_category = acc.mis_category;
  currency_code = some base_currency_code;
  is_active = true;
}

-- The key of an account, `@@unique([companyId, accountCode])`.
abbrev pub has_code : Uuid → String → ChartOfAccount → Bool
has_code company_id account_code a =
    (a.company_id == company_id) && str_eq a.account_code account_code

-- The loop over the accounts; a create throws where the key is taken. The ids that it collects by
-- code are not used.
unfoldable pub create_accounts : Uuid → String → List StarterAccount → Tx Db (Unit {0})
create_accounts company_id base_currency_code [] = pure tt
create_accounts company_id base_currency_code (acc ∷ rest) = do
  taken ← gets (λ s. find (has_code company_id acc.account_code) s.chart_of_accounts)
  throw_if (is_some taken) duplicate_row
  id ← fresh
  modify (λ s. record s {
    chart_of_accounts = s.chart_of_accounts ++ chart_row company_id base_currency_code acc id ∷ [];
  })
  create_accounts company_id base_currency_code rest

abbrev pub rule_row : Uuid → StarterPostingRule → Uuid → PostingRule
rule_row company_id rule id = record {
  id = id;
  company_id = company_id;
  event_type = rule.event_type;
  is_active = true;
  lines = rule.lines;
}

-- The loop over the rules, whose key is `@@unique([companyId, eventType])`.
unfoldable pub create_rules : Uuid → List StarterPostingRule → Tx Db (Unit {0})
create_rules company_id [] = pure tt
create_rules company_id (rule ∷ rest) = do
  taken ← gets (λ s. find (is_rule company_id rule.event_type) s.posting_rules)
  throw_if (is_some taken) duplicate_row
  id ← fresh
  modify (λ s. record s { posting_rules = s.posting_rules ++ rule_row company_id rule id ∷ [] })
  create_rules company_id rest

unfoldable pub provision : Uuid → String → Tx Db (Unit {0})
provision company_id base_currency_code = do
  create_accounts company_id base_currency_code starter_chart_of_accounts
  create_rules company_id starter_posting_rules
  provision_current_fiscal_year company_id >>= λ _. pure tt
