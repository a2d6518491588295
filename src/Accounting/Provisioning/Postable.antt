-- ===== src/Accounting/Provisioning/Postable.antt =====
-- A company that is provisioned can post: what its starter rules and its chart leave to ask for.
use advanced_accountancy.Prelude.{
  ◌≡◌, String, true, false, Option, none, some, List, [], ◌∷◌, inr, arith, find, lookup, str_eq,
  ltb, All, All-sort_by,
}
use advanced_accountancy.Prelude.Int.{ℤ, ◌-ℤ◌, abs, -ℤ_parts, abs_parts}
use advanced_accountancy.Prelude.Text.{strip_prefix}
use advanced_accountancy.Schema.{
  ChartOfAccount, PostingRule, PostingRuleLine, AccountingPeriod, is_open, Db,
}
use advanced_accountancy.Accounting.Engine.{PostEventParams, balance_tolerance, is_rule, covers}
use advanced_accountancy.Accounting.Engine.Resolving.{Owned, Named, Resolvable}
use advanced_accountancy.Accounting.Engine.Postable.{Postable}
use advanced_accountancy.Accounting.Provisioning.{StarterPostingRule, starter_posting_rules}
use advanced_accountancy.Accounting.Provisioning.Balance.{Balances}
use advanced_accountancy.Accounting.Provisioning.Resolve
use advanced_accountancy.Accounting.Provisioning.Resolve.{Resolves}

-- The lines of the starter rule of an event.
abbrev lines_of : Option StarterPostingRule → List PostingRuleLine
lines_of none = []
lines_of (some r) = r.lines

abbrev pub starter_lines : String → List PostingRuleLine
starter_lines event_type =
    lines_of (find (λ r. str_eq r.event_type event_type) starter_posting_rules)

-- Where a line asks for an account by an override, the event names one of the company.
abbrev ByOverride : PostEventParams → List ChartOfAccount → Option String → Option String → Type 0
ByOverride params chart (some control) key = Unit
ByOverride params chart none none = Unit
ByOverride params chart none (some key) =
    Owned params.company_id chart (lookup key params.account_overrides)

abbrev pub OverridesOwned : PostEventParams → List ChartOfAccount → PostingRuleLine → Type 0
OverridesOwned params chart l =
    ByOverride params chart (strip_prefix "CONTROL:" l.account_resolver)
      (strip_prefix "OVERRIDE:" l.account_resolver)

module _ (params : PostEventParams) (chart : List ChartOfAccount) where
  named :
      (control key : Option String)
      → Resolve.Named params.company_id control key chart
      → ByOverride params chart control key
      → Named params.company_id params.account_overrides chart control key
  named (some control) key h k = h
  named none none h k = cc
  named none (some key) h k = k

  lines-Resolvable :
      (ls : List PostingRuleLine)
      → All (Resolves params.company_id chart) ls
      → All (OverridesOwned params chart) ls
      → All (Resolvable params chart) ls
  lines-Resolvable [] h k = tt
  lines-Resolvable (l ∷ ls) h k = (inr (named _ _ h.0 k.0), lines-Resolvable ls h.1 k.1)

equal-within : (a b : ℤ) → a ≡ b → ltb balance_tolerance (abs (a -ℤ b)) ≡ false
equal-within a b e = ground (arith, -ℤ_parts a b, abs_parts (a -ℤ b))

-- A rule whose lines balance on the event's amounts, and whose accounts are there.
pub balanced_rule-Postable :
    (params : PostEventParams) (s : Db) (rule : PostingRule) (period : AccountingPeriod)
    → find (is_rule params.company_id params.event_type) s.posting_rules ≡ some rule
    → rule.is_active ≡ true
    → find (covers s.fiscal_years params.company_id params.entry_date) s.accounting_periods
      ≡ some period
    → is_open period.status ≡ true
    → All (Resolves params.company_id s.chart_of_accounts) rule.lines
    → All (OverridesOwned params s.chart_of_accounts) rule.lines
    → Balances params.amounts rule.lines
    → Postable params s
balanced_rule-Postable params s rule period found active covered opened resolve owned balance =
    record {
      rule = rule;
      rule_found = found;
      rule_active = active;
      period = period;
      period_found = covered;
      period_open = opened;
      resolvable =
          All-sort_by _ (λ l. l.line_no) rule.lines
            (lines-Resolvable params s.chart_of_accounts rule.lines resolve owned);
      within = equal-within _ _ balance;
    }
