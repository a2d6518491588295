-- ===== src/Accounting/Provisioning/Resolve.antt =====
-- A company that is provisioned has an account for every resolver of its starter rules.
use advanced_accountancy.Prelude.{
  suc, String, ◌≡◌, refl, sym, ap, ◌∙◌, Bool, true, false, ◌||◌, Option, none, some, List, [], ◌∷◌,
  ◌==◌, ◌++◌, ◌≤◌, arith, find, str_eq, All, eq_self,
}
use mathlib.Core.List.{append-nil, append_assoc}
use advanced_accountancy.Prelude.Text.{strip_prefix}
use advanced_accountancy.Tx.{ok, ◌>>=◌}
use advanced_accountancy.Schema.{Uuid, ChartOfAccount, PostingRuleLine, FiscalYear, Db}
use advanced_accountancy.Accounting.Calendar.{get_utc_full_year}
use advanced_accountancy.Accounting.FiscalPeriods.{provision_current_fiscal_year}
use advanced_accountancy.Accounting.FiscalPeriods.Tiling.{
  YearCreated, create_fiscal_year-YearCreated,
}
use advanced_accountancy.Accounting.Engine.{is_control, is_rule, is_some}
use advanced_accountancy.Accounting.Provisioning.Keys.{
  Free, Free-snoc, Free-none, distinct, first_differs,
}
use advanced_accountancy.Accounting.Provisioning.{
  StarterAccount, StarterPostingRule, starter_chart_of_accounts, starter_posting_rules, chart_row,
  has_code, create_accounts, rule_row, create_rules, provision,
}

abbrev chart_rows : Uuid → String → Uuid → List StarterAccount → List ChartOfAccount
chart_rows c currency id [] = []
chart_rows c currency id (acc ∷ rest) =
    chart_row c currency acc id ∷ chart_rows c currency (suc id) rest

abbrev has_control : String → List StarterAccount → Bool
has_control k [] = false
has_control k (acc ∷ rest) =
    (elim acc.control_type [ none ↦ false | some c ↦ str_eq c k ]) || has_control k rest

chart_rows-find :
    (c : Uuid) (currency k : String) (id : Uuid) (accs : List StarterAccount)
    → has_control k accs ≡ true
    → is_some (find (is_control c k) (chart_rows c currency id accs)) ≡ true
chart_rows-find c currency k id [] h = ground arith
chart_rows-find c currency k id (acc ∷ rest) h =
    ground (arith, eq_self c, chart_rows-find c currency k (suc id) rest)

append-find :
    (c : Uuid) (k : String) (before after : List ChartOfAccount)
    → is_some (find (is_control c k) after) ≡ true
    → is_some (find (is_control c k) (before ++ after)) ≡ true
append-find c k [] after h = h
append-find c k (a ∷ before) after h = ground (arith, append-find c k before after)

create_accounts_lem :
    (c : Uuid) (currency : String) (accs : List StarterAccount) (s : Db)
    → Free (has_code c) (λ a. a.account_code) accs s.chart_of_accounts
    → distinct (λ a. a.account_code) accs ≡ true
    → (t : Db) × (create_accounts c currency accs s ≡ ok (tt, t))
      × (t.chart_of_accounts ≡ s.chart_of_accounts ++ chart_rows c currency s.next_id accs)
      × (t.posting_rules ≡ s.posting_rules)
      × (t.now ≡ s.now)
unfolding create_accounts ◌>>=◌
create_accounts_lem c currency [] s free apart =
    (s, refl, sym (append-nil s.chart_of_accounts), refl, refl)
create_accounts_lem c currency (acc ∷ rest) s free apart =
    let row = chart_row c currency acc s.next_id in
    let s' : Db = record s {
      chart_of_accounts = s.chart_of_accounts ++ row ∷ [];
      next_id = suc s.next_id;
    } in
    let others = first_differs (λ (a : StarterAccount). a.account_code) acc rest apart in
    let (t, run, e, r, n) =
      create_accounts_lem c currency rest s'
        (Free-snoc (has_code c) (λ a. a.account_code) rest s.chart_of_accounts row acc.account_code
          (λ j h. ground arith) others.0 free.1)
        others.1 in
    (
      t,
      rw free.0 run,
      e ∙ append_assoc s.chart_of_accounts (row ∷ []) (chart_rows c currency (suc s.next_id) rest),
      r,
      n,
    )

create_rules_lem :
    (c : Uuid) (rules : List StarterPostingRule) (s : Db)
    → Free (is_rule c) (λ r. r.event_type) rules s.posting_rules
    → distinct (λ r. r.event_type) rules ≡ true
    → (t : Db) × (create_rules c rules s ≡ ok (tt, t))
      × (t.chart_of_accounts ≡ s.chart_of_accounts)
      × (t.now ≡ s.now)
unfolding create_rules ◌>>=◌
create_rules_lem c [] s free apart = (s, refl, refl, refl)
create_rules_lem c (rule ∷ rest) s free apart =
    let s' : Db = record s {
      posting_rules = s.posting_rules ++ rule_row c rule s.next_id ∷ [];
      next_id = suc s.next_id;
    } in
    let others = first_differs (λ (r : StarterPostingRule). r.event_type) rule rest apart in
    let (t, run, e, n) =
      create_rules_lem c rest s'
        (Free-snoc (is_rule c) (λ r. r.event_type) rest s.posting_rules (rule_row c rule s.next_id)
          rule.event_type (λ j h. ground arith) others.0 free.1)
        others.1 in
    (t, rw free.0 run, e, n)

-- The accounts that a resolver can name are there.
abbrev pub Named : Uuid → Option String → Option String → List ChartOfAccount → Type 0
Named c (some control) override chart = is_some (find (is_control c control) chart) ≡ true
Named c none override chart = is_some override ≡ true

abbrev pub Resolves : Uuid → List ChartOfAccount → PostingRuleLine → Type 0
Resolves c chart l =
    Named c (strip_prefix "CONTROL:" l.account_resolver)
      (strip_prefix "OVERRIDE:" l.account_resolver) chart

abbrev pub AllResolve : Uuid → List ChartOfAccount → Type 0
AllResolve c chart =
    All (λ (r : StarterPostingRule). All (Resolves c chart) r.lines) starter_posting_rules

module _ (c : Uuid) (currency : String) (id : Uuid) (before : List ChartOfAccount) where
  control_found :
      (k : String)
      → has_control k starter_chart_of_accounts ≡ true
      → is_some
          (find (is_control c k) (before ++ chart_rows c currency id starter_chart_of_accounts))
        ≡ true
  control_found k h =
      append-find c k before _ (chart_rows-find c currency k id starter_chart_of_accounts h)

  starter_rules_resolve :
      AllResolve c (before ++ chart_rows c currency id starter_chart_of_accounts)
  starter_rules_resolve = (
    (
      control_found "AR" refl,
      (control_found "SALES_REVENUE" refl, (control_found "TAX_OUTPUT" refl, tt)),
    ),
    (
      (
        control_found "PURCHASE_EXPENSE" refl,
        (control_found "TAX_INPUT" refl, (control_found "AP" refl, tt)),
      ),
      (
        (refl, (control_found "AR" refl, tt)),
        (
          (control_found "AP" refl, (refl, tt)),
          (
            (control_found "SALES_REVENUE" refl, (control_found "AR" refl, tt)),
            (
              (control_found "AP" refl, (control_found "PURCHASE_EXPENSE" refl, tt)),
              (
                (control_found "COGS" refl, (control_found "INVENTORY" refl, tt)),
                (
                  (
                    control_found "SALARY_EXPENSE" refl,
                    (
                      control_found "SALARY_PAYABLE" refl,
                      (control_found "STATUTORY_PAYABLE" refl, tt),
                    ),
                  ),
                  (
                    (refl, (refl, tt)),
                    (
                      (
                        control_found "INVENTORY" refl,
                        (
                          control_found "COGS" refl,
                          (control_found "COGS" refl, (control_found "INVENTORY" refl, tt)),
                        ),
                      ),
                      tt,
                    ),
                  ),
                ),
              ),
            ),
          ),
        ),
      ),
    ),
  )

-- In a year from 100 on, provisioning a company that has no account and no posting rule commits.
-- Afterwards every account that a starter rule names by its control type is in the chart, every
-- other resolver of a starter rule names an override, and the fiscal year of the day is added
-- with twelve periods that cover each of its days once.
pub provision-AllResolve :
    (company_id : Uuid) (currency : String) (s : Db)
    → 100 ≤ get_utc_full_year s.now
    → find (λ a. a.company_id == company_id) s.chart_of_accounts ≡ none
    → find (λ r. r.company_id == company_id) s.posting_rules ≡ none
    → (t : Db) × (provision company_id currency s ≡ ok (tt, t))
      × AllResolve company_id t.chart_of_accounts
      × ((fy : FiscalYear) × (u : Db) × YearCreated company_id (get_utc_full_year s.now) fy u t)
unfolding provision provision_current_fiscal_year ◌>>=◌
provision-AllResolve company_id currency s day no_accounts no_rules =
    let (t, run, chart, rules, now) =
      create_accounts_lem company_id currency starter_chart_of_accounts s
        (Free-none (has_code company_id) (λ (a : StarterAccount). a.account_code)
          (λ a. a.company_id == company_id) starter_chart_of_accounts s.chart_of_accounts
          (λ j a h. rw h refl) no_accounts)
        refl in
    let (u, run', chart', now') =
      create_rules_lem company_id starter_posting_rules t
        (Free-none (is_rule company_id) (λ (r : StarterPostingRule). r.event_type)
          (λ r. r.company_id == company_id) starter_posting_rules t.posting_rules
          (λ j r h. rw h refl) (rw rules no_rules))
        refl in
    let same_day : u.now ≡ s.now = now' ∙ now in
    let (fy, v, run'', made) =
      create_fiscal_year-YearCreated company_id (get_utc_full_year s.now) u day in
    let final : v.chart_of_accounts
        ≡ s.chart_of_accounts
          ++ chart_rows company_id currency s.next_id starter_chart_of_accounts =
      ap (λ (x : Db). x.chart_of_accounts) made.rest ∙ chart' ∙ chart in
    (
      v,
      rw (run, run', same_day, run'') refl,
      rw final (starter_rules_resolve company_id currency s.next_id s.chart_of_accounts),
      (fy, u, made),
    )
