-- ===== src/Operations/Companies.antt =====
-- backend/src/accounting: what the provisioning of a company and its fiscal periods do to the books.
use advanced_accountancy.Prelude.{refl, ℕ, zero, suc, String, List, [], ◌∷◌}
use advanced_accountancy.Tx.Keeps.{Keeps, Keeps-pure, Keeps-bind, Keeps-gets, Keeps-throw_if}
use advanced_accountancy.Schema.{Uuid, PeriodStatus, Db}
use advanced_accountancy.Accounting.FiscalPeriods.{
  create_periods, create_fiscal_year, provision_current_fiscal_year, create_next_fiscal_year,
  set_period_status,
}
use advanced_accountancy.Accounting.Provisioning.Starter.{StarterAccount, StarterPostingRule}
use advanced_accountancy.Accounting.Provisioning.{create_accounts, create_rules, provision}
use advanced_accountancy.Operations.Books.{Books, books_rules, fresh-Keeps, write-Keeps}

module _ {P : Db → Type 0} (b : Books P) where
  create_periods-Keeps :
      (year : ℕ) (fiscal_year : Uuid) (rounds month : ℕ)
      → Keeps P (create_periods year fiscal_year rounds month)
  unfolding create_periods
  create_periods-Keeps year fiscal_year zero month = Keeps-pure tt
  create_periods-Keeps year fiscal_year (suc rounds) month = Keeps-bind _ _ (fresh-Keeps b) λ id.
      Keeps-bind _ _ (write-Keeps b _ (λ s. refl) (λ s. refl))
        λ _. create_periods-Keeps year fiscal_year rounds (suc month)

  year_created-Keeps : (company : Uuid) (year : ℕ) → Keeps P (create_fiscal_year company year)
  unfolding create_fiscal_year
  year_created-Keeps company year = search (books_rules, create_periods-Keeps) depth 24

  pub next_year_created-Keeps :
      (user company : Uuid) → Keeps P (create_next_fiscal_year user company)
  unfolding create_next_fiscal_year
  next_year_created-Keeps user company = search (books_rules, year_created-Keeps) depth 24

  pub period_set-Keeps :
      (user period : Uuid) (status : PeriodStatus) → Keeps P (set_period_status user period status)
  unfolding set_period_status
  period_set-Keeps user period status = search books_rules depth 24

  create_accounts-Keeps :
      (company : Uuid) (currency : String) (ls : List StarterAccount)
      → Keeps P (create_accounts company currency ls)
  unfolding create_accounts
  create_accounts-Keeps company currency [] = Keeps-pure tt
  create_accounts-Keeps company currency (l ∷ ls) = Keeps-bind _ _ (Keeps-gets _) λ o.
      Keeps-bind _ _ (Keeps-throw_if _ _) λ _. Keeps-bind _ _ (fresh-Keeps b) λ id.
        Keeps-bind _ _ (write-Keeps b _ (λ s. refl) (λ s. refl))
          λ _. create_accounts-Keeps company currency ls

  create_rules-Keeps :
      (company : Uuid) (ls : List StarterPostingRule) → Keeps P (create_rules company ls)
  unfolding create_rules
  create_rules-Keeps company [] = Keeps-pure tt
  create_rules-Keeps company (l ∷ ls) = Keeps-bind _ _ (Keeps-gets _) λ o.
      Keeps-bind _ _ (Keeps-throw_if _ _) λ _. Keeps-bind _ _ (fresh-Keeps b) λ id.
        Keeps-bind _ _ (write-Keeps b _ (λ s. refl) (λ s. refl)) λ _. create_rules-Keeps company ls

  pub provisioned-Keeps :
      (company : Uuid) (currency : String) → Keeps P (provision company currency)
  unfolding provision provision_current_fiscal_year
  provisioned-Keeps company currency =
      search (books_rules, create_accounts-Keeps, create_rules-Keeps, year_created-Keeps) depth 24
