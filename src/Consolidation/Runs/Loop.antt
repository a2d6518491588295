-- ===== src/Consolidation/Runs/Loop.antt =====
-- backend/src/consolidation/consolidation-runs.ts: the lines that the loop over the companies writes.
use mathlib.Core.Path.{subst}
use advanced_accountancy.Prelude.{
  String, Bool, ◌≡◌, refl, sym, ap, ◌∙◌, inl, inr, Option, none, some, List, [], ◌∷◌, ◌++◌, find,
  find_many, map, str_eq, Bool-cases, Option-cases, if◌then◌else◌,
}
use advanced_accountancy.Prelude.Int.{ℤ}
use advanced_accountancy.Tx.{◌>>=◌}
use advanced_accountancy.Tx.Ends.{Ends, Ends-bind, Ends-gets, Ends-map}
use advanced_accountancy.Schema.{
  Uuid, Company, ChartOfAccount, IntercompanyTransaction, ConsolidatedLine, ExchangeRate, Db,
}
use advanced_accountancy.Accounting.Reports.{AccountRow, trial_balance, trial_balance_rows}
use advanced_accountancy.Consolidation.Runs.{
  CreateConsolidationRunDto, is_intercompany, is_rate, newest_rate, one_to_one, resolve_rate,
  elimination_total, consolidated_line, write_lines, consolidate,
}

-- The rate that a company is translated at, if there is one.
abbrev pub found_rate : Option ExchangeRate → Option ℤ
found_rate none = none
found_rate (some r) = some r.rate

abbrev pub rate_at : CreateConsolidationRunDto → Db → Company → Option ℤ
rate_at dto s c =
    if str_eq c.base_currency_code dto.presentation_currency
    then some one_to_one
    else found_rate (
        newest_rate (
          find_many (is_rate c.id c.base_currency_code dto.presentation_currency dto.as_of_date)
            s.exchange_rates))

resolve_rate-Ends :
    (dto : CreateConsolidationRunDto) (c : Company) (s : Db)
    → Ends
        (λ rate t. (rate_at dto s c ≡ some rate) × (t ≡ s))
        (resolve_rate c.id c.base_currency_code dto.presentation_currency dto.as_of_date s)
unfolding resolve_rate ◌>>=◌
resolve_rate-Ends dto c s =
    elim (Bool-cases (str_eq c.base_currency_code dto.presentation_currency)) [
      | inl same ↦ rw same (refl, refl)
      | inr other ↦
          rw other
            (elim (Option-cases (
              newest_rate (
                find_many
                  (is_rate c.id c.base_currency_code dto.presentation_currency dto.as_of_date)
                  s.exchange_rates))) [
                    | inl missing ↦ rw missing tt
                    | inr (r, found) ↦ rw found (refl, refl)
                  ])
    ]

-- The lines of a list of companies: for each in turn, a line for each row of its trial balance, at
-- its rate.
pub data Translated (run_id : Uuid) (txns : List IntercompanyTransaction)
    (rows : Uuid → List AccountRow) (rate : Company → Option ℤ)
    (account : Uuid → Option ChartOfAccount) : List Company → List ConsolidatedLine → Type 0 where
  no_more : Translated run_id txns rows rate account [] []
  and_company :
      {companies : List Company} {lines : List ConsolidatedLine} (c : Company) (r : ℤ)
      → rate c ≡ some r
      → Translated run_id txns rows rate account companies lines
      → Translated run_id txns rows rate account (c ∷ companies) (
          map
            (consolidated_line run_id c.id r (account c.id) (elimination_total c.id txns))
            (rows c.id)
          ++ lines)

abbrev pub rows_at :
    (String → String → Bool) → CreateConsolidationRunDto → Db → Uuid → List AccountRow
rows_at collates dto s id = trial_balance_rows collates id dto.as_of_date s

abbrev pub account_at : Db → Uuid → Option ChartOfAccount
account_at s id = find (is_intercompany id) s.chart_of_accounts

-- What the loop leaves.
pub record LinesWritten (collates : String → String → Bool) (dto : CreateConsolidationRunDto)
    (run_id : Uuid) (txns : List IntercompanyTransaction) (companies : List Company) (s t : Db)
    : Type 0 where
  pub lines : List ConsolidatedLine
  pub translated :
      Translated run_id txns (rows_at collates dto s) (rate_at dto s) (account_at s) companies lines
  pub rest : t ≡ record s { consolidated_lines = s.consolidated_lines ++ lines }

append_more : (xs ys zs : List ConsolidatedLine) → (xs ++ ys) ++ zs ≡ xs ++ (ys ++ zs)
append_more [] ys zs = refl
append_more (x ∷ xs) ys zs = ap (λ l. x ∷ l) (append_more xs ys zs)

append_none : (xs : List ConsolidatedLine) → xs ≡ xs ++ []
append_none [] = refl
append_none (x ∷ xs) = ap (λ l. x ∷ l) (append_none xs)

write_lines-Ends :
    (lines : List ConsolidatedLine) (s : Db)
    → Ends
        (λ x t. t ≡ record s { consolidated_lines = s.consolidated_lines ++ lines })
        (write_lines lines s)
unfolding write_lines
write_lines-Ends lines s = refl

module _ (collates : String → String → Bool) (dto : CreateConsolidationRunDto) (run_id : Uuid)
    (txns : List IntercompanyTransaction) where
  -- The state after a company's lines.
  abbrev written_at : Company → ℤ → Db → Db
  written_at c rate s = record s {
    consolidated_lines =
        s.consolidated_lines
        ++ map
            (consolidated_line run_id c.id rate (account_at s c.id) (elimination_total c.id txns))
            (rows_at collates dto s c.id);
  }

  one_company :
      (c : Company) (companies : List Company) (s v : Db) (rate : ℤ)
      → rate_at dto s c ≡ some rate
      → LinesWritten collates dto run_id txns companies (written_at c rate s) v
      → LinesWritten collates dto run_id txns (c ∷ companies) s v
  one_company c companies s v rate found more = record {
    lines = _ ++ more.lines;
    translated = and_company c rate found more.translated;
    rest =
        more.rest
        ∙ ap (λ (l : List ConsolidatedLine). record s { consolidated_lines = l })
            (append_more s.consolidated_lines _ more.lines);
  }

  joined :
      (c : Company) (companies : List Company) (s t u v : Db) (rate : ℤ)
      → rate_at dto s c ≡ some rate
      → t ≡ s
      → u ≡ written_at c rate t
      → LinesWritten collates dto run_id txns companies u v
      → LinesWritten collates dto run_id txns (c ∷ companies) s v
  joined c companies s t u v rate found same written more = one_company c companies s v rate found (
      subst (λ (x : Db). LinesWritten collates dto run_id txns companies x v)
        (written ∙ ap (written_at c rate) same) more)

  pub consolidate-Ends :
      (companies : List Company) (s : Db)
      → Ends
          (λ x t. LinesWritten collates dto run_id txns companies s t)
          (consolidate collates dto run_id txns companies s)
  unfolding consolidate trial_balance
  consolidate-Ends [] s = record {
    lines = [];
    translated = no_more;
    rest =
        ap (λ (l : List ConsolidatedLine). record s { consolidated_lines = l })
          (append_none s.consolidated_lines);
  }
  consolidate-Ends (c ∷ companies) s = Ends-gets _ _ _ s (
      let rows = rows_at collates dto s c.id in
      Ends-bind _ (λ rate t. (rate_at dto s c ≡ some rate) × (t ≡ s)) _ _ s
        (resolve_rate-Ends dto c s)
        λ rate t resolved. Ends-gets _ _ _ t (
          let first =
            map
              (consolidated_line run_id c.id rate (account_at t c.id) (elimination_total c.id txns))
              rows in
          Ends-bind _ (λ x u. u ≡ record t { consolidated_lines = t.consolidated_lines ++ first }) _
            _ t (write_lines-Ends first t)
            λ x u written.
              Ends-map (λ y v. LinesWritten collates dto run_id txns (c ∷ companies) s v)
                (λ y v. LinesWritten collates dto run_id txns companies u v)
                (consolidate collates dto run_id txns companies u) (consolidate-Ends companies u)
                λ y v more.
                  joined c companies s t u v rate resolved.0 resolved.1
                    (written
                      ∙ ap
                          (λ (x : Db). record t {
                            consolidated_lines =
                                t.consolidated_lines
                                ++ map
                                    (consolidated_line run_id c.id rate (account_at t c.id)
                                      (elimination_total c.id txns))
                                    (rows_at collates dto x c.id);
                          })
                          (sym resolved.1))
                    more))
