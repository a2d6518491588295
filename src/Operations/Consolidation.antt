-- ===== src/Operations/Consolidation.antt =====
-- backend/src/consolidation: what each operation does to the books.
use advanced_accountancy.Prelude.{Bool, String, List, [], ◌∷◌}
use advanced_accountancy.Tx.Keeps.{Keeps, Keeps-pure, Keeps-bind, Keeps-gets}
use advanced_accountancy.Schema.{Uuid, Day, Company, IntercompanyTransaction, ConsolidatedLine, Db}
use advanced_accountancy.Accounting.Reports.{trial_balance}
use advanced_accountancy.Consolidation.Intercompany
use advanced_accountancy.Consolidation.Intercompany.{RecordIntercompanyTransactionDto, match_entry}
use advanced_accountancy.Consolidation.Runs
use advanced_accountancy.Consolidation.Runs.{
  CreateConsolidationRunDto, resolve_rate, write_lines, consolidate, finalize,
}
use advanced_accountancy.Operations.Books.{Books, books_rules}

module _ {P : Db → Type 0} (b : Books P) where
  pub trade_recorded-Keeps :
      (user : Uuid) (dto : RecordIntercompanyTransactionDto)
      → Keeps P (Intercompany.create user dto)
  unfolding Intercompany.create
  trade_recorded-Keeps user dto = search books_rules depth 24

  pub trade_matched-Keeps : (user id entry : Uuid) → Keeps P (match_entry user id entry)
  unfolding match_entry
  trade_matched-Keeps user id entry = search books_rules depth 24

  rate-Keeps :
      (company : Uuid) (from to : String) (day : Day) → Keeps P (resolve_rate company from to day)
  unfolding resolve_rate
  rate-Keeps company from to day = search books_rules

  lines-Keeps : (ls : List ConsolidatedLine) → Keeps P (write_lines ls)
  unfolding write_lines
  lines-Keeps ls = search books_rules

  trial-Keeps :
      (collates : String → String → Bool) (company : Uuid) (day : Day)
      → Keeps P (trial_balance collates company day)
  unfolding trial_balance
  trial-Keeps collates company day = search books_rules

  consolidate-Keeps :
      (collates : String → String → Bool) (dto : CreateConsolidationRunDto) (run : Uuid)
      (txns : List IntercompanyTransaction) (cs : List Company)
      → Keeps P (consolidate collates dto run txns cs)
  unfolding consolidate
  consolidate-Keeps collates dto run txns [] = Keeps-pure tt
  consolidate-Keeps collates dto run txns (c ∷ cs) =
      Keeps-bind _ _ (trial-Keeps collates c.id _) λ rows.
        Keeps-bind _ _ (rate-Keeps c.id _ _ _) λ rate.
          Keeps-bind _ _ (Keeps-gets _) λ account.
            Keeps-bind _ _ (lines-Keeps _) λ _. consolidate-Keeps collates dto run txns cs

  pub run_created-Keeps :
      (collates : String → String → Bool) (user : Uuid) (dto : CreateConsolidationRunDto)
      → Keeps P (Runs.create collates user dto)
  unfolding Runs.create
  run_created-Keeps collates user dto = search (books_rules, consolidate-Keeps) depth 24

  pub run_finalized-Keeps : (user id : Uuid) → Keeps P (finalize user id)
  unfolding finalize
  run_finalized-Keeps user id = search books_rules depth 24
