-- ===== src/Consolidation/Runs/Summary.antt =====
-- backend/src/consolidation/consolidation-runs.ts: what a summary's totals are.
use advanced_accountancy.Prelude.{
  String, Bool, ◌≡◌, refl, ap, ◌∙◌, inl, inr, some, List, [], ◌∷◌, find_many, sum_by, str_eq,
  eq_iff, Bool-cases,
}
use advanced_accountancy.Prelude.Int.{ℤ, pos, ◌+ℤ◌, int_laws}
use advanced_accountancy.Tx.{ok}
use advanced_accountancy.Tx.Ends.{Ends, Ends→, Ends-gets, Ends-or_throw}
use advanced_accountancy.Schema.{Uuid, Cents, ConsolidatedLine, ConsolidationRun, Db}
use advanced_accountancy.Tables.{find_row}
use advanced_accountancy.Accounting.Engine.Ledger.{picked, picked_add}
use advanced_accountancy.Accounting.Reports.Groups.{sum-order_rows}
use advanced_accountancy.Consolidation.Runs.{
  SummaryRow, consolidation_runs, of_run, line_amount, add_line, add_lines, consolidated_summary,
}

-- The totals of the account codes that a test picks.
abbrev pub summed : (String → Bool) → List SummaryRow → Cents
summed t = sum_by (λ r. picked (t r.account_code) r.total)

abbrev pub line_sum : (String → Bool) → List ConsolidatedLine → Cents
line_sum t = sum_by (λ l. picked (t l.account_code) (line_amount l))

move_in : (a b c : ℤ) → a +ℤ b +ℤ c ≡ a +ℤ (b +ℤ c)
move_in a b c = omega int_laws

module _ (t : String → Bool) where
  summed-add_line :
      (l : ConsolidatedLine) (rows : List SummaryRow)
      → summed t (add_line l rows) ≡ summed t rows +ℤ picked (t l.account_code) (line_amount l)
  unfolding add_line
  summed-add_line l [] = omega int_laws
  summed-add_line l (r ∷ rows) = elim (Bool-cases (str_eq r.account_code l.account_code)) [
    | inl same ↦
        let e : r.account_code ≡ l.account_code = (eq_iff r.account_code l.account_code).0 same in
        rw same (rw (← e) (picked_add (t r.account_code) r.total (line_amount l) (summed t rows)))
    | inr other ↦ rw (other, summed-add_line l rows) (omega int_laws)
  ]

  summed-add_lines :
      (lines : List ConsolidatedLine) (rows : List SummaryRow)
      → summed t (add_lines lines rows) ≡ summed t rows +ℤ line_sum t lines
  unfolding add_lines
  summed-add_lines [] rows = omega int_laws
  summed-add_lines (l ∷ lines) rows =
      summed-add_lines lines (add_line l rows)
      ∙ ap (λ (x : ℤ). x +ℤ line_sum t lines) (summed-add_line l rows)
      ∙ move_in (summed t rows) (picked (t l.account_code) (line_amount l)) (line_sum t lines)

zero_add : (a : ℤ) → pos 0 +ℤ a ≡ a
zero_add a = omega int_laws

-- The summary of a run that exists, over every set of account codes.
pub record Summarizes (s : Db) (id : Uuid) (rows : List SummaryRow) (t : Db) : Type 0 where
  pub run : ConsolidationRun
  pub found : find_row consolidation_runs id s ≡ some run
  pub same : t ≡ s
  pub totals :
      (codes : String → Bool)
      → summed codes rows ≡ line_sum codes (find_many (of_run run.id) s.consolidated_lines)

consolidated_summary-Ends :
    (locale_before : String → String → Bool) (id : Uuid) (s : Db)
    → Ends (λ rows t. Summarizes s id rows t) (consolidated_summary locale_before id s)
unfolding consolidated_summary
consolidated_summary-Ends locale_before id s = Ends-gets _ _ _ s (
    Ends-or_throw _ _ _ _ s λ run found. Ends-gets _ _ _ s (record {
      run = run;
      found = found;
      same = refl;
      totals = λ codes.
          sum-order_rows (λ r. picked (codes r.account_code) r.total) _ _
          ∙ summed-add_lines codes (find_many (of_run run.id) s.consolidated_lines) []
          ∙ zero_add _;
    }))

-- The summary of a run is read from a run that exists and changes nothing; over every set of
-- account codes its totals sum to what the translated amounts and the eliminations of the run's
-- lines sum to.
pub consolidated_summary-Summarizes :
    (locale_before : String → String → Bool) (id : Uuid) (s t : Db) (rows : List SummaryRow)
    → consolidated_summary locale_before id s ≡ ok (rows, t)
    → Summarizes s id rows t
consolidated_summary-Summarizes locale_before id s t rows e =
    Ends→ _ (consolidated_summary locale_before id s) rows t e
      (consolidated_summary-Ends locale_before id s)
