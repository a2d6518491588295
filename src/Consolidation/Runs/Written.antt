-- ===== src/Consolidation/Runs/Written.antt =====
-- backend/src/consolidation/consolidation-runs.ts: what creating a run writes.
use advanced_accountancy.Prelude.{
  String, Bool, false, ◌≡◌, List, [], ◌∷◌, ◌++◌, ◌==◌, find_many, length, suc,
}
use advanced_accountancy.Tx.Ends.{Ends}
use advanced_accountancy.Schema.{ConsolidatedLine, matched, Db}
use advanced_accountancy.Consolidation.Runs.{
  CreateConsolidationRunDto, consolidation_runs, in_business_group, has_status, new_run,
  RunWithLines, of_run,
}
use advanced_accountancy.Consolidation.Runs.Loop.{Translated, rate_at, rows_at, account_at}

-- What creating a run did: its own rows and its lines, from the books as they stood, and nothing else
-- but the audit trail.
pub record Consolidated (collates : String → String → Bool) (dto : CreateConsolidationRunDto)
    (s t : Db) (result : RunWithLines) : Type 0 where
  pub some_companies :
      (length (find_many (in_business_group dto.business_group_id) s.companies) == 0) ≡ false
  pub run : result.run ≡ new_run dto s.next_id
  pub lines : List ConsolidatedLine
  pub translated :
      Translated s.next_id
        (find_many (has_status dto.business_group_id matched) s.intercompany_transactions)
        (rows_at collates dto s)
        (rate_at dto s)
        (account_at s)
        (find_many (in_business_group dto.business_group_id) s.companies)
        lines
  pub written : t.consolidated_lines ≡ s.consolidated_lines ++ lines
  pub returned : result.lines ≡ find_many (of_run s.next_id) t.consolidated_lines
  pub untouched : t ≡ record s {
    next_id = suc s.next_id;
    consolidation_runs = s.consolidation_runs ++ new_run dto s.next_id ∷ [];
    consolidated_lines = t.consolidated_lines;
    audit_logs = t.audit_logs;
  }
