-- ===== src/Consolidation/Runs/Final.antt =====
-- backend/src/consolidation/consolidation-runs.ts: when a run is final.
use advanced_accountancy.Prelude.{
  Bool, false, not, ◌≡◌, ◌∙◌, ◌↔◌, refl, All, none, some, ◌++◌, modify_first, List, [], ◌∷◌, ◌==◌,
  arith, find_many, length,
}
use advanced_accountancy.Tx.{ok, ◌>>=◌}
use advanced_accountancy.Tx.Ends.{Ends, Ends→, Ends-gets, Ends-or_throw, Ends-throw_if, Ends-intro}
use advanced_accountancy.Schema.{
  Uuid, IntercompanyTransaction, ConsolidationRun, unmatched, AuditAction, Db,
}
use advanced_accountancy.Audit.{record_audit}
use advanced_accountancy.Tables.{find_row, update_row}
use advanced_accountancy.Consolidation.Intercompany.{group_row}
use advanced_accountancy.Consolidation.Runs.{consolidation_runs, has_status, mark_final, finalize}

-- What a run that was made final had passed.
record Finalized (id : Uuid) (s : Db) : Type 0 where
  run : ConsolidationRun
  found : find_row consolidation_runs id s ≡ some run
  draft : run.is_final ≡ false
  none_open :
      find_many (has_status run.business_group_id unmatched) s.intercompany_transactions ≡ []

no_length : (l : List IntercompanyTransaction) → not (length l == 0) ≡ false → l ≡ []
no_length [] h = refl
no_length (x ∷ l) h = absurd (ground arith)

finalize-Ends : (user_id id : Uuid) (s : Db) → Ends (λ r t. Finalized id s) (finalize user_id id s)
unfolding finalize
finalize-Ends user_id id s = Ends-gets _ _ _ s (
    Ends-or_throw _ _ _ _ s λ run found. Ends-throw_if _ _ _ _ s λ draft. Ends-gets _ _ _ s (
      Ends-throw_if _ _ _ _ s λ none_open. Ends-gets _ _ _ s (
        Ends-intro (λ r t. Finalized id s) _
          λ r t _. record {
            run = run;
            found = found;
            draft = draft;
            none_open = no_length _ none_open;
          })))

-- No transaction of a group is unmatched.
abbrev pub NoneOpen : Uuid → List IntercompanyTransaction → Type 0
NoneOpen group ts = All (λ x. has_status group unmatched x ≡ false) ts

none_found :
    (p : IntercompanyTransaction → Bool) (ts : List IntercompanyTransaction)
    → find_many p ts ≡ []
    → All (λ x. p x ≡ false) ts
none_found p [] h = tt
none_found p (x ∷ ts) h =
    let this : p x ≡ false = ground arith in
    let rest : find_many p ts ≡ [] = ground arith in (this, none_found p ts rest)

finds_none :
    (p : IntercompanyTransaction → Bool) (ts : List IntercompanyTransaction)
    → All (λ x. p x ≡ false) ts
    → find_many p ts ≡ []
finds_none p [] h = refl
finds_none p (x ∷ ts) h = rw h.0 (finds_none p ts h.1)

-- When a run is made final, what is returned, and the tables afterwards.
pub record MadeFinal (user_id id : Uuid) (s : Db) (final : ConsolidationRun) (t : Db) : Type 0 where
  pub run : ConsolidationRun
  pub found : find_row consolidation_runs id s ≡ some run
  pub draft : run.is_final ≡ false
  none_open : NoneOpen run.business_group_id s.intercompany_transactions
  pub value : final ≡ mark_final s.now run
  pub tables : t ≡ record s {
    consolidation_runs = modify_first (λ r. r.id == id) (mark_final s.now) s.consolidation_runs;
    audit_logs =
        s.audit_logs ++ group_row user_id AuditAction.approve "consolidation_run" id none ∷ [];
  }

finalize_run :
    (user_id id : Uuid) (s : Db) (run : ConsolidationRun)
    → find_row consolidation_runs id s ≡ some run
    → run.is_final ≡ false
    → NoneOpen run.business_group_id s.intercompany_transactions
    → finalize user_id id s
      ≡ ok (
        mark_final s.now run,
        record s {
          consolidation_runs =
              modify_first (λ r. r.id == id) (mark_final s.now) s.consolidation_runs;
          audit_logs =
              s.audit_logs
              ++ group_row user_id AuditAction.approve "consolidation_run" id none ∷ [];
        },
      )
unfolding finalize update_row record_audit ◌>>=◌
finalize_run user_id id s run found draft closed =
    rw (found, draft, finds_none _ s.intercompany_transactions closed, found) refl

made_final :
    (user_id id : Uuid) (s t : Db) (r : ConsolidationRun)
    → finalize user_id id s ≡ ok (r, t)
    → MadeFinal user_id id s r t
made_final user_id id s t r e =
    let f = Ends→ _ (finalize user_id id s) r t e (finalize-Ends user_id id s) in
    let closed = none_found _ _ f.none_open in
    let run = finalize_run user_id id s f.run f.found f.draft closed in
    record {
      run = f.run;
      found = f.found;
      draft = f.draft;
      none_open = closed;
      value = cc (e, run);
      tables = cc (e, run);
    }

-- Making a run final commits exactly where the run is there and not final and no intercompany
-- transaction of its group is unmatched, and then it returns the run made final with the day and
-- the tables as they were, but for that run's row and one row more in the audit trail.
pub finalize_iff :
    (user_id id : Uuid) (s t : Db) (r : ConsolidationRun)
    → (finalize user_id id s ≡ ok (r, t)) ↔ MadeFinal user_id id s r t
finalize_iff user_id id s t r = (
  made_final user_id id s t r,
  λ m. finalize_run user_id id s m.run m.found m.draft m.none_open ∙ cc (m.value, m.tables),
)
