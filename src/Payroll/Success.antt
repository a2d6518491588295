-- ===== src/Payroll/Success.antt =====
-- backend/src/payroll/payroll-runs.ts: an approved run posts.
use mathlib.Core.Path.{subst}
use advanced_accountancy.Prelude.{◌≡◌, refl, sym, ap, ◌∙◌, true, some, find, All, first, later}
use advanced_accountancy.Prelude.Int.{◌+ℤ◌, int_laws}
use advanced_accountancy.Tx.{ok}
use advanced_accountancy.Tx.Commits.{
  Commits, Commits-bind, Commits-gets, Commits-or_throw, Commits-throw_if, Commits-modify,
  false_of_not,
}
use advanced_accountancy.Schema.{
  Uuid, PayrollRun, Company, company_has_id, AccountingPeriod, PostingRule, is_open, doc_approved,
  doc_eq, Db,
}
use advanced_accountancy.Tables.Success.{event-Commits, audit-Commits}
use advanced_accountancy.Accounting.Engine.{is_rule, covers}
use advanced_accountancy.Accounting.Engine.Balance.{entry_debits, entry_credits}
use advanced_accountancy.Accounting.Engine.Postable.{Postable}
use advanced_accountancy.Accounting.Provisioning.Balance.{
  FollowsStarter, starter_posting_rules-Balances, Balances,
}
use advanced_accountancy.Accounting.Provisioning.Resolve.{Resolves}
use advanced_accountancy.Accounting.Provisioning.Postable.{
  starter_lines, OverridesOwned, balanced_rule-Postable,
}
use advanced_accountancy.Payroll.{run_has_id, update_run, run_event, mark_posted, post}
use advanced_accountancy.Payroll.Runs.{RunPosted, run_exact, run_totals_agree}

update_run-Commits :
    (id : Uuid) (change : PayrollRun → PayrollRun) (s : Db) (before : PayrollRun)
    → find (run_has_id id) s.payroll_runs ≡ some before
    → Commits (update_run id change s)
unfolding update_run
update_run-Commits id change s before found =
    Commits-gets _ _ s (Commits-or_throw _ _ _ s before found (Commits-modify _ _ s (_, _, refl)))

post-Commits :
    (user_id id : Uuid) (s : Db) (run : PayrollRun) (company : Company)
    → find (run_has_id id) s.payroll_runs ≡ some run
    → doc_eq run.status doc_approved ≡ true
    → find (company_has_id run.company_id) s.companies ≡ some company
    → Postable (run_event user_id run company) s
    → Commits (post user_id id s)
unfolding post
post-Commits user_id id s run company found approved of_company postable =
    let (e, t, ran, same) =
      event-Commits (λ x. x.payroll_runs ≡ s.payroll_runs) (run_event user_id run company) s
        (λ x q i j g h. h) refl postable in
    let (r, u, updated) =
      update_run-Commits id (mark_posted e.id t.now) t run
        (ap (find (run_has_id id)) same ∙ found) in
    Commits-gets _ _ s (
      Commits-or_throw _ _ _ s run found (
        Commits-throw_if _ _ _ s (false_of_not _ approved) (
          Commits-gets _ _ s (
            Commits-or_throw _ _ _ s company of_company (
              Commits-bind _ _ s e t ran
                (Commits-gets _ _ t (Commits-bind _ _ t r u updated (audit-Commits _ r u))))))))

-- An approved payroll run whose gross total is its net total and its deductions, whose company
-- is there and has an active rule for it with the starter rule's lines, the accounts of which
-- are in the chart, and the end of whose period is covered by an open period, posts: the call
-- commits, the event of the run posts an entry at the tables that the call began with, the
-- journal and the account balances end as the event left them, the run alone of the runs is
-- changed, to posted with the entry and the day, and the entry's stored debits equal its stored
-- credits.
pub run_posts :
    (user_id id : Uuid) (s : Db) (run : PayrollRun) (company : Company) (rule : PostingRule)
    (period : AccountingPeriod)
    → find (run_has_id id) s.payroll_runs ≡ some run
    → doc_eq run.status doc_approved ≡ true
    → run.total_gross ≡ run.total_net +ℤ run.total_deductions
    → find (company_has_id run.company_id) s.companies ≡ some company
    → find (is_rule run.company_id "PAYROLL_RUN_POSTED") s.posting_rules ≡ some rule
    → rule.is_active ≡ true
    → rule.lines ≡ starter_lines "PAYROLL_RUN_POSTED"
    → All (Resolves run.company_id s.chart_of_accounts) rule.lines
    → find (covers s.fiscal_years run.company_id run.period_end) s.accounting_periods ≡ some period
    → is_open period.status ≡ true
    → (posted : PayrollRun) × (t : Db) × (post user_id id s ≡ ok (posted, t))
      × ((p : RunPosted user_id id s t posted) × (entry_debits p.entry ≡ entry_credits p.entry))
run_posts user_id id s run company rule period found approved total of_company listed active lines
      resolve covered opened =
    let params = run_event user_id run company in
    let balances =
      starter_posting_rules-Balances params.amounts (omega int_laws, run_totals_agree run total) in
    let (posted, t, ran) = post-Commits user_id id s run company found approved of_company (
      balanced_rule-Postable params s rule period listed active covered opened resolve
        (subst (All (OverridesOwned params s.chart_of_accounts)) (sym lines) (tt, (tt, (tt, tt))))
        (subst (Balances params.amounts) (sym lines) balances.1.1.1.1.1.1.1.0)) in
    let starter : FollowsStarter rule = record {
      template = record {
        event_type = "PAYROLL_RUN_POSTED";
        lines = starter_lines "PAYROLL_RUN_POSTED";
      };
      listed = later (later (later (later (later (later (later first))))));
      same = lines;
    } in
    (posted, t, ran, run_exact user_id id s t posted run rule found total listed starter ran)
