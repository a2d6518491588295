-- ===== src/Payroll/Runs.antt =====
-- Gross pay is net pay and deductions, and a run's entry balances.
use mathlib.Core.Path.{subst}
use advanced_accountancy.Prelude.{
  ◌≡◌, refl, sym, ap, ◌∙◌, Option, none, some, true, false, List, [], ◌∷◌, ◌==◌, find, sum_by,
  sum_by-snoc, length, modify_first,
}
use advanced_accountancy.Prelude.Int.{ℤ, ◌+ℤ◌, ◌-ℤ◌, int_laws}
use advanced_accountancy.Tx.{ok, ◌>>=◌}
use advanced_accountancy.Tx.Ends.{
  Ends, Ends→, Ends-bind, Ends-gets, Ends-or_throw, Ends-throw_if, Ends-trivial,
}
use advanced_accountancy.Schema.{
  Uuid, Day, Employee, SalaryStructure, PayrollRun, Company, company_has_id, AuditLog, JournalEntry,
  PostingRule, doc_draft, doc_approved, doc_eq, Db, from_cents,
}
use advanced_accountancy.Audit.{record_audit}
use advanced_accountancy.Tables.Finish.{event-Ends}
use advanced_accountancy.Schema.Rounding.{from_cents-add}
use advanced_accountancy.Accounting.Engine.{is_rule, post_event}
use advanced_accountancy.Accounting.Engine.Update.{true_of_not}
use advanced_accountancy.Accounting.Engine.Balance.{entry_debits, entry_credits}
use advanced_accountancy.Accounting.Provisioning.Balance.{FollowsStarter, starter_rule_exact}
use advanced_accountancy.Payroll.{
  CreatePayrollRunDto, Totals, payslip_of, add_employee, pay_employees, no_totals, new_run,
  create_run, create, run_has_id, run_event, update_run, mark_posted, post,
}

-- Totals that are those of their payslips.
pub record Sums (t : Totals) : Type 0 where
  pub gross : t.gross ≡ sum_by (λ p. p.gross_pay) t.payslips
  pub deductions : t.deductions ≡ sum_by (λ p. p.deductions) t.payslips
  pub net : t.net ≡ sum_by (λ p. p.net_pay) t.payslips
  pub split : t.gross ≡ t.net +ℤ t.deductions

split_add : (g n d x y : ℤ) → g ≡ n +ℤ d → g +ℤ x ≡ n +ℤ (x -ℤ y) +ℤ (d +ℤ y)
split_add g n d x y e = rw e (omega int_laws)

add_employee-Sums :
    (id : Uuid) (o : Option SalaryStructure) (t : Totals) → Sums t → Sums (add_employee id o t)
add_employee-Sums id none t h = h
add_employee-Sums id (some r) t h =
    let slip = payslip_of id r in
    record {
      gross =
          ap (λ (x : ℤ). x +ℤ slip.gross_pay) h.gross
          ∙ sym (sum_by-snoc (λ p. p.gross_pay) t.payslips slip);
      deductions =
          ap (λ (x : ℤ). x +ℤ slip.deductions) h.deductions
          ∙ sym (sum_by-snoc (λ p. p.deductions) t.payslips slip);
      net =
          ap (λ (x : ℤ). x +ℤ slip.net_pay) h.net
          ∙ sym (sum_by-snoc (λ p. p.net_pay) t.payslips slip);
      split = split_add t.gross t.net t.deductions slip.gross_pay r.deductions h.split;
    }

pay_employees-Sums :
    (day : Day) (t : Totals) (es : List Employee) (s : Db)
    → Sums t
    → Ends (λ u v. Sums u) (pay_employees day t es s)
unfolding pay_employees
pay_employees-Sums day t [] s h = h
pay_employees-Sums day t (e ∷ es) s h =
    Ends-gets _ _ _ s
      (pay_employees-Sums day (add_employee e.id _ t) es s (add_employee-Sums e.id _ t h))

-- What a run is created with.
pub record RunTotalled (r : PayrollRun) : Type 0 where
  pub draft : r.status ≡ doc_draft
  pub paid : (length r.payslips == 0) ≡ false
  pub gross : r.total_gross ≡ sum_by (λ p. p.gross_pay) r.payslips
  pub deductions : r.total_deductions ≡ sum_by (λ p. p.deductions) r.payslips
  pub net : r.total_net ≡ sum_by (λ p. p.net_pay) r.payslips
  pub split : r.total_gross ≡ r.total_net +ℤ r.total_deductions

create_run-Ends :
    (make : Uuid → PayrollRun) (s : Db)
    → Ends (λ r t. (id : Uuid) × (r ≡ make id)) (create_run make s)
unfolding create_run ◌>>=◌
create_run-Ends make s = (s.next_id, refl)

create-Ends :
    (user_id : Uuid) (dto : CreatePayrollRunDto) (s : Db)
    → Ends (λ r t. RunTotalled r) (create user_id dto s)
unfolding create
create-Ends user_id dto s = Ends-gets _ _ _ s (
    Ends-throw_if _ _ _ _ s λ some_employees.
      Ends-bind _ (λ u v. Sums u) _ _ s
        (pay_employees-Sums dto.period_end no_totals _ s
          (record { gross = refl; deductions = refl; net = refl; split = omega int_laws }))
        λ u v sums. Ends-throw_if _ _ _ _ v λ paid.
          Ends-bind _ (λ n w. Unit) _ _ v (Ends-trivial _)
            λ n w _.
              Ends-bind _ (λ r x. (id : Uuid) × (r ≡ new_run dto n u id)) _ _ w
                (create_run-Ends _ w)
                λ r x made.
                  Ends-bind _ (λ y z. Unit) _ _ x (Ends-trivial _)
                    λ y z _. rw made.1 (record {
                      draft = refl;
                      paid = paid;
                      gross = sums.gross;
                      deductions = sums.deductions;
                      net = sums.net;
                      split = sums.split;
                    }))

-- A payroll run that is created is a draft with at least one payslip; its three totals are the sums
-- over its payslips, and its gross total is its net total and its deductions.
pub create-RunTotalled :
    (user_id : Uuid) (dto : CreatePayrollRunDto) (s t : Db) (r : PayrollRun)
    → create user_id dto s ≡ ok (r, t)
    → RunTotalled r
create-RunTotalled user_id dto s t r e =
    Ends→ _ (create user_id dto s) r t e (create-Ends user_id dto s)

-- What posting a run did: its event at the tables it began with, the run marked with the entry, and
-- the journal and the balances as the event left them.
pub record RunPosted (user_id id : Uuid) (s t : Db) (posted : PayrollRun) : Type 0 where
  pub run : PayrollRun
  pub found : find (run_has_id id) s.payroll_runs ≡ some run
  pub approved : doc_eq run.status doc_approved ≡ true
  pub company : Company
  pub of_company : find (company_has_id run.company_id) s.companies ≡ some company
  pub entry : JournalEntry
  pub after : Db
  pub event : post_event (run_event user_id run company) s ≡ ok (entry, after)
  pub marked : posted ≡ mark_posted entry.id s.now run
  pub rows :
      t.payroll_runs ≡ modify_first (run_has_id id) (mark_posted entry.id s.now) s.payroll_runs
  pub journal : t.journal_entries ≡ after.journal_entries
  pub balances : t.gl_balances ≡ after.gl_balances

-- The run is changed in its table, and the books are as they were.
abbrev Updated : Uuid → (PayrollRun → PayrollRun) → PayrollRun → Db → PayrollRun → Db → Type 0
Updated id change before s r t =
    (r ≡ change before)
    × (t.payroll_runs ≡ modify_first (run_has_id id) change s.payroll_runs)
    × (t.journal_entries ≡ s.journal_entries)
    × (t.gl_balances ≡ s.gl_balances)

update_run-Ends :
    (id : Uuid) (change : PayrollRun → PayrollRun) (s : Db) (before : PayrollRun)
    → find (run_has_id id) s.payroll_runs ≡ some before
    → Ends (λ r t. Updated id change before s r t) (update_run id change s)
unfolding update_run ◌>>=◌
update_run-Ends id change s before found = rw found (refl, refl, refl, refl)

record_audit-Ends :
    (log : AuditLog) (s : Db)
    → Ends
        (λ x t.
          (t.payroll_runs ≡ s.payroll_runs)
          × (t.journal_entries ≡ s.journal_entries)
          × (t.gl_balances ≡ s.gl_balances))
        (record_audit log s)
unfolding record_audit
record_audit-Ends log s = (refl, refl, refl)

post-Ends :
    (user_id id : Uuid) (s : Db) → Ends (λ r t. RunPosted user_id id s t r) (post user_id id s)
unfolding post
post-Ends user_id id s = Ends-gets _ _ _ s (
    Ends-or_throw _ _ _ _ s λ run found. Ends-throw_if _ _ _ _ s λ approved. Ends-gets _ _ _ s (
      Ends-or_throw _ _ _ _ s λ company row.
        let params = run_event user_id run company in
        Ends-bind _
          (λ e u.
            (post_event params s ≡ ok (e, u))
            × ((u.payroll_runs ≡ s.payroll_runs) × (u.now ≡ s.now)))
          _ _ s
          (event-Ends (λ x. (x.payroll_runs ≡ s.payroll_runs) × (x.now ≡ s.now)) params s
            (λ x q i j g h. h) (refl, refl))
          λ e u ran. Ends-gets _ _ _ u (
            Ends-bind _ (λ r v. Updated id (mark_posted e.id u.now) run u r v) _ _ u
              (update_run-Ends id (mark_posted e.id u.now) u run
                (ap (find (run_has_id id)) ran.1.0 ∙ found))
              λ r v marked.
                Ends-bind _
                  (λ x w.
                    (w.payroll_runs ≡ v.payroll_runs)
                    × (w.journal_entries ≡ v.journal_entries)
                    × (w.gl_balances ≡ v.gl_balances))
                  _ _ v (record_audit-Ends _ v)
                  λ x w kept. record {
                    run = run;
                    found = found;
                    approved = true_of_not _ approved;
                    company = company;
                    of_company = row;
                    entry = e;
                    after = u;
                    event = ran.0;
                    marked = marked.0 ∙ ap (λ (d : Day). mark_posted e.id d run) ran.1.1;
                    rows = cc (kept.0, marked.1, ran.1.0, ran.1.1);
                    journal = kept.1 ∙ marked.2;
                    balances = kept.2 ∙ marked.3;
                  })))

pub run_totals_agree :
    (r : PayrollRun)
    → r.total_gross ≡ r.total_net +ℤ r.total_deductions
    → from_cents r.total_gross ≡ from_cents r.total_net +ℤ from_cents r.total_deductions
run_totals_agree r h = ap from_cents h ∙ from_cents-add r.total_net r.total_deductions

-- A run that posts, whose gross total is its net total and its deductions, and whose company has a
-- starter rule for it, was found approved and posts an entry whose stored debits equal its stored
-- credits.
pub run_exact :
    (user_id id : Uuid) (s t : Db) (posted run : PayrollRun) (rule : PostingRule)
    → find (run_has_id id) s.payroll_runs ≡ some run
    → run.total_gross ≡ run.total_net +ℤ run.total_deductions
    → find (is_rule run.company_id "PAYROLL_RUN_POSTED") s.posting_rules ≡ some rule
    → FollowsStarter rule
    → post user_id id s ≡ ok (posted, t)
    → (p : RunPosted user_id id s t posted) × (entry_debits p.entry ≡ entry_credits p.entry)
run_exact user_id id s t posted run rule found total rule_found f e =
    let p = Ends→ _ (post user_id id s) posted t e (post-Ends user_id id s) in
    let same : run ≡ p.run = cc (found, p.found) in
    let split : p.run.total_gross ≡ p.run.total_net +ℤ p.run.total_deductions =
      subst (λ (r : PayrollRun). r.total_gross ≡ r.total_net +ℤ r.total_deductions) same total in
    let its_rule : find (is_rule p.run.company_id "PAYROLL_RUN_POSTED") s.posting_rules
        ≡ some rule =
      subst
        (λ (r : PayrollRun).
          find (is_rule r.company_id "PAYROLL_RUN_POSTED") s.posting_rules ≡ some rule)
        same rule_found in
    (
      p,
      starter_rule_exact (run_event user_id p.run p.company) s p.after p.entry rule
          (
            (p.run.total_gross, refl),
            ((p.run.total_net, refl), ((p.run.total_deductions, refl), tt)),
          )
          (omega int_laws, run_totals_agree p.run split) its_rule f p.event,
    )
