-- ===== src/Payroll.antt =====
-- backend/src/payroll/payroll-runs.ts: a payroll run from draft to posted, and its event.
pub mod Runs
pub mod Success
use advanced_accountancy.Prelude.{
  ℕ, String, Bool, false, true, not, ◌&&◌, ◌||◌, Option, none, some, List, [], ◌∷◌, ◌++◌, ◌==◌, ltb,
  leb, find, find_many, modify_first, length, if◌then◌else◌,
}
use advanced_accountancy.Prelude.Int.{pos, ◌+ℤ◌, ◌-ℤ◌}
use advanced_accountancy.Prelude.Text.{Text, codes}
use advanced_accountancy.Tx.{
  Tx, pure, gets, or_throw, modify, throw_if, ◌>>=◌, ◌>>◌, not_found, wrong_status, record_missing,
  no_employees, no_salary_structures,
}
use advanced_accountancy.Schema.{
  Uuid, Day, Amount, Cents, Employee, SalaryStructure, Payslip, PayrollRun, Company, company_has_id,
  doc_draft, doc_approved, doc_posted, doc_eq, no_dimensions, AuditAction, AuditValue, Db, fresh,
  from_cents,
}
use advanced_accountancy.Audit.{record_audit, audit_row}
use advanced_accountancy.Accounting.Numbering.{next}
use advanced_accountancy.Accounting.Engine.{PostEventParams, post_event}

pub record CreatePayrollRunDto : Type 0 where
  pub company_id : Uuid
  pub period_start : Day
  pub period_end : Day
  pub employee_ids : Option (List Uuid)

abbrev pub member : Uuid → List Uuid → Bool
member id [] = false
member id (x ∷ xs) = (x == id) || member id xs

abbrev pub chosen : Option (List Uuid) → Uuid → Bool
chosen none id = true
chosen (some ids) id = member id ids

-- The `where` of the search for the employees.
abbrev pub is_paid : CreatePayrollRunDto → Employee → Bool
is_paid dto e = (e.company_id == dto.company_id) && e.is_active && chosen dto.employee_ids e.id

abbrev later_structure : SalaryStructure → Option SalaryStructure → Option SalaryStructure
later_structure r none = some r
later_structure r (some q) = if ltb r.effective_from q.effective_from then some q else some r

-- `findFirst` with the latest `effectiveFrom` first.
unfoldable pub latest_structure : Uuid → Day → List SalaryStructure → Option SalaryStructure
latest_structure employee_id period_end [] = none
latest_structure employee_id period_end (r ∷ rest) =
    let latest = latest_structure employee_id period_end rest in
    if (r.employee_id == employee_id) && leb r.effective_from period_end
    then later_structure r latest
    else latest

abbrev pub gross_of : SalaryStructure → Cents
gross_of r = r.basic_salary +ℤ r.allowances

abbrev pub payslip_of : Uuid → SalaryStructure → Payslip
payslip_of employee_id r = record {
  employee_id = employee_id;
  gross_pay = gross_of r;
  deductions = r.deductions;
  net_pay = gross_of r -ℤ r.deductions;
}

-- The totals so far, and the payslips.
pub record Totals : Type 0 where
  pub gross : Cents
  pub deductions : Cents
  pub net : Cents
  pub payslips : List Payslip

-- One round of the loop: an employee without a structure is skipped.
abbrev pub add_employee : Uuid → Option SalaryStructure → Totals → Totals
add_employee employee_id none t = t
add_employee employee_id (some r) t = record {
  gross = t.gross +ℤ gross_of r;
  deductions = t.deductions +ℤ r.deductions;
  net = t.net +ℤ (gross_of r -ℤ r.deductions);
  payslips = t.payslips ++ payslip_of employee_id r ∷ [];
}

-- The loop over the employees.
unfoldable pub pay_employees : Day → Totals → List Employee → Tx Db Totals
pay_employees period_end t [] = pure t
pay_employees period_end t (e ∷ rest) = do
  structure ← gets (λ s. latest_structure e.id period_end s.salary_structures)
  pay_employees period_end (add_employee e.id structure t) rest

abbrev pub new_run : CreatePayrollRunDto → Text → Totals → Uuid → PayrollRun
new_run dto run_number t id = record {
  id = id;
  company_id = dto.company_id;
  run_number = run_number;
  period_start = dto.period_start;
  period_end = dto.period_end;
  total_gross = t.gross;
  total_deductions = t.deductions;
  total_net = t.net;
  status = doc_draft;
  journal_entry_id = none;
  posted_at = none;
  payslips = t.payslips;
}

unfoldable pub create_run : (Uuid → PayrollRun) → Tx Db PayrollRun
create_run make = do
  id ← fresh
  modify (λ s. record s { payroll_runs = s.payroll_runs ++ make id ∷ [] })
  pure (make id)

abbrev pub no_totals : Totals
no_totals = record { gross = pos 0; deductions = pos 0; net = pos 0; payslips = [] }

unfoldable pub create : Uuid → CreatePayrollRunDto → Tx Db PayrollRun
create user_id dto = do
  employees ← gets (λ s. find_many (is_paid dto) s.employees)
  throw_if (length employees == 0) no_employees
  t ← pay_employees dto.period_end no_totals employees
  throw_if (length t.payslips == 0) no_salary_structures
  run_number ← next dto.company_id "PAYROLL_RUN" (codes "PAY-RUN-")
  run ← create_run (new_run dto run_number t)
  record_audit (
      audit_row dto.company_id user_id AuditAction.create "payroll_run" run.id none
        (some (AuditValue.run_totals run_number t.gross t.net (length t.payslips))))
  pure run

abbrev pub run_has_id : Uuid → PayrollRun → Bool
run_has_id id r = r.id == id

unfoldable pub update_run : Uuid → (PayrollRun → PayrollRun) → Tx Db PayrollRun
update_run id change = do
  row ← gets (λ s. find (run_has_id id) s.payroll_runs)
  before ← or_throw row record_missing
  modify (λ s. record s { payroll_runs = modify_first (run_has_id id) change s.payroll_runs })
  pure (change before)

abbrev pub mark_approved : PayrollRun → PayrollRun
mark_approved r = record r { status = doc_approved }

unfoldable pub approve : Uuid → Uuid → Tx Db PayrollRun
approve user_id id = do
  found ← gets (λ s. find (run_has_id id) s.payroll_runs)
  run ← or_throw found not_found
  throw_if (not (doc_eq run.status doc_draft)) wrong_status
  updated ← update_run id mark_approved
  record_audit (audit_row run.company_id user_id AuditAction.approve "payroll_run" id none none)
  pure updated

-- The event of a run: one entry for all its payslips.
abbrev pub run_event : Uuid → PayrollRun → Company → PostEventParams
run_event user_id r company = record {
  company_id = r.company_id;
  branch_id = none;
  event_type = "PAYROLL_RUN_POSTED";
  entry_date = r.period_end;
  currency_code = company.base_currency_code;
  exchange_rate = none;
  source_module = "PAYROLL";
  source_doc_type = "payroll_run";
  source_doc_id = r.id;
  description = some (codes "Payroll Run " ++ r.run_number);
  amounts =
      ("totalGross", from_cents r.total_gross)
      ∷ ("totalNet", from_cents r.total_net)
      ∷ ("totalDeductions", from_cents r.total_deductions)
      ∷ [];
  account_overrides = [];
  dimensions = no_dimensions;
  created_by = some user_id;
}

abbrev pub mark_posted : Uuid → Day → PayrollRun → PayrollRun
mark_posted entry_id now r = record r {
  status = doc_posted;
  journal_entry_id = some entry_id;
  posted_at = some now;
}

unfoldable pub post : Uuid → Uuid → Tx Db PayrollRun
post user_id id = do
  found ← gets (λ s. find (run_has_id id) s.payroll_runs)
  run ← or_throw found not_found
  throw_if (not (doc_eq run.status doc_approved)) wrong_status
  row ← gets (λ s. find (company_has_id run.company_id) s.companies)
  company ← or_throw row record_missing
  entry ← post_event (run_event user_id run company)
  now ← gets (λ s. s.now)
  posted ← update_run id (mark_posted entry.id now)
  record_audit (
      audit_row run.company_id user_id AuditAction.post "payroll_run" id none
        (some (AuditValue.journal_entry entry.id)))
  pure posted
