-- ===== src/Operations/Payroll.antt =====
-- backend/src/payroll: what each operation does to the books.
use advanced_accountancy.Prelude.{List, [], ◌∷◌}
use advanced_accountancy.Tx.Keeps.{Keeps, Keeps-pure, Keeps-bind, Keeps-gets}
use advanced_accountancy.Schema.{Uuid, Day, Employee, PayrollRun, Db}
use advanced_accountancy.Payroll
use advanced_accountancy.Payroll.{
  CreatePayrollRunDto, Totals, pay_employees, add_employee, create_run, update_run,
}
use advanced_accountancy.Operations.Books.{Books, books_rules}

module _ {P : Db → Type 0} (b : Books P) where
  create_run-Keeps : (make : Uuid → PayrollRun) → Keeps P (create_run make)
  unfolding create_run
  create_run-Keeps make = search books_rules depth 24

  update_run-Keeps : (id : Uuid) (change : PayrollRun → PayrollRun) → Keeps P (update_run id change)
  unfolding update_run
  update_run-Keeps id change = search books_rules depth 24

  pay_employees-Keeps :
      (end : Day) (t : Totals) (es : List Employee) → Keeps P (pay_employees end t es)
  unfolding pay_employees
  pay_employees-Keeps end t [] = Keeps-pure t
  pay_employees-Keeps end t (e ∷ es) =
      Keeps-bind _ _ (Keeps-gets _)
        λ structure. pay_employees-Keeps end (add_employee e.id structure t) es

  pub run_created-Keeps :
      (user : Uuid) (dto : CreatePayrollRunDto) → Keeps P (Payroll.create user dto)
  unfolding Payroll.create
  run_created-Keeps user dto = search (books_rules, pay_employees-Keeps, create_run-Keeps) depth 24

  pub run_approved-Keeps : (user id : Uuid) → Keeps P (Payroll.approve user id)
  unfolding Payroll.approve
  run_approved-Keeps user id = search (books_rules, update_run-Keeps) depth 24

  pub run_posted-Keeps : (user id : Uuid) → Keeps P (Payroll.post user id)
  unfolding Payroll.post
  run_posted-Keeps user id = search (books_rules, update_run-Keeps) depth 28
