-- ===== src/Schema/Payroll.antt =====
-- Models Employee, SalaryStructure, PayrollRun and Payslip.
use advanced_accountancy.Prelude.{Bool, Option, List}
use advanced_accountancy.Prelude.Text.{Text}
use advanced_accountancy.Schema.Units.{Uuid, Day, Cents}
use advanced_accountancy.Schema.Sales.{DocStatus}

pub record Employee : Type 0 where
  pub id : Uuid
  pub company_id : Uuid
  pub is_active : Bool  -- status: active

pub record SalaryStructure : Type 0 where
  pub employee_id : Uuid
  pub effective_from : Day
  pub basic_salary : Cents
  pub allowances : Cents
  pub deductions : Cents

pub record Payslip : Type 0 where
  pub employee_id : Uuid
  pub gross_pay : Cents
  pub deductions : Cents
  pub net_pay : Cents

pub record PayrollRun : Type 0 where
  pub id : Uuid
  pub company_id : Uuid
  pub run_number : Text
  pub period_start : Day
  pub period_end : Day
  pub total_gross : Cents
  pub total_deductions : Cents
  pub total_net : Cents
  pub status : DocStatus
  pub journal_entry_id : Option Uuid
  pub posted_at : Option Day
  pub payslips : List Payslip
