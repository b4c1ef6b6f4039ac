-- ===== src/Employees.antt =====
-- The payroll of all employees
-- (apps/api/src/modules/business/employee-profiles/employee-profiles.service.ts).
pub mod Posting
use erp_ai_private.Prelude.{ℕ, ◌*◌, ◌/◌, ◌==◌, List, [], ◌∷◌, none, Bool, select, if◌then◌else◌}
use erp_ai_private.Prelude.Int.{ℤ, pos, ◌+ℤ◌, ◌-ℤ◌}
use erp_ai_private.Decimal.{Decimals}
use erp_ai_private.Db.{
  Date, Profile, Entry, Db, Result, ok, err, Action, ◌>>=◌, ◌>>◌, read, no_employees,
}
use erp_ai_private.Journal.{number, text, LineDto, EntryDto, create}
use erp_ai_private.Invoices.{line}

-- `ProcessPayrollDto`
pub record ProcessPayrollDto : Type 0 where
  pub post_date : Date
  pub salary_expense_account : ℕ
  pub salary_payable_account : ℕ
  pub gosi_payable_account : ℕ
  pub gosi_expense_account : ℕ

pub record Wages : Type 0 where
  pub gross : ℤ
  pub employer_gosi : ℤ
  pub employee_gosi : ℤ
  pub net : ℤ

abbrev pub no_wages : Wages
no_wages = record { gross = pos 0; employer_gosi = pos 0; employee_gosi = pos 0; net = pos 0 }

module _ (D : Decimals) where
  -- one round of the loop: 9.75% from the employee and 11.5% from the employer, on basic + housing
  unfoldable pub add_employee : Wages → Profile → Wages
  add_employee w e =
      let gross = e.basic_salary +ℤ e.housing_allowance +ℤ e.transport_allowance in
      let base = e.basic_salary +ℤ e.housing_allowance in
      let employee = D.mul base (pos (D.scale * 975 / 10000)) in
      let employer = D.mul base (pos (D.scale * 115 / 1000)) in
      record {
        gross = w.gross +ℤ gross;
        employer_gosi = w.employer_gosi +ℤ employer;
        employee_gosi = w.employee_gosi +ℤ employee;
        net = w.net +ℤ (gross -ℤ employee);
      }

  unfoldable pub wages : Wages → List Profile → Wages
  wages w [] = w
  wages w (e ∷ es) = wages (add_employee w e) es

  -- `jeLines`
  unfoldable pub wage_lines : ProcessPayrollDto → Wages → List LineDto
  wage_lines dto w =
      line dto.salary_expense_account none (text w.gross) (number (pos 0))
      ∷ line dto.salary_payable_account none (number (pos 0)) (text w.net)
      ∷ line dto.gosi_payable_account none (number (pos 0))
          (text (w.employee_gosi +ℤ w.employer_gosi))
      ∷ line dto.gosi_expense_account none (text w.employer_gosi) (number (pos 0))
      ∷ []

  abbrev pub employees_of : ℕ → Db → List Profile
  employees_of tenant db = select (λ e. e.tenant == tenant) db.profiles

  unfoldable pub process_payroll : ℕ → Date → ProcessPayrollDto → Action Entry
  process_payroll tenant now dto = do
    employees ←
        read (λ db. elim (employees_of tenant db) [ [] ↦ err no_employees | e ∷ es ↦ ok (e ∷ es) ])
    create D tenant now
        (record { entry_date = dto.post_date; lines = wage_lines dto (wages no_wages employees) })
