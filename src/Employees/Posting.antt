-- ===== src/Employees/Posting.antt =====
-- The journal lines of `processPayroll`.
use erp_ai_private.Prelude.{ℕ, ◌≡◌, ◌≢◌, List, [], ◌∷◌, arith, inl, inr, List-cases}
use erp_ai_private.Prelude.Int.{◌+ℤ◌, sum_by, int_laws}
use erp_ai_private.Decimal.{Decimals}
use erp_ai_private.Db.{Date, Profile, Db, err, out_of_balance}
use erp_ai_private.Journal.Balance.{debit_of, credit_of}
use erp_ai_private.Journal.InBalance.{create_in_balance}
use erp_ai_private.Employees.{
  employees_of, ProcessPayrollDto, Wages, no_wages, add_employee, wages, wage_lines,
  process_payroll,
}

-- net pay and the employees' share make up the gross pay
abbrev Adds : Wages → Type 0
Adds w = w.gross ≡ w.net +ℤ w.employee_gosi

wages-Adds : (D : Decimals) (w : Wages) (es : List Profile) → Adds w → Adds (wages D w es)
unfolding wages add_employee
wages-Adds D w [] h = h
wages-Adds D w (e ∷ es) h = wages-Adds D (add_employee D w e) es (grind int_laws)

wage_lines-balance :
    (D : Decimals) (dto : ProcessPayrollDto) (w : Wages)
    → Adds w
    → sum_by debit_of (wage_lines D dto w) ≡ sum_by credit_of (wage_lines D dto w)
unfolding wage_lines
wage_lines-balance D dto w h = grind int_laws

-- Whatever the employees and however their shares are rounded, `processPayroll` is never refused
-- for an entry that is out of balance.
pub process_payroll_in_balance :
    (D : Decimals) (tenant : ℕ) (now : Date) (dto : ProcessPayrollDto) (db : Db)
    → (process_payroll D tenant now dto db).0 ≢ err out_of_balance
unfolding process_payroll
process_payroll_in_balance D tenant now dto db h = elim (List-cases (employees_of D tenant db)) [
  | inl nobody ↦ ground arith
  | inr (e, es, all) ↦
      create_in_balance D tenant now
        (record {
          entry_date = dto.post_date;
          lines = wage_lines D dto (wages D no_wages (e ∷ es));
        })
        db
        (wage_lines-balance D dto (wages D no_wages (e ∷ es))
          (wages-Adds D no_wages (e ∷ es) (omega int_laws)))
        (ground arith)
]
