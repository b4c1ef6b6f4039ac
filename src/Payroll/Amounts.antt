-- ===== src/Payroll/Amounts.antt =====
-- The totals of a payroll run.
use erp_ai_private.Prelude.{
  ℕ, ◌==◌, ◌≡◌, ◌↔◌, ap, ◌∙◌, inl, inr, refl, sym, List, [], ◌∷◌, ◌++◌, arith, find, Bool-cases,
  Option-cases,
}
use erp_ai_private.Prelude.Int.{
  ℤ, pos, ◌+ℤ◌, ◌≤ℤ◌, sum_by, sum_by-append, sum_by-snoc, int_laws, eq_of_parts, ltb_ℤ,
}
use erp_ai_private.Decimal.{Decimals}
use erp_ai_private.Db.{Profile, Payslip, PayrollRun, ok}
use erp_ai_private.Journal.Balance.{debit_of, credit_of}
use erp_ai_private.Payroll.Create.{
  PayslipDto, Totals, payslip_of, violates_contract, add_payslip, calculate,
}
use erp_ai_private.Payroll.Approve.{credit_if, payroll_lines}

-- The totals are the sums over the rows, and gross pay is what is paid and what is kept back.
pub record Agrees (r : Totals × List Payslip) : Type 0 where
  pub gross : (r.0).gross ≡ sum_by (λ s. s.gross_salary) r.1
  pub net : (r.0).net ≡ sum_by (λ s. s.net_salary) r.1
  pub kept : (r.0).gross ≡ (r.0).net +ℤ (r.0).gosi +ℤ (r.0).other

add_payslip-Agrees :
    (D : Decimals) (acc : Totals × List Payslip) (e : Profile) (p : PayslipDto)
    → Agrees acc
    → Agrees (add_payslip acc.0 (payslip_of D e p), acc.1 ++ payslip_of D e p ∷ [])
add_payslip-Agrees D acc e p h = record {
  gross =
      ap (λ x. x +ℤ (payslip_of D e p).gross_salary) h.gross
      ∙ sum_by-snoc (λ s. s.gross_salary) acc.1 (payslip_of D e p);
  net =
      ap (λ x. x +ℤ (payslip_of D e p).net_salary) h.net
      ∙ sum_by-snoc (λ s. s.net_salary) acc.1 (payslip_of D e p);
  kept = grind int_laws;
}

-- In a payroll run that is calculated the totals are the sums over the payslips, and the gross
-- total is the net total with the GOSI and the other deductions.
pub calculate-Agrees :
    (D : Decimals) (profiles : List Profile) (acc r : Totals × List Payslip) (ps : List PayslipDto)
    → Agrees acc
    → calculate D profiles acc ps ≡ ok r
    → Agrees r
unfolding calculate
calculate-Agrees D profiles acc r [] h e = let same : acc ≡ r = cc in rw (← same) h
calculate-Agrees D profiles acc r (p ∷ ps) h e =
    elim (Option-cases (find (λ q. q.id == p.employee) profiles)) [
      | inl missing ↦ calculate-Agrees D profiles acc r ps h (ground arith)
      | inr (q, found) ↦ elim (Bool-cases (violates_contract D q p)) [
        | inl wrong ↦ absurd (ground arith)
        | inr right ↦
            calculate-Agrees D profiles
              (add_payslip acc.0 (payslip_of D q p), acc.1 ++ payslip_of D q p ∷ []) r ps
              (add_payslip-Agrees D acc q p h) (ground arith)
      ]
    ]

credit_if-sums :
    (account : ℕ) (total : ℤ)
    → pos 0 ≤ℤ total
    → (sum_by debit_of (credit_if account total) ≡ pos 0)
      × (sum_by credit_of (credit_if account total) ≡ total)
credit_if-sums account total h = elim (Bool-cases (ltb_ℤ (pos 0) total)) [
  | inl positive ↦ rw positive (omega int_laws, omega int_laws)
  | inr nothing ↦ rw nothing (refl, eq_of_parts (pos 0) total (ground arith))
]

payroll_lines-sums :
    (r : PayrollRun) (salary gosi other payable : ℕ)
    → pos 0 ≤ℤ r.total_gosi
    → pos 0 ≤ℤ r.total_other_deductions
    → (sum_by debit_of (payroll_lines r salary gosi other payable) ≡ r.total_gross)
      × (sum_by credit_of (payroll_lines r salary gosi other payable)
          ≡ r.total_net +ℤ r.total_gosi +ℤ r.total_other_deductions)
unfolding payroll_lines
payroll_lines-sums r salary gosi other payable p q =
    let (gd, gc) = credit_if-sums gosi r.total_gosi p in
    let (od, oc) = credit_if-sums other r.total_other_deductions q in
    (
      rw (sum_by-append debit_of, sum_by-append debit_of, gd, od) (omega int_laws),
      rw (sum_by-append credit_of, sum_by-append credit_of, gc, oc) (omega int_laws),
    )

-- The journal lines of a run have equal debits and credits exactly if its stored totals still
-- add up; the totals for GOSI and other deductions are not negative.
pub payroll_lines-balance :
    (r : PayrollRun) (salary gosi other payable : ℕ)
    → pos 0 ≤ℤ r.total_gosi
    → pos 0 ≤ℤ r.total_other_deductions
    → (sum_by debit_of (payroll_lines r salary gosi other payable)
        ≡ sum_by credit_of (payroll_lines r salary gosi other payable))
      ↔ (r.total_gross ≡ r.total_net +ℤ r.total_gosi +ℤ r.total_other_deductions)
payroll_lines-balance r salary gosi other payable p q =
    let (d, c) = payroll_lines-sums r salary gosi other payable p q in
    (λ h. sym d ∙ h ∙ c, λ h. d ∙ h ∙ sym c)
