-- ===== src/Payroll/Create.antt =====
-- `createPayrollRun`: the payslips, their totals and the request for approval.
use erp_ai_private.Prelude.{
  ℕ, ◌+◌, ◌/◌, ◌==◌, List, [], ◌∷◌, ◌++◌, Option, none, some, Bool, true, false, ◌&&◌, not, find,
  select, remove, length, is_none, if◌then◌else◌,
}
use erp_ai_private.Prelude.Int.{ℤ, pos, ◌+ℤ◌, ◌-ℤ◌, eq_ℤ, ltb_ℤ, min_ℤ}
use erp_ai_private.Decimal.{Decimals, lit}
use erp_ai_private.Db.{
  PayrollStatus, pending_run, approved_run, paid_run, payroll_entity, Profile, Payslip, PayrollRun,
  Db, Result, ok, err, Action, ◌>>=◌, ◌>>◌, read, check, run_exists, profiles_missing,
  contract_mismatch,
}
use erp_ai_private.Invoices.{or_zero}
use erp_ai_private.Payments.{insert_approval}

-- `GeneratePayslipDto`
pub record PayslipDto : Type 0 where
  pub employee : ℕ
  pub other_deductions : Option ℤ
  pub bonus : Option ℤ

-- `CreatePayrollRunDto`; a period's name is only compared
pub record RunDto : Type 0 where
  pub period_name : ℕ
  pub payslips : List PayslipDto

abbrev pub is_final : PayrollStatus → Bool
is_final approved_run = true
is_final paid_run = true
is_final _ = false

abbrev pub find_run : ℕ → ℕ → Db → Option PayrollRun
find_run tenant period db =
    find (λ r. r.tenant == tenant && r.period_name == period) db.payroll_runs

-- An earlier run of the period is refused, or deleted at once, outside the transaction below.
unfoldable pub replace_run : ℕ → ℕ → Action (Unit {0})
replace_run tenant period db = elim (find_run tenant period db) [
  | none ↦ (ok tt, db)
  | some r ↦
      if is_final r.status
      then (err run_exists, db)
      else (ok tt, record db { payroll_runs = remove (λ q. q.id == r.id) db.payroll_runs })
]

abbrev pub is_requested : ℕ → List PayslipDto → Bool
is_requested id ps = not (is_none (find (λ p. p.employee == id) ps))

-- the profiles of the tenant among the requested ids
abbrev pub requested_profiles : ℕ → List PayslipDto → Db → List Profile
requested_profiles tenant ps db =
    select (λ e. e.tenant == tenant && is_requested e.id ps) db.profiles

pub record Totals : Type 0 where
  pub gross : ℤ
  pub gosi : ℤ
  pub other : ℤ
  pub net : ℤ

abbrev pub no_totals : Totals
no_totals = record { gross = pos 0; gosi = pos 0; other = pos 0; net = pos 0 }

module _ (D : Decimals) where
  -- `0.10`
  abbrev pub tenth : ℤ
  tenth = pos (D.scale / 10)

  abbrev pub payslip_of : Profile → PayslipDto → Payslip
  payslip_of e p =
      let bonus = or_zero p.bonus in
      let gross = e.basic_salary +ℤ e.housing_allowance +ℤ e.transport_allowance +ℤ bonus in
      let applicable = min_ℤ (e.basic_salary +ℤ e.housing_allowance) (lit D 45000) in
      let gosi = D.mul applicable tenth in
      let other = or_zero p.other_deductions in
      record {
        employee = e.id;
        gross_salary = gross;
        gosi_deduction = gosi;
        other_deductions = other;
        net_salary = gross -ℤ gosi -ℤ other;
      }

  -- the check against the registered contract
  abbrev pub violates_contract : Profile → PayslipDto → Bool
  violates_contract e p =
      ltb_ℤ (pos 0) e.contract_salary
      && not (eq_ℤ (payslip_of e p).gross_salary (e.contract_salary +ℤ or_zero p.bonus))

abbrev pub add_payslip : Totals → Payslip → Totals
add_payslip t s = record {
  gross = t.gross +ℤ s.gross_salary;
  gosi = t.gosi +ℤ s.gosi_deduction;
  other = t.other +ℤ s.other_deductions;
  net = t.net +ℤ s.net_salary;
}

module _ (D : Decimals) where
  -- the loop over the payslips, with the totals and the rows so far
  unfoldable pub calculate :
      List Profile → Totals × List Payslip → List PayslipDto → Result (Totals × List Payslip)
  calculate profiles acc [] = ok acc
  calculate profiles acc (p ∷ ps) =
      let skip = calculate profiles acc ps in
      let take = λ (e : Profile).
        calculate profiles (add_payslip acc.0 (payslip_of D e p), acc.1 ++ payslip_of D e p ∷ [])
          ps in
      elim (find (λ e. e.id == p.employee) profiles) [
        | none ↦ skip
        | some e ↦ if violates_contract D e p then err contract_mismatch else take e
      ]

  abbrev pub store_payslip : Payslip → Payslip
  store_payslip s = record s {
    gross_salary = D.column 2 s.gross_salary;
    gosi_deduction = D.column 2 s.gosi_deduction;
    other_deductions = D.column 2 s.other_deductions;
    net_salary = D.column 2 s.net_salary;
  }

  unfoldable pub store_payslips : List Payslip → List Payslip
  store_payslips [] = []
  store_payslips (s ∷ ss) = store_payslip s ∷ store_payslips ss

  abbrev pub run_of : ℕ → ℕ → Totals × List Payslip → ℕ → PayrollRun
  run_of tenant period r id = record {
    id = id;
    tenant = tenant;
    period_name = period;
    status = pending_run;
    total_gross = D.column 2 (r.0).gross;
    total_net = D.column 2 (r.0).net;
    total_deductions = D.column 2 ((r.0).gosi +ℤ (r.0).other);
    total_gosi = D.column 2 (r.0).gosi;
    total_other_deductions = D.column 2 (r.0).other;
    journal_entry = none;
    payslips = store_payslips r.1;
  }

  -- the transaction: the run and its request for approval
  unfoldable pub insert_run : ℕ → ℕ → ℕ → Totals × List Payslip → Action PayrollRun
  insert_run tenant user period r db =
      let run = run_of tenant period r db.next_id in
      (
        ok run,
        insert_approval tenant payroll_entity run.id user
            (record db { next_id = db.next_id + 1; payroll_runs = run ∷ db.payroll_runs }),
      )

  unfoldable pub create_payroll_run : ℕ → ℕ → RunDto → Action PayrollRun
  create_payroll_run tenant user dto = do
    replace_run tenant dto.period_name
    profiles ← read (λ db. ok (requested_profiles tenant dto.payslips db))
    check (length profiles == length dto.payslips) profiles_missing
    r ← read (λ db. calculate profiles (no_totals, []) dto.payslips)
    insert_run tenant user dto.period_name r
