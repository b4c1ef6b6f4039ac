-- ===== src/Examples/Approvals.antt =====
-- The theorems of the approvals, payrolls and reconciliations at concrete inputs.
use erp_ai_private.Prelude.{find, ◌==◌, ◌*◌, ◌/◌, ◌≡◌, ◌↔◌, refl, List, [], ◌∷◌, none, some}
use erp_ai_private.Prelude.Int.{pos, pos_part, ◌+ℤ◌, ◌-ℤ◌}
use erp_ai_private.Decimal.{Decimals}
use erp_ai_private.Db.{
  approved_payment, draft_payment, payment_entity, Db, PayrollRun, Payslip, ok, draft_run,
}
use erp_ai_private.Payroll.{calculate, PayslipDto, Totals, no_totals}
use erp_ai_private.Payroll.Amounts.{Agrees}
use erp_ai_private.Orders.{order_approved_event, order_rejected_event}
use erp_ai_private.Payments.{payment_approved_event, payment_rejected_event}
use erp_ai_private.Payroll.{payroll_approved_event, payroll_rejected_event}
use erp_ai_private.Approvals.{approve_request, reject_request}
use erp_ai_private.Approvals.Decisions.{IsClosed, approve_request_once, reject_request-payment}
use erp_ai_private.Reconciliations.{complete_reconciliation}
use erp_ai_private.Reconciliations.Matching.{
  IsComplete, IsFrozen, complete_reconciliation_iff, complete_reconciliation-IsFrozen,
}
use erp_ai_private.Employees.{ProcessPayrollDto}
use erp_ai_private.Examples.{receipt, request, whole, today, clerk, company}

abbrev approved_db : Db
approved_db = (approve_request whole 1 today 70 3 company).1

approve_order_request : approve_request whole 1 today 70 3 company ≡ (ok tt, approved_db)
unfolding approve_request payment_approved_event payroll_approved_event order_approved_event
approve_order_request = refl

approve_request_once_example : IsClosed whole 1 70 approved_db
approve_request_once_example =
    approve_request_once whole 1 70 3 company approved_db today approve_order_request

abbrev rejected_db : Db
rejected_db = (reject_request 1 70 3 company).1

reject_order_request : reject_request 1 70 3 company ≡ (ok tt, rejected_db)
unfolding reject_request payment_rejected_event payroll_rejected_event order_rejected_event
reject_order_request = refl

complete_reconciliation_iff_example :
    ((complete_reconciliation 1 95 2 company).0 ≡ ok tt) ↔ IsComplete 1 95 company
complete_reconciliation_iff_example = complete_reconciliation_iff 1 95 2 company

abbrev completed_db : Db
completed_db = (complete_reconciliation 1 95 2 company).1

complete_statement : complete_reconciliation 1 95 2 company ≡ (ok tt, completed_db)
unfolding complete_reconciliation ◌+ℤ◌
complete_statement = refl

complete_reconciliation-IsFrozen_example : IsFrozen 1 95 completed_db
complete_reconciliation-IsFrozen_example =
    complete_reconciliation-IsFrozen 1 95 2 company completed_db complete_statement

-- amounts in tenths
abbrev tenths : Decimals
tenths = record whole { scale = 10; mul = λ a b. pos (pos_part a * pos_part b / 10) }

abbrev payslip : PayslipDto
payslip = record { employee = 90; other_deductions = some (pos 100); bonus = none }

abbrev paid_slip : Totals × List Payslip
paid_slip = (
  record { gross = pos 3600; gosi = pos 350; other = pos 100; net = pos 3150 },
  record {
    employee = 90;
    gross_salary = pos 3600;
    gosi_deduction = pos 350;
    other_deductions = pos 100;
    net_salary = pos 3150;
  }
      ∷ [],
)

no_payslips-Agrees : Agrees (no_totals, [])
unfolding ◌+ℤ◌
no_payslips-Agrees = record { gross = refl; net = refl; kept = refl }

calculate_slip : calculate tenths (clerk ∷ []) (no_totals, []) (payslip ∷ []) ≡ ok paid_slip
unfolding calculate ◌+ℤ◌ ◌-ℤ◌
calculate_slip = refl

abbrev run : PayrollRun
run = record {
  id = 96;
  tenant = 1;
  period_name = 1;
  status = draft_run;
  total_gross = pos 3600;
  total_net = pos 3150;
  total_deductions = pos 450;
  total_gosi = pos 350;
  total_other_deductions = pos 100;
  journal_entry = none;
  payslips = paid_slip.1;
}

abbrev wages_dto : ProcessPayrollDto
wages_dto = record {
  post_date = today;
  salary_expense_account = 12;
  salary_payable_account = 10;
  gosi_payable_account = 10;
  gosi_expense_account = 12;
}

-- a payment that was approved directly, while its request is still pending
abbrev paid_db : Db
paid_db = record company {
  payments = record receipt { status = approved_payment; journal_entry = some 7 } ∷ [];
  approvals = record request { entity_type = payment_entity; entity_id = 61 } ∷ [];
}

abbrev reopened_db : Db
reopened_db = (reject_request 1 70 3 paid_db).1

reject_payment_request : reject_request 1 70 3 paid_db ≡ (ok tt, reopened_db)
unfolding reject_request payment_rejected_event payroll_rejected_event order_rejected_event
reject_payment_request = refl

reject_request-payment_example :
    find (λ q. q.id == 61) reopened_db.payments
    ≡ some (record receipt { status = draft_payment; journal_entry = some 7 })
reject_request-payment_example =
    reject_request-payment 1 70 3 paid_db reopened_db refl refl refl reject_payment_request
