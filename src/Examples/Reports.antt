-- ===== src/Examples/Reports.antt =====
-- The balance sheet after an invoice and its payment.
use erp_ai_private.Prelude.{refl, none, All}
use erp_ai_private.Prelude.Int.{◌+ℤ◌, ◌-ℤ◌}
use erp_ai_private.Db.{Date}
use erp_ai_private.Accounts.{validate_account_for_posting}
use erp_ai_private.Periods.{find_active_period_by_date}
use erp_ai_private.Journal.{
  check_line, check_lines, insert_entry, has_references, has_room, store_lines, execute_create,
  create,
}
use erp_ai_private.Sequences.{get_previous_invoice_hash}
use erp_ai_private.Inventory.{upsert, process_outward_movement}
use erp_ai_private.Invoices.{
  control_account, stock_of_line, stock_lines, post_lines, execute_approve, approve_invoice,
}
use erp_ai_private.Payments.{
  allocate, payment_account, payment_lines, execute_approve_payment, approve_payment,
}
use erp_ai_private.Ledger.{trial_row, posted_lines, get_trial_balance}
use erp_ai_private.Ledger.Rounding.{IsWithin, allowed}
use erp_ai_private.Reports.{get_balance_sheet}
use erp_ai_private.Reports.Equation.{IsNormal, Reaches-get_balance_sheet}
use erp_ai_private.Examples.{whole, company}
use erp_ai_private.Examples.Services.{
  settled, whole-IsRounding, settled-Reaches, settled-HasOneAccount,
}

settled-IsNormal : All IsNormal (get_trial_balance 1 none none settled).items
unfolding approve_invoice execute_approve post_lines stock_lines stock_of_line
    process_outward_movement upsert control_account create check_lines check_line execute_create
    insert_entry has_references has_room store_lines validate_account_for_posting
    find_active_period_by_date get_previous_invoice_hash approve_payment execute_approve_payment
    allocate payment_account payment_lines posted_lines get_trial_balance trial_row ◌+ℤ◌ ◌-ℤ◌
settled-IsNormal = (refl, (refl, (refl, tt)))

Reaches-get_balance_sheet_example :
    let s = get_balance_sheet 1 none settled in
    IsWithin
      (allowed 0 (posted_lines 1 none none settled))
      (s.total_assets -ℤ (s.total_liabilities +ℤ s.total_equity))
Reaches-get_balance_sheet_example =
    Reaches-get_balance_sheet whole 0 1 none company settled whole-IsRounding settled-Reaches refl
      settled-HasOneAccount settled-IsNormal

abbrev new_year : Date
new_year = record { year = 2026; ms = 0 }
