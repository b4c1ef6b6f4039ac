-- ===== src/Services/Steps.antt =====
-- What a call of any service, and a sequence of calls, keeps of the entries.
use erp_ai_private.Prelude.{ℕ, List, [], ◌∷◌}
use erp_ai_private.Decimal.{Decimals}
use erp_ai_private.Db.{Entry, Profile, Date, Db, Result, ok, err, no_employees, read}
use erp_ai_private.Journal.{create}
use erp_ai_private.Employees.{
  ProcessPayrollDto, employees_of, wages, no_wages, wage_lines, process_payroll,
}
use erp_ai_private.Services.Depreciation.{run_monthly_depreciation-Keeps}
use erp_ai_private.Services.Quiet.{
  create_asset-entries, create_account-entries, seed_sme_template-entries, update_status-entries,
  close-entries, transfer_inventory-entries, create_invoice-entries, create_payment-entries,
  create_payroll_run-entries, create_order-entries, receive_goods-entries, approve_order-entries,
  convert_to_bill-entries, upload_statement-entries, complete_reconciliation-entries,
}
use erp_ai_private.Services.{
  Step, Reaches, start, call, account, seeding, new_year, year_setup, period, closing, entry, asset,
  depreciation, reversal, stock_transfer, invoice, invoice_approval, payment, payment_approval, run,
  run_approval, payroll, order, receipt, order_approval, order_bill, approval, rejection, upload,
  automatic, matching, unmatching, completion,
}
use erp_ai_private.Services.Keeps.{
  IsKept, Keeps, >>=-Keeps, approve_invoice-Keeps, approve_payment-Keeps,
}
use erp_ai_private.Services.Handlers.{
  approve_payroll_run-Keeps, approve_request-Keeps, reject_request-Keeps,
}
use erp_ai_private.Services.Years.{create_year-Keeps, initialize_fiscal_year-Keeps}
use erp_ai_private.Services.Matches.{auto_match-Keeps, manual_match-Keeps, manual_unmatch-Keeps}

module _ (D : Decimals) (Q : List Entry → Type 0) (kept : IsKept D Q) where
  process_payroll-Keeps :
      (tenant : ℕ) (now : Date) (dto : ProcessPayrollDto)
      → Keeps Q (process_payroll D tenant now dto)
  unfolding process_payroll
  process_payroll-Keeps tenant now dto =
      let some_employees : Db → Result (List Profile) =
        λ db. elim (employees_of D tenant db) [ [] ↦ err no_employees | e ∷ es ↦ ok (e ∷ es) ] in
      >>=-Keeps Q (read some_employees)
        (λ es.
          create D tenant now
            (record { entry_date = dto.post_date; lines = wage_lines D dto (wages D no_wages es) }))
        (λ db h. h)
        (λ es.
          kept.by_create tenant now
            (record { entry_date = dto.post_date; lines = wage_lines D dto (wages D no_wages es) }))

  pub Step-Keeps : (db db' : Db) → Step D db db' → Q db.entries → Q db'.entries
  Step-Keeps db _ (account tenant dto) h = rw (create_account-entries tenant dto db) h
  Step-Keeps db _ (seeding tenant) h = rw (seed_sme_template-entries tenant db) h
  Step-Keeps db _ (new_year tenant dto) h = create_year-Keeps Q tenant dto db h
  Step-Keeps db _ (year_setup local_month_end tenant y) h =
      initialize_fiscal_year-Keeps Q local_month_end tenant y db h
  Step-Keeps db _ (period tenant id status) h = rw (update_status-entries tenant id status db) h
  Step-Keeps db _ (closing tenant id) h = rw (close-entries tenant id db) h
  Step-Keeps db _ (entry tenant now dto) h = kept.by_create tenant now dto db h
  Step-Keeps db _ (asset next tenant dto) h = rw (create_asset-entries D next tenant dto db) h
  Step-Keeps db _ (depreciation tenant now date) h =
      run_monthly_depreciation-Keeps Q kept.by_depreciation tenant now date db h
  Step-Keeps db _ (reversal tenant now id date) h = kept.by_reversal tenant now id date db h
  Step-Keeps db _ (stock_transfer tenant item from to q date) h =
      rw (transfer_inventory-entries D tenant item from to q date db) h
  Step-Keeps db _ (invoice tenant year dto) h = rw (create_invoice-entries D tenant year dto db) h
  Step-Keeps db _ (invoice_approval tenant now id) h =
      approve_invoice-Keeps D Q kept tenant now id db h
  Step-Keeps db _ (payment tenant user year dto) h =
      rw (create_payment-entries D tenant user year dto db) h
  Step-Keeps db _ (payment_approval tenant now id) h =
      approve_payment-Keeps D Q kept tenant now id db h
  Step-Keeps db _ (run tenant user dto) h = rw (create_payroll_run-entries D tenant user dto db) h
  Step-Keeps db _ (run_approval tenant now id) h =
      approve_payroll_run-Keeps D Q kept tenant now id db h
  Step-Keeps db _ (payroll tenant now dto) h = process_payroll-Keeps tenant now dto db h
  Step-Keeps db _ (order tenant user year dto) h =
      rw (create_order-entries D tenant user year dto db) h
  Step-Keeps db _ (receipt tenant id warehouse now) h =
      rw (receive_goods-entries D tenant id warehouse now db) h
  Step-Keeps db _ (order_approval tenant id) h = rw (approve_order-entries tenant id db) h
  Step-Keeps db _ (order_bill p tenant id now due) h =
      rw (convert_to_bill-entries p tenant id now due db) h
  Step-Keeps db _ (approval tenant now id approver) h =
      approve_request-Keeps D Q kept tenant now id approver db h
  Step-Keeps db _ (rejection tenant id approver) h = reject_request-Keeps Q tenant id approver db h
  Step-Keeps db _ (upload tenant dto) h = rw (upload_statement-entries D tenant dto db) h
  Step-Keeps db _ (automatic tenant id) h = auto_match-Keeps D Q kept tenant id db h
  Step-Keeps db _ (matching tenant id ids) h = manual_match-Keeps D Q kept tenant id ids db h
  Step-Keeps db _ (unmatching tenant id ids) h = manual_unmatch-Keeps D Q kept tenant id ids db h
  Step-Keeps db _ (completion tenant id user) h =
      rw (complete_reconciliation-entries tenant id user db) h

  pub Reaches-Keeps : (db db' : Db) → Reaches D db db' → Q db.entries → Q db'.entries
  Reaches-Keeps db _ start h = h
  Reaches-Keeps db db' (call mid _ r s) h = Step-Keeps mid db' s (Reaches-Keeps db mid r h)
