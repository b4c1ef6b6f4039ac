-- ===== src/Services/Handlers.antt =====
-- What payrolls and the decisions on requests, with their handlers, keep of the entries.
use erp_ai_private.Prelude.{
  ℕ, ◌≡◌, refl, List, Option, none, some, arith, Option-cases, Bool-cases, inl, inr,
}
use erp_ai_private.Decimal.{Decimals}
use erp_ai_private.Db.{
  Date, Entry, Account, AccountType, liability, expense, PayrollRun, Approval, approved, rejected,
  Db, Action, ◌>>=◌, ◌>>◌, write,
}
use erp_ai_private.Accounts.{account_with_code}
use erp_ai_private.Journal.{EntryDto, create}
use erp_ai_private.Payments.{payment_approved_event, payment_rejected_event}
use erp_ai_private.Payroll.{
  ensure_account, payroll_lines, set_run_approved, post_payroll, run_with_id, is_approved,
  approve_payroll_run, payroll_approved_event, payroll_rejected_event,
}
use erp_ai_private.Orders.{order_approved_event, order_rejected_event}
use erp_ai_private.Approvals.{
  emit_approved, emit_rejected, approve_request, reject_request, pending_request, find_request,
  is_pending, decide,
}
use erp_ai_private.Approvals.Requests.{entity_cases}
use erp_ai_private.Services.Keeps.{
  Keeps, IsKept, rollback-Keeps, >>=-Keeps, create-write-Keeps, approve_payment-Keeps,
}

pending_request-db : (tenant id : ℕ) (db : Db) → (pending_request tenant id db).1 ≡ db
pending_request-db tenant id db = elim (Option-cases (find_request tenant id db)) [
  | inl missing ↦ ground arith
  | inr (r, found) ↦ elim (Bool-cases (is_pending r.status)) [
    | inl waiting ↦ ground arith
    | inr decided ↦ ground arith
  ]
]

module _ (Q : List Entry → Type 0) where
  pending_request-Keeps : (tenant id : ℕ) → Keeps Q (pending_request tenant id)
  pending_request-Keeps tenant id db h = rw (pending_request-db tenant id db) h

  emit_rejected-Keeps : (r : Approval) → Keeps Q (emit_rejected r)
  unfolding payment_rejected_event payroll_rejected_event order_rejected_event
  emit_rejected-Keeps r db h = elim (entity_cases r.entity_type) [
    | inl payment ↦ rw payment h
    | inr (inl payroll) ↦ rw payroll h
    | inr (inr order) ↦ rw order h
  ]

  pub reject_request-Keeps : (tenant id approver : ℕ) → Keeps Q (reject_request tenant id approver)
  unfolding reject_request
  reject_request-Keeps tenant id approver =
      >>=-Keeps Q (pending_request tenant id)
        (λ r. write (decide id rejected approver) >> emit_rejected r)
        (pending_request-Keeps tenant id)
        (λ r db h. emit_rejected-Keeps r (decide id rejected approver db) h)

module _ (D : Decimals) (Q : List Entry → Type 0) (kept : IsKept D Q) where
  ensure_account-Keeps :
      (a : Option Account) (tenant code : ℕ) (type : AccountType) (parent : ℕ)
      → Keeps Q (ensure_account a tenant code type parent)
  unfolding ensure_account
  ensure_account-Keeps none tenant code type parent db h = h
  ensure_account-Keeps (some a) tenant code type parent db h = h

  post_payroll-Keeps :
      (tenant : ℕ) (now : Date) (r : PayrollRun) (x y z w : ℕ)
      → Keeps Q (post_payroll D tenant now r x y z w)
  unfolding post_payroll
  post_payroll-Keeps tenant now r x y z w db h =
      let dto : EntryDto = record { entry_date = now; lines = payroll_lines r x y z w } in
      rollback-Keeps Q db ((create D tenant now dto >>= λ e. write (set_run_approved r.id e.id)) db)
        h
        (create-write-Keeps D Q kept tenant now dto (λ e. set_run_approved r.id e.id) (λ e d. refl)
          db h)

  two_accounts-Keeps :
      (tenant : ℕ) (a b : Option Account) (code code' : ℕ) (type type' : AccountType)
      (parent parent' : ℕ) (f : ℕ → ℕ → Action (Unit {0}))
      → ((x y : ℕ) → Keeps Q (f x y))
      → Keeps Q (
          ensure_account a tenant code type parent >>= λ x.
          ensure_account b tenant code' type' parent' >>= λ y. f x y)
  two_accounts-Keeps tenant a b code code' type type' parent parent' f k =
      >>=-Keeps Q (ensure_account a tenant code type parent)
        (λ x. ensure_account b tenant code' type' parent' >>= f x)
        (ensure_account-Keeps a tenant code type parent)
        (λ x.
          >>=-Keeps Q (ensure_account b tenant code' type' parent') (f x)
            (ensure_account-Keeps b tenant code' type' parent') (k x))

  pub approve_payroll_run-Keeps :
      (tenant : ℕ) (now : Date) (id : ℕ) → Keeps Q (approve_payroll_run D tenant now id)
  unfolding approve_payroll_run
  approve_payroll_run-Keeps tenant now id db h = elim (Option-cases (run_with_id tenant id db)) [
    | inl missing ↦ ground arith
    | inr (r, found) ↦
        let salary = account_with_code db tenant 5110 in
        let gosi = account_with_code db tenant 2140 in
        let other = account_with_code db tenant 2150 in
        let payable = account_with_code db tenant 2130 in
        elim (Bool-cases (is_approved r.status)) [
          | inl done ↦ ground arith
          | inr undone ↦ ground (
            arith,
            two_accounts-Keeps tenant salary gosi 5110 2140 expense liability 5100 2100
                (λ x y. ensure_account other tenant 2150 liability 2100 >>= λ z.
                  ensure_account payable tenant 2130 liability 2100 >>= λ w.
                  post_payroll D tenant now r x y z w)
                (λ x y.
                  two_accounts-Keeps tenant other payable 2150 2130 liability liability 2100 2100
                    (post_payroll D tenant now r x y) (post_payroll-Keeps tenant now r x y))
                db h,
          )
        ]
  ]

  emit_approved-Keeps :
      (now : Date) (tenant : ℕ) (r : Approval) → Keeps Q (emit_approved D now tenant r)
  unfolding payment_approved_event payroll_approved_event order_approved_event
  emit_approved-Keeps now tenant r db h = elim (entity_cases r.entity_type) [
    | inl payment ↦ rw payment (approve_payment-Keeps D Q kept tenant now r.entity_id db h)
    | inr (inl payroll) ↦ rw payroll (approve_payroll_run-Keeps tenant now r.entity_id db h)
    | inr (inr order) ↦ rw order h
  ]

  pub approve_request-Keeps :
      (tenant : ℕ) (now : Date) (id approver : ℕ)
      → Keeps Q (approve_request D tenant now id approver)
  unfolding approve_request
  approve_request-Keeps tenant now id approver =
      >>=-Keeps Q (pending_request tenant id)
        (λ r. write (decide id approved approver) >> emit_approved D now tenant r)
        (pending_request-Keeps Q tenant id)
        (λ r db h. emit_approved-Keeps now tenant r (decide id approved approver db) h)
