-- ===== src/Approvals/Requests.antt =====
-- What the handlers of the approval events do to the approval requests.
use erp_ai_private.Prelude.{
  ◌⊎◌, ℕ, ◌≡◌, refl, ◌∙◌, List, [], ◌∷◌, Option, none, some, arith, Option-cases, Bool-cases, inl,
  inr,
}
use erp_ai_private.Decimal.{Decimals}
use erp_ai_private.Db.{
  Date, Approval, Allocation, Payment, Db, Result, ok, err, Action, ◌>>=◌, transaction, rollback,
  EntityType, payment_entity, payroll_entity, order_entity, Account, AccountType, liability,
  expense, PayrollRun, Entry, read, write,
}
use erp_ai_private.Journal.{EntryDto, create}
use erp_ai_private.Journal.Frame.{create-SameDocuments}
use erp_ai_private.Accounts.{account_with_code}
use erp_ai_private.Payments.{
  allocate, approve_payment, execute_approve_payment, approvable_payment, invoice_with_id,
  pay_invoice, payment_lines, set_payment_approved, payment_approved_event, payment_rejected_event,
}
use erp_ai_private.Payroll.{
  post_payroll, payroll_lines, set_run_approved, ensure_account, run_with_id, is_approved,
  approve_payroll_run, payroll_approved_event, payroll_rejected_event,
}
use erp_ai_private.Orders.{order_approved_event, order_rejected_event}
use erp_ai_private.Approvals.{emit_approved, emit_rejected}

pub entity_cases :
    (e : EntityType) → (e ≡ payment_entity) ⊎ ((e ≡ payroll_entity) ⊎ (e ≡ order_entity))
entity_cases payment_entity = inl refl
entity_cases payroll_entity = inr (inl refl)
entity_cases order_entity = inr (inr refl)

module _ {A B : Type 0} where
  bind_keeps :
      (db : Db) (r : Result A × Db) (f : A → Action B)
      → r.1.approvals ≡ db.approvals
      → ((a : A) (d : Db) → (f a d).1.approvals ≡ d.approvals)
      → (((λ _. r) >>= f) db).1.approvals ≡ db.approvals
  bind_keeps db (ok a, d) f k l = l a d ∙ k
  bind_keeps db (err e, d) f k l = k

  >>=-KeepsRequests :
      (m : Action A) (f : A → Action B)
      → ((db : Db) → (m db).1.approvals ≡ db.approvals)
      → ((a : A) (db : Db) → (f a db).1.approvals ≡ db.approvals)
      → (db : Db) → ((m >>= f) db).1.approvals ≡ db.approvals
  >>=-KeepsRequests m f k l db = bind_keeps db (m db) f (k db) l

module _ {A : Type 0} where
  rollback_keeps :
      (db : Db) (r : Result A × Db)
      → r.1.approvals ≡ db.approvals
      → (rollback db r).1.approvals ≡ db.approvals
  rollback_keeps db (ok a, d) k = k
  rollback_keeps db (err e, d) k = refl

module _ (D : Decimals) where
  allocate-KeepsRequests :
      (before : Db) (as' : List Allocation) (db : Db)
      → (allocate D before as' db).1.approvals ≡ db.approvals
  unfolding allocate
  allocate-KeepsRequests before [] db = refl
  allocate-KeepsRequests before (a ∷ rest) db =
      elim (Option-cases (invoice_with_id a.invoice before)) [
        | inl missing ↦ ground arith
        | inr (i, e) ↦
            ground (arith, allocate-KeepsRequests before rest (pay_invoice D i a.amount db))
      ]

  create-write-KeepsRequests :
      (tenant : ℕ) (now : Date) (dto : EntryDto) (f : Entry → Db → Db)
      → ((e : Entry) (db : Db) → (f e db).approvals ≡ db.approvals)
      → (db : Db) → ((create D tenant now dto >>= λ e. write (f e)) db).1.approvals ≡ db.approvals
  create-write-KeepsRequests tenant now dto f k =
      >>=-KeepsRequests (create D tenant now dto) (λ e. write (f e))
        (λ db. (create-SameDocuments D tenant now dto db).same_approvals) k

  execute_approve_payment-KeepsRequests :
      (tenant : ℕ) (now : Date) (p : Payment) (account : ℕ) (before db : Db)
      → (execute_approve_payment D tenant now p account before db).1.approvals ≡ db.approvals
  unfolding execute_approve_payment
  execute_approve_payment-KeepsRequests tenant now p account before db =
      let dto : EntryDto = record {
        entry_date = p.payment_date;
        lines = payment_lines D p account;
      } in
      >>=-KeepsRequests (allocate D before p.allocations)
        (λ u. create D tenant now dto >>= λ e. write (set_payment_approved p.id e.id))
        (allocate-KeepsRequests before p.allocations)
        (λ u.
          create-write-KeepsRequests tenant now dto (λ e. set_payment_approved p.id e.id)
            (λ e d. refl))
        db

  approve_payment-KeepsRequests :
      (tenant : ℕ) (now : Date) (id : ℕ) (db : Db)
      → (approve_payment D tenant now id db).1.approvals ≡ db.approvals
  unfolding approve_payment
  approve_payment-KeepsRequests tenant now id db =
      >>=-KeepsRequests (read (approvable_payment tenant id))
        (λ found. transaction (execute_approve_payment D tenant now found.0 found.1 db)) (λ d. refl)
        (λ found d.
          rollback_keeps d (execute_approve_payment D tenant now found.0 found.1 db d)
            (execute_approve_payment-KeepsRequests tenant now found.0 found.1 db d))
        db

  ensure_account-KeepsRequests :
      (a : Option Account) (tenant code : ℕ) (type : AccountType) (parent : ℕ) (db : Db)
      → (ensure_account a tenant code type parent db).1.approvals ≡ db.approvals
  unfolding ensure_account
  ensure_account-KeepsRequests none tenant code type parent db = ground arith
  ensure_account-KeepsRequests (some a) tenant code type parent db = refl

  post_payroll-KeepsRequests :
      (tenant : ℕ) (now : Date) (r : PayrollRun) (x y z w : ℕ) (db : Db)
      → (post_payroll D tenant now r x y z w db).1.approvals ≡ db.approvals
  unfolding post_payroll
  post_payroll-KeepsRequests tenant now r x y z w db =
      let dto : EntryDto = record { entry_date = now; lines = payroll_lines r x y z w } in
      rollback_keeps db ((create D tenant now dto >>= λ e. write (set_run_approved r.id e.id)) db) (
        create-write-KeepsRequests tenant now dto (λ e. set_run_approved r.id e.id) (λ e d. refl)
          db)

  two_accounts-KeepsRequests :
      (tenant : ℕ) (a b : Option Account) (code code' : ℕ) (type type' : AccountType)
      (parent parent' : ℕ) (f : ℕ → ℕ → Action (Unit {0}))
      → ((x y : ℕ) (db : Db) → (f x y db).1.approvals ≡ db.approvals)
      → (db : Db)
      → ((ensure_account a tenant code type parent >>= λ x.
            ensure_account b tenant code' type' parent' >>= λ y. f x y)
          db).1.approvals
        ≡ db.approvals
  two_accounts-KeepsRequests tenant a b code code' type type' parent parent' f k =
      >>=-KeepsRequests (ensure_account a tenant code type parent)
        (λ x. ensure_account b tenant code' type' parent' >>= f x)
        (ensure_account-KeepsRequests a tenant code type parent)
        (λ x.
          >>=-KeepsRequests (ensure_account b tenant code' type' parent') (f x)
            (ensure_account-KeepsRequests b tenant code' type' parent') (k x))

  approve_payroll_run-KeepsRequests :
      (tenant : ℕ) (now : Date) (id : ℕ) (db : Db)
      → (approve_payroll_run D tenant now id db).1.approvals ≡ db.approvals
  unfolding approve_payroll_run
  approve_payroll_run-KeepsRequests tenant now id db =
      elim (Option-cases (run_with_id tenant id db)) [
        | inl missing ↦ ground arith
        | inr (r, found) ↦
            let salary = account_with_code db tenant 5110 in
            let gosi = account_with_code db tenant 2140 in
            let other = account_with_code db tenant 2150 in
            let payable = account_with_code db tenant 2130 in
            elim (Bool-cases (is_approved r.status)) [
              | inl done ↦ ground arith
              | inr undone ↦ ground (
                arith,
                two_accounts-KeepsRequests tenant salary gosi 5110 2140 expense liability 5100 2100
                    (λ x y. ensure_account other tenant 2150 liability 2100 >>= λ z.
                      ensure_account payable tenant 2130 liability 2100 >>= λ w.
                      post_payroll D tenant now r x y z w)
                    (λ x y.
                      two_accounts-KeepsRequests tenant other payable 2150 2130 liability liability
                        2100 2100 (post_payroll D tenant now r x y)
                        (post_payroll-KeepsRequests tenant now r x y))
                    db,
              )
            ]
      ]

  pub emit_approved-KeepsRequests :
      (now : Date) (tenant : ℕ) (r : Approval) (db : Db)
      → (emit_approved D now tenant r db).1.approvals ≡ db.approvals
  unfolding payment_approved_event payroll_approved_event order_approved_event
  emit_approved-KeepsRequests now tenant r db = elim (entity_cases r.entity_type) [
    | inl payment ↦ rw payment (approve_payment-KeepsRequests tenant now r.entity_id db)
    | inr (inl payroll) ↦ rw payroll (approve_payroll_run-KeepsRequests tenant now r.entity_id db)
    | inr (inr order) ↦ rw order refl
  ]

pub emit_rejected-KeepsRequests :
    (r : Approval) (db : Db) → (emit_rejected r db).1.approvals ≡ db.approvals
unfolding payment_rejected_event payroll_rejected_event order_rejected_event
emit_rejected-KeepsRequests r db = elim (entity_cases r.entity_type) [
  | inl payment ↦ rw payment refl
  | inr (inl payroll) ↦ rw payroll refl
  | inr (inr order) ↦ rw order refl
]
