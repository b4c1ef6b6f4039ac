-- ===== src/Payroll/Approve.antt =====
-- `approvePayrollRun` and the handlers of the approval events.
use erp_ai_private.Prelude.{
  ℕ, ◌==◌, List, [], ◌∷◌, ◌++◌, Option, none, some, Bool, true, false, ◌&&◌, find, update,
  if◌then◌else◌,
}
use erp_ai_private.Prelude.Int.{ℤ, pos, ltb_ℤ}
use erp_ai_private.Decimal.{Decimals}
use erp_ai_private.Db.{
  AccountType, expense, liability, active, PayrollStatus, approved_run, draft_run, Date, EntityType,
  payroll_entity, Account, PayrollRun, Db, ok, err, Action, ◌>>=◌, ◌>>◌, read, write, pure,
  transaction, or_throw, run_not_found, run_approved,
}
use erp_ai_private.Accounts.{account_with_code, insert_account}
use erp_ai_private.Journal.{text, LineDto, create}
use erp_ai_private.Invoices.{line}

abbrev pub is_approved : PayrollStatus → Bool
is_approved approved_run = true
is_approved _ = false

abbrev pub run_with_id : ℕ → ℕ → Db → Option PayrollRun
run_with_id tenant id db = find (λ r. r.id == id && r.tenant == tenant) db.payroll_runs

-- the account that was found, or a new one below the account with the parent's code
unfoldable pub ensure_account : Option Account → ℕ → ℕ → AccountType → ℕ → Action ℕ
ensure_account (some a) tenant code type parent db = (ok a.id, db)
ensure_account none tenant code type parent db =
    (do
      a ← insert_account (record {
        id = db.next_id;
        tenant = tenant;
        parent = elim (account_with_code db tenant parent) [ none ↦ none | some p ↦ some p.id ];
        code = code;
        type = type;
        status = active;
        currency = none;
      })
      pure a.id)
      db

-- one `jeLines.push` for a positive total
abbrev pub credit_if : ℕ → ℤ → List LineDto
credit_if account total =
    if ltb_ℤ (pos 0) total then line account none (text (pos 0)) (text total) ∷ [] else []

-- `jeLines`: the accounts are those of 5110, 2140, 2150 and 2130
unfoldable pub payroll_lines : PayrollRun → ℕ → ℕ → ℕ → ℕ → List LineDto
payroll_lines r expense_account gosi_account other_account payable_account =
    line expense_account none (text r.total_gross) (text (pos 0))
    ∷ (credit_if gosi_account r.total_gosi
        ++ (credit_if other_account r.total_other_deductions
            ++ line payable_account none (text (pos 0)) (text r.total_net) ∷ []))

abbrev pub set_run_approved : ℕ → ℕ → Db → Db
set_run_approved id entry db = record db {
  payroll_runs =
      update (λ r. r.id == id) (λ r. record r { status = approved_run; journal_entry = some entry })
        db.payroll_runs;
}

-- the transaction of `approvePayrollRun`
unfoldable pub post_payroll : Decimals → ℕ → Date → PayrollRun → ℕ → ℕ → ℕ → ℕ → Action (Unit {0})
post_payroll D tenant now r salary_id gosi_id other_id payable_id = transaction (do
  entry ←
      create D tenant now
        (record { entry_date = now; lines = payroll_lines r salary_id gosi_id other_id payable_id })
  write (set_run_approved r.id entry.id))

-- The accounts that are missing are made first, outside the transaction of the journal entry.
unfoldable pub approve_payroll_run : Decimals → ℕ → Date → ℕ → Action (Unit {0})
approve_payroll_run D tenant now id = do
  r ← read (λ db. or_throw (run_with_id tenant id db) run_not_found)
  read (λ db. if is_approved r.status then err run_approved else ok tt)
  salary ← read (λ db. ok (account_with_code db tenant 5110))
  gosi ← read (λ db. ok (account_with_code db tenant 2140))
  other ← read (λ db. ok (account_with_code db tenant 2150))
  payable ← read (λ db. ok (account_with_code db tenant 2130))
  salary_id ← ensure_account salary tenant 5110 expense 5100
  gosi_id ← ensure_account gosi tenant 2140 liability 2100
  other_id ← ensure_account other tenant 2150 liability 2100
  payable_id ← ensure_account payable tenant 2130 liability 2100
  post_payroll D tenant now r salary_id gosi_id other_id payable_id

unfoldable pub payroll_approved_event : Decimals → Date → ℕ → EntityType → ℕ → Action (Unit {0})
payroll_approved_event D now tenant payroll_entity id = approve_payroll_run D tenant now id
payroll_approved_event D now tenant _ id = pure tt

unfoldable pub payroll_rejected_event : EntityType → ℕ → Action (Unit {0})
payroll_rejected_event payroll_entity id = write (λ db. record db {
  payroll_runs = update (λ r. r.id == id) (λ r. record r { status = draft_run }) db.payroll_runs;
})
payroll_rejected_event _ id = pure tt
