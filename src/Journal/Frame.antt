-- ===== src/Journal/Frame.antt =====
-- The tables that `create` does not write to.
use erp_ai_private.Prelude.{ℕ, ◌≡◌, inl, inr, arith}
use erp_ai_private.Decimal.{Decimals}
use erp_ai_private.Db.{Date, Db}
use erp_ai_private.Journal.{EntryDto, insert_entry, execute_create, create}
use erp_ai_private.Journal.Create.{create_outcome}

-- The documents and the stock are the same.
pub record SameDocuments (db db' : Db) : Type 0 where
  pub same_invoices : db'.invoices ≡ db.invoices
  pub same_payments : db'.payments ≡ db.payments
  pub same_runs : db'.payroll_runs ≡ db.payroll_runs
  pub same_approvals : db'.approvals ≡ db.approvals
  pub same_contacts : db'.contacts ≡ db.contacts
  pub same_balances : db'.balances ≡ db.balances

execute_create-SameDocuments :
    (D : Decimals) (tenant : ℕ) (now : Date) (dto : EntryDto) (db : Db)
    → SameDocuments db (execute_create D tenant now dto db).1
unfolding execute_create insert_entry
execute_create-SameDocuments D tenant now dto db = ground arith

pub create-SameDocuments :
    (D : Decimals) (tenant : ℕ) (now : Date) (dto : EntryDto) (db : Db)
    → SameDocuments db (create D tenant now dto db).1
create-SameDocuments D tenant now dto db = elim (create_outcome D tenant now dto db) [
  | inl unchanged ↦ rw unchanged (ground arith)
  | inr (fine, ran) ↦ rw ran (execute_create-SameDocuments D tenant now dto db)
]
