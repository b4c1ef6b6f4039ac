-- ===== src/Services/Quiet.antt =====
-- The journal entries after the calls that do not post.
use erp_ai_private.Prelude.{ℕ, Bool, ◌≡◌, refl, List, [], ◌∷◌, Option-cases, inl, inr, arith}
use erp_ai_private.Prelude.Int.{ℤ}
use erp_ai_private.Decimal.{Decimals}
use erp_ai_private.Db.{Date, PeriodStatus, OrderLine, purchase, Db}
use erp_ai_private.Accounts.{CreateAccountDto, create_account, seed_sme_template}
use erp_ai_private.Accounts.Seeding.{seed_sme_template-same}
use erp_ai_private.Periods.{update_status, close}
use erp_ai_private.Assets.{AssetDto, insert_asset, generate_schedule, create_asset}
use erp_ai_private.Inventory.{move, transfer_inventory}
use erp_ai_private.Sequences.{get_next_sequence}
use erp_ai_private.Invoices.{InvoiceDto, insert_invoice, create_invoice}
use erp_ai_private.Payments.{PaymentDto, insert_payment, execute_create_payment, create_payment}
use erp_ai_private.Payroll.{RunDto, replace_run, insert_run, create_payroll_run}
use erp_ai_private.Orders.{
  OrderDto, find_order, insert_order, create_order, receive_lines, receive_goods, approve_order,
  convert_to_bill,
}
use erp_ai_private.Reconciliations.{StatementDto, upload_statement, complete_reconciliation}

pub create_account-entries :
    (tenant : ℕ) (dto : CreateAccountDto) (db : Db)
    → (create_account tenant dto db).1.entries ≡ db.entries
unfolding create_account
create_account-entries tenant dto db = ground arith

pub update_status-entries :
    (tenant id : ℕ) (status : PeriodStatus) (db : Db)
    → (update_status tenant id status db).1.entries ≡ db.entries
unfolding update_status
update_status-entries tenant id status db = ground arith

pub close-entries : (tenant id : ℕ) (db : Db) → (close tenant id db).1.entries ≡ db.entries
unfolding close
close-entries tenant id db = ground arith

pub transfer_inventory-entries :
    (D : Decimals) (tenant item from to : ℕ) (q : ℤ) (date : Date) (db : Db)
    → (transfer_inventory D tenant item from to q date db).1.entries ≡ db.entries
unfolding transfer_inventory
transfer_inventory-entries D tenant item from to q date db = ground arith

pub create_invoice-entries :
    (D : Decimals) (tenant year : ℕ) (dto : InvoiceDto) (db : Db)
    → (create_invoice D tenant year dto db).1.entries ≡ db.entries
unfolding create_invoice insert_invoice get_next_sequence
create_invoice-entries D tenant year dto db = ground arith

pub create_payment-entries :
    (D : Decimals) (tenant user year : ℕ) (dto : PaymentDto) (db : Db)
    → (create_payment D tenant user year dto db).1.entries ≡ db.entries
unfolding create_payment execute_create_payment insert_payment get_next_sequence
create_payment-entries D tenant user year dto db = ground arith

pub create_payroll_run-entries :
    (D : Decimals) (tenant user : ℕ) (dto : RunDto) (db : Db)
    → (create_payroll_run D tenant user dto db).1.entries ≡ db.entries
unfolding create_payroll_run replace_run insert_run
create_payroll_run-entries D tenant user dto db = ground arith

pub create_order-entries :
    (D : Decimals) (tenant user year : ℕ) (dto : OrderDto) (db : Db)
    → (create_order D tenant user year dto db).1.entries ≡ db.entries
unfolding create_order insert_order
create_order-entries D tenant user year dto db = ground arith

pub approve_order-entries :
    (tenant id : ℕ) (db : Db) → (approve_order tenant id db).1.entries ≡ db.entries
unfolding approve_order
approve_order-entries tenant id db = ground arith

pub convert_to_bill-entries :
    (is_payable_name : ℕ → Bool) (tenant id : ℕ) (now due : Date) (db : Db)
    → (convert_to_bill is_payable_name tenant id now due db).1.entries ≡ db.entries
unfolding convert_to_bill insert_invoice
convert_to_bill-entries is_payable_name tenant id now due db = ground arith

pub upload_statement-entries :
    (D : Decimals) (tenant : ℕ) (dto : StatementDto) (db : Db)
    → (upload_statement D tenant dto db).1.entries ≡ db.entries
unfolding upload_statement
upload_statement-entries D tenant dto db = ground arith

pub complete_reconciliation-entries :
    (tenant id user : ℕ) (db : Db)
    → (complete_reconciliation tenant id user db).1.entries ≡ db.entries
unfolding complete_reconciliation
complete_reconciliation-entries tenant id user db = ground arith

pub seed_sme_template-entries :
    (tenant : ℕ) (db : Db) → (seed_sme_template tenant db).1.entries ≡ db.entries
seed_sme_template-entries tenant db =
    seed_sme_template-same (λ d. d.entries) (λ a d. refl) tenant db

receive_lines-entries :
    (D : Decimals) (tenant warehouse : ℕ) (now : Date) (ls : List OrderLine) (db : Db)
    → (receive_lines D tenant warehouse now ls db).entries ≡ db.entries
unfolding receive_lines
receive_lines-entries D tenant warehouse now [] db = refl
receive_lines-entries D tenant warehouse now (l ∷ ls) db = elim (Option-cases l.item) [
  | inl no_item ↦ rw no_item (receive_lines-entries D tenant warehouse now ls db)
  | inr (item, e) ↦ rw e (
      receive_lines-entries D tenant warehouse now ls
        (move D tenant purchase item warehouse l.quantity l.unit_price now db))
]

pub receive_goods-entries :
    (D : Decimals) (tenant id warehouse : ℕ) (now : Date) (db : Db)
    → (receive_goods D tenant id warehouse now db).1.entries ≡ db.entries
unfolding receive_goods
receive_goods-entries D tenant id warehouse now db = elim (Option-cases (find_order tenant id db)) [
  | inl missing ↦ ground arith
  | inr (o, found) ↦ ground (arith, receive_lines-entries D tenant warehouse now o.lines db)
]

pub create_asset-entries :
    (D : Decimals) (next : Date → Date) (tenant : ℕ) (dto : AssetDto) (db : Db)
    → (create_asset D next tenant dto db).1.entries ≡ db.entries
unfolding create_asset insert_asset generate_schedule
create_asset-entries D next tenant dto db = ground arith
