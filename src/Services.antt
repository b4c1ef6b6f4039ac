-- ===== src/Services.antt =====
-- The calls of the services as steps of the database, one after the other.
pub mod Keeps
pub mod Handlers
pub mod Matches
pub mod Quiet
pub mod Years
pub mod Depreciation
pub mod Steps
pub mod Numbering
pub mod Balance
use erp_ai_private.Prelude.{ℕ, List, Bool}
use erp_ai_private.Prelude.Int.{ℤ}
use erp_ai_private.Decimal.{Decimals}
use erp_ai_private.Db.{Date, PeriodStatus, Db}
use erp_ai_private.Accounts.{CreateAccountDto, create_account, seed_sme_template}
use erp_ai_private.Periods.{update_status, close}
use erp_ai_private.Periods.Years.{YearDto, create_year, initialize_fiscal_year}
use erp_ai_private.Assets.{AssetDto, create_asset, run_monthly_depreciation}
use erp_ai_private.Journal.{EntryDto, create, create_reversal}
use erp_ai_private.Inventory.{transfer_inventory}
use erp_ai_private.Invoices.{InvoiceDto, create_invoice, approve_invoice}
use erp_ai_private.Payments.{PaymentDto, create_payment, approve_payment}
use erp_ai_private.Payroll.{RunDto, create_payroll_run, approve_payroll_run}
use erp_ai_private.Employees.{ProcessPayrollDto, process_payroll}
use erp_ai_private.Orders.{OrderDto, create_order, receive_goods, approve_order, convert_to_bill}
use erp_ai_private.Approvals.{approve_request, reject_request}
use erp_ai_private.Reconciliations.{
  StatementDto, upload_statement, auto_match, manual_match, manual_unmatch, complete_reconciliation,
}

-- One call, whether it returns or throws.
pub data Step (D : Decimals) (db : Db) : Db → Type 0 where
  account : (tenant : ℕ) (dto : CreateAccountDto) → Step D db (create_account tenant dto db).1
  seeding : (tenant : ℕ) → Step D db (seed_sme_template tenant db).1
  new_year : (tenant : ℕ) (dto : YearDto) → Step D db (create_year tenant dto db).1
  year_setup :
      (local_month_end : ℕ → ℕ → Date) (tenant y : ℕ)
      → Step D db (initialize_fiscal_year local_month_end tenant y db).1
  period : (tenant id : ℕ) (status : PeriodStatus) → Step D db (update_status tenant id status db).1
  closing : (tenant id : ℕ) → Step D db (close tenant id db).1
  entry : (tenant : ℕ) (now : Date) (dto : EntryDto) → Step D db (create D tenant now dto db).1
  asset :
      (next : Date → Date) (tenant : ℕ) (dto : AssetDto)
      → Step D db (create_asset D next tenant dto db).1
  depreciation :
      (tenant : ℕ) (now date : Date) → Step D db (run_monthly_depreciation tenant now date db).1
  reversal :
      (tenant : ℕ) (now : Date) (id : ℕ) (date : Date)
      → Step D db (create_reversal D tenant now id date db).1
  stock_transfer :
      (tenant item from to : ℕ) (quantity : ℤ) (date : Date)
      → Step D db (transfer_inventory D tenant item from to quantity date db).1
  invoice : (tenant year : ℕ) (dto : InvoiceDto) → Step D db (create_invoice D tenant year dto db).1
  invoice_approval :
      (tenant : ℕ) (now : Date) (id : ℕ) → Step D db (approve_invoice D tenant now id db).1
  payment :
      (tenant user year : ℕ) (dto : PaymentDto)
      → Step D db (create_payment D tenant user year dto db).1
  payment_approval :
      (tenant : ℕ) (now : Date) (id : ℕ) → Step D db (approve_payment D tenant now id db).1
  run : (tenant user : ℕ) (dto : RunDto) → Step D db (create_payroll_run D tenant user dto db).1
  run_approval :
      (tenant : ℕ) (now : Date) (id : ℕ) → Step D db (approve_payroll_run D tenant now id db).1
  payroll :
      (tenant : ℕ) (now : Date) (dto : ProcessPayrollDto)
      → Step D db (process_payroll D tenant now dto db).1
  order :
      (tenant user year : ℕ) (dto : OrderDto) → Step D db (create_order D tenant user year dto db).1
  receipt :
      (tenant id warehouse : ℕ) (now : Date)
      → Step D db (receive_goods D tenant id warehouse now db).1
  order_approval : (tenant id : ℕ) → Step D db (approve_order tenant id db).1
  order_bill :
      (is_payable_name : ℕ → Bool) (tenant id : ℕ) (now due : Date)
      → Step D db (convert_to_bill is_payable_name tenant id now due db).1
  approval :
      (tenant : ℕ) (now : Date) (id approver : ℕ)
      → Step D db (approve_request D tenant now id approver db).1
  rejection : (tenant id approver : ℕ) → Step D db (reject_request tenant id approver db).1
  upload : (tenant : ℕ) (dto : StatementDto) → Step D db (upload_statement D tenant dto db).1
  automatic : (tenant id : ℕ) → Step D db (auto_match tenant id db).1
  matching : (tenant id : ℕ) (ids : List ℕ) → Step D db (manual_match tenant id ids db).1
  unmatching : (tenant id : ℕ) (ids : List ℕ) → Step D db (manual_unmatch tenant id ids db).1
  completion : (tenant id user : ℕ) → Step D db (complete_reconciliation tenant id user db).1

-- Any number of calls.
pub data Reaches (D : Decimals) (db : Db) : Db → Type 0 where
  start : Reaches D db db
  call : (mid : Db) (db' : Db) → Reaches D db mid → Step D mid db' → Reaches D db db'
