-- ===== src/Db/Tables.antt =====
-- The rows of the tables, and the database. Ids and account codes are only compared, so they are
-- numbers. A row's texts for people (names, descriptions, notes) are left out, and so is a column
-- that no modelled operation reads. Newer rows stand first.
use erp_ai_private.Prelude.{ℕ, List, Option, Bool}
use erp_ai_private.Prelude.Int.{ℤ}
use erp_ai_private.Db.Types.{
  AccountType, AccountStatus, PeriodStatus, EntryStatus, InvoiceType, InvoiceStatus, PaymentType,
  PaymentStatus, ReconciliationStatus, MovementType, PayrollStatus, ApprovalStatus, EntityType,
  Date, EntryNumber, DocumentPrefix, DocumentNumber, OrderStatus, OrderNumber, InvoiceNumber,
  SequenceType, InvoiceHash, PeriodName, YearName, AssetStatus, DepreciationMethod, UserStatus,
  MemberStatus,
}
use erp_ai_private.Db.Keys.{PermissionKey, RoleName}

pub record Account : Type 0 where
  pub id : ℕ
  pub tenant : ℕ
  pub parent : Option ℕ
  pub code : ℕ
  pub type : AccountType
  pub status : AccountStatus
  pub currency : Option ℕ

pub record Period : Type 0 where
  pub id : ℕ
  pub tenant : ℕ
  pub fiscal_year : ℕ
  pub name : PeriodName
  pub start_date : Date
  pub end_date : Date
  pub status : PeriodStatus

pub record FiscalYear : Type 0 where
  pub id : ℕ
  pub tenant : ℕ
  pub name : YearName
  pub start_date : Date
  pub end_date : Date
  pub status : PeriodStatus

pub record Line : Type 0 where
  pub id : ℕ
  pub tenant : ℕ
  pub account : ℕ
  pub debit : ℤ
  pub credit : ℤ
  pub currency : Option ℕ
  pub foreign_debit : Option ℤ
  pub foreign_credit : Option ℤ
  pub exchange_rate : Option ℤ
  pub contact : Option ℕ
  pub reconciliation : Option ℕ
  pub created_at : Date

pub record Entry : Type 0 where
  pub id : ℕ
  pub tenant : ℕ
  pub number : EntryNumber
  pub date : Date
  pub status : EntryStatus
  pub reversal : Option ℕ
  pub lines : List Line

pub record Sequence : Type 0 where
  pub tenant : ℕ
  pub entity_type : SequenceType
  pub prefix : DocumentPrefix
  pub next_number : ℕ

pub record Contact : Type 0 where
  pub id : ℕ
  pub tenant : ℕ
  pub receivable_account : Option ℕ
  pub payable_account : Option ℕ

pub record Item : Type 0 where
  pub id : ℕ
  pub tenant : ℕ
  pub inventory_account : Option ℕ
  pub cogs_account : Option ℕ
  pub weighted_average_cost : ℤ

pub record Balance : Type 0 where
  pub item : ℕ
  pub warehouse : ℕ
  pub quantity : ℤ

-- `InventoryTransaction`
pub record Movement : Type 0 where
  pub tenant : ℕ
  pub type : MovementType
  pub item : ℕ
  pub warehouse : ℕ
  pub quantity : ℤ
  pub unit_cost : ℤ
  pub date : Date

pub record Lot : Type 0 where
  pub item : ℕ
  pub warehouse : ℕ
  pub quantity : ℤ
  pub unit_cost : ℤ
  pub received_at : Date

pub record InvoiceLine : Type 0 where
  pub quantity : ℤ
  pub unit_price : ℤ
  pub tax_rate : ℤ
  pub tax_amount : ℤ
  pub total : ℤ
  pub account : ℕ
  pub item : Option ℕ
  pub warehouse : Option ℕ

pub record Invoice : Type 0 where
  pub id : ℕ
  pub tenant : ℕ
  pub number : InvoiceNumber
  pub contact : ℕ
  pub type : InvoiceType
  pub status : InvoiceStatus
  pub issue_date : Date
  pub due_date : Option Date
  pub currency : Option ℕ
  pub exchange_rate : Option ℤ
  pub sub_total : ℤ
  pub tax_total : ℤ
  pub total : ℤ
  pub amount_paid : ℤ
  pub journal_entry : Option ℕ
  pub zatca_uuid : Option ℕ
  pub zatca_pih : Option InvoiceHash
  pub lines : List InvoiceLine

pub record Allocation : Type 0 where
  pub invoice : ℕ
  pub amount : ℤ

pub record Payment : Type 0 where
  pub id : ℕ
  pub tenant : ℕ
  pub number : DocumentNumber
  pub contact : ℕ
  pub type : PaymentType
  pub status : PaymentStatus
  pub payment_date : Date
  pub amount : ℤ
  pub account : ℕ
  pub currency : Option ℕ
  pub exchange_rate : Option ℤ
  pub wht_amount : ℤ
  pub wht_account : Option ℕ
  pub journal_entry : Option ℕ
  pub allocations : List Allocation

pub record OrderLine : Type 0 where
  pub quantity : ℤ
  pub unit_price : ℤ
  pub total : ℤ
  pub item : Option ℕ

-- `PurchaseOrder`
pub record Order : Type 0 where
  pub id : ℕ
  pub tenant : ℕ
  pub number : OrderNumber
  pub contact : ℕ
  pub issue_date : Date
  pub delivery_date : Option Date
  pub total_amount : ℤ
  pub status : OrderStatus
  pub lines : List OrderLine

pub record Approval : Type 0 where
  pub id : ℕ
  pub tenant : ℕ
  pub entity_type : EntityType
  pub entity_id : ℕ
  pub requested_by : ℕ
  pub approver : Option ℕ
  pub status : ApprovalStatus

pub record Profile : Type 0 where
  pub id : ℕ
  pub tenant : ℕ
  pub basic_salary : ℤ
  pub housing_allowance : ℤ
  pub transport_allowance : ℤ
  pub contract_salary : ℤ

pub record Payslip : Type 0 where
  pub employee : ℕ
  pub gross_salary : ℤ
  pub gosi_deduction : ℤ
  pub other_deductions : ℤ
  pub net_salary : ℤ

pub record PayrollRun : Type 0 where
  pub id : ℕ
  pub tenant : ℕ
  pub period_name : ℕ
  pub status : PayrollStatus
  pub total_gross : ℤ
  pub total_net : ℤ
  pub total_deductions : ℤ
  pub total_gosi : ℤ
  pub total_other_deductions : ℤ
  pub journal_entry : Option ℕ
  pub payslips : List Payslip

pub record StatementLine : Type 0 where
  pub date : Date
  pub amount : ℤ

-- `FixedAsset`
pub record Asset : Type 0 where
  pub id : ℕ
  pub tenant : ℕ
  pub code : ℕ
  pub depreciation_account : ℕ
  pub expense_account : ℕ
  pub purchase_date : Date
  pub purchase_price : ℤ
  pub salvage_value : ℤ
  pub useful_life_months : ℕ
  pub method : DepreciationMethod
  pub status : AssetStatus

-- `DepreciationSchedule`
pub record Schedule : Type 0 where
  pub id : ℕ
  pub asset : ℕ
  pub date : Date
  pub amount : ℤ
  pub accumulated : ℤ
  pub journal_entry : Option ℕ
  pub posted : Bool

-- a reconciliation with the bank statement that it was made for
pub record Reconciliation : Type 0 where
  pub id : ℕ
  pub tenant : ℕ
  pub account : ℕ
  pub status : ReconciliationStatus
  pub opening_balance : ℤ
  pub closing_balance : ℤ
  pub transactions : List StatementLine
  pub reconciled_by : Option ℕ

pub record ZakatSetting : Type 0 where
  pub tenant : ℕ
  pub is_hijri_year : Bool
  pub base_multiplier : ℤ

pub record Tenant : Type 0 where
  pub id : ℕ
  pub currency : ℕ

-- a company and one that it consolidates
pub record TenantChild : Type 0 where
  pub parent : ℕ
  pub child : ℕ

pub record PeriodRate : Type 0 where
  pub tenant : ℕ
  pub currency : ℕ
  pub period : ℕ
  pub rate : ℤ

pub record Currency : Type 0 where
  pub id : ℕ
  pub tenant : ℕ
  pub code : ℕ
  pub is_base : Bool

pub record ExchangeRate : Type 0 where
  pub tenant : ℕ
  pub currency : ℕ
  pub date : Date
  pub rate : ℤ

pub record User : Type 0 where
  pub id : ℕ
  pub email : ℕ
  pub password_hash : Option ℕ
  pub failed_attempts : ℕ
  pub locked_until : Option Date
  pub status : UserStatus
  pub invite_token_hash : Option ℕ
  pub invite_expires_at : Option Date

-- `TenantUser`
pub record Member : Type 0 where
  pub tenant : ℕ
  pub user : ℕ
  pub role : Option ℕ
  pub status : MemberStatus

pub record Role : Type 0 where
  pub id : ℕ
  pub tenant : ℕ
  pub name : RoleName

pub record Permission : Type 0 where
  pub id : ℕ
  pub tenant : ℕ
  pub key : PermissionKey

pub record RolePermission : Type 0 where
  pub role : ℕ
  pub permission : ℕ

-- the key of a refresh token
pub record Token : Type 0 where
  pub user : ℕ
  pub jti : ℕ
  pub expires_at : Date

-- `RedisService`: the keys in Redis, the `memoryStore` of the process, `useMemoryFallback`, and
-- which of the calls to Redis, counted from now on, Redis answers.
pub record Redis : Type 0 where
  pub keys : List Token
  pub memory : List Token
  pub fallback : Bool
  pub answers : ℕ → Bool
  pub calls : ℕ

pub record Db : Type 0 where
  pub next_id : ℕ
  pub accounts : List Account
  pub periods : List Period
  pub fiscal_years : List FiscalYear
  pub entries : List Entry
  pub sequences : List Sequence
  pub contacts : List Contact
  pub items : List Item
  pub balances : List Balance
  pub movements : List Movement
  pub lots : List Lot
  pub invoices : List Invoice
  pub payments : List Payment
  pub orders : List Order
  pub approvals : List Approval
  pub profiles : List Profile
  pub payroll_runs : List PayrollRun
  pub reconciliations : List Reconciliation
  pub assets : List Asset
  pub schedules : List Schedule
  pub users : List User
  pub members : List Member
  pub roles : List Role
  pub permissions : List Permission
  pub role_permissions : List RolePermission
  pub redis : Redis
  pub currencies : List Currency
  pub exchange_rates : List ExchangeRate
  pub zakat_settings : List ZakatSetting
  pub tenants : List Tenant
  pub tenant_children : List TenantChild
  pub period_rates : List PeriodRate
