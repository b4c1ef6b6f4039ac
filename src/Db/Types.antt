-- ===== src/Db/Types.antt =====
-- The enums of apps/api/prisma/schema.prisma, dates and document numbers.
use erp_ai_private.Prelude.{ℕ, ◌==◌, ltb, leb, if◌then◌else◌, Bool, true, false, ◌&&◌}

pub data AccountType : Type 0 where
  asset liability equity revenue expense : AccountType

pub data AccountStatus : Type 0 where
  active inactive : AccountStatus

pub data PeriodStatus : Type 0 where
  open_period closed_period adjusting_period : PeriodStatus

pub data EntryStatus : Type 0 where
  draft_entry posted : EntryStatus

pub data InvoiceType : Type 0 where
  sales_invoice purchase_invoice credit_note debit_note : InvoiceType

pub data InvoiceStatus : Type 0 where
  draft_invoice pending_invoice approved_invoice paid_invoice cancelled_invoice : InvoiceStatus

pub data PaymentType : Type 0 where
  incoming outgoing : PaymentType

pub data PaymentStatus : Type 0 where
  draft_payment pending_payment approved_payment reconciled_payment : PaymentStatus

pub data ReconciliationStatus : Type 0 where
  draft_reconciliation reconciled : ReconciliationStatus

pub data MovementType : Type 0 where
  purchase sale adjustment transfer : MovementType

pub data PayrollStatus : Type 0 where
  draft_run pending_run approved_run paid_run : PayrollStatus

pub data OrderStatus : Type 0 where
  draft_order pending_order sent partially_received received billed cancelled_order : OrderStatus

pub data ApprovalStatus : Type 0 where
  pending approved rejected cancelled : ApprovalStatus

-- the entity types that the services write into an approval request
pub data EntityType : Type 0 where
  payment_entity payroll_entity order_entity : EntityType

pub data AssetStatus : Type 0 where
  draft_asset active_asset disposed : AssetStatus

pub data DepreciationMethod : Type 0 where
  straight_line declining_balance units_of_production : DepreciationMethod

pub data UserStatus : Type 0 where
  active_user invited_user disabled_user : UserStatus

pub data MemberStatus : Type 0 where
  active_member invited_member disabled_member : MemberStatus

-- A UTC instant: its year, and the milliseconds since that year began.
pub record Date : Type 0 where
  pub year : ℕ
  pub ms : ℕ

abbrev pub leb_date : Date → Date → Bool
leb_date a b = if a.year == b.year then leb a.ms b.ms else ltb a.year b.year

abbrev pub ltb_date : Date → Date → Bool
ltb_date a b = if a.year == b.year then ltb a.ms b.ms else ltb a.year b.year

abbrev pub start_of_year : ℕ → Date
start_of_year y = record { year = y; ms = 0 }

-- `FY 2026`, or a name that the user gave
pub data YearName : Type 0 where
  fy named : ℕ → YearName

abbrev pub same_year_name : YearName → YearName → Bool
same_year_name (fy a) (fy b) = a == b
same_year_name (named a) (named b) = a == b
same_year_name _ _ = false

-- `Jan 2026` or `2026-01`: the year, and the month from 0
pub data PeriodName : Type 0 where
  month_name month_number : ℕ → ℕ → PeriodName

abbrev pub same_period_name : PeriodName → PeriodName → Bool
same_period_name (month_name y m) (month_name y' m') = y == y' && m == m'
same_period_name (month_number y m) (month_number y' m') = y == y' && m == m'
same_period_name _ _ = false

-- `JE-2026-0001`, `REV-2026-0002`: a prefix, the year and a counter. `DEP-A1-2026-01`: the prefix
-- with the asset's code, the year and the month.
pub data EntryPrefix : Type 0 where
  je rev : EntryPrefix
  dep : ℕ → EntryPrefix

abbrev pub same_prefix : EntryPrefix → EntryPrefix → Bool
same_prefix je je = true
same_prefix rev rev = true
same_prefix (dep a) (dep b) = a == b
same_prefix _ _ = false

-- whether the number counts the entries of its year
abbrev pub is_counter : EntryPrefix → Bool
is_counter (dep a) = false
is_counter _ = true

pub record EntryNumber : Type 0 where
  pub prefix : EntryPrefix
  pub year : ℕ
  pub seq : ℕ

abbrev pub same_number : EntryNumber → EntryNumber → Bool
same_number a b = same_prefix a.prefix b.prefix && (a.year == b.year && a.seq == b.seq)

pub data DocumentPrefix : Type 0 where
  inv pinv cn dn rcpt pymt : DocumentPrefix

pub record DocumentNumber : Type 0 where
  pub prefix : DocumentPrefix
  pub year : ℕ
  pub seq : ℕ

-- the number of a purchase order, `PO-2026-0001`, and of the bill that it becomes, `BILL-PO-…`
pub record OrderNumber : Type 0 where
  pub year : ℕ
  pub seq : ℕ

pub data InvoiceNumber : Type 0 where
  document : DocumentNumber → InvoiceNumber
  bill : OrderNumber → InvoiceNumber

-- the entity types that are numbered: an invoice's or a payment's type
pub data SequenceType : Type 0 where
  of_invoice : InvoiceType → SequenceType
  of_payment : PaymentType → SequenceType

unfoldable pub sequence_code : SequenceType → ℕ
sequence_code (of_invoice sales_invoice) = 0
sequence_code (of_invoice purchase_invoice) = 1
sequence_code (of_invoice credit_note) = 2
sequence_code (of_invoice debit_note) = 3
sequence_code (of_payment incoming) = 4
sequence_code (of_payment outgoing) = 5

abbrev pub prefix_code : DocumentPrefix → ℕ
prefix_code inv = 0
prefix_code pinv = 1
prefix_code cn = 2
prefix_code dn = 3
prefix_code rcpt = 4
prefix_code pymt = 5

abbrev pub same_document : DocumentNumber → DocumentNumber → Bool
same_document a b =
    prefix_code a.prefix == prefix_code b.prefix && (a.year == b.year && a.seq == b.seq)

abbrev pub same_order : OrderNumber → OrderNumber → Bool
same_order a b = a.year == b.year && a.seq == b.seq

abbrev pub same_invoice_number : InvoiceNumber → InvoiceNumber → Bool
same_invoice_number (document a) (document b) = same_document a b
same_invoice_number (bill a) (bill b) = same_order a b
same_invoice_number _ _ = false

-- `zatcaPih`: the fixed hash of "0", the encoding of an invoice's UUID, or of `mock-hash`
pub data InvoiceHash : Type 0 where
  zero_hash mock_hash : InvoiceHash
  uuid_hash : ℕ → InvoiceHash
