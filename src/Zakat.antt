-- ===== src/Zakat.antt =====
-- The zakat estimate (apps/api/src/modules/compliance/zakat/zakat.service.ts).
pub mod Base
use erp_ai_private.Prelude.{
  ℕ, ◌==◌, List, [], ◌∷◌, Option, none, some, Bool, true, false, find, select, if◌then◌else◌,
}
use erp_ai_private.Prelude.Int.{ℤ, pos, ◌+ℤ◌, ◌-ℤ◌, sum_by}
use erp_ai_private.Decimal.{Decimals, lit, is_negative}
use erp_ai_private.Db.{
  AccountType, liability, equity, revenue, expense, Account, Line, ZakatSetting, Date, Db, Action,
  ok, err,
}
use erp_ai_private.Ledger.{posted_lines}
use erp_ai_private.Reports.{same_type}

-- the setting of the tenant, or the one that is made for it
abbrev pub default_setting : Decimals → ℕ → ZakatSetting
default_setting D tenant = record {
  tenant = tenant;
  is_hijri_year = true;
  base_multiplier = D.column 2 (D.div (lit D 5) (lit D 2));
}

abbrev pub find_setting : Decimals → ℕ → Action ZakatSetting
find_setting D tenant db = elim (find (λ s. s.tenant == tenant) db.zakat_settings) [
  | some s ↦ (ok s, db)
  | none ↦ (
    ok (default_setting D tenant),
    record db { zakat_settings = default_setting D tenant ∷ db.zakat_settings },
  )
]

-- `account: { type: … }`
abbrev pub is_line_of : AccountType → Db → Line → Bool
is_line_of t db l = elim (find (λ a. a.id == l.account) db.accounts) [
  | none ↦ false
  | some a ↦ same_type a.type t
]

-- `aggregate`: credits less debits of the posted lines of one type
unfoldable pub credit_balance : AccountType → ℕ → Option Date → Date → Db → ℤ
credit_balance t tenant start end db =
    let ls = select (is_line_of t db) (posted_lines tenant start (some end) db) in
    sum_by (λ l. l.credit) ls -ℤ sum_by (λ l. l.debit) ls

unfoldable pub debit_balance : AccountType → ℕ → Option Date → Date → Db → ℤ
debit_balance t tenant start end db =
    let ls = select (is_line_of t db) (posted_lines tenant start (some end) db) in
    sum_by (λ l. l.debit) ls -ℤ sum_by (λ l. l.credit) ls

pub record Estimate : Type 0 where
  pub zakat_base : ℤ
  pub net_income : ℤ
  pub equity_total : ℤ
  pub liabilities : ℤ
  pub multiplier : ℤ
  pub estimated_provision : ℤ

unfoldable pub estimate_of : Decimals → ZakatSetting → ℕ → Date → Date → Db → Estimate
estimate_of D setting tenant start end db =
    let net =
      credit_balance revenue tenant (some start) end db
      -ℤ debit_balance expense tenant (some start) end db in
    let own = credit_balance equity tenant none end db in
    let owed = credit_balance liability tenant none end db in
    let sum = own +ℤ owed +ℤ net in
    let base = if is_negative sum then pos 0 else sum in
    record {
      zakat_base = base;
      net_income = net;
      equity_total = own;
      liabilities = owed;
      multiplier = setting.base_multiplier;
      estimated_provision = D.mul base (D.div setting.base_multiplier (lit D 100));
    }

unfoldable pub estimate_zakat : Decimals → ℕ → Date → Date → Action Estimate
estimate_zakat D tenant start end db =
    let (found, after) = find_setting D tenant db in
    elim found [
      | ok s ↦ (ok (estimate_of D s tenant start end after), after)
      | err e ↦ (err e, after)
    ]
