-- ===== src/Reports.antt =====
-- The financial reports over the trial balance (apps/api/src/modules/reports/reports.service.ts):
-- income statement, balance sheet and cash flow.
pub mod Equation
use erp_ai_private.Prelude.{ℕ, List, Option, none, Bool, true, false, ◌&&◌, select}
use erp_ai_private.Prelude.Int.{ℤ, ◌+ℤ◌, ◌-ℤ◌, sum_by}
use erp_ai_private.Db.{AccountType, asset, liability, equity, revenue, expense, Date, Db}
use erp_ai_private.Ledger.{Row, get_trial_balance}

abbrev pub same_type : AccountType → AccountType → Bool
same_type asset asset = true
same_type liability liability = true
same_type equity equity = true
same_type revenue revenue = true
same_type expense expense = true
same_type _ _ = false

-- `items.filter(a => a.type === …)`
abbrev pub of_type : AccountType → List Row → List Row
of_type t rows = select (λ r. same_type r.type t) rows

-- the `reduce` over the balances
abbrev pub total_balance : List Row → ℤ
total_balance rows = sum_by (λ r. r.balance) rows

pub record Pnl : Type 0 where
  pub revenue_rows : List Row
  pub expense_rows : List Row
  pub total_revenue : ℤ
  pub total_expense : ℤ
  pub net_income : ℤ

abbrev pub pnl_of : List Row → Pnl
pnl_of rows =
    let income = total_balance (of_type revenue rows) in
    let cost = total_balance (of_type expense rows) in
    record {
      revenue_rows = of_type revenue rows;
      expense_rows = of_type expense rows;
      total_revenue = income;
      total_expense = cost;
      net_income = income -ℤ cost;
    }

unfoldable pub get_pnl : ℕ → Option Date → Option Date → Db → Pnl
get_pnl tenant start end db = let t = get_trial_balance tenant start end db in pnl_of t.items

pub record BalanceSheet : Type 0 where
  pub asset_rows : List Row
  pub liability_rows : List Row
  pub equity_rows : List Row
  pub total_assets : ℤ
  pub total_liabilities : ℤ
  pub total_equity : ℤ
  pub net_income : ℤ

abbrev pub sheet_of : List Row → BalanceSheet
sheet_of rows =
    let net = total_balance (of_type revenue rows) -ℤ total_balance (of_type expense rows) in
    record {
      asset_rows = of_type asset rows;
      liability_rows = of_type liability rows;
      equity_rows = of_type equity rows;
      total_assets = total_balance (of_type asset rows);
      total_liabilities = total_balance (of_type liability rows);
      total_equity = total_balance (of_type equity rows) +ℤ net;
      net_income = net;
    }

unfoldable pub get_balance_sheet : ℕ → Option Date → Db → BalanceSheet
get_balance_sheet tenant date db = let t = get_trial_balance tenant none date db in sheet_of t.items

-- `is_cash` tells which accounts have a name with "cash" or "bank" in it.
unfoldable pub get_cash_flow : (ℕ → Bool) → ℕ → Option Date → Option Date → Db → List Row × ℤ
get_cash_flow is_cash tenant start end db =
    let t = get_trial_balance tenant start end db in
    let rows = select (λ r. same_type r.type asset && is_cash r.account) t.items in
    (rows, total_balance rows)
