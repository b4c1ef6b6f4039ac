-- ===== src/Zakat/Base.antt =====
-- The zakat base against the assets.
use erp_ai_private.Prelude.{List, select, if◌then◌else◌}
use erp_ai_private.Prelude.Int.{ℤ, pos, ◌+ℤ◌, sum_by}
use erp_ai_private.Decimal.{is_negative}
use erp_ai_private.Db.{AccountType, asset, liability, equity, revenue, expense, Line, Db}
use erp_ai_private.Ledger.Balanced.{net}
use erp_ai_private.Reports.{same_type}
use erp_ai_private.Zakat.{is_line_of}

-- debits less credits of the lines of a type
abbrev net_of : AccountType → Db → List Line → ℤ
net_of t db ls = sum_by net (select (is_line_of t db) ls)

abbrev put_net : AccountType → ℤ → AccountType → ℤ → ℤ
put_net t b u n = if same_type t u then b +ℤ n else n

abbrev five : (AccountType → ℤ) → ℤ
five f = f asset +ℤ f expense +ℤ (f liability +ℤ f equity +ℤ f revenue)

abbrev pub at_least_zero : ℤ → ℤ
at_least_zero a = if is_negative a then pos 0 else a
