-- ===== src/Ledger.antt =====
-- The trial balance
-- (apps/api/src/modules/accounting/general-ledger/general-ledger.service.ts).
pub mod Balanced
pub mod Rounding
use erp_ai_private.Prelude.{
  ℕ, ◌==◌, List, [], ◌∷◌, ◌++◌, Option, none, some, Bool, true, false, ◌&&◌, not, select, map,
  if◌then◌else◌,
}
use erp_ai_private.Prelude.Int.{ℤ, pos, ◌+ℤ◌, ◌-ℤ◌, eq_ℤ, neg, sum_by}
use erp_ai_private.Decimal.{is_negative, is_zero}
use erp_ai_private.Db.{
  AccountType, asset, liability, equity, revenue, expense, EntryStatus, draft_entry, posted, Date,
  leb_date, Account, Line, Entry, Db,
}
use erp_ai_private.Accounts.{is_active}

abbrev pub is_posted : EntryStatus → Bool
is_posted draft_entry = false
is_posted posted = true

-- `dateFilter`: both bounds are optional and inclusive
abbrev pub in_range : Option Date → Option Date → Date → Bool
in_range start end d =
    elim start [ none ↦ true | some s ↦ leb_date s d ]
    && elim end [ none ↦ true | some e ↦ leb_date d e ]

-- the lines of the entries that pass a test
abbrev pub lines_of : (Entry → Bool) → List Entry → List Line
lines_of p [] = []
lines_of p (e ∷ es) = (if p e then e.lines else []) ++ lines_of p es

-- the `where` of the `groupBy`
unfoldable pub posted_lines : ℕ → Option Date → Option Date → Db → List Line
posted_lines tenant start end db =
    select (λ l. l.tenant == tenant)
      (lines_of (λ e. is_posted e.status && in_range start end e.date) db.entries)

pub data Side : Type 0 where
  debit_side credit_side : Side

pub record Row : Type 0 where
  pub account : ℕ
  pub type : AccountType
  pub total_debit : ℤ
  pub total_credit : ℤ
  pub balance : ℤ
  pub balance_type : Side

-- accounts whose normal balance is a debit
abbrev pub is_debit_type : AccountType → Bool
is_debit_type asset = true
is_debit_type expense = true
is_debit_type _ = false

abbrev pub abs : ℤ → ℤ
abs a = if is_negative a then neg a else a

-- one account's sum: the `_sum` of its group, or zero if it has no lines
abbrev pub sum_for : (Line → ℤ) → ℕ → List Line → ℤ
sum_for f account ls = sum_by f (select (λ l. l.account == account) ls)

unfoldable pub trial_row : List Line → Account → Row
trial_row ls a =
    let debit = sum_for (λ l. l.debit) a.id ls in
    let credit = sum_for (λ l. l.credit) a.id ls in
    let net = if is_debit_type a.type then debit -ℤ credit else credit -ℤ debit in
    let side =
      if is_debit_type a.type
      then if is_negative net then credit_side else debit_side
      else if is_negative net
      then debit_side
      else credit_side in
    record {
      account = a.id;
      type = a.type;
      total_debit = debit;
      total_credit = credit;
      balance = abs net;
      balance_type = side;
    }

abbrev pub add_row : ℤ × ℤ → Row → ℤ × ℤ
add_row (d, c) r = elim r.balance_type [
  | debit_side ↦ (d +ℤ r.balance, c)
  | credit_side ↦ (d, c +ℤ r.balance)
]

-- the `reduce` of the grand totals
unfoldable pub grand_totals : ℤ × ℤ → List Row → ℤ × ℤ
grand_totals acc [] = acc
grand_totals acc (r ∷ rs) = grand_totals (add_row acc r) rs

pub record TrialBalance : Type 0 where
  pub items : List Row
  pub debit : ℤ
  pub credit : ℤ
  pub is_balanced : Bool

abbrev pub active_accounts : ℕ → Db → List Account
active_accounts tenant db = select (λ a. a.tenant == tenant && is_active a.status) db.accounts

unfoldable pub get_trial_balance : ℕ → Option Date → Option Date → Db → TrialBalance
get_trial_balance tenant start end db =
    let rows = map (trial_row (posted_lines tenant start end db)) (active_accounts tenant db) in
    let totals = grand_totals (pos 0, pos 0) rows in
    record {
      items = select (λ r. not (is_zero r.balance)) rows;
      debit = totals.0;
      credit = totals.1;
      is_balanced = eq_ℤ totals.0 totals.1;
    }
