-- ===== src/Reports/Equation.antt =====
-- Assets against liabilities and equity in the balance sheet.
use erp_ai_private.Prelude.{
  ℕ, ◌≡◌, refl, sym, ◌∙◌, List, [], ◌∷◌, Option, none, true, not, All, select, map, Bool-cases, inl,
  inr, if◌then◌else◌,
}
use erp_ai_private.Prelude.Int.{ℤ, pos, ◌+ℤ◌, ◌-ℤ◌, neg, sum_by, int_laws, eq_ℤ→eq}
use erp_ai_private.Decimal.{Decimals, is_zero}
use erp_ai_private.Db.{AccountType, asset, liability, equity, revenue, expense, Date, Db}
use erp_ai_private.Ledger.{
  Row, debit_side, credit_side, is_debit_type, trial_row, grand_totals, posted_lines,
  active_accounts, get_trial_balance,
}
use erp_ai_private.Ledger.Balanced.{
  HasOneAccount, net, signed, grand_totals-signed, get_trial_balance-difference,
}
use erp_ai_private.Ledger.Rounding.{IsRounding, IsWithin, allowed, posted_lines-IsEven}
use erp_ai_private.Services.{Reaches}
use erp_ai_private.Services.Numbering.{Reaches-IsOwned}
use erp_ai_private.Services.Balance.{Reaches-IsEven}
use erp_ai_private.Reports.{same_type, of_type, total_balance, get_balance_sheet}

-- The row stands on the side that its type of account normally has.
abbrev pub IsNormal : Row → Type 0
IsNormal r = r.balance_type ≡ (if is_debit_type r.type then debit_side else credit_side)

-- a row with no balance adds nothing
signed_zero : (r : Row) → is_zero r.balance ≡ true → signed r ≡ pos 0
signed_zero r h = grind (int_laws, eq_ℤ→eq r.balance (pos 0))

sum-signed_shown :
    (rows : List Row)
    → sum_by signed (select (λ r. not (is_zero r.balance)) rows) ≡ sum_by signed rows
sum-signed_shown [] = refl
sum-signed_shown (r ∷ rows) = elim (Bool-cases (is_zero r.balance)) [
  | inl empty ↦ rw (empty, signed_zero r empty, sum-signed_shown rows) (omega int_laws)
  | inr shown ↦ rw (shown, sum-signed_shown rows) refl
]

abbrev total : AccountType → List Row → ℤ
total t rows = total_balance (of_type t rows)

-- debit types less credit types
abbrev difference : (AccountType → ℤ) → ℤ
difference f = f asset +ℤ f expense -ℤ (f liability +ℤ f equity +ℤ f revenue)

abbrev put : AccountType → ℤ → AccountType → ℤ → ℤ
put t b u n = if same_type t u then b +ℤ n else n

total-put :
    (u : AccountType) (r : Row) (rows : List Row)
    → total u (r ∷ rows) ≡ put r.type r.balance u (total u rows)
total-put u r rows = elim (Bool-cases (same_type r.type u)) [
  | inl same ↦ rw same refl
  | inr other ↦ rw other refl
]

difference-put :
    (t : AccountType) (b : ℤ) (f : AccountType → ℤ)
    → (if is_debit_type t then b else neg b) +ℤ difference f ≡ difference (λ u. put t b u (f u))
difference-put asset b f = omega int_laws
difference-put liability b f = omega int_laws
difference-put equity b f = omega int_laws
difference-put revenue b f = omega int_laws
difference-put expense b f = omega int_laws

signed_normal :
    (r : Row) → IsNormal r → signed r ≡ (if is_debit_type r.type then r.balance else neg r.balance)
signed_normal r h = elim (Bool-cases (is_debit_type r.type)) [
  | inl debit ↦ rw (h, debit) refl
  | inr credit ↦ rw (h, credit) refl
]

sum-signed-difference :
    (rows : List Row) → All IsNormal rows → sum_by signed rows ≡ difference (λ u. total u rows)
sum-signed-difference [] h = omega int_laws
sum-signed-difference (r ∷ rows) h =
    rw (signed_normal r h.0, sum-signed-difference rows h.1)
      (difference-put r.type r.balance (λ u. total u rows)
        ∙ sym (
            rw
              (
                total-put asset r rows,
                total-put expense r rows,
                total-put liability r rows,
                total-put equity r rows,
                total-put revenue r rows,
              )
              refl))

difference_of : (a x l e r : ℤ) → a +ℤ x -ℤ (l +ℤ e +ℤ r) ≡ a -ℤ (l +ℤ (e +ℤ (r -ℤ x)))
difference_of a x l e r = grind int_laws

-- Assets differ from liabilities and equity by what the posted lines do not balance.
get_balance_sheet-difference :
    (tenant : ℕ) (date : Option Date) (db : Db)
    → All (HasOneAccount tenant db) (posted_lines tenant none date db)
    → All IsNormal (get_trial_balance tenant none date db).items
    → let s = get_balance_sheet tenant date db in
      s.total_assets -ℤ (s.total_liabilities +ℤ s.total_equity)
      ≡ sum_by net (posted_lines tenant none date db)
unfolding get_balance_sheet get_trial_balance
get_balance_sheet-difference tenant date db h normal =
    let rows = map (trial_row (posted_lines tenant none date db)) (active_accounts tenant db) in
    let items = select (λ r. not (is_zero r.balance)) rows in
    let totals = grand_totals (pos 0, pos 0) rows in
    let uneven : totals.0 -ℤ totals.1 ≡ sum_by net (posted_lines tenant none date db) =
      get_trial_balance-difference tenant none date db h in
    let level : sum_by signed items ≡ totals.0 -ℤ totals.1 =
      sum-signed_shown rows ∙ grind (int_laws, grand_totals-signed (pos 0, pos 0) rows) in
    sym (
      difference_of (total asset items) (total expense items) (total liability items)
        (total equity items) (total revenue items))
    ∙ sym (sum-signed-difference items normal)
    ∙ level
    ∙ uneven

-- On every balance sheet of a ledger that the services reach from one without entries, assets
-- differ from liabilities and equity with the net income by at most `half`, the most that a column
-- of two places moves an amount when it rounds, for each posted line up to the date, if each of
-- these lines has one active account of the tenant and each account shown has its balance on the
-- side of its type.
pub Reaches-get_balance_sheet :
    (D : Decimals) (half tenant : ℕ) (date : Option Date) (db db' : Db)
    → IsRounding D half
    → Reaches D db db'
    → db.entries ≡ []
    → All (HasOneAccount tenant db') (posted_lines tenant none date db')
    → All IsNormal (get_trial_balance tenant none date db').items
    → let s = get_balance_sheet tenant date db' in
      IsWithin
        (allowed half (posted_lines tenant none date db'))
        (s.total_assets -ℤ (s.total_liabilities +ℤ s.total_equity))
Reaches-get_balance_sheet D half tenant date db db' rounding r e h normal =
    rw (get_balance_sheet-difference tenant date db' h normal) (
      posted_lines-IsEven half tenant none date db' (Reaches-IsEven D half rounding db db' r e)
        (Reaches-IsOwned D db db' r e))
