-- ===== src/Journal/InBalance.antt =====
-- The error `out_of_balance` of `create`.
use erp_ai_private.Prelude.{ℕ, ◌≡◌, ◌≢◌, List, [], ◌∷◌, inl, inr, arith}
use erp_ai_private.Prelude.Int.{ℤ, pos, sum_by, zero_+ℤ, eq_ℤ_refl}
use erp_ai_private.Decimal.{Decimals}
use erp_ai_private.Db.{Date, Db, err, Result-cases, out_of_balance}
use erp_ai_private.Accounts.{validate_account_for_posting}
use erp_ai_private.Periods.{find_active_period_by_date}
use erp_ai_private.Journal.{
  LineDto, EntryDto, check_line, check_lines, insert_entry, execute_create, create,
}
use erp_ai_private.Journal.Balance.{debit_of, credit_of, check_lines-IsPostable}

check_line-ne :
    (db : Db) (tenant : ℕ) (t : ℤ × ℤ) (l : LineDto) → check_line db tenant t l ≢ err out_of_balance
unfolding check_line validate_account_for_posting
check_line-ne db tenant t l h = ground arith

check_lines-ne :
    (db : Db) (tenant : ℕ) (t : ℤ × ℤ) (ls : List LineDto)
    → check_lines db tenant t ls ≢ err out_of_balance
unfolding check_lines
check_lines-ne db tenant t [] h = cc
check_lines-ne db tenant t (l ∷ ls) h = elim (Result-cases (check_line db tenant t l)) [
  | inl (u, passed) ↦ check_lines-ne db tenant u ls (ground arith)
  | inr (x, failed) ↦ check_line-ne db tenant t l (ground arith)
]

find_active-ne :
    (db : Db) (tenant : ℕ) (date : Date)
    → find_active_period_by_date db tenant date ≢ err out_of_balance
unfolding find_active_period_by_date
find_active-ne db tenant date h = ground arith

insert-ne :
    (D : Decimals) (tenant : ℕ) (now : Date) (dto : EntryDto) (db : Db)
    → (execute_create D tenant now dto db).0 ≢ err out_of_balance
unfolding execute_create insert_entry
insert-ne D tenant now dto db h = ground arith

pub create_in_balance :
    (D : Decimals) (tenant : ℕ) (now : Date) (dto : EntryDto) (db : Db)
    → sum_by debit_of dto.lines ≡ sum_by credit_of dto.lines
    → (create D tenant now dto db).0 ≢ err out_of_balance
unfolding create
create_in_balance D tenant now dto db b h =
    elim (Result-cases (find_active_period_by_date db tenant dto.entry_date)) [
      | inl (p, found) ↦ elim (Result-cases (check_lines db tenant (pos 0, pos 0) dto.lines)) [
        | inl (u, checked) ↦
            let (good, sums) =
              check_lines-IsPostable db tenant (pos 0, pos 0) u dto.lines checked in
            insert-ne D tenant now dto db (
              ground (
                arith,
                sums,
                zero_+ℤ (sum_by debit_of dto.lines),
                zero_+ℤ (sum_by credit_of dto.lines),
                eq_ℤ_refl (sum_by credit_of dto.lines),
              ))
        | inr (x, failed) ↦ ground (arith, check_lines-ne db tenant (pos 0, pos 0) dto.lines)
      ]
      | inr (x, missing) ↦ ground (arith, find_active-ne db tenant dto.entry_date)
    ]
