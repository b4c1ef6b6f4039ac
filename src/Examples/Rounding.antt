-- ===== src/Examples/Rounding.antt =====
-- The balance of a ledger whose columns round: amounts are whole tenths of a cent.
use erp_ai_private.Prelude.{
  ℕ, ◌+◌, ◌*◌, ◌/◌, ◌≡◌, ◌≤◌, zero, suc, refl, ap, ◌∙◌, [], ◌∷◌, none, arith, All,
}
use erp_ai_private.Prelude.Int.{ℤ, pos, negsuc, ◌≤ℤ◌, pos_part, neg_part, ◌+ℤ◌, ◌-ℤ◌, int_laws}
use erp_ai_private.Decimal.{Decimals}
use erp_ai_private.Db.{Db}
use erp_ai_private.Accounts.{validate_account_for_posting}
use erp_ai_private.Periods.{find_active_period_by_date}
use erp_ai_private.Journal.{
  EntryDto, text, check_line, check_lines, insert_entry, has_references, has_room, store_lines,
  execute_create, create,
}
use erp_ai_private.Invoices.{line}
use erp_ai_private.Ledger.{posted_lines, trial_row, grand_totals, get_trial_balance}
use erp_ai_private.Ledger.Balanced.{HasOneAccount}
use erp_ai_private.Ledger.Rounding.{IsRounding, IsWithin, IsEven, allowed}
use erp_ai_private.Services.{Reaches, start, call, entry}
use erp_ai_private.Services.Balance.{Reaches-IsEven, Reaches-get_trial_balance}
use erp_ai_private.Examples.{whole, later, company}

abbrev nearest : ℕ → ℕ
nearest n = (n + 5) / 10 * 10

nearest_near : (n : ℕ) → (nearest n ≤ n + 5) × (n ≤ nearest n + 5)
nearest_near n = (omega arith, omega arith)

nearest_again : (n : ℕ) → nearest (nearest n) ≡ nearest n
nearest_again n = omega arith

-- the integer -n
unfoldable opposite : ℕ → ℤ
opposite zero = pos 0
opposite (suc n) = negsuc n

unfoldable to_cents : ℤ → ℤ
to_cents (pos n) = pos (nearest n)
to_cents (negsuc n) = opposite (nearest (suc n))

to_cents-opposite : (n : ℕ) → to_cents (opposite n) ≡ opposite (nearest n)
unfolding to_cents opposite
to_cents-opposite zero = refl
to_cents-opposite (suc n) = refl

opposite_parts : (n : ℕ) → (pos_part (opposite n) ≡ 0) × (neg_part (opposite n) ≡ n)
unfolding opposite
opposite_parts zero = (refl, refl)
opposite_parts (suc n) = (refl, omega arith)

to_cents_below : (a : ℤ) → to_cents a ≤ℤ a +ℤ pos 5
unfolding to_cents
to_cents_below (pos n) = let near = nearest_near n in grind int_laws
to_cents_below (negsuc n) =
    let near = nearest_near (suc n) in
    let parts = opposite_parts (nearest (suc n)) in grind int_laws

to_cents_above : (a : ℤ) → a ≤ℤ to_cents a +ℤ pos 5
unfolding to_cents
to_cents_above (pos n) = let near = nearest_near n in grind int_laws
to_cents_above (negsuc n) =
    let near = nearest_near (suc n) in
    let parts = opposite_parts (nearest (suc n)) in grind int_laws

to_cents_again : (a : ℤ) → to_cents (to_cents a) ≡ to_cents a
unfolding to_cents
to_cents_again (pos n) = ap pos (nearest_again n)
to_cents_again (negsuc n) =
    to_cents-opposite (nearest (suc n)) ∙ ap opposite (nearest_again (suc n))

abbrev tenths : Decimals
tenths = record whole { scale = 1000; column = λ n a. to_cents a }

tenths-IsRounding : IsRounding tenths 5
unfolding to_cents
tenths-IsRounding = record {
  below = to_cents_below;
  above = to_cents_above;
  zero_kept = refl;
  again = to_cents_again;
}

-- 1.4 and 1.4 cents against 2.8 are stored as 1 and 1 against 3
abbrev uneven : EntryDto
uneven = record {
  entry_date = later;
  lines =
      line 12 none (text (pos 14)) (text (pos 0))
      ∷ line 12 none (text (pos 14)) (text (pos 0))
      ∷ line 10 none (text (pos 0)) (text (pos 28))
      ∷ [];
}

abbrev rounded : Db
rounded = (create tenths 1 later uneven company).1

rounded-Reaches : Reaches tenths company rounded
rounded-Reaches = call company rounded start (entry 1 later uneven)

Reaches-IsEven_example : All (λ e. IsEven 5 e.lines) rounded.entries
Reaches-IsEven_example =
    Reaches-IsEven tenths 5 tenths-IsRounding company rounded rounded-Reaches refl

rounded-HasOneAccount : All (HasOneAccount 1 rounded) (posted_lines 1 none none rounded)
unfolding create check_lines check_line execute_create insert_entry has_references has_room
    store_lines validate_account_for_posting find_active_period_by_date posted_lines ◌+ℤ◌ ◌-ℤ◌
    to_cents
rounded-HasOneAccount = (refl, (refl, (refl, tt)))

-- debits of 20 against credits of 30
rounded_difference :
    let t = get_trial_balance 1 none none rounded in t.debit -ℤ t.credit ≡ pos 0 -ℤ pos 10
unfolding create check_lines check_line execute_create insert_entry has_references has_room
    store_lines validate_account_for_posting find_active_period_by_date posted_lines ◌+ℤ◌ ◌-ℤ◌
    to_cents opposite get_trial_balance grand_totals trial_row
rounded_difference = refl

Reaches-get_trial_balance_example :
    let t = get_trial_balance 1 none none rounded in
    IsWithin (allowed 5 (posted_lines 1 none none rounded)) (t.debit -ℤ t.credit)
Reaches-get_trial_balance_example =
    Reaches-get_trial_balance tenths 5 tenths-IsRounding 1 none none company rounded rounded-Reaches
      refl rounded-HasOneAccount
