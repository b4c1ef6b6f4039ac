-- ===== src/Examples/Accounting.antt =====
-- The theorems of the ledger and the accounts at concrete inputs.
use erp_ai_private.Prelude.{◌≡◌, refl, [], ◌∷◌, none, true, All, inl, inr, arith}
use erp_ai_private.Prelude.Int.{pos, ◌+ℤ◌, sum_by}
use erp_ai_private.Db.{Db, Entry, ok, err, already_reversed}
use erp_ai_private.Accounts.{validate_account_for_posting}
use erp_ai_private.Periods.{find_active_period_by_date}
use erp_ai_private.Journal.{
  EntryDto, text, check_line, check_lines, insert_entry, has_references, has_room, store_lines,
  reverse_lines, execute_create, create, execute_reversal, create_reversal, new_entry,
  reversal_entry, find_original,
}
use erp_ai_private.Journal.Balance.{IsBalanced, IsAcceptable}
use erp_ai_private.Journal.Create.{create-IsBalanced}
use erp_ai_private.Journal.Reversal.{
  StoredInCents, movement, create_reversal_once, create_reversal-cancels,
}
use erp_ai_private.Ledger.{posted_lines, get_trial_balance}
use erp_ai_private.Ledger.Balanced.{IsOwned, HasOneAccount, get_trial_balance-is_balanced}
use erp_ai_private.Invoices.{line}
use erp_ai_private.Examples.{whole, today, later, cash, sales, january, company}

-- a cash sale
abbrev sale : EntryDto
sale = record {
  entry_date = today;
  lines =
      line 10 none (text (pos 200)) (text (pos 0))
      ∷ line 11 none (text (pos 0)) (text (pos 200))
      ∷ [];
}

abbrev sold : Entry
sold = new_entry whole 1 today sale company

abbrev after_sale : Db
after_sale = (create whole 1 today sale company).1

sale_entered : create whole 1 today sale company ≡ (ok sold, after_sale)
unfolding create check_lines check_line execute_create insert_entry has_references has_room
    store_lines validate_account_for_posting find_active_period_by_date ◌+ℤ◌
sale_entered = refl

create-IsBalanced_example : IsBalanced sold
create-IsBalanced_example =
    create-IsBalanced whole 1 today sale company after_sale ((refl, refl), ((refl, refl), tt))
      sale_entered

sale-IsAcceptable : IsAcceptable company 1 sale
unfolding validate_account_for_posting find_active_period_by_date ◌+ℤ◌
sale-IsAcceptable = record {
  two_lines = ground arith;
  period = january;
  period_ok = refl;
  lines_ok = (
    record {
      debit_nonneg = ground arith;
      credit_nonneg = ground arith;
      one_side = inr refl;
      account = cash;
      account_ok = refl;
    },
    (
      record {
        debit_nonneg = ground arith;
        credit_nonneg = ground arith;
        one_side = inl refl;
        account = sales;
        account_ok = refl;
      },
      tt,
    ),
  );
  balanced = refl;
}

-- the ledger with the sale in it, written out
abbrev books : Db
books = record company { next_id = 103; entries = sold ∷ [] }

abbrev reversed : Entry
reversed = reversal_entry whole 1 later sold later books

abbrev after_reversal : Db
after_reversal = (create_reversal whole 1 later 100 later books).1

reverse_sale : create_reversal whole 1 later 100 later books ≡ (ok reversed, after_reversal)
unfolding create_reversal execute_reversal insert_entry has_references has_room reverse_lines
    store_lines find_active_period_by_date
reverse_sale = refl

create_reversal_once_example :
    create_reversal whole 1 today 100 today after_reversal ≡ (err already_reversed, after_reversal)
create_reversal_once_example =
    create_reversal_once whole 1 100 later today later today reversed books after_reversal
      reverse_sale

sold-IsBalanced : IsBalanced sold
unfolding store_lines ◌+ℤ◌
sold-IsBalanced = refl

sold-StoredInCents : All (StoredInCents whole) sold.lines
unfolding store_lines
sold-StoredInCents = ((refl, refl), ((refl, refl), tt))

find_sold : find_original 1 100 books ≡ ok sold
find_sold = refl

create_reversal-cancels_example :
    (sum_by (movement 10) reversed.lines +ℤ sum_by (movement 10) sold.lines ≡ pos 0)
    × IsBalanced reversed
create_reversal-cancels_example =
    create_reversal-cancels whole 1 later 100 later sold reversed books after_reversal 10 find_sold
      sold-StoredInCents sold-IsBalanced reverse_sale

sold-IsOwned : IsOwned sold
unfolding store_lines
sold-IsOwned = (refl, (refl, tt))

books-HasOneAccount : All (HasOneAccount 1 books) (posted_lines 1 none none books)
unfolding posted_lines store_lines
books-HasOneAccount = (refl, (refl, tt))

get_trial_balance-is_balanced_example :
    let t = get_trial_balance 1 none none books in (t.debit ≡ t.credit) × (t.is_balanced ≡ true)
get_trial_balance-is_balanced_example =
    get_trial_balance-is_balanced 1 none none books (sold-IsBalanced, tt) (sold-IsOwned, tt)
      books-HasOneAccount
