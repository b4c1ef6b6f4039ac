-- ===== src/Examples/Services.antt =====
-- The theorems on sequences of calls, at an invoice and a payment that are approved.
use erp_ai_private.Prelude.{◌≡◌, refl, [], ◌∷◌, none, All, inl, inr, arith}
use erp_ai_private.Prelude.Int.{pos, ◌+ℤ◌, ◌-ℤ◌, int_laws}
use erp_ai_private.Db.{Db, ok}
use erp_ai_private.Accounts.{validate_account_for_posting}
use erp_ai_private.Periods.{find_active_period_by_date}
use erp_ai_private.Journal.{
  EntryDto, text, check_line, check_lines, insert_entry, has_references, has_room, store_lines,
  execute_create, create, new_entry,
}
use erp_ai_private.Journal.Balance.{IsAcceptable, IsBalanced}
use erp_ai_private.Journal.Numbers.{WellNumbered, IsStorable}
use erp_ai_private.Sequences.{get_previous_invoice_hash}
use erp_ai_private.Inventory.{upsert, process_outward_movement}
use erp_ai_private.Invoices.{
  line, control_account, stock_of_line, stock_lines, post_lines, execute_approve, approve_invoice,
}
use erp_ai_private.Payments.{
  allocate, payment_account, payment_lines, execute_approve_payment, approve_payment,
}
use erp_ai_private.Ledger.{posted_lines}
use erp_ai_private.Ledger.Balanced.{IsOwned, HasOneAccount}
use erp_ai_private.Ledger.Rounding.{IsRounding}
use erp_ai_private.Services.{Reaches, start, call, invoice_approval, payment_approval}
use erp_ai_private.Services.Numbering.{Reaches-WellNumbered, Reaches-create_total, Reaches-IsOwned}
use erp_ai_private.Examples.{whole, today, later, cash, wages_account, january, company}

abbrev pub invoiced : Db
invoiced = (approve_invoice whole 1 today 60 company).1

abbrev pub settled : Db
settled = (approve_payment whole 1 later 61 invoiced).1

pub settled-Reaches : Reaches whole company settled
settled-Reaches =
    call invoiced settled (call company invoiced start (invoice_approval 1 today 60))
      (payment_approval 1 later 61)

Reaches-WellNumbered_example : WellNumbered settled.entries
Reaches-WellNumbered_example = Reaches-WellNumbered whole company settled settled-Reaches refl

-- the payment of a wage in cash
abbrev wage : EntryDto
wage = record {
  entry_date = later;
  lines =
      line 12 none (text (pos 50)) (text (pos 0))
      ∷ line 10 none (text (pos 0)) (text (pos 50))
      ∷ [];
}

wage-IsAcceptable : IsAcceptable settled 1 wage
unfolding approve_invoice execute_approve post_lines stock_lines stock_of_line
    process_outward_movement upsert control_account create check_lines check_line execute_create
    insert_entry has_references has_room store_lines validate_account_for_posting
    find_active_period_by_date get_previous_invoice_hash approve_payment execute_approve_payment
    allocate payment_account payment_lines ◌+ℤ◌ ◌-ℤ◌
wage-IsAcceptable = record {
  two_lines = ground arith;
  period = january;
  period_ok = refl;
  lines_ok = (
    record {
      debit_nonneg = ground arith;
      credit_nonneg = ground arith;
      one_side = inr refl;
      account = wages_account;
      account_ok = refl;
    },
    (
      record {
        debit_nonneg = ground arith;
        credit_nonneg = ground arith;
        one_side = inl refl;
        account = cash;
        account_ok = refl;
      },
      tt,
    ),
  );
  balanced = refl;
}

wage-IsStorable : All (IsStorable whole settled) (new_entry whole 1 later wage settled).lines
unfolding approve_invoice execute_approve post_lines stock_lines stock_of_line
    process_outward_movement upsert control_account create check_lines check_line execute_create
    insert_entry has_references has_room store_lines validate_account_for_posting
    find_active_period_by_date get_previous_invoice_hash approve_payment execute_approve_payment
    allocate payment_account payment_lines ◌+ℤ◌ ◌-ℤ◌
wage-IsStorable = ((refl, refl), ((refl, refl), tt))

Reaches-create_total_example :
    ((create whole 1 later wage settled).0 ≡ ok (new_entry whole 1 later wage settled))
    × ((create whole 1 later wage settled).1.entries
        ≡ new_entry whole 1 later wage settled ∷ settled.entries)
Reaches-create_total_example =
    Reaches-create_total whole company settled 1 later wage settled-Reaches refl wage-IsAcceptable
      wage-IsStorable

Reaches-IsOwned_example : All IsOwned settled.entries
Reaches-IsOwned_example = Reaches-IsOwned whole company settled settled-Reaches refl

pub whole-IsRounding : IsRounding whole 0
whole-IsRounding = record {
  below = λ a. grind int_laws;
  above = λ a. grind int_laws;
  zero_kept = refl;
  again = λ a. refl;
}

pub settled-IsBalanced : All IsBalanced settled.entries
unfolding approve_invoice execute_approve post_lines stock_lines stock_of_line
    process_outward_movement upsert control_account create check_lines check_line execute_create
    insert_entry has_references has_room store_lines validate_account_for_posting
    find_active_period_by_date get_previous_invoice_hash approve_payment execute_approve_payment
    allocate payment_account payment_lines ◌+ℤ◌ ◌-ℤ◌
settled-IsBalanced = (refl, (refl, tt))

pub settled-HasOneAccount : All (HasOneAccount 1 settled) (posted_lines 1 none none settled)
unfolding approve_invoice execute_approve post_lines stock_lines stock_of_line
    process_outward_movement upsert control_account create check_lines check_line execute_create
    insert_entry has_references has_room store_lines validate_account_for_posting
    find_active_period_by_date get_previous_invoice_hash approve_payment execute_approve_payment
    allocate payment_account payment_lines posted_lines ◌+ℤ◌ ◌-ℤ◌
settled-HasOneAccount = (refl, (refl, (refl, (refl, (refl, (refl, tt))))))
