-- ===== src/Examples/Payments.antt =====
-- The theorems of the payments at concrete inputs.
use erp_ai_private.Prelude.{◌≡◌, ◌⊎◌, refl, [], ◌∷◌, none, All}
use erp_ai_private.Prelude.Int.{ℤ, pos, ◌+ℤ◌, ◌≤ℤ◌, ◌<ℤ◌}
use erp_ai_private.Db.{
  sequence_code, Db, rcpt, Allocation, Payment, Approval, ok, incoming, pending, pending_payment,
  draft_payment, payment_entity,
}
use erp_ai_private.Sequences.{upsert, get_next_sequence}
use erp_ai_private.Payments.{
  PaymentDto, create_payment, execute_create_payment, insert_payment, allocate,
}
use erp_ai_private.Payments.Allocate.{IsPaidIn, allocate-paid}
use erp_ai_private.Payments.Requests.{create_payment-approvals}
use erp_ai_private.Examples.{whole, today, receipt, company}

abbrev allocated_db : Db
allocated_db = (allocate whole company receipt.allocations company).1

allocate_receipt : allocate whole company receipt.allocations company ≡ (ok tt, allocated_db)
unfolding allocate ◌+ℤ◌
allocate_receipt = refl

allocate-paid_example : All (IsPaidIn whole company allocated_db) receipt.allocations
allocate-paid_example =
    allocate-paid whole receipt.allocations company allocated_db (tt, tt) allocate_receipt

-- two allocations to invoice 62
abbrev half : ℤ → Allocation
half x = record { invoice = 62; amount = x }

abbrev twice_db : Db
twice_db = (allocate whole company (half (pos 120) ∷ half (pos 80) ∷ []) company).1

allocate_both :
    allocate whole company (half (pos 120) ∷ half (pos 80) ∷ []) company ≡ (ok tt, twice_db)
unfolding allocate ◌+ℤ◌
allocate_both = refl

-- a payment that needs an approval
abbrev large : PaymentDto
large = record {
  contact = 30;
  type = incoming;
  payment_date = today;
  amount = pos 12000;
  account = 10;
  currency = none;
  exchange_rate = none;
  wht_amount = none;
  wht_account = none;
  allocations = [];
}

abbrev large_db : Db
large_db = (create_payment whole 1 2 2026 large company).1

abbrev large_payment : Payment
large_payment = record {
  id = 100;
  tenant = 1;
  number = record { prefix = rcpt; year = 2026; seq = 1 };
  contact = 30;
  type = incoming;
  status = pending_payment;
  payment_date = today;
  amount = pos 12000;
  account = 10;
  currency = none;
  exchange_rate = none;
  wht_amount = pos 0;
  wht_account = none;
  journal_entry = none;
  allocations = [];
}

create_large : create_payment whole 1 2 2026 large company ≡ (ok large_payment, large_db)
unfolding create_payment execute_create_payment insert_payment get_next_sequence upsert
    sequence_code
create_large = refl

create_payment-approvals_example :
    (large_db.payments ≡ large_payment ∷ company.payments)
    × (((pos 10000 <ℤ pos 12000)
          × (pending_payment ≡ pending_payment)
          × (r : Approval) × (large_db.approvals ≡ r ∷ company.approvals)
          × (r.status ≡ pending)
          × (r.entity_type ≡ payment_entity)
          × (r.entity_id ≡ 100))
        ⊎ ((pos 12000 ≤ℤ pos 10000)
            × (pending_payment ≡ draft_payment)
            × (large_db.approvals ≡ company.approvals)))
create_payment-approvals_example =
    create_payment-approvals whole 1 2 2026 large company large_db create_large
