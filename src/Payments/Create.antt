-- ===== src/Payments/Create.antt =====
-- `create`: the check of the allocations, the number, the row and the request for approval.
use erp_ai_private.Prelude.{
  ℕ, ◌+◌, ◌==◌, List, ◌∷◌, Option, none, Bool, ◌&&◌, not, find, map, is_none, if◌then◌else◌,
}
use erp_ai_private.Prelude.Int.{ℤ, ltb_ℤ, sum_by}
use erp_ai_private.Decimal.{Decimals, lit}
use erp_ai_private.Db.{
  PaymentType, incoming, outgoing, draft_payment, pending_payment, Date, DocumentPrefix, rcpt, pymt,
  of_payment, DocumentNumber, same_document, pending, EntityType, payment_entity, Allocation,
  Payment, Db, ok, err, Action, ◌>>=◌, ◌>>◌, check, transaction, over_allocated, foreign_key,
  unique_violation,
}
use erp_ai_private.Sequences.{get_next_sequence}
use erp_ai_private.Invoices.{contact_with_id, rate_column, or_zero}

-- `CreatePaymentDto`; a missing list of allocations is the empty one
pub record PaymentDto : Type 0 where
  pub type : PaymentType
  pub contact : ℕ
  pub payment_date : Date
  pub amount : ℤ
  pub account : ℕ
  pub currency : Option ℕ
  pub exchange_rate : Option ℤ
  pub allocations : List Allocation
  pub wht_amount : Option ℤ
  pub wht_account : Option ℕ

abbrev pub allocated : List Allocation → ℤ
allocated as' = sum_by (λ a. a.amount) as'

abbrev pub prefix_of_payment : PaymentType → DocumentPrefix
prefix_of_payment incoming = rcpt
prefix_of_payment outgoing = pymt

-- a new approval request, by `tx.approvalRequest.create`
abbrev pub insert_approval : ℕ → EntityType → ℕ → ℕ → Db → Db
insert_approval tenant type entity user db = record db {
  next_id = db.next_id + 1;
  approvals =
      record {
        id = db.next_id;
        tenant = tenant;
        entity_type = type;
        entity_id = entity;
        requested_by = user;
        approver = none;
        status = pending;
      }
      ∷ db.approvals;
}

abbrev pub payment_number_taken : ℕ → DocumentNumber → Db → Bool
payment_number_taken tenant n db =
    not (is_none (find (λ p. p.tenant == tenant && same_document p.number n) db.payments))

unfoldable pub insert_payment : Payment → Action Payment
insert_payment p db =
    if is_none (contact_with_id p.contact db)
    then (err foreign_key, db)
    else if payment_number_taken p.tenant p.number db
    then (err unique_violation, db)
    else (ok p, record db { next_id = db.next_id + 1; payments = p ∷ db.payments })

module _ (D : Decimals) where
  -- `requiresApproval`: more than 10,000
  abbrev pub requires_approval : ℤ → Bool
  requires_approval amount = ltb_ℤ (lit D 10000) amount

  abbrev pub store_allocation : Allocation → Allocation
  store_allocation a = record a { amount = D.column 2 a.amount }

  abbrev pub payment_of : ℕ → PaymentDto → DocumentNumber → ℕ → Payment
  payment_of tenant dto number id = record {
    id = id;
    tenant = tenant;
    number = number;
    contact = dto.contact;
    type = dto.type;
    status = if requires_approval dto.amount then pending_payment else draft_payment;
    payment_date = dto.payment_date;
    amount = D.column 2 dto.amount;
    account = dto.account;
    currency = dto.currency;
    exchange_rate = rate_column D dto.exchange_rate;
    wht_amount = D.column 2 (or_zero dto.wht_amount);
    wht_account = dto.wht_account;
    journal_entry = none;
    allocations = map store_allocation dto.allocations;
  }

  -- the transaction of `create`
  unfoldable pub execute_create_payment : ℕ → ℕ → PaymentDto → DocumentNumber → Action Payment
  execute_create_payment tenant user dto n db =
      (do
        p ← insert_payment (payment_of tenant dto n db.next_id)
        (λ db'. (
          ok p,
          if requires_approval dto.amount
              then insert_approval tenant payment_entity p.id user db'
              else db',
        )))
        db

  unfoldable pub create_payment : ℕ → ℕ → ℕ → PaymentDto → Action Payment
  create_payment tenant user year dto = do
    check (not (ltb_ℤ dto.amount (allocated dto.allocations))) over_allocated
    n ← get_next_sequence tenant (of_payment dto.type) (prefix_of_payment dto.type) year
    transaction (execute_create_payment tenant user dto n)
