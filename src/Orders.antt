-- ===== src/Orders.antt =====
-- Purchase orders (apps/api/src/modules/business/procurement/purchase-orders.service.ts).
pub mod Status
use erp_ai_private.Prelude.{
  ℕ, ◌+◌, ◌==◌, List, [], ◌∷◌, Option, none, some, Bool, true, false, ◌&&◌, not, find, count,
  update, map, is_none, if◌then◌else◌,
}
use erp_ai_private.Prelude.Int.{ℤ, pos, sum_by}
use erp_ai_private.Decimal.{Decimals}
use erp_ai_private.Db.{
  OrderStatus, draft_order, pending_order, sent, partially_received, received, billed,
  cancelled_order, OrderNumber, same_order, bill, purchase_invoice, draft_invoice, purchase,
  liability, expense, Date, EntityType, order_entity, Account, Order, OrderLine, Invoice, Db,
  Result, ok, err, Action, ◌>>=◌, ◌>>◌, read, write, pure, transaction, or_throw, and_then, guard,
  order_not_found, order_not_receivable, order_not_draft, order_billed, no_default_accounts,
  foreign_key, unique_violation,
}
use erp_ai_private.Accounts.{type_code}
use erp_ai_private.Inventory.{move}
use erp_ai_private.Invoices.{contact_with_id, insert_invoice}
use erp_ai_private.Payments.{requires_approval, insert_approval}

pub record OrderLineDto : Type 0 where
  pub quantity : ℤ
  pub unit_price : ℤ
  pub item : Option ℕ

pub record OrderDto : Type 0 where
  pub contact : ℕ
  pub issue_date : Date
  pub delivery_date : Option Date
  pub lines : List OrderLineDto

abbrev pub find_order : ℕ → ℕ → Db → Option Order
find_order tenant id db = find (λ o. o.id == id && o.tenant == tenant) db.orders

abbrev pub order_number_taken : ℕ → OrderNumber → Db → Bool
order_number_taken tenant n db =
    not (is_none (find (λ o. o.tenant == tenant && same_order o.number n) db.orders))

unfoldable pub insert_order : Order → Action Order
insert_order o db =
    if is_none (contact_with_id o.contact db)
    then (err foreign_key, db)
    else if order_number_taken o.tenant o.number db
    then (err unique_violation, db)
    else (ok o, record db { next_id = db.next_id + 1; orders = o ∷ db.orders })

abbrev pub set_status : ℕ → OrderStatus → Db → Db
set_status id status db = record db {
  orders = update (λ o. o.id == id) (λ o. record o { status = status }) db.orders;
}

abbrev pub is_receivable : OrderStatus → Bool
is_receivable sent = true
is_receivable draft_order = true
is_receivable _ = false

abbrev pub is_approvable_order : OrderStatus → Bool
is_approvable_order draft_order = true
is_approvable_order pending_order = true
is_approvable_order _ = false

abbrev pub is_billed : OrderStatus → Bool
is_billed billed = true
is_billed cancelled_order = true
is_billed _ = false

module _ (D : Decimals) where
  abbrev pub order_line_total : OrderLineDto → ℤ
  order_line_total l = D.mul l.quantity l.unit_price

  abbrev pub store_order_line : OrderLineDto → OrderLine
  store_order_line l = record {
    quantity = D.column 2 l.quantity;
    unit_price = D.column 2 l.unit_price;
    total = D.column 2 (order_line_total l);
    item = l.item;
  }

  abbrev pub order_of : ℕ → ℕ → OrderDto → ℕ → ℕ → Order
  order_of tenant year dto existing id =
      let total = sum_by order_line_total dto.lines in
      record {
        id = id;
        tenant = tenant;
        number = record { year = year; seq = existing + 1 };
        contact = dto.contact;
        issue_date = dto.issue_date;
        delivery_date = dto.delivery_date;
        total_amount = D.column 2 total;
        status = if requires_approval D total then pending_order else draft_order;
        lines = map store_order_line dto.lines;
      }

  abbrev request_approval : ℕ → ℕ → OrderDto → Order → Db → Db
  request_approval tenant user dto o db =
      if requires_approval D (sum_by order_line_total dto.lines)
      then insert_approval tenant order_entity o.id user db
      else db

  -- `createPO`; `year` is the current year
  unfoldable pub create_order : ℕ → ℕ → ℕ → OrderDto → Action Order
  create_order tenant user year dto db =
      let existing = count (λ o. o.tenant == tenant) db.orders in
      transaction
        (do
          o ← insert_order (order_of tenant year dto existing db.next_id)
          (λ db'. (ok o, request_approval tenant user dto o db')))
        db

  -- the loop of `receiveGoods`: a movement for each line with an item
  unfoldable pub receive_lines : ℕ → ℕ → Date → List OrderLine → Db → Db
  receive_lines tenant warehouse now [] db = db
  receive_lines tenant warehouse now (l ∷ ls) db = elim l.item [
    | none ↦ receive_lines tenant warehouse now ls db
    | some item ↦
        receive_lines tenant warehouse now ls
          (move D tenant purchase item warehouse l.quantity l.unit_price now db)
  ]

  unfoldable pub receive_goods : ℕ → ℕ → ℕ → Date → Action (Unit {0})
  receive_goods tenant id warehouse now = do
    o ← read (λ db. or_throw (find_order tenant id db) order_not_found)
    read (λ db. guard (is_receivable o.status) order_not_receivable)
    transaction
        (do write (receive_lines tenant warehouse now o.lines); write (set_status o.id received))

unfoldable pub approve_order : ℕ → ℕ → Action (Unit {0})
approve_order tenant id = do
  o ← read (λ db. or_throw (find_order tenant id db) order_not_found)
  read (λ db. guard (is_approvable_order o.status) order_not_draft)
  write (set_status id sent)

-- the bill of an order; `due` is 30 days after `now`
abbrev pub bill_of : ℕ → Order → Date → Date → ℕ → Invoice
bill_of tenant o now due id = record {
  id = id;
  tenant = tenant;
  number = bill o.number;
  contact = o.contact;
  type = purchase_invoice;
  status = draft_invoice;
  issue_date = now;
  due_date = some due;
  currency = none;
  exchange_rate = none;
  sub_total = o.total_amount;
  tax_total = pos 0;
  total = o.total_amount;
  amount_paid = pos 0;
  journal_entry = none;
  zatca_uuid = none;
  zatca_pih = none;
  lines = [];
}

-- `convertToBill`. `is_payable_name` tells whether a name contains "Payable"; of the two accounts
-- only the existence is used.
unfoldable pub convert_to_bill : (is_payable_name : ℕ → Bool) → ℕ → ℕ → Date → Date → Action Invoice
convert_to_bill is_payable_name tenant id now due = do
  o ← read (λ db. or_throw (find_order tenant id db) order_not_found)
  read (λ db. guard (not (is_billed o.status)) order_billed)
  transaction (do
    read (λ db.
        or_throw
          (find
            (λ a.
              a.tenant == tenant
              && (type_code a.type == type_code liability && is_payable_name a.id))
            db.accounts)
          no_default_accounts)
    read (λ db.
        or_throw
          (find (λ a. a.tenant == tenant && type_code a.type == type_code expense) db.accounts)
          no_default_accounts)
    i ← (λ db. insert_invoice (bill_of tenant o now due db.next_id) db)
    write (set_status o.id billed)
    pure i)

-- `handleApprovalApproved` and `handleApprovalRejected`
unfoldable pub order_approved_event : EntityType → ℕ → Action (Unit {0})
order_approved_event order_entity id = write (set_status id sent)
order_approved_event _ id = pure tt

unfoldable pub order_rejected_event : EntityType → ℕ → Action (Unit {0})
order_rejected_event order_entity id = write (set_status id draft_order)
order_rejected_event _ id = pure tt
