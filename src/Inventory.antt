-- ===== src/Inventory.antt =====
-- Stock and its weighted average cost
-- (apps/api/src/modules/accounting/inventory/inventory.service.ts).
pub mod Stock
pub mod Transfer
pub mod Sales
use erp_ai_private.Prelude.{
  ℕ, ◌==◌, List, [], ◌∷◌, Option, none, some, Bool, ◌&&◌, find, select, update, if◌then◌else◌,
}
use erp_ai_private.Prelude.Int.{ℤ, pos, ◌+ℤ◌, neg, ltb_ℤ, sum_by}
use erp_ai_private.Decimal.{Decimals}
use erp_ai_private.Db.{
  MovementType, purchase, sale, transfer, Date, Item, Balance, Movement, Lot, Db, Result, ok, err,
  Action, ◌>>=◌, ◌>>◌, read, write, pure, transaction, or_throw, item_not_found, insufficient_stock,
}

abbrev pub item_with_id : ℕ → Db → Option Item
item_with_id id db = find (λ i. i.id == id) db.items

-- the unique index on (itemId, warehouseId)
abbrev pub is_balance_of : ℕ → ℕ → Balance → Bool
is_balance_of item warehouse b = b.item == item && b.warehouse == warehouse

-- the check of a balance before stock leaves a warehouse
abbrev pub has_stock : ℕ → ℕ → ℤ → Db → Result (Unit {0})
has_stock item warehouse quantity db = elim (find (is_balance_of item warehouse) db.balances) [
  | none ↦ err insufficient_stock
  | some b ↦ if ltb_ℤ b.quantity quantity then err insufficient_stock else ok tt
]

abbrev pub insert_movement : Movement → Db → Db
insert_movement m db = record db { movements = m ∷ db.movements }

-- what `processOutwardMovement` returns
pub record CostOfGoods : Type 0 where
  pub amount : ℤ
  pub cogs_account : Option ℕ
  pub inventory_account : Option ℕ

module _ (D : Decimals) where
  -- `upsertBalance`, on the rows: the one that the index finds is changed, else a row is made
  unfoldable pub upsert : ℕ → ℕ → ℤ → List Balance → List Balance
  upsert item warehouse change [] =
      record { item = item; warehouse = warehouse; quantity = D.column 4 change } ∷ []
  upsert item warehouse change (b ∷ bs) =
      if is_balance_of item warehouse b
      then record b { quantity = D.column 4 (b.quantity +ℤ change) } ∷ bs
      else b ∷ upsert item warehouse change bs

  abbrev pub upsert_balance : ℕ → ℕ → ℤ → Db → Db
  upsert_balance item warehouse change db = record db {
    balances = upsert item warehouse change db.balances;
  }

  -- New average cost = (value at the old cost + cost of the goods) / new quantity
  abbrev pub new_average_cost : Item → ℤ → ℤ → Db → ℤ
  new_average_cost item quantity cost db =
      let current = sum_by (λ b. b.quantity) (select (λ b. b.item == item.id) db.balances) in
      D.div (D.mul current item.weighted_average_cost +ℤ cost) (current +ℤ quantity)

  abbrev pub set_average_cost : ℕ → ℤ → Db → Db
  set_average_cost item cost db = record db {
    items =
        update (λ i. i.id == item) (λ i. record i { weighted_average_cost = D.column 2 cost })
          db.items;
  }

  abbrev pub insert_lot : ℕ → ℕ → ℤ → ℤ → Date → Db → Db
  insert_lot item warehouse quantity cost date db = record db {
    lots =
        record {
          item = item;
          warehouse = warehouse;
          quantity = D.column 4 quantity;
          unit_cost = D.column 6 cost;
          received_at = date;
        }
        ∷ db.lots;
  }

  abbrev pub move : ℕ → MovementType → ℕ → ℕ → ℤ → ℤ → Date → Db → Db
  move tenant type item warehouse quantity cost date = insert_movement (record {
    tenant = tenant;
    type = type;
    item = item;
    warehouse = warehouse;
    quantity = D.column 4 quantity;
    unit_cost = D.column 6 cost;
    date = date;
  })

  -- `processInwardMovement`: it returns the unit cost and the new average cost
  unfoldable pub process_inward_movement : ℕ → ℕ → ℕ → ℤ → ℤ → Date → Action (ℤ × ℤ)
  process_inward_movement tenant item warehouse quantity cost date = do
    i ← read (λ db. or_throw (item_with_id item db) item_not_found)
    let unit_cost = D.div cost quantity
    average ← read (λ db. ok (new_average_cost i quantity cost db))
    write (set_average_cost item average)
    write (upsert_balance item warehouse quantity)
    write (move tenant purchase item warehouse quantity unit_cost date)
    write (insert_lot item warehouse quantity unit_cost date)
    pure (unit_cost, average)

  unfoldable pub process_outward_movement : ℕ → ℕ → ℕ → ℤ → Date → Action CostOfGoods
  process_outward_movement tenant item warehouse quantity date = do
    i ← read (λ db. or_throw (item_with_id item db) item_not_found)
    read (has_stock item warehouse quantity)
    write (upsert_balance item warehouse (neg quantity))
    write (move tenant sale item warehouse (neg quantity) i.weighted_average_cost date)
    pure (record {
      amount = D.mul i.weighted_average_cost quantity;
      cogs_account = i.cogs_account;
      inventory_account = i.inventory_account;
    })

  -- `TransferInventoryDto`: the quantity is any number
  unfoldable pub transfer_inventory : ℕ → ℕ → ℕ → ℕ → ℤ → Date → Action (Unit {0})
  transfer_inventory tenant item from to quantity date = transaction (do
    read (has_stock item from quantity)
    i ← read (λ db. or_throw (item_with_id item db) item_not_found)
    write (upsert_balance item from (neg quantity))
    write (move tenant transfer item from (neg quantity) i.weighted_average_cost date)
    write (upsert_balance item to quantity)
    write (move tenant transfer item to quantity i.weighted_average_cost date))
