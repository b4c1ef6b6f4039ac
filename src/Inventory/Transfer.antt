-- ===== src/Inventory/Transfer.antt =====
-- The balances before and after `transferInventory`.
use erp_ai_private.Prelude.{
  ℕ, ◌==◌, ◌≡◌, inl, inr, some, arith, find, Option-cases, ◌&&◌, if◌then◌else◌,
}
use erp_ai_private.Prelude.Int.{ℤ, pos, ◌+ℤ◌, ◌-ℤ◌, ◌≤ℤ◌, neg, int_laws}
use erp_ai_private.Decimal.{Decimals, Rounds, Fits}
use erp_ai_private.Db.{Balance, Item, Date, Db, ok, err, Error, Result-cases, rollback_refused}
use erp_ai_private.Inventory.{is_balance_of, has_stock, item_with_id, upsert, transfer_inventory}
use erp_ai_private.Inventory.Stock.{
  stock, stock_nonneg, total_stock, Fit, IsStocked, stock-upsert, total_stock-upsert, upsert-Fit,
  upsert-IsStocked,
}

-- A passed check: the balance covers the quantity.
pub has_stock-le :
    (item warehouse : ℕ) (q : ℤ) (db : Db)
    → has_stock item warehouse q db ≡ ok tt
    → q ≤ℤ stock item warehouse db.balances
has_stock-le item warehouse q db h =
    elim (Option-cases (find (is_balance_of item warehouse) db.balances)) [
      | inl missing ↦ absurd (ground arith)
      | inr (b, found) ↦ ground arith
    ]

pub neg-Fits : (D : Decimals) (q : ℤ) → Rounds D → Fits D 4 q → Fits D 4 (neg q)
neg-Fits D q r f = r.column_sub 4 (pos 0) q (r.column_zero 4) f

module _ (D : Decimals) (tenant item from to : ℕ) (q : ℤ) (date : Date) where
  -- A refused transfer leaves the database as it was.
  pub transfer_inventory_refused :
      (db db' : Db) {x : Error}
      → transfer_inventory D tenant item from to q date db ≡ (err x, db')
      → db' ≡ db
  unfolding transfer_inventory
  transfer_inventory_refused db db' h = rollback_refused db _ h

  transfer_inventory-upsert :
      (db db' : Db)
      → transfer_inventory D tenant item from to q date db ≡ (ok tt, db')
      → (has_stock item from q db ≡ ok tt)
        × (db'.balances ≡ upsert D item to q (upsert D item from (neg q) db.balances))
  unfolding transfer_inventory
  transfer_inventory-upsert db db' h = elim (Result-cases (has_stock item from q db)) [
    | inl (tt, enough) ↦ elim (Option-cases (item_with_id item db)) [
      | inl unknown ↦ absurd (ground arith)
      | inr (i, known) ↦ (enough, ground arith)
    ]
    | inr (x, short) ↦ absurd (ground arith)
  ]

  module _ (r : Rounds D) (fits : Fits D 4 q) (db db' : Db) (fit : Fit D db.balances)
      (done : transfer_inventory D tenant item from to q date db ≡ (ok tt, db')) where
    -- If the quantity and the balances fit their columns: a transfer that returns takes the
    -- quantity from the source balance, adds it to the destination balance, and leaves every other
    -- balance (from a warehouse to itself, every balance); the total of every item over all
    -- warehouses is the same.
    pub transfer_inventory-stock :
        (i w : ℕ)
        → (stock i w db'.balances ≡ (
            if i == item && w == to
            then (if i == item && w == from
                then stock i w db.balances -ℤ q
                else stock i w db.balances)
              +ℤ q
            else if i == item && w == from
            then stock i w db.balances -ℤ q
            else stock i w db.balances))
          × (total_stock i db'.balances ≡ total_stock i db.balances)
    transfer_inventory-stock i w =
        let nf = neg-Fits D q r fits in
        let mid = upsert-Fit D r item from (neg q) nf db.balances fit in
        let (enough, new) = transfer_inventory-upsert db db' done in
        (
          grind (
            int_laws,
            new,
            stock-upsert D r item to q fits i w (upsert D item from (neg q) db.balances) mid,
            stock-upsert D r item from (neg q) nf i w db.balances fit,
          ),
          grind (
            int_laws,
            new,
            total_stock-upsert D r item to q fits i (upsert D item from (neg q) db.balances) mid,
            total_stock-upsert D r item from (neg q) nf i db.balances fit,
          ),
        )

    -- If moreover the quantity and the balances before are not negative, no balance is negative
    -- after the transfer.
    pub transfer_inventory-IsStocked : pos 0 ≤ℤ q → IsStocked db.balances → IsStocked db'.balances
    transfer_inventory-IsStocked p h =
        let nf = neg-Fits D q r fits in
        let mid = upsert-Fit D r item from (neg q) nf db.balances fit in
        let (enough, new) = transfer_inventory-upsert db db' done in
        let cover = has_stock-le item from q db enough in
        let left = upsert-IsStocked D r item from (neg q) nf db.balances fit h (omega int_laws) in
        rw new (
          upsert-IsStocked D r item to q fits (upsert D item from (neg q) db.balances) mid left
            (omega (int_laws, stock_nonneg item to (upsert D item from (neg q) db.balances) left)))

  -- A negative quantity is not refused: where the source has a balance that is not negative, the
  -- transfer runs backwards, and takes from the destination without a check.
  pub transfer_inventory_negative :
      (b : Balance) (db : Db)
      → find (is_balance_of item from) db.balances ≡ some b
      → pos 0 ≤ℤ b.quantity
      → q ≤ℤ pos 0
      → (i : Item) → item_with_id item db ≡ some i
      → (transfer_inventory D tenant item from to q date db).0 ≡ ok tt
  unfolding transfer_inventory
  transfer_inventory_negative b db found p n i known = ground arith
