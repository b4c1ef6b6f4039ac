-- ===== src/Inventory/Sales.antt =====
-- The balances before and after `processInwardMovement` and `processOutwardMovement`.
use erp_ai_private.Prelude.{ℕ, ◌==◌, ◌≡◌, inl, inr, some, arith, Option-cases, ◌&&◌, if◌then◌else◌}
use erp_ai_private.Prelude.Int.{ℤ, ◌+ℤ◌, ◌-ℤ◌, neg, int_laws}
use erp_ai_private.Decimal.{Decimals, Rounds, Fits}
use erp_ai_private.Db.{Item, Date, Db, ok, err, Error, Result-cases}
use erp_ai_private.Inventory.{
  has_stock, item_with_id, upsert, CostOfGoods, new_average_cost, process_inward_movement,
  process_outward_movement,
}
use erp_ai_private.Inventory.Stock.{stock, Fit, IsStocked, stock-upsert, upsert-IsStocked}
use erp_ai_private.Inventory.Transfer.{has_stock-le, neg-Fits}

module _ (D : Decimals) (tenant item warehouse : ℕ) (q : ℤ) (date : Date) where
  -- A refused sale writes nothing.
  pub process_outward_movement_refused :
      (db db' : Db) {x : Error}
      → process_outward_movement D tenant item warehouse q date db ≡ (err x, db')
      → db' ≡ db
  unfolding process_outward_movement
  process_outward_movement_refused db db' h = elim (Option-cases (item_with_id item db)) [
    | inl unknown ↦ ground arith
    | inr (i, known) ↦ elim (Result-cases (has_stock item warehouse q db)) [
      | inl (u, enough) ↦ absurd (ground arith)
      | inr (y, short) ↦ ground arith
    ]
  ]

  outward-upsert :
      (db db' : Db) {c : CostOfGoods}
      → process_outward_movement D tenant item warehouse q date db ≡ (ok c, db')
      → (has_stock item warehouse q db ≡ ok tt)
        × (db'.balances ≡ upsert D item warehouse (neg q) db.balances)
        × (i : Item) × (item_with_id item db ≡ some i)
        × (c.amount ≡ D.mul i.weighted_average_cost q)
  unfolding process_outward_movement
  outward-upsert db db' h = elim (Option-cases (item_with_id item db)) [
    | inl unknown ↦ absurd (ground arith)
    | inr (i, known) ↦ elim (Result-cases (has_stock item warehouse q db)) [
      | inl (u, enough) ↦ (enough, ground arith, i, known, ground arith)
      | inr (y, short) ↦ absurd (ground arith)
    ]
  ]

  -- If the item exists, the quantity and the balances fit their columns and no balance is
  -- negative: a sale that is not refused takes the quantity from the item's balance in the
  -- warehouse and from no other, and no balance is negative afterwards. The cost of the goods is
  -- the quantity at the item's average cost.
  pub process_outward_movement-stock :
      (r : Rounds D) (i w : ℕ) (db db' : Db) {c : CostOfGoods} {sold : Item}
      → Fits D 4 q
      → Fit D db.balances
      → IsStocked db.balances
      → item_with_id item db ≡ some sold
      → process_outward_movement D tenant item warehouse q date db ≡ (ok c, db')
      → (stock i w db'.balances ≡ (
          if i == item && w == warehouse
          then stock i w db.balances -ℤ q
          else stock i w db.balances))
        × IsStocked db'.balances
        × (c.amount ≡ D.mul sold.weighted_average_cost q)
  process_outward_movement-stock r i w db db' fits fit h known done =
      let (enough, new, j, found, cost) = outward-upsert db db' done in
      let nf = neg-Fits D q r fits in
      let cover = has_stock-le item warehouse q db enough in
      (
        grind (int_laws, new, stock-upsert D r item warehouse (neg q) nf i w db.balances fit),
        rw new (upsert-IsStocked D r item warehouse (neg q) nf db.balances fit h (omega int_laws)),
        ground (arith, cost, found),
      )

  -- If the item exists and the quantity and the balances fit their columns: a purchase adds the
  -- quantity to the item's balance in the warehouse and to no other, and returns the unit cost and
  -- the average of the old value and the new cost over the new quantity.
  pub process_inward_movement-stock :
      (r : Rounds D) (i w : ℕ) (cost : ℤ) (db : Db) {bought : Item}
      → Fits D 4 q
      → Fit D db.balances
      → item_with_id item db ≡ some bought
      → let (result, db') = process_inward_movement D tenant item warehouse q cost date db in
        (result ≡ ok (D.div cost q, new_average_cost D bought q cost db))
        × (stock i w db'.balances ≡ (
            if i == item && w == warehouse
            then stock i w db.balances +ℤ q
            else stock i w db.balances))
  unfolding process_inward_movement
  process_inward_movement-stock r i w cost db fits fit known =
      (ground arith, ground (arith, stock-upsert D r item warehouse q fits i w db.balances fit))
