-- ===== src/Examples/Stock.antt =====
-- The theorems of the stock at concrete inputs.
use erp_ai_private.Prelude.{◌≡◌, refl, some, arith}
use erp_ai_private.Prelude.Int.{pos, ◌+ℤ◌, ◌-ℤ◌}
use erp_ai_private.Db.{Db, ok}
use erp_ai_private.Inventory.{upsert, transfer_inventory, process_outward_movement}
use erp_ai_private.Inventory.Stock.{stock, total_stock, Fit, IsStocked}
use erp_ai_private.Inventory.Transfer.{transfer_inventory-stock, transfer_inventory-IsStocked}
use erp_ai_private.Inventory.Sales.{process_outward_movement-stock}
use erp_ai_private.Examples.{whole, whole-Rounds, today, company}

-- three bolts from warehouse 50 to warehouse 51
abbrev moved : Db
moved = (transfer_inventory whole 1 40 50 51 (pos 3) today company).1

move_bolts : transfer_inventory whole 1 40 50 51 (pos 3) today company ≡ (ok tt, moved)
unfolding transfer_inventory upsert ◌+ℤ◌ ◌-ℤ◌
move_bolts = refl

company-Fit : Fit whole company.balances
company-Fit = (refl, tt)

transfer_inventory-stock_example :
    (stock 40 51 moved.balances ≡ pos 3) × (total_stock 40 moved.balances ≡ pos 8)
unfolding ◌+ℤ◌
transfer_inventory-stock_example =
    transfer_inventory-stock whole 1 40 50 51 (pos 3) today whole-Rounds refl company moved
      company-Fit move_bolts 40 51

transfer_inventory-IsStocked_example : IsStocked moved.balances
transfer_inventory-IsStocked_example =
    transfer_inventory-IsStocked whole 1 40 50 51 (pos 3) today whole-Rounds refl company moved
      company-Fit move_bolts (ground arith) (ground arith)

abbrev shipped : Db
shipped = (process_outward_movement whole 1 40 50 (pos 2) today company).1

ship_bolts : process_outward_movement whole 1 40 50 (pos 2) today company ≡ (
  ok (record { amount = pos 10; cogs_account = some 12; inventory_account = some 10 }),
  shipped,
)
unfolding process_outward_movement upsert ◌+ℤ◌ ◌-ℤ◌
ship_bolts = refl

process_outward_movement-stock_example :
    (stock 40 50 shipped.balances ≡ pos 6) × IsStocked shipped.balances × (pos 10 ≡ pos 10)
unfolding ◌-ℤ◌
process_outward_movement-stock_example =
    process_outward_movement-stock whole 1 40 50 (pos 2) today whole-Rounds 40 50 company shipped
      refl company-Fit (ground arith) refl ship_bolts
