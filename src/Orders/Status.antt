-- ===== src/Orders/Status.antt =====
-- What becomes of a purchase order.
use erp_ai_private.Prelude.{ℕ, ◌≡◌, refl, List, [], ◌∷◌, arith, Option-cases, inl, inr}
use erp_ai_private.Decimal.{Decimals}
use erp_ai_private.Db.{purchase, Date, OrderLine, Invoice, Db, ok, err, too_few_lines}
use erp_ai_private.Journal.{create}
use erp_ai_private.Inventory.{move}
use erp_ai_private.Invoices.{approvable, approve_invoice, execute_approve, post_lines}
use erp_ai_private.Orders.{find_order, receive_lines, receive_goods}

receive_lines-balances :
    (D : Decimals) (tenant warehouse : ℕ) (now : Date) (ls : List OrderLine) (db : Db)
    → ((receive_lines D tenant warehouse now ls db).balances ≡ db.balances)
      × ((receive_lines D tenant warehouse now ls db).items ≡ db.items)
unfolding receive_lines
receive_lines-balances D tenant warehouse now [] db = (refl, refl)
receive_lines-balances D tenant warehouse now (l ∷ ls) db = elim (Option-cases l.item) [
  | inl no_item ↦ rw no_item (receive_lines-balances D tenant warehouse now ls db)
  | inr (item, e) ↦ rw e (
      receive_lines-balances D tenant warehouse now ls
        (move D tenant purchase item warehouse l.quantity l.unit_price now db))
]

-- Receiving the goods of an order changes no stock balance and no average cost: it records the
-- movements alone.
pub receive_goods-balances :
    (D : Decimals) (tenant id warehouse : ℕ) (now : Date) (db : Db)
    → let db' = (receive_goods D tenant id warehouse now db).1 in
      (db'.balances ≡ db.balances) × (db'.items ≡ db.items)
unfolding receive_goods
receive_goods-balances D tenant id warehouse now db =
    elim (Option-cases (find_order tenant id db)) [
      | inl missing ↦ ground arith
      | inr (o, found) ↦ ground (arith, receive_lines-balances D tenant warehouse now o.lines db)
    ]

-- The bill that `convertToBill` makes has no lines, so no bill is ever approved: the approval of
-- an invoice without lines is refused for having too few.
pub approve_invoice_no_lines :
    (D : Decimals) (tenant id : ℕ) (now : Date) (db : Db) {i : Invoice} {account : ℕ}
    → approvable tenant id db ≡ ok (i, account)
    → i.lines ≡ []
    → approve_invoice D tenant now id db ≡ (err too_few_lines, db)
unfolding approve_invoice execute_approve post_lines create
approve_invoice_no_lines D tenant id now db fine empty = ground arith
