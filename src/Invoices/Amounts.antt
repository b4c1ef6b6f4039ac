-- ===== src/Invoices/Amounts.antt =====
-- The amounts of an invoice and of the journal entry of its approval.
use erp_ai_private.Prelude.{
  ℕ, ◌≡◌, ◌↔◌, List, [], ◌∷◌, ◌++◌, arith, inl, inr, Option-cases, Bool-cases, if◌then◌else◌,
}
use erp_ai_private.Prelude.Int.{ℤ, pos, ◌+ℤ◌, ◌-ℤ◌, neg, sum_by, sum_by-append, int_laws}
use erp_ai_private.Decimal.{Decimals}
use erp_ai_private.Db.{
  InvoiceType, sales_invoice, purchase_invoice, credit_note, debit_note, Invoice, InvoiceLine, Db,
  ok, Result-cases, pure, ◌>>=◌, >>=-eq-ok,
}
use erp_ai_private.Journal.{LineDto}
use erp_ai_private.Journal.Balance.{debit_of, credit_of}
use erp_ai_private.Inventory.{CostOfGoods, process_inward_movement, process_outward_movement}
use erp_ai_private.Invoices.Approve.{
  is_sales, cogs_lines, side_line, control_line, base_of, stock_lines, stock_of_line, post_lines,
}

abbrev net_of : List LineDto → ℤ
net_of ls = sum_by debit_of ls -ℤ sum_by credit_of ls

net_nil : net_of [] ≡ pos 0
net_nil = omega int_laws

cogs_lines-net : (contact : ℕ) (c : CostOfGoods) → net_of (cogs_lines contact c) ≡ pos 0
cogs_lines-net contact c = grind int_laws

net-append : (xs ys : List LineDto) → net_of (xs ++ ys) ≡ net_of xs +ℤ net_of ys
net-append xs ys = rw (sum_by-append debit_of, sum_by-append credit_of) (omega int_laws)

module _ (D : Decimals) (tenant : ℕ) (i : Invoice) where
  stock_of_line-net :
      (l : InvoiceLine) (item warehouse : ℕ) (type : InvoiceType) (db db' : Db) {g : List LineDto}
      → stock_of_line D tenant i l item warehouse type db ≡ (ok g, db')
      → net_of g ≡ pos 0
  unfolding stock_of_line
  stock_of_line-net l item warehouse purchase_invoice db db' {g = g} h =
      elim (Result-cases
        (process_inward_movement D tenant item warehouse l.quantity (base_of D i l.total)
          i.issue_date db).0) [
            | inl (c, bought) ↦ ground (arith, net_nil)
            | inr (x, refused) ↦ absurd (ground arith)
          ]
  stock_of_line-net l item warehouse sales_invoice db db' {g = g} h =
      elim (Result-cases
        (process_outward_movement D tenant item warehouse l.quantity i.issue_date db).0) [
          | inl (c, sold) ↦ ground (arith, cogs_lines-net i.contact c)
          | inr (x, refused) ↦ absurd (ground arith)
        ]
  stock_of_line-net l item warehouse credit_note db db' h = ground (arith, net_nil)
  stock_of_line-net l item warehouse debit_note db db' h = ground (arith, net_nil)

  stock_lines-net :
      (l : InvoiceLine) (db db' : Db) {g : List LineDto}
      → stock_lines D tenant i l db ≡ (ok g, db')
      → net_of g ≡ pos 0
  unfolding stock_lines
  stock_lines-net l db db' {g = g} h = elim (Option-cases l.item) [
    | inl no_item ↦ ground (arith, net_nil)
    | inr (item, e) ↦ elim (Option-cases l.warehouse) [
      | inl no_warehouse ↦ ground (arith, net_nil)
      | inr (w, f) ↦ stock_of_line-net l item w i.type db db' (ground arith)
    ]
  ]

  -- the lines' part of the entry, by the side that the invoice's type takes
  abbrev signed : ℤ → ℤ
  signed a = if is_sales i.type then neg a else a

  abbrev base_total : List InvoiceLine → ℤ
  base_total ls = sum_by (λ l. base_of D i l.total) ls

  signed_add : (a b : ℤ) → pos 0 +ℤ (signed a +ℤ signed b) ≡ signed (a +ℤ b)
  signed_add a b = grind int_laws

  side_line-net :
      (l : InvoiceLine) (rest : List LineDto)
      → net_of (side_line i l (base_of D i l.total) ∷ rest)
        ≡ signed (base_of D i l.total) +ℤ net_of rest
  side_line-net l rest = grind int_laws

  post_lines-net :
      (ls : List InvoiceLine) (db db' : Db) {out : List LineDto}
      → post_lines D tenant i ls db ≡ (ok out, db')
      → net_of out ≡ signed (base_total ls)
  unfolding post_lines
  post_lines-net [] db db' {out = out} h = let same : [] ≡ out = cc in rw (← same) (grind int_laws)
  post_lines-net (l ∷ ls) db db' {out = out} h =
      let last =
        λ (goods rest : List LineDto). pure (goods ++ side_line i l (base_of D i l.total) ∷ rest) in
      let (goods, mid, stocked, h₁) =
        >>=-eq-ok (stock_lines D tenant i l) (λ g. post_lines D tenant i ls >>= last g) db h in
      let (rest, mid', posted, h₂) = >>=-eq-ok (post_lines D tenant i ls) (last goods) mid h₁ in
      let same : goods ++ side_line i l (base_of D i l.total) ∷ rest ≡ out = cc in
      let bought = stock_lines-net l db mid stocked in
      let ih = post_lines-net ls mid mid' posted in
      rw (← same, net-append, bought, side_line-net l rest, ih) (signed_add _ _)

  -- The journal entry of an invoice, its control line with the lines that `approve` gathers, has
  -- equal debits and credits exactly if the invoice's total in base currency is the sum of its
  -- lines' totals in base currency; the cost of goods never tips it.
  pub approve-balance :
      (account : ℕ) (db db' : Db) {out : List LineDto}
      → post_lines D tenant i i.lines db ≡ (ok out, db')
      → let lines = control_line i account (base_of D i i.total) ∷ out in
        (sum_by debit_of lines ≡ sum_by credit_of lines)
        ↔ (base_of D i i.total ≡ base_total i.lines)
  approve-balance account db db' {out = out} h =
      let net = post_lines-net i.lines db db' h in
      elim (Bool-cases (is_sales i.type)) [
        | inl sales ↦ (λ e. grind int_laws, λ e. grind int_laws)
        | inr purchases ↦ (λ e. grind int_laws, λ e. grind int_laws)
      ]
