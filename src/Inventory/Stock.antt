-- ===== src/Inventory/Stock.antt =====
-- One change of a balance: what it does to each balance, to an item's total and to the sign.
use erp_ai_private.Prelude.{
  ℕ, ◌==◌, ◌≡◌, List, [], ◌∷◌, none, some, arith, find, All, ◌&&◌, if◌then◌else◌,
}
use erp_ai_private.Prelude.Int.{ℤ, pos, ◌+ℤ◌, ◌≤ℤ◌, sum_by, int_laws}
use erp_ai_private.Decimal.{Decimals, Rounds, Fits}
use erp_ai_private.Db.{Balance}
use erp_ai_private.Inventory.{is_balance_of, upsert}

-- The quantity of an item in a warehouse: 0 if there is no row.
abbrev pub stock : ℕ → ℕ → List Balance → ℤ
stock item warehouse bs = elim (find (is_balance_of item warehouse) bs) [
  | none ↦ pos 0
  | some b ↦ b.quantity
]

-- The quantity of an item in all warehouses.
abbrev pub total_stock : ℕ → List Balance → ℤ
total_stock item bs = sum_by (λ b. if b.item == item then b.quantity else pos 0) bs

-- Every quantity fits its column.
abbrev pub Fit : Decimals → List Balance → Type 0
Fit D bs = All (λ b. Fits D 4 b.quantity) bs

-- No quantity is negative.
abbrev pub IsStocked : List Balance → Type 0
IsStocked bs = All (λ b. pos 0 ≤ℤ b.quantity) bs

pub stock_nonneg : (i w : ℕ) (bs : List Balance) → IsStocked bs → pos 0 ≤ℤ stock i w bs
stock_nonneg i w [] h = omega arith
stock_nonneg i w (b ∷ bs) h = ground (arith, stock_nonneg i w bs h.1)

module _ (D : Decimals) (r : Rounds D) (item warehouse : ℕ) (change : ℤ)
    (fits : Fits D 4 change) where
  pub stock-upsert :
      (i w : ℕ) (bs : List Balance)
      → Fit D bs
      → stock i w (upsert D item warehouse change bs)
        ≡ (if i == item && w == warehouse then stock i w bs +ℤ change else stock i w bs)
  unfolding upsert
  stock-upsert i w [] h = grind int_laws
  stock-upsert i w (b ∷ bs) h =
      ground (arith, stock-upsert i w bs h.1, r.column_add 4 b.quantity change h.0 fits)

  pub total_stock-upsert :
      (i : ℕ) (bs : List Balance)
      → Fit D bs
      → total_stock i (upsert D item warehouse change bs)
        ≡ (if i == item then total_stock i bs +ℤ change else total_stock i bs)
  unfolding upsert
  total_stock-upsert i [] h = grind int_laws
  total_stock-upsert i (b ∷ bs) h =
      grind (int_laws, total_stock-upsert i bs h.1, r.column_add 4 b.quantity change h.0 fits)

  pub upsert-Fit : (bs : List Balance) → Fit D bs → Fit D (upsert D item warehouse change bs)
  unfolding upsert
  upsert-Fit [] h = ground (arith, fits)
  upsert-Fit (b ∷ bs) h =
      ground (arith, upsert-Fit bs h.1, r.column_add 4 b.quantity change h.0 fits)

  pub upsert-IsStocked :
      (bs : List Balance)
      → Fit D bs
      → IsStocked bs
      → pos 0 ≤ℤ stock item warehouse bs +ℤ change
      → IsStocked (upsert D item warehouse change bs)
  unfolding upsert
  upsert-IsStocked [] f h p = grind (int_laws, fits)
  upsert-IsStocked (b ∷ bs) f h p =
      grind (int_laws, upsert-IsStocked bs f.1 h.1, r.column_add 4 b.quantity change f.0 fits)
