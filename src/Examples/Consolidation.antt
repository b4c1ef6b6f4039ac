-- ===== src/Examples/Consolidation.antt =====
-- The theorem of the consolidated trial balance at a parent and a child, in cents.
use erp_ai_private.Prelude.{ℕ, ◌+◌, ◌/◌, ◌≡◌, refl, List, [], ◌∷◌, none, false, arith}
use erp_ai_private.Prelude.Int.{ℤ, pos, pos_part, neg_part, ◌+ℤ◌, ◌-ℤ◌, sum_by}
use erp_ai_private.Prelude.Product.{◌*ℤ◌}
use erp_ai_private.Decimal.{Decimals}
use erp_ai_private.Db.{Line, Entry, Db, ok, je, posted}
use erp_ai_private.Ledger.{posted_lines}
use erp_ai_private.Consolidation.{
  CodeRow, add_to, add_lines, add_translated, period_rate, child_rate, add_children, consolidate,
}
use erp_ai_private.Consolidation.Totals.{row_debit, row_credit, consolidate-balance}
use erp_ai_private.Examples.{whole, today, later, company, cash, sales}

-- an amount in hundredths, and its products to the hundredth below
abbrev hundredths : ℤ → ℤ
hundredths a = pos (pos_part a / 100) -ℤ pos (neg_part a / 100)

abbrev cents : Decimals
cents = record whole { scale = 100; mul = λ a b. hundredths (a *ℤ b) }

abbrev booked : ℕ → ℕ → ℕ → ℤ → ℤ → Line
booked id tenant account debit credit = record {
  id = id;
  tenant = tenant;
  account = account;
  debit = debit;
  credit = credit;
  currency = none;
  foreign_debit = none;
  foreign_credit = none;
  exchange_rate = none;
  contact = none;
  reconciliation = none;
  created_at = today;
}

abbrev sale_of : ℕ → ℕ → ℕ → ℕ → ℤ → Entry
sale_of id tenant debited credited amount = record {
  id = id;
  tenant = tenant;
  number = record { prefix = je; year = 2026; seq = 1 };
  date = today;
  status = posted;
  reversal = none;
  lines =
      booked (id + 1) tenant debited amount (pos 0)
      ∷ booked (id + 2) tenant credited (pos 0) amount
      ∷ [];
}

-- the company and a child that keeps its books in dollars
abbrev group : Db
group = record company {
  accounts =
      record cash { id = 13; tenant = 2 } ∷ record sales { id = 14; tenant = 2 } ∷ company.accounts;
  entries = sale_of 90 2 13 14 (pos 5000) ∷ sale_of 93 1 10 11 (pos 30000) ∷ [];
  currencies = record { id = 81; tenant = 1; code = 2; is_base = false } ∷ [];
  tenants = record { id = 1; currency = 1 } ∷ record { id = 2; currency = 2 } ∷ [];
  tenant_children = record { parent = 1; child = 2 } ∷ [];
  period_rates = record { tenant = 1; currency = 81; period = 20; rate = pos 375 } ∷ [];
}

-- 50.00 at a rate of 3.75 and 300.00
abbrev consolidated : List CodeRow
consolidated =
    record { code = cash.code; debit = pos 48750; credit = pos 0 }
    ∷ record { code = sales.code; debit = pos 0; credit = pos 48750 }
    ∷ []

books_joined : consolidate cents 1 today later group ≡ ok consolidated
unfolding consolidate add_children child_rate period_rate add_translated add_to add_lines
    posted_lines ◌+ℤ◌ ◌-ℤ◌ ◌*ℤ◌
books_joined = refl

consolidate-balance_example : sum_by row_debit consolidated ≡ sum_by row_credit consolidated
unfolding child_rate period_rate add_to add_lines posted_lines ◌+ℤ◌ ◌-ℤ◌ ◌*ℤ◌
consolidate-balance_example =
    consolidate-balance cents (ground arith) today later group (refl, (refl, tt))
      ((refl, (refl, tt)), ((refl, (refl, tt)), tt))
      (((_, refl), ((_, refl), tt)), (((_, refl), ((_, refl), tt)), tt)) 1 refl
      (((refl, refl), ((refl, refl), tt)), tt) books_joined
