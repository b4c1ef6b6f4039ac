-- ===== src/Examples/Currencies.antt =====
-- The theorems of the currencies and the VAT return at concrete rows.
use erp_ai_private.Prelude.{◌≤◌, ◌≡◌, refl, [], ◌∷◌, true, false, arith}
use erp_ai_private.Prelude.Int.{pos, ◌+ℤ◌}
use erp_ai_private.Db.{Currency, Date, Db, ok}
use erp_ai_private.Currencies.{unset_base, create_currency}
use erp_ai_private.Currencies.Base.{bases, create_currency-bases}
use erp_ai_private.Vat.{vat_totals, net_vat, calculate_vat_return}
use erp_ai_private.Vat.Returns.{next_day, calculate_vat_return-split}
use erp_ai_private.Examples.{today, later, company, unpaid}

abbrev riyal : Currency
riyal = record { id = 80; tenant = 1; code = 1; is_base = true }

abbrev dollar : Currency
dollar = record { id = 81; tenant = 1; code = 2; is_base = false }

abbrev bank : Db
bank = record company {
  currencies = dollar ∷ riyal ∷ [];
  invoices = record unpaid { tax_total = pos 30 } ∷ [];
}

abbrev with_euro : Db
with_euro = (create_currency 1 (record { code = 3; is_base = true }) bank).1

abbrev euro : Currency
euro = record { id = 100; tenant = 1; code = 3; is_base = true }

euro_made : create_currency 1 (record { code = 3; is_base = true }) bank ≡ (ok euro, with_euro)
unfolding create_currency
euro_made = refl

create_currency-bases_example :
    (true ≡ true)
    × (with_euro.currencies ≡ euro ∷ unset_base 1 bank.currencies)
    × (bases 1 with_euro ≡ 1)
    × (bases 1 with_euro ≤ 1)
create_currency-bases_example =
    create_currency-bases 1 1 (record { code = 3; is_base = true }) bank with_euro euro_made
      (ground arith)

-- the end of January
abbrev january_31 : Date
january_31 = record { year = 2026; ms = 2592000000 }

calculate_vat_return-split_example :
    (calculate_vat_return (λ a. a) 1 today january_31 bank).net_vat_liability
    ≡ net_vat (vat_totals 1 today later bank)
      +ℤ net_vat (vat_totals 1 (next_day later) january_31 bank)
calculate_vat_return-split_example =
    calculate_vat_return-split (λ a. a) 1 today later january_31 bank refl refl
