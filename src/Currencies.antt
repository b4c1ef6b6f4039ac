-- ===== src/Currencies.antt =====
-- Currencies and their daily rates
-- (apps/api/src/modules/accounting/currencies/currencies.service.ts).
pub mod Base
use erp_ai_private.Prelude.{
  ℕ, ◌+◌, ◌==◌, List, [], ◌∷◌, none, some, Bool, true, false, ◌&&◌, not, find, update, is_none,
  if◌then◌else◌,
}
use erp_ai_private.Prelude.Int.{ℤ}
use erp_ai_private.Decimal.{Decimals}
use erp_ai_private.Db.{
  Currency, ExchangeRate, Date, Db, ok, err, Action, currency_exists, currency_not_found,
  base_currency,
}
use erp_ai_private.Periods.Calendar.{start_of_day}

-- `CreateCurrencyDto`
pub record CurrencyDto : Type 0 where
  pub code : ℕ
  pub is_base : Bool

abbrev pub is_base_of : ℕ → Currency → Bool
is_base_of tenant c = c.tenant == tenant && c.is_base

-- `updateMany`: the base currency of the tenant is one no longer
abbrev pub unset_base : ℕ → List Currency → List Currency
unset_base tenant cs = update (is_base_of tenant) (λ c. record c { is_base = false }) cs

unfoldable pub create_currency : ℕ → CurrencyDto → Action Currency
create_currency tenant dto db =
    if not (is_none (find (λ c. c.tenant == tenant && c.code == dto.code) db.currencies))
    then (err currency_exists, db)
    else (let c : Currency = record {
      id = db.next_id;
      tenant = tenant;
      code = dto.code;
      is_base = dto.is_base;
    } in
        (
          ok c,
          record db {
            next_id = db.next_id + 1;
            currencies =
                c ∷ (if dto.is_base then unset_base tenant db.currencies else db.currencies);
          },
        ))

-- the unique index on (tenantId, currencyId, date)
abbrev pub is_rate_on : ℕ → ℕ → Date → ExchangeRate → Bool
is_rate_on tenant currency day r =
    (r.tenant == tenant && r.currency == currency)
    && (r.date.year == day.year && r.date.ms == day.ms)

abbrev pub upsert_rate : ℕ → ℕ → Date → ℤ → Db → Db
upsert_rate tenant currency day rate db =
    elim (find (is_rate_on tenant currency day) db.exchange_rates) [
      | none ↦ record db {
        exchange_rates =
            record { tenant = tenant; currency = currency; date = day; rate = rate }
            ∷ db.exchange_rates;
      }
      | some r ↦ record db {
        exchange_rates =
            update (is_rate_on tenant currency day) (λ x. record x { rate = rate })
              db.exchange_rates;
      }
    ]

unfoldable pub set_exchange_rate : Decimals → ℕ → ℕ → Date → ℤ → Action (Unit {0})
set_exchange_rate D tenant currency date rate db =
    elim (find (λ c. c.id == currency) db.currencies) [
      | none ↦ (err currency_not_found, db)
      | some c ↦
          if not (c.tenant == tenant)
          then (err currency_not_found, db)
          else if c.is_base
          then (err base_currency, db)
          else (ok tt, upsert_rate tenant currency (start_of_day date) (D.column 6 rate) db)
    ]
