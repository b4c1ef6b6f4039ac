-- ===== src/Currencies/Base.antt =====
-- The base currency of a tenant, and the rates of a day.
use erp_ai_private.Prelude.{
  ℕ, ◌≤◌, ◌==◌, ◌≡◌, refl, inl, inr, List, [], ◌∷◌, Option, some, Bool, true, false, ◌&&◌, arith,
  find, find-update, find_not-update, is_none, if◌then◌else◌, count, Option-cases, Bool-cases,
}
use mathlib.Core.Option
use erp_ai_private.Prelude.Int.{ℤ}
use erp_ai_private.Decimal.{Decimals}
use erp_ai_private.Db.{Currency, ExchangeRate, Date, Db, ok}
use erp_ai_private.Periods.Calendar.{start_of_day}
use erp_ai_private.Currencies.{
  CurrencyDto, is_base_of, unset_base, create_currency, is_rate_on, upsert_rate, set_exchange_rate,
}

-- how many base currencies a tenant has
abbrev pub bases : ℕ → Db → ℕ
bases tenant db = count (is_base_of tenant) db.currencies

count-unset_base :
    (t tenant : ℕ) (cs : List Currency)
    → t == tenant ≡ true
    → count (is_base_of t) (unset_base tenant cs) ≡ 0
count-unset_base t tenant [] h = refl
count-unset_base t tenant (c ∷ cs) h = ground (arith, count-unset_base t tenant cs h)

count-unset_other :
    (t tenant : ℕ) (cs : List Currency)
    → t == tenant ≡ false
    → count (is_base_of t) (unset_base tenant cs) ≡ count (is_base_of t) cs
count-unset_other t tenant [] h = refl
count-unset_other t tenant (c ∷ cs) h = ground (arith, count-unset_other t tenant cs h)

-- the number of bases after the creation: one for a tenant that made a new base, as before otherwise
abbrev pub bases_after : ℕ → ℕ → CurrencyDto → Db → ℕ
bases_after tenant t dto db = if dto.is_base && t == tenant then 1 else bases t db

new_base :
    (tenant t : ℕ) (dto : CurrencyDto) (db : Db)
    → count (is_base_of t) (
        record { id = db.next_id; tenant = tenant; code = dto.code; is_base = dto.is_base }
        ∷ (if dto.is_base then unset_base tenant db.currencies else db.currencies))
      ≡ bases_after tenant t dto db
new_base tenant t dto db = elim (Bool-cases dto.is_base) [
  | inr other ↦ rw other (ground arith)
  | inl base ↦ elim (Bool-cases (t == tenant)) [
    | inl own ↦ rw (base, own) (ground (arith, count-unset_base t tenant db.currencies own))
    | inr apart ↦ rw (base, apart) (ground (arith, count-unset_other t tenant db.currencies apart))
  ]
]

-- A currency that is created as the base becomes the one base of its tenant, in the place of the
-- base before it; one that is not leaves the bases as they are, and so do both for every other
-- tenant. So a tenant that had at most one base has at most one.
pub create_currency-bases :
    (tenant t : ℕ) (dto : CurrencyDto) (db db' : Db) {c : Currency}
    → create_currency tenant dto db ≡ (ok c, db')
    → bases t db ≤ 1
    → (c.is_base ≡ dto.is_base)
      × (db'.currencies
          ≡ c ∷ (if dto.is_base then unset_base tenant db.currencies else db.currencies))
      × (bases t db' ≡ bases_after tenant t dto db)
      × (bases t db' ≤ 1)
unfolding create_currency
create_currency-bases tenant t dto db db' {c = c} h one =
    elim (Bool-cases
      (is_none (find (λ x. x.tenant == tenant && x.code == dto.code) db.currencies))) [
        | inr taken ↦ absurd (ground arith)
        | inl free ↦
            let made : db'.currencies
                ≡ record {
                  id = db.next_id;
                  tenant = tenant;
                  code = dto.code;
                  is_base = dto.is_base;
                }
                  ∷ (if dto.is_base then unset_base tenant db.currencies else db.currencies) =
              ground arith in
            let counted : bases t db' ≡ bases_after tenant t dto db =
              rw made (new_base tenant t dto db) in
            (ground arith, ground arith, counted, ground (arith, counted, one))
      ]

-- the instants are on one day
abbrev pub same_day : Date → Date → Bool
same_day a b = a.year == b.year && (start_of_day a).ms == (start_of_day b).ms

-- what `findUnique` gives as the rate of a currency on the day of a date
abbrev pub rate_on : ℕ → ℕ → Date → Db → Option ℤ
rate_on tenant currency date db =
    Option.map (λ r. r.rate)
      (find (is_rate_on tenant currency (start_of_day date)) db.exchange_rates)

upsert_rate-rate_on :
    (tenant currency : ℕ) (date : Date) (rate : ℤ) (db : Db)
    → rate_on tenant currency date (upsert_rate tenant currency (start_of_day date) rate db)
      ≡ some rate
upsert_rate-rate_on tenant currency date rate db =
    let test = is_rate_on tenant currency (start_of_day date) in
    elim (Option-cases (find test db.exchange_rates)) [
      | inl new ↦ ground arith
      | inr (r, found) ↦
          ground
            (arith, find-update test (λ x. record x { rate = rate }) db.exchange_rates (λ x. refl))
    ]

upsert_rate-other :
    (tenant currency : ℕ) (date other : Date) (rate : ℤ) (db : Db)
    → same_day date other ≡ false
    → rate_on tenant currency other (upsert_rate tenant currency (start_of_day date) rate db)
      ≡ rate_on tenant currency other db
upsert_rate-other tenant currency date other rate db h =
    let test = is_rate_on tenant currency (start_of_day date) in
    let test' = is_rate_on tenant currency (start_of_day other) in
    elim (Option-cases (find test db.exchange_rates)) [
      | inl new ↦ ground (arith, h)
      | inr (r, found) ↦
          let apart : (x : ExchangeRate) → test x ≡ true → test' x ≡ false =
            λ x t. ground (arith, h) in
          ground (
            arith,
            find_not-update test' test (λ x. record x { rate = rate }) db.exchange_rates (λ x. refl)
                apart,
          )
    ]

-- A rate that is set for a date is, as its column keeps it, the rate of the currency on that day, and
-- the rates of the currency on all other days stay what they were.
pub set_exchange_rate-rate_on :
    (D : Decimals) (tenant currency : ℕ) (date other : Date) (rate : ℤ) (db db' : Db)
    → set_exchange_rate D tenant currency date rate db ≡ (ok tt, db')
    → same_day date other ≡ false
    → (rate_on tenant currency date db' ≡ some (D.column 6 rate))
      × (rate_on tenant currency other db' ≡ rate_on tenant currency other db)
unfolding set_exchange_rate
set_exchange_rate-rate_on D tenant currency date other rate db db' h apart =
    elim (Option-cases (find (λ c. c.id == currency) db.currencies)) [
      | inl missing ↦ absurd (ground arith)
      | inr (c, found) ↦
          let written : db' ≡ upsert_rate tenant currency (start_of_day date) (D.column 6 rate) db =
            ground arith in
          rw written (
            upsert_rate-rate_on tenant currency date (D.column 6 rate) db,
            upsert_rate-other tenant currency date other (D.column 6 rate) db apart,
          )
    ]
