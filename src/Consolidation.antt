-- ===== src/Consolidation.antt =====
-- The consolidated trial balance
-- (apps/api/src/modules/accounting/consolidation/consolidation.service.ts). Account
-- names are left out.
pub mod Totals
use erp_ai_private.Prelude.{
  ℕ, ◌==◌, ltb, true, false, List, [], ◌∷◌, Option, none, some, Bool, ◌&&◌, not, find, select, map,
  is_none, if◌then◌else◌,
}
use erp_ai_private.Prelude.Int.{ℤ, ◌+ℤ◌}
use erp_ai_private.Decimal.{Decimals, lit}
use erp_ai_private.Db.{
  Account, Line, Period, Currency, Tenant, TenantChild, PeriodRate, Date, leb_date, Db, Result, ok,
  err, Action, or_throw, and_then, read, tenant_not_found, currency_not_configured,
  unique_violation, foreign_key,
}
use erp_ai_private.Ledger.{posted_lines}

-- the unique index on (tenantId, accountingPeriodId, currencyId)
abbrev pub is_rate_of : ℕ → ℕ → ℕ → PeriodRate → Bool
is_rate_of tenant currency period r =
    r.tenant == tenant && r.currency == currency && r.period == period

unfoldable pub set_period_exchange_rate : Decimals → ℕ → ℕ → ℕ → ℤ → Action PeriodRate
set_period_exchange_rate D tenant currency period rate db =
    if not (is_none (find (is_rate_of tenant currency period) db.period_rates))
    then (err unique_violation, db)
    else (let r : PeriodRate = record {
      tenant = tenant;
      currency = currency;
      period = period;
      rate = D.column 6 rate;
    } in
        (ok r, record db { period_rates = r ∷ db.period_rates }))

-- an entry of `tbMap` and of `consolidatedTb`, with its key
pub record CodeRow : Type 0 where
  pub code : ℕ
  pub debit : ℤ
  pub credit : ℤ

-- the row of the code is made if it is missing, and the amounts are added to it
unfoldable pub add_to : CodeRow → List CodeRow → List CodeRow
add_to r [] = r ∷ []
add_to r (x ∷ xs) =
    let rest = add_to r xs in
    if x.code == r.code
    then record x { debit = x.debit +ℤ r.debit; credit = x.credit +ℤ r.credit } ∷ xs
    else x ∷ rest

-- a line has an account by its foreign key
abbrev pub add_line : Db → Line → List CodeRow → List CodeRow
add_line db l rows = elim (find (λ a. a.id == l.account) db.accounts) [
  | none ↦ rows
  | some a ↦ add_to (record { code = a.code; debit = l.debit; credit = l.credit }) rows
]

unfoldable pub add_lines : Db → List Line → List CodeRow → List CodeRow
add_lines db [] rows = rows
add_lines db (l ∷ ls) rows = add_lines db ls (add_line db l rows)

abbrev pub get_tenant_trial_balance : ℕ → Date → Date → Db → List CodeRow
get_tenant_trial_balance tenant start end db =
    add_lines db (posted_lines tenant (some start) (some end) db) []

-- the first period of the parent that holds the whole range
abbrev pub holds : ℕ → Date → Date → Period → Bool
holds tenant start end p =
    p.tenant == tenant && leb_date p.start_date start && leb_date end p.end_date

-- `exRate`
unfoldable pub period_rate : Decimals → ℕ → Currency → Date → Date → Db → ℤ
period_rate D parent currency start end db = elim (find (holds parent start end) db.periods) [
  | none ↦ lit D 1
  | some p ↦ elim (find (is_rate_of parent currency.id p.id) db.period_rates) [
    | none ↦ lit D 1
    | some r ↦ r.rate
  ]
]

unfoldable pub child_rate : Decimals → Tenant → Tenant → Date → Date → Db → Result ℤ
child_rate D parent child start end db =
    if child.currency == parent.currency
    then ok (lit D 1)
    else and_then
        (or_throw (find (λ c. c.tenant == parent.id && c.code == child.currency) db.currencies)
          currency_not_configured)
        λ c. ok (period_rate D parent.id c start end db)

abbrev pub translate : Decimals → ℤ → CodeRow → CodeRow
translate D rate r = record {
  code = r.code;
  debit = D.mul r.debit rate;
  credit = D.mul r.credit rate;
}

unfoldable pub add_translated : Decimals → ℤ → List CodeRow → List CodeRow → List CodeRow
add_translated D rate [] rows = rows
add_translated D rate (r ∷ rs) rows = add_translated D rate rs (add_to (translate D rate r) rows)

unfoldable pub add_children :
    Decimals → Tenant → Date → Date → Db → List TenantChild → List CodeRow → Result (List CodeRow)
add_children D parent start end db [] rows = ok rows
add_children D parent start end db (h ∷ hs) rows =
    and_then (or_throw (find (λ t. t.id == h.child) db.tenants) foreign_key) λ child.
      and_then (child_rate D parent child start end db) λ rate.
        add_children D parent start end db hs
          (add_translated D rate (get_tenant_trial_balance child.id start end db) rows)

-- `consolidatedTb` when the loops end
unfoldable pub consolidate : Decimals → ℕ → Date → Date → Db → Result (List CodeRow)
consolidate D tenant start end db =
    and_then (or_throw (find (λ t. t.id == tenant) db.tenants) tenant_not_found) λ parent.
      add_children D parent start end db (select (λ h. h.parent == parent.id) db.tenant_children)
        (get_tenant_trial_balance parent.id start end db)

abbrev pub format_row : Decimals → CodeRow → CodeRow
format_row D r = record {
  code = r.code;
  debit = D.to_decimal_places 2 r.debit;
  credit = D.to_decimal_places 2 r.credit;
}

-- `Object.keys`: first the codes that spell an array index, in ascending order, then the others in
-- the order in which they were set. `index` is the number that a code spells, if it is one.
abbrev pub comes_before : (ℕ → Option ℕ) → CodeRow → CodeRow → Bool
comes_before index x y = elim (index x.code) [
  | none ↦ false
  | some m ↦ elim (index y.code) [ none ↦ true | some n ↦ ltb m n ]
]

unfoldable pub insert_key : (ℕ → Option ℕ) → CodeRow → List CodeRow → List CodeRow
insert_key index r [] = r ∷ []
insert_key index r (x ∷ xs) =
    let rest = insert_key index r xs in if comes_before index x r then x ∷ rest else r ∷ x ∷ xs

unfoldable pub object_keys : (ℕ → Option ℕ) → List CodeRow → List CodeRow
object_keys index [] = []
object_keys index (r ∷ rs) = insert_key index r (object_keys index rs)

unfoldable pub get_consolidated_trial_balance :
    Decimals → (ℕ → Option ℕ) → ℕ → Date → Date → Action (List CodeRow)
get_consolidated_trial_balance D index tenant start end = read λ db.
    and_then (consolidate D tenant start end db)
      λ rows. ok (map (format_row D) (object_keys index rows))
