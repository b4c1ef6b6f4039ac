-- ===== src/Periods.antt =====
-- Accounting periods and the closing of a fiscal year
-- (apps/api/src/modules/accounting/accounting-periods/accounting-periods.service.ts and
-- apps/api/src/modules/accounting/fiscal-years/fiscal-years.service.ts).
pub mod Closing
pub mod Calendar
pub mod Years
pub mod Tiling
use erp_ai_private.Prelude.{
  ℕ, ◌==◌, ltb, List, Option, none, some, Bool, true, false, ◌&&◌, not, find, count, update,
  if◌then◌else◌,
}
use erp_ai_private.Db.{
  PeriodStatus, open_period, closed_period, adjusting_period, Period, FiscalYear, Date, leb_date,
  Db, Result, ok, err, Action, no_period, period_closed, period_not_found, year_not_found,
  year_closed, open_periods,
}

abbrev pub is_closed : PeriodStatus → Bool
is_closed closed_period = true
is_closed _ = false

-- the period that `findFirst` takes: the first row that holds the date
abbrev pub covers : ℕ → Date → Period → Bool
covers tenant date p =
    p.tenant == tenant && (leb_date p.start_date date && leb_date date p.end_date)

unfoldable pub find_active_period_by_date : Db → ℕ → Date → Result Period
find_active_period_by_date db tenant date = elim (find (covers tenant date) db.periods) [
  | none ↦ err no_period
  | some p ↦ if is_closed p.status then err period_closed else ok p
]

abbrev set_period : ℕ → PeriodStatus → Db → Db
set_period id status db = record db {
  periods = update (λ p. p.id == id) (λ p. record p { status = status }) db.periods;
}

-- `updateStatus` allows every change, the reopening of a closed period too.
unfoldable pub update_status : ℕ → ℕ → PeriodStatus → Action (Unit {0})
update_status tenant id status db = elim (find (λ p. p.id == id) db.periods) [
  | none ↦ (err period_not_found, db)
  | some p ↦
      if not (p.tenant == tenant)
      then (err period_not_found, db)
      else (ok tt, set_period id status db)
]

-- the periods that keep a fiscal year open
abbrev pub unclosed : ℕ → List Period → ℕ
unclosed year ps = count (λ p. p.fiscal_year == year && not (is_closed p.status)) ps

-- `FiscalYearsService.close`
unfoldable pub close : ℕ → ℕ → Action (Unit {0})
close tenant id db = elim (find (λ y. y.id == id) db.fiscal_years) [
  | none ↦ (err year_not_found, db)
  | some y ↦
      if not (y.tenant == tenant)
      then (err year_not_found, db)
      else if is_closed y.status
      then (err year_closed, db)
      else if ltb 0 (unclosed id db.periods)
      then (err open_periods, db)
      else (
        ok tt,
        record db {
          fiscal_years =
              update (λ f. f.id == id) (λ f. record f { status = closed_period }) db.fiscal_years;
        },
      )
]
