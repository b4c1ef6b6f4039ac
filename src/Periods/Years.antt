-- ===== src/Periods/Years.antt =====
-- The creation of a fiscal year with its periods: `create` of FiscalYearsService and
-- `initializeFiscalYear` of AccountingPeriodsService.
use erp_ai_private.Prelude.{
  ℕ, zero, suc, ◌+◌, ◌-◌, ◌*◌, ◌==◌, List, [], ◌∷◌, Bool, ◌&&◌, not, find, is_none, if◌then◌else◌,
}
use erp_ai_private.Db.{
  YearName, fy, same_year_name, month_name, month_number, same_period_name, open_period, Period,
  FiscalYear, Date, ltb_date, start_of_year, Db, ok, err, Action, ◌>>=◌, ◌>>◌, pure, check, read,
  guard, transaction, year_exists, bad_dates, unique_violation,
}
use erp_ai_private.Periods.Calendar.{
  day_ms, month_lengths, month_start, year_days, month_of, next_month, millisecond_before,
}

-- `CreateFiscalYearDto`
pub record YearDto : Type 0 where
  pub name : YearName
  pub start_date : Date
  pub end_date : Date

abbrev pub has_year : ℕ → YearName → Db → Bool
has_year tenant name db =
    not (is_none (find (λ y. y.tenant == tenant && same_year_name y.name name) db.fiscal_years))

-- `tx.fiscalYear.create`, with the unique index on (tenantId, name)
unfoldable pub insert_year : ℕ → YearDto → Action FiscalYear
insert_year tenant dto db =
    if has_year tenant dto.name db
    then (err unique_violation, db)
    else (let y : FiscalYear = record {
      id = db.next_id;
      tenant = tenant;
      name = dto.name;
      start_date = dto.start_date;
      end_date = dto.end_date;
      status = open_period;
    } in
        (ok y, record db { next_id = db.next_id + 1; fiscal_years = y ∷ db.fiscal_years }))

-- The loop of `create` from a start on: at most so many months, up to the end of the year.
unfoldable pub month_periods : ℕ → ℕ → ℕ → Date → Date → List Period
month_periods zero tenant year start end = []
month_periods (suc k) tenant year start end =
    let next = next_month start in
    let rest = month_periods k tenant year next end in
    record {
      id = 0;
      tenant = tenant;
      fiscal_year = year;
      name = month_name start.year (month_of start);
      start_date = start;
      end_date = millisecond_before next;
      status = open_period;
    }
    ∷ (if ltb_date end next then [] else rest)

-- the last period ends when the year does
unfoldable pub end_last : Date → List Period → List Period
end_last end [] = []
end_last end (p ∷ []) = record p { end_date = end } ∷ []
end_last end (p ∷ q ∷ ps) = p ∷ end_last end (q ∷ ps)

-- one row of `accountingPeriod`, with the unique index on (tenantId, name); its id is drawn here
unfoldable pub insert_period : Period → Action (Unit {0})
insert_period p db =
    if not (is_none (find (λ q. q.tenant == p.tenant && same_period_name q.name p.name) db.periods))
    then (err unique_violation, db)
    else (
      ok tt,
      record db { next_id = db.next_id + 1; periods = record p { id = db.next_id } ∷ db.periods },
    )

unfoldable pub insert_periods : List Period → Action (Unit {0})
insert_periods [] db = (ok tt, db)
insert_periods (p ∷ ps) db = (insert_period p >>= λ _. insert_periods ps) db

abbrev pub execute_create_year : ℕ → YearDto → Action FiscalYear
execute_create_year tenant dto = do
  y ← insert_year tenant dto
  insert_periods (end_last dto.end_date (month_periods 12 tenant y.id dto.start_date dto.end_date))
  pure y

-- `FiscalYearsService.create`
unfoldable pub create_year : ℕ → YearDto → Action FiscalYear
create_year tenant dto = do
  check (ltb_date dto.start_date dto.end_date) bad_dates
  read (λ db. guard (not (has_year tenant dto.name db)) year_exists)
  transaction (execute_create_year tenant dto)

abbrev pub whole_year : ℕ → YearDto
whole_year y = record {
  name = fy y;
  start_date = start_of_year y;
  end_date = record { year = y; ms = year_days y * day_ms - 1000 };
}

-- The periods of `initializeFiscalYear`. The end of a month is taken in the server's local time.
module _ (local_month_end : ℕ → ℕ → Date) where
  unfoldable pub numbered_periods : ℕ → ℕ → ℕ → ℕ → List Period
  numbered_periods zero tenant id y = []
  numbered_periods (suc k) tenant id y =
      record {
        id = 0;
        tenant = tenant;
        fiscal_year = id;
        name = month_number y (11 - k);
        start_date = record { year = y; ms = month_start (month_lengths y) (11 - k) * day_ms };
        end_date = local_month_end y (11 - k);
        status = open_period;
      }
      ∷ numbered_periods k tenant id y

  abbrev pub execute_initialize : ℕ → ℕ → Action FiscalYear
  execute_initialize tenant y = do
    created ← insert_year tenant (whole_year y)
    insert_periods (numbered_periods 12 tenant created.id y)
    pure created

  unfoldable pub initialize_fiscal_year : ℕ → ℕ → Action FiscalYear
  initialize_fiscal_year tenant y = transaction (execute_initialize tenant y)
