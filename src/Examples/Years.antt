-- ===== src/Examples/Years.antt =====
-- The theorems of the fiscal years at a concrete year.
use erp_ai_private.Prelude.{◌≡◌, refl, arith, count}
use erp_ai_private.Db.{named, open_period, Date, Period, FiscalYear, Db, ok}
use erp_ai_private.Periods.{covers, find_active_period_by_date}
use erp_ai_private.Periods.Calendar.{
  IsDate, month_lengths, year_days, month_day, month_start, next_month, millisecond_before,
}
use erp_ai_private.Periods.Years.{
  YearDto, insert_year, month_periods, end_last, insert_period, insert_periods, create_year,
}
use erp_ai_private.Periods.Tiling.{create_year-count, create_year-find_active_period_by_date}
use erp_ai_private.Examples.{company}

-- the year 2027, from its first millisecond to its last
abbrev year_2027 : YearDto
year_2027 = record {
  name = named 1;
  start_date = record { year = 2027; ms = 0 };
  end_date = record { year = 2027; ms = 31535999999 };
}

-- the 2nd of February 2027
abbrev february_2 : Date
february_2 = record { year = 2027; ms = 2764800000 }

abbrev made_2027 : FiscalYear
made_2027 = record {
  id = company.next_id;
  tenant = 1;
  name = named 1;
  start_date = record { year = 2027; ms = 0 };
  end_date = record { year = 2027; ms = 31535999999 };
  status = open_period;
}

abbrev after_2027 : Db
after_2027 = (create_year 1 year_2027 company).1

made : create_year 1 year_2027 company ≡ (ok made_2027, after_2027)
unfolding create_year insert_year insert_periods insert_period month_periods end_last next_month
    millisecond_before month_lengths month_day month_start year_days
made = refl

february_2-IsDate : IsDate february_2
unfolding year_days
february_2-IsDate = ground arith

create_year-count_example : count (covers 1 february_2) after_2027.periods ≡ 1
create_year-count_example =
    create_year-count 1 1 year_2027 february_2 company after_2027 made february_2-IsDate

create_year-find_active_period_by_date_example :
    (p : Period) × (find_active_period_by_date after_2027 1 february_2 ≡ ok p)
    × (p.fiscal_year ≡ made_2027.id)
create_year-find_active_period_by_date_example =
    create_year-find_active_period_by_date 1 year_2027 february_2 company after_2027 made
      february_2-IsDate refl refl
