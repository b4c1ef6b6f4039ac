-- ===== src/Examples/Assets.antt =====
-- The theorems of the fixed assets at a machine that is bought and written off.
use erp_ai_private.Prelude.{◌+◌, ◌≡◌, refl, List, [], ◌++◌, length, arith}
use erp_ai_private.Prelude.Int.{pos, ◌+ℤ◌, ◌-ℤ◌, sum_by}
use erp_ai_private.Db.{straight_line, Date, Asset, Schedule, Db, ok}
use erp_ai_private.Periods.Calendar.{month_lengths, month_day}
use erp_ai_private.Journal.{insert_entry, has_references}
use erp_ai_private.Assets.{
  AssetDto, number_schedules, month_schedules, generate_schedule, new_asset, insert_asset,
  create_asset, pending_schedules, post_schedule, post_schedules, run_monthly_depreciation,
}
use erp_ai_private.Assets.Amounts.{IsRunning, amount_of, create_asset-schedule}
use erp_ai_private.Assets.Run.{run_monthly_depreciation_twice}
use erp_ai_private.Examples.{whole, whole-Rounds, today, later, company}

-- months of 31 days
abbrev month_on : Date → Date
month_on d = record { year = d.year; ms = d.ms + 2678400000 }

abbrev machine : AssetDto
machine = record {
  code = 1;
  depreciation_account = 10;
  expense_account = 12;
  purchase_date = today;
  purchase_price = pos 100;
  salvage_value = pos 10;
  useful_life_months = 4;
  method = straight_line;
}

abbrev bought : Asset
bought = new_asset whole month_on 1 machine company

abbrev after_purchase : Db
after_purchase = (create_asset whole month_on 1 machine company).1

purchased : create_asset whole month_on 1 machine company ≡ (ok bought, after_purchase)
unfolding create_asset insert_asset generate_schedule month_schedules number_schedules ◌-ℤ◌ ◌+ℤ◌
purchased = refl

create_asset-schedule_example :
    (ss : List Schedule) × (after_purchase.schedules ≡ ss ++ [])
    × (length ss ≡ 4)
    × (sum_by amount_of ss ≡ pos 100 -ℤ pos 10)
    × IsRunning (pos 0) ss
create_asset-schedule_example =
    create_asset-schedule whole whole-Rounds month_on 1 machine refl refl company after_purchase
      purchased (unfold ◌+ℤ◌ in ground arith) (ground arith) (λ n. refl)

-- the end of the third month
abbrev third_month : Date
third_month = record { year = 2026; ms = 8121600000 }

abbrev after_run : Db
after_run = (run_monthly_depreciation 1 later third_month after_purchase).1

written_off : run_monthly_depreciation 1 later third_month after_purchase ≡ (ok 3, after_run)
unfolding run_monthly_depreciation post_schedules post_schedule pending_schedules insert_entry
    has_references create_asset insert_asset generate_schedule month_schedules number_schedules
    month_lengths month_day ◌-ℤ◌ ◌+ℤ◌
written_off = refl

run_monthly_depreciation_twice_example :
    (3 ≡ length (pending_schedules 1 third_month after_purchase.assets after_purchase.schedules))
    × (length after_run.entries ≡ 3 + length after_purchase.entries)
    × (pending_schedules 1 third_month after_run.assets after_run.schedules ≡ [])
    × (run_monthly_depreciation 1 today third_month after_run ≡ (ok 0, after_run))
run_monthly_depreciation_twice_example =
    run_monthly_depreciation_twice 1 later today third_month after_purchase after_run written_off
