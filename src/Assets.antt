-- ===== src/Assets.antt =====
-- Fixed assets and their depreciation
-- (apps/api/src/modules/accounting/fixed-assets/fixed-assets.service.ts).
pub mod Amounts
pub mod Run
use erp_ai_private.Prelude.{
  ℕ, zero, suc, ◌+◌, ◌==◌, List, [], ◌∷◌, ◌++◌, Option, none, some, Bool, true, false, ◌&&◌, ◌||◌,
  not, length, find, is_none, update, if◌then◌else◌,
}
use erp_ai_private.Prelude.Int.{ℤ, pos, ◌+ℤ◌, ◌-ℤ◌, leb_ℤ}
use erp_ai_private.Decimal.{Decimals, lit}
use erp_ai_private.Db.{
  AssetStatus, draft_asset, active_asset, disposed, DepreciationMethod, straight_line,
  declining_balance, units_of_production, Asset, Schedule, Line, Entry, posted, dep, Date, leb_date,
  Db, ok, err, Action, ◌>>=◌, ◌>>◌, pure, check, write, transaction, method_unsupported,
  unique_violation, foreign_key,
}
use erp_ai_private.Periods.Calendar.{month_of}
use erp_ai_private.Journal.{insert_entry}

-- `CreateFixedAssetDto`
pub record AssetDto : Type 0 where
  pub code : ℕ
  pub depreciation_account : ℕ
  pub expense_account : ℕ
  pub purchase_date : Date
  pub purchase_price : ℤ
  pub salvage_value : ℤ
  pub useful_life_months : ℕ
  pub method : DepreciationMethod

abbrev pub is_straight_line : DepreciationMethod → Bool
is_straight_line straight_line = true
is_straight_line _ = false

abbrev pub is_active_asset : AssetStatus → Bool
is_active_asset active_asset = true
is_active_asset _ = false

-- the schedules get their ids in their order
unfoldable pub number_schedules : ℕ → List Schedule → List Schedule
number_schedules id [] = []
number_schedules id (s ∷ ss) = record s { id = id } ∷ number_schedules (id + 1) ss

-- `createMany`
abbrev pub insert_schedules : List Schedule → Action (Unit {0})
insert_schedules ss = write (λ db. record db {
  next_id = db.next_id + length ss;
  schedules = number_schedules db.next_id ss ++ db.schedules;
})

abbrev pub depreciable : Asset → ℤ
depreciable a = a.purchase_price -ℤ a.salvage_value

-- `next_local_month` is `setMonth(getMonth() + 1)`, in the server's local time.
module _ (D : Decimals) (next_local_month : Date → Date) where
  -- The loop of `generateSchedule`, over the months that are left.
  unfoldable pub month_schedules : ℕ → ℤ → ℤ → ℕ → Date → ℤ → List Schedule
  month_schedules asset total monthly zero date accumulated = []
  month_schedules asset total monthly (suc left) date accumulated =
      let month = next_local_month date in
      let amount = if left == 0 then total -ℤ accumulated else monthly in
      record {
        id = 0;
        asset = asset;
        date = month;
        amount = D.column 2 amount;
        accumulated = D.column 2 (accumulated +ℤ amount);
        journal_entry = none;
        posted = false;
      }
      ∷ month_schedules asset total monthly left month (accumulated +ℤ amount)

  abbrev pub monthly_amount : Asset → ℤ
  monthly_amount a = D.to_decimal_places 2 (D.div (depreciable a) (lit D a.useful_life_months))

  unfoldable pub generate_schedule : Asset → Action (Unit {0})
  generate_schedule a =
      if not (is_straight_line a.method)
      then (λ db. (err method_unsupported, db))
      else if leb_ℤ (depreciable a) (pos 0)
      then pure tt
      else insert_schedules (
          month_schedules a.id (depreciable a) (monthly_amount a) a.useful_life_months
            a.purchase_date (pos 0))

  abbrev pub new_asset : ℕ → AssetDto → Db → Asset
  new_asset tenant dto db = record {
    id = db.next_id;
    tenant = tenant;
    code = dto.code;
    depreciation_account = dto.depreciation_account;
    expense_account = dto.expense_account;
    purchase_date = dto.purchase_date;
    purchase_price = D.column 2 dto.purchase_price;
    salvage_value = D.column 2 dto.salvage_value;
    useful_life_months = dto.useful_life_months;
    method = dto.method;
    status = active_asset;
  }

  -- `fixedAsset.create`, with the unique index on (tenantId, code)
  unfoldable pub insert_asset : ℕ → AssetDto → Action Asset
  insert_asset tenant dto db =
      if not (is_none (find (λ a. a.tenant == tenant && a.code == dto.code) db.assets))
      then (err unique_violation, db)
      else (
        ok (new_asset tenant dto db),
        record db { next_id = db.next_id + 1; assets = new_asset tenant dto db ∷ db.assets },
      )

  abbrev pub execute_create_asset : ℕ → AssetDto → Action Asset
  execute_create_asset tenant dto = do a ← insert_asset tenant dto; generate_schedule a; pure a

  unfoldable pub create_asset : ℕ → AssetDto → Action Asset
  create_asset tenant dto = transaction (execute_create_asset tenant dto)

-- `pendingSchedules`, each with its asset
unfoldable pub pending_schedules : ℕ → Date → List Asset → List Schedule → List (Schedule × Asset)
pending_schedules tenant date assets [] = []
pending_schedules tenant date assets (s ∷ ss) =
    let rest = pending_schedules tenant date assets ss in
    elim (find (λ a. a.id == s.asset) assets) [
      | none ↦ rest
      | some a ↦
          if (a.tenant == tenant && is_active_asset a.status)
            && (leb_date s.date date && not s.posted)
          then (s, a) ∷ rest
          else rest
    ]

abbrev plain_line : ℕ → ℕ → Date → ℕ → ℤ → ℤ → Line
plain_line id tenant now account debit credit = record {
  id = id;
  tenant = tenant;
  account = account;
  debit = debit;
  credit = credit;
  currency = none;
  foreign_debit = none;
  foreign_credit = none;
  exchange_rate = none;
  contact = none;
  reconciliation = none;
  created_at = now;
}

-- the entry of one schedule: expense against accumulated depreciation
abbrev pub depreciation_entry : ℕ → Date → Schedule → Asset → Db → Entry
depreciation_entry tenant now s a db = record {
  id = db.next_id;
  tenant = tenant;
  number = record { prefix = dep a.code; year = s.date.year; seq = month_of s.date };
  date = s.date;
  status = posted;
  reversal = none;
  lines =
      plain_line (db.next_id + 1) tenant now a.expense_account s.amount (pos 0)
      ∷ plain_line (db.next_id + 2) tenant now a.depreciation_account (pos 0) s.amount
      ∷ [];
}

abbrev pub has_account : ℕ → Db → Bool
has_account id db = not (is_none (find (λ a. a.id == id) db.accounts))

abbrev pub mark_posted : ℕ → ℕ → Db → Db
mark_posted id entry db = record db {
  schedules =
      update (λ s. s.id == id) (λ s. record s { posted = true; journal_entry = some entry })
        db.schedules;
}

-- the transaction of one schedule
unfoldable pub post_schedule : ℕ → Date → Schedule × Asset → Action (Unit {0})
post_schedule tenant now (s, a) db =
    if has_account a.expense_account db && has_account a.depreciation_account db
    then (insert_entry (depreciation_entry tenant now s a db) >>= λ e.
          write (mark_posted s.id e.id))
        db
    else (err foreign_key, db)

-- The loop over the pending schedules: each has its own transaction, and the first that throws
-- ends the run.
unfoldable pub post_schedules : ℕ → Date → List (Schedule × Asset) → Action ℕ
post_schedules tenant now [] = pure 0
post_schedules tenant now (p ∷ ps) = do
  transaction (post_schedule tenant now p)
  n ← post_schedules tenant now ps
  pure (n + 1)

-- `runMonthlyDepreciation`: how many schedules it posted
unfoldable pub run_monthly_depreciation : ℕ → Date → Date → Action ℕ
run_monthly_depreciation tenant now date db =
    post_schedules tenant now (pending_schedules tenant date db.assets db.schedules) db
