-- ===== src/Assets/Amounts.antt =====
-- The amounts of a depreciation schedule.
use erp_ai_private.Prelude.{
  ℕ, zero, suc, ◌+◌, ◌≤◌, ◌≡◌, refl, sym, ◌∙◌, ap, ◌==◌, List, [], ◌∷◌, ◌++◌, false, arith, length,
  if◌then◌else◌, Bool-cases, inl, inr,
}
use erp_ai_private.Prelude.Int.{
  ℤ, pos, ◌+ℤ◌, ◌-ℤ◌, ◌≤ℤ◌, sum_by, zero_+ℤ, +ℤ_assoc, int_laws, leb_ℤ,
}
use erp_ai_private.Decimal.{Decimals, Rounds, Fits, lit}
use erp_ai_private.Db.{Asset, Schedule, Date, Db, ok, ◌>>=◌, >>=-eq-ok, rollback_returns, pure}
use erp_ai_private.Assets.{
  AssetDto, number_schedules, month_schedules, depreciable, monthly_amount, generate_schedule,
  new_asset, insert_asset, execute_create_asset, create_asset, is_straight_line,
}

abbrev pub amount_of : Schedule → ℤ
amount_of s = s.amount

-- Each row's accumulated amount is the one before it and the row's own amount.
abbrev pub IsRunning : ℤ → List Schedule → Type 0
IsRunning before [] = Unit
IsRunning before (s ∷ ss) = (s.accumulated ≡ before +ℤ s.amount) × IsRunning s.accumulated ss

module _ (D : Decimals) (rounds : Rounds D) (next : Date → Date) (asset : ℕ) (total monthly : ℤ)
    (total_fits : Fits D 2 total) (monthly_fits : Fits D 2 monthly) where
  -- the amount of a month with so many months left after it
  month-Fits :
      (left : ℕ) (acc : ℤ) → Fits D 2 acc → Fits D 2 (if left == 0 then total -ℤ acc else monthly)
  month-Fits zero acc h = rounds.column_sub 2 total acc total_fits h
  month-Fits (suc left) acc h = ground (arith, monthly_fits)

  acc-Fits : (acc : ℤ) → Fits D 2 acc → Fits D 2 (acc +ℤ monthly)
  acc-Fits acc h = rounds.column_add 2 acc monthly h monthly_fits

  sum-month_schedules :
      (left : ℕ) (date : Date) (acc : ℤ)
      → Fits D 2 acc
      → acc +ℤ sum_by amount_of (month_schedules D next asset total monthly (suc left) date acc)
        ≡ total
  unfolding month_schedules
  sum-month_schedules zero date acc h =
      rw (rounds.column_sub 2 total acc total_fits h) (omega int_laws)
  sum-month_schedules (suc left) date acc h =
      let more : suc left == 0 ≡ false = ground arith in
      rw (more, monthly_fits)
        (sym (
            +ℤ_assoc acc monthly (
              sum_by amount_of (
                month_schedules D next asset total monthly (suc left) (next date)
                  (acc +ℤ monthly))))
          ∙ sum-month_schedules left (next date) (acc +ℤ monthly) (acc-Fits acc h))

  month_schedules-IsRunning :
      (left : ℕ) (date : Date) (acc : ℤ)
      → Fits D 2 acc
      → IsRunning acc (month_schedules D next asset total monthly left date acc)
  unfolding month_schedules
  month_schedules-IsRunning zero date acc h = tt
  month_schedules-IsRunning (suc left) date acc h =
      let amount = if left == 0 then total -ℤ acc else monthly in
      let whole : Fits D 2 amount = month-Fits left acc h in
      let after : Fits D 2 (acc +ℤ amount) = rounds.column_add 2 acc amount h whole in
      rw (whole, after) (refl, month_schedules-IsRunning left (next date) (acc +ℤ amount) after)

length-month_schedules :
    (D : Decimals) (next : Date → Date) (asset : ℕ) (total monthly : ℤ) (left : ℕ) (date : Date)
    (acc : ℤ)
    → length (month_schedules D next asset total monthly left date acc) ≡ left
unfolding month_schedules
length-month_schedules D next asset total monthly zero date acc = refl
length-month_schedules D next asset total monthly (suc left) date acc =
    let amount = if left == 0 then total -ℤ acc else monthly in
    ap (λ n. suc n)
      (length-month_schedules D next asset total monthly left (next date) (acc +ℤ amount))

-- the ids change neither the amounts nor their number
number_schedules-amounts :
    (id : ℕ) (before : ℤ) (ss : List Schedule)
    → IsRunning before ss
    → (sum_by amount_of (number_schedules id ss) ≡ sum_by amount_of ss)
      × (length (number_schedules id ss) ≡ length ss)
      × IsRunning before (number_schedules id ss)
unfolding number_schedules
number_schedules-amounts id before [] h = (refl, refl, tt)
number_schedules-amounts id before (s ∷ ss) h =
    let (sums, lengths, running) = number_schedules-amounts (id + 1) s.accumulated ss h.1 in
    (ap (λ n. s.amount +ℤ n) sums, ap (λ n. suc n) lengths, (h.0, running))

generate_schedule-eq :
    (D : Decimals) (next : Date → Date) (a : Asset) (db db' : Db)
    → generate_schedule D next a db ≡ (ok tt, db')
    → leb_ℤ (depreciable a) (pos 0) ≡ false
    → db'.schedules
      ≡ number_schedules db.next_id (
          month_schedules D next a.id
            (depreciable a)
            (monthly_amount D next a)
            a.useful_life_months
            a.purchase_date
            (pos 0))
        ++ db.schedules
unfolding generate_schedule
generate_schedule-eq D next a db db' h p = elim (Bool-cases (is_straight_line a.method)) [
  | inr other ↦ absurd (ground arith)
  | inl straight ↦ ap (λ r. r.1.schedules) (sym (rw (straight, p) at h))
]

insert_asset-eq :
    (D : Decimals) (next : Date → Date) (tenant : ℕ) (dto : AssetDto) (db mid : Db) {a : Asset}
    → insert_asset D next tenant dto db ≡ (ok a, mid)
    → (a ≡ new_asset D next tenant dto db) × (mid.schedules ≡ db.schedules)
unfolding insert_asset
insert_asset-eq D next tenant dto db mid {a = a} h = ground arith

-- the rows of a schedule of `months` months
schedule_of :
    (D : Decimals) (rounds : Rounds D) (next : Date → Date) (asset id months : ℕ)
    (total monthly : ℤ) (date : Date)
    → Fits D 2 total
    → Fits D 2 monthly
    → 1 ≤ months
    → let ss =
        number_schedules id (month_schedules D next asset total monthly months date (pos 0)) in
      (length ss ≡ months) × (sum_by amount_of ss ≡ total) × IsRunning (pos 0) ss
schedule_of D rounds next asset id zero total monthly date f g h = absurd (omega arith)
schedule_of D rounds next asset id (suc left) total monthly date f g h =
    let zero_fits = rounds.column_zero 2 in
    let rows = month_schedules D next asset total monthly (suc left) date (pos 0) in
    let running =
      month_schedules-IsRunning D rounds next asset total monthly f g (suc left) date (pos 0)
        zero_fits in
    let (sums, lengths, kept) = number_schedules-amounts id (pos 0) rows running in
    (
      lengths ∙ length-month_schedules D next asset total monthly (suc left) date (pos 0),
      sums
          ∙ sym (zero_+ℤ (sum_by amount_of rows))
          ∙ sum-month_schedules D rounds next asset total monthly f g left date (pos 0) zero_fits,
      kept,
    )

module _ (D : Decimals) (rounds : Rounds D) (next : Date → Date) (tenant : ℕ) (dto : AssetDto)
    (price_fits : Fits D 2 dto.purchase_price) (salvage_fits : Fits D 2 dto.salvage_value) where
  -- An asset that is worth more than its salvage value and has a useful life of at least one month
  -- gets a schedule of as many months as its useful life, whose stored amounts add up to the price
  -- less the salvage value to the cent and whose accumulated amounts are the running sums, where
  -- price and salvage value are in whole cents and a rounding to two places gives whole cents.
  pub create_asset-schedule :
      (db db' : Db) {a : Asset}
      → create_asset D next tenant dto db ≡ (ok a, db')
      → dto.salvage_value +ℤ pos 1 ≤ℤ dto.purchase_price
      → 1 ≤ dto.useful_life_months
      → ((n : ℤ) → Fits D 2 (D.to_decimal_places 2 n))
      → (ss : List Schedule) × (db'.schedules ≡ ss ++ db.schedules)
        × (length ss ≡ dto.useful_life_months)
        × (sum_by amount_of ss ≡ dto.purchase_price -ℤ dto.salvage_value)
        × IsRunning (pos 0) ss
  unfolding create_asset
  create_asset-schedule db db' {a = a} h more months fits =
      let (b, mid, inserted, rest) =
        >>=-eq-ok (insert_asset D next tenant dto) (λ x. generate_schedule D next x >>= λ _. pure x)
          db (rollback_returns db (execute_create_asset D next tenant dto db) h) in
      let (u, last, generated, done) =
        >>=-eq-ok (generate_schedule D next b) (λ _. pure b) mid rest in
      let (made, before) = insert_asset-eq D next tenant dto db mid inserted in
      let total : depreciable b ≡ dto.purchase_price -ℤ dto.salvage_value =
        rw (made, price_fits, salvage_fits) refl in
      let whole : Fits D 2 (depreciable b) =
        rw total
          (rounds.column_sub 2 dto.purchase_price dto.salvage_value price_fits salvage_fits) in
      let life : b.useful_life_months ≡ dto.useful_life_months =
        ap (λ x. x.useful_life_months) made in
      let positive : leb_ℤ (depreciable b) (pos 0) ≡ false = rw total (grind int_laws) in
      let (long, sums, running) =
        schedule_of D rounds next b.id mid.next_id b.useful_life_months (depreciable b)
          (monthly_amount D next b) b.purchase_date whole
          (fits (D.div (depreciable b) (lit D b.useful_life_months))) (rw life months) in
      (
        number_schedules mid.next_id (
            month_schedules D next b.id (depreciable b) (monthly_amount D next b)
              b.useful_life_months b.purchase_date (pos 0)),
        ap (λ r. r.1.schedules) (sym done)
            ∙ generate_schedule-eq D next b mid last generated positive
            ∙ rw before refl,
        long ∙ life,
        sums ∙ total,
        running,
      )
