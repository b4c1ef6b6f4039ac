-- ===== src/Periods/Tiling.antt =====
-- The periods of a fiscal year that FiscalYearsService creates, as a division of its dates.
use erp_ai_private.Prelude.{
  ℕ, zero, suc, ◌+◌, ◌≤◌, ◌==◌, ◌≡◌, refl, inl, inr, ◌∙◌, ap, sym, List, [], ◌∷◌, some, Bool, true,
  false, ◌&&◌, arith, count, find, find-true, All, All-find, Bool-cases,
}
use erp_ai_private.Db.{
  Period, FiscalYear, Date, leb_date, ltb_date, Db, ok, err, Error, ◌>>=◌, >>=-eq-ok, open_period,
  rollback_returns, pure, rollback_refused,
}
use erp_ai_private.Periods.{covers, find_active_period_by_date}
use erp_ai_private.Periods.Calendar.{
  IsDate, next_month, next_month-later, leb_date-before, within, one_if, within_split,
}
use erp_ai_private.Periods.Years.{
  YearDto, has_year, insert_year, month_periods, end_last, insert_period, insert_periods,
  execute_create_year, create_year,
}

split_months :
    (tenant t : ℕ) (a n e d : Date)
    → ltb_date a n ≡ true
    → ltb_date e n ≡ false
    → one_if (tenant == t && (leb_date a d && ltb_date d n)) + one_if (tenant == t && within n e d)
      ≡ one_if (tenant == t && within a e d)
split_months tenant t a n e d h k = elim (Bool-cases (tenant == t)) [
  | inl own ↦ rw own (within_split a n e d h k)
  | inr other ↦ rw other refl
]

-- The periods of the loop, with the last one's end, divide the rest of the year.
count-month_periods :
    (k t tenant year : ℕ) (start end d : Date)
    → IsDate d
    → ltb_date end start ≡ false
    → count (covers t d) (end_last end (month_periods (suc k) tenant year start end))
      ≡ one_if (tenant == t && within start end d)
unfolding month_periods end_last
count-month_periods zero t tenant year start end d h s =
    elim (Bool-cases (ltb_date end (next_month start))) [
      | inl over ↦ rw over (ground arith)
      | inr on ↦ rw on (ground arith)
    ]
count-month_periods (suc k) t tenant year start end d h s =
    elim (Bool-cases (ltb_date end (next_month start))) [
      | inl over ↦ rw over (ground arith)
      | inr on ↦
          rw
            (
              on,
              count-month_periods k t tenant year (next_month start) end d h on,
              leb_date-before d start (next_month start) h (next_month-later start),
            )
            (split_months tenant t start (next_month start) end d (next_month-later start) on)
    ]

insert_period-periods :
    (p : Period) (db db' : Db)
    → insert_period p db ≡ (ok tt, db')
    → db'.periods ≡ record p { id = db.next_id } ∷ db.periods
unfolding insert_period
insert_period-periods p db db' h = ground arith

pub count-insert_periods :
    (t : ℕ) (d : Date) (ps : List Period) (db db' : Db)
    → insert_periods ps db ≡ (ok tt, db')
    → count (covers t d) db'.periods ≡ count (covers t d) ps + count (covers t d) db.periods
unfolding insert_periods
count-insert_periods t d [] db db' h = ground arith
count-insert_periods t d (p ∷ ps) db db' h =
    let (u, mid, first, rest) = >>=-eq-ok (insert_period p) (λ _. insert_periods ps) db h in
    count-insert_periods t d ps mid db' rest
    ∙ rw (insert_period-periods p db mid first) (omega arith)

create_year-ran :
    (tenant : ℕ) (dto : YearDto) (db db' : Db) {y : FiscalYear}
    → create_year tenant dto db ≡ (ok y, db')
    → (ltb_date dto.start_date dto.end_date ≡ true)
      × (has_year tenant dto.name db ≡ false)
      × (execute_create_year tenant dto db ≡ (ok y, db'))
unfolding create_year
create_year-ran tenant dto db db' {y = y} h =
    elim (Bool-cases (ltb_date dto.start_date dto.end_date)) [
      | inr wrong ↦ absurd (ground arith)
      | inl order ↦ elim (Bool-cases (has_year tenant dto.name db)) [
        | inl taken ↦ absurd (ground arith)
        | inr free ↦ (
          order,
          free,
          rollback_returns db (execute_create_year tenant dto db) (rw (order, free) at h),
        )
      ]
    ]

insert_year-eq :
    (tenant : ℕ) (dto : YearDto) (db mid : Db) {y : FiscalYear}
    → insert_year tenant dto db ≡ (ok y, mid)
    → (mid.periods ≡ db.periods)
      × (mid.fiscal_years ≡ y ∷ db.fiscal_years)
      × (y.name ≡ dto.name)
      × (y.tenant ≡ tenant)
unfolding insert_year
insert_year-eq tenant dto db mid {y = y} h = ground arith

-- The steps of a creation that returns.
create_year-steps :
    (tenant : ℕ) (dto : YearDto) (db db' : Db) {y : FiscalYear}
    → create_year tenant dto db ≡ (ok y, db')
    → (ltb_date dto.start_date dto.end_date ≡ true)
      × (mid : Db) × (mid.periods ≡ db.periods)
      × (insert_periods
            (end_last dto.end_date (month_periods 12 tenant y.id dto.start_date dto.end_date))
            mid
          ≡ (ok tt, db'))
create_year-steps tenant dto db db' {y = y} h =
    let rows : FiscalYear → List Period =
      λ f. end_last dto.end_date (month_periods 12 tenant f.id dto.start_date dto.end_date) in
    let (order, free, ran) = create_year-ran tenant dto db db' h in
    let (f, mid, made, rest) =
      >>=-eq-ok (insert_year tenant dto) (λ f. insert_periods (rows f) >>= λ _. pure f) db ran in
    let (u, last, inserted, done) = >>=-eq-ok (insert_periods (rows f)) (λ _. pure f) mid rest in
    let same : f ≡ y = ground arith in
    let ended : last ≡ db' = ground arith in
    (
      order,
      mid,
      (insert_year-eq tenant dto db mid made).0,
      (λ i. insert_periods (rows (sym same i)) mid) ∙ inserted ∙ ground arith,
    )

-- The creation of a fiscal year adds, for each instant from its start to its end, exactly one
-- period that holds it, and none for any other instant.
pub create_year-count :
    (tenant t : ℕ) (dto : YearDto) (d : Date) (db db' : Db) {y : FiscalYear}
    → create_year tenant dto db ≡ (ok y, db')
    → IsDate d
    → count (covers t d) db'.periods
      ≡ one_if (tenant == t && within dto.start_date dto.end_date d) + count (covers t d) db.periods
create_year-count tenant t dto d db db' {y = y} h v =
    let (order, mid, same, ran) = create_year-steps tenant dto db db' h in
    count-insert_periods t d
      (end_last dto.end_date (month_periods 12 tenant y.id dto.start_date dto.end_date)) mid db' ran
    ∙ rw (same, count-month_periods 11 t tenant y.id dto.start_date dto.end_date d v (ground arith))
        refl

-- What holds of every period that covers the date.
abbrev Covering : (Period → Type 0) → ℕ → Date → List Period → Type 0
Covering P t d ps = All (λ p. covers t d p ≡ true → P p) ps

count-Covering :
    (P : Period → Type 0) (t : ℕ) (d : Date) (ps : List Period)
    → count (covers t d) ps ≡ 0
    → Covering P t d ps
count-Covering P t d [] h = tt
count-Covering P t d (p ∷ ps) h =
    (λ c. absurd (ground arith), count-Covering P t d ps (ground arith))

-- an open period of the fiscal year
abbrev IsOpenOf : ℕ → Period → Type 0
IsOpenOf year p = (p.status ≡ open_period) × (p.fiscal_year ≡ year)

month_periods-IsOpenOf :
    (k tenant year : ℕ) (start end : Date)
    → All (IsOpenOf year) (month_periods k tenant year start end)
unfolding month_periods
month_periods-IsOpenOf zero tenant year start end = tt
month_periods-IsOpenOf (suc k) tenant year start end =
    elim (Bool-cases (ltb_date end (next_month start))) [
      | inl over ↦ rw over ((refl, refl), tt)
      | inr on ↦ rw on ((refl, refl), month_periods-IsOpenOf k tenant year (next_month start) end)
    ]

end_last-IsOpenOf :
    (year : ℕ) (end : Date) (ps : List Period)
    → All (IsOpenOf year) ps
    → All (IsOpenOf year) (end_last end ps)
unfolding end_last
end_last-IsOpenOf year end [] h = tt
end_last-IsOpenOf year end (p ∷ []) h = h
end_last-IsOpenOf year end (p ∷ q ∷ ps) h = (h.0, end_last-IsOpenOf year end (q ∷ ps) h.1)

insert_periods-Covering :
    (year t : ℕ) (d : Date) (ps : List Period) (db db' : Db)
    → All (IsOpenOf year) ps
    → insert_periods ps db ≡ (ok tt, db')
    → Covering (IsOpenOf year) t d db.periods
    → Covering (IsOpenOf year) t d db'.periods
unfolding insert_periods
insert_periods-Covering year t d [] db db' h e k = rw (ap (λ r. r.1.periods) e) at k
insert_periods-Covering year t d (p ∷ ps) db db' h e k =
    let (u, mid, first, rest) = >>=-eq-ok (insert_period p) (λ _. insert_periods ps) db e in
    insert_periods-Covering year t d ps mid db' h.1 rest
      (rw (insert_period-periods p db mid first) ((λ c. h.0), k))

find-count :
    (p : Period → Bool) (ps : List Period) → 1 ≤ count p ps → (q : Period) × (find p ps ≡ some q)
find-count p [] h = absurd (omega arith)
find-count p (q ∷ qs) h = elim (Bool-cases (p q)) [
  | inl taken ↦ (q, rw taken refl)
  | inr passed ↦ let (r, found) = find-count p qs (ground arith) in (r, rw passed found)
]

-- If all periods that cover the date are open ones of a year, one of them is found for it.
found_open :
    (db : Db) (tenant year : ℕ) (d : Date)
    → Covering (IsOpenOf year) tenant d db.periods
    → (q : Period) × (find (covers tenant d) db.periods ≡ some q)
    → (p : Period) × (find_active_period_by_date db tenant d ≡ ok p) × (p.fiscal_year ≡ year)
unfolding find_active_period_by_date
found_open db tenant year d k (p, found) =
    let (is_open, of_year) =
      All-find (λ q. covers tenant d q ≡ true → IsOpenOf year q) (covers tenant d) db.periods k
        found (find-true (covers tenant d) db.periods found) in
    (p, ground arith, of_year)

-- After the creation of a fiscal year every instant from its start to its end that no period of the
-- tenant held before may be posted to: the period that is found for it is of the new year.
pub create_year-find_active_period_by_date :
    (tenant : ℕ) (dto : YearDto) (d : Date) (db db' : Db) {y : FiscalYear}
    → create_year tenant dto db ≡ (ok y, db')
    → IsDate d
    → within dto.start_date dto.end_date d ≡ true
    → count (covers tenant d) db.periods ≡ 0
    → (p : Period) × (find_active_period_by_date db' tenant d ≡ ok p) × (p.fiscal_year ≡ y.id)
create_year-find_active_period_by_date tenant dto d db db' {y = y} h v inside none_before =
    let (order, mid, same, ran) = create_year-steps tenant dto db db' h in
    let rows = month_periods 12 tenant y.id dto.start_date dto.end_date in
    let many : 1 ≤ count (covers tenant d) db'.periods =
      rw (create_year-count tenant tenant dto d db db' h v, inside) (ground arith) in
    let opened =
      insert_periods-Covering y.id tenant d (end_last dto.end_date rows) mid db'
        (end_last-IsOpenOf y.id dto.end_date rows
          (month_periods-IsOpenOf 12 tenant y.id dto.start_date dto.end_date))
        ran (rw same (count-Covering (IsOpenOf y.id) tenant d db.periods none_before)) in
    found_open db' tenant y.id d opened (find-count (covers tenant d) db'.periods many)

-- A refused creation of a fiscal year leaves the database as it was.
pub create_year_refused :
    (tenant : ℕ) (dto : YearDto) (db db' : Db) {x : Error}
    → create_year tenant dto db ≡ (err x, db')
    → db' ≡ db
unfolding create_year
create_year_refused tenant dto db db' h =
    ground (arith, rollback_refused db (execute_create_year tenant dto db))
