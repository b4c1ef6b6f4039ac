-- ===== src/Periods/Closing.antt =====
-- Which dates may be posted to, and the closing of a fiscal year.
use erp_ai_private.Prelude.{
  ℕ, ◌==◌, ◌≡◌, ◌≢◌, inl, inr, refl, true, arith, find, find-true, find-update, Option-cases,
}
use erp_ai_private.Db.{closed_period, Period, Date, leb_date, Db, ok, err, Error, year_closed}
use erp_ai_private.Periods.{covers, find_active_period_by_date, unclosed, close}

-- A period that is found for posting belongs to the tenant, holds the date and is not closed.
pub find_active_period_by_date-covers :
    (db : Db) (tenant : ℕ) (date : Date) {p : Period}
    → find_active_period_by_date db tenant date ≡ ok p
    → (p.tenant ≡ tenant)
      × (leb_date p.start_date date ≡ true)
      × (leb_date date p.end_date ≡ true)
      × (p.status ≢ closed_period)
unfolding find_active_period_by_date
find_active_period_by_date-covers db tenant date {p = p} h =
    elim (Option-cases (find (covers tenant date) db.periods)) [
      | inl none_found ↦ absurd (ground arith)
      | inr (q, found) ↦ ground (arith, find-true (covers tenant date) db.periods found)
    ]

-- When `close` returns, every period of the fiscal year is closed, and closing the year again is
-- refused and changes nothing.
pub close-periods :
    (tenant id : ℕ) (db : Db)
    → (close tenant id db).0 ≡ ok tt
    → (unclosed id (close tenant id db).1.periods ≡ 0)
      × (close tenant id (close tenant id db).1 ≡ (err year_closed, (close tenant id db).1))
unfolding close
close-periods tenant id db h = elim (Option-cases (find (λ y. y.id == id) db.fiscal_years)) [
  | inl missing ↦ absurd (ground arith)
  | inr (y, found) ↦ (
    ground arith,
    ground (
      arith,
      find-update (λ f. f.id == id) (λ f. record f { status = closed_period }) db.fiscal_years
          (λ f. refl),
    ),
  )
]

-- A refused closing leaves the database as it was.
pub close_refused :
    (tenant id : ℕ) (db db' : Db) {x : Error} → close tenant id db ≡ (err x, db') → db' ≡ db
unfolding close
close_refused tenant id db db' h = ground arith
