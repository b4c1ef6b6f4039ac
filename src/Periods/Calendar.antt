-- ===== src/Periods/Calendar.antt =====
-- The UTC calendar of JavaScript's `Date`, as far as FiscalYearsService uses it: months of a year,
-- `setUTCMonth` to the month after, and one millisecond earlier.
use erp_ai_private.Prelude.{
  ℕ, zero, suc, ◌+◌, ◌-◌, ◌*◌, ◌/◌, ◌%◌, ◌≤◌, ◌<◌, ◌==◌, ltb, leb, ◌≡◌, refl, sym, List, [], ◌∷◌,
  Bool, true, false, ◌&&◌, ◌||◌, not, arith, All, length, Bool-cases, inl, inr, if◌then◌else◌,
}
use erp_ai_private.Db.{Date, leb_date, ltb_date}

abbrev pub day_ms : ℕ
day_ms = 86400000

abbrev pub is_leap : ℕ → Bool
is_leap y = y % 4 == 0 && (not (y % 100 == 0) || y % 400 == 0)

unfoldable pub month_lengths : ℕ → List ℕ
month_lengths y =
    31 ∷ (if is_leap y then 29 else 28) ∷ 31 ∷ 30 ∷ 31 ∷ 30 ∷ 31 ∷ 31 ∷ 30 ∷ 31 ∷ 30 ∷ 31 ∷ []

unfoldable pub year_days : ℕ → ℕ
year_days y = if is_leap y then 366 else 365

-- A day of the year as a month and a day of it, both from 0.
unfoldable pub month_day : List ℕ → ℕ → ℕ × ℕ
month_day [] d = (0, d)
month_day (n ∷ ns) d = let (m, r) = month_day ns (d - n) in if ltb d n then (0, d) else (suc m, r)

-- the day of the year on which a month starts
unfoldable pub month_start : List ℕ → ℕ → ℕ
month_start ns zero = 0
month_start [] (suc m) = 0
month_start (n ∷ ns) (suc m) = n + month_start ns m

abbrev pub month_of : Date → ℕ
month_of d = (month_day (month_lengths d.year) (d.ms / day_ms)).0

-- `d.setUTCMonth(d.getUTCMonth() + 1)`: the same day and time in the month after. A day that this
-- month does not have runs over into the month that follows it.
unfoldable pub next_month : Date → Date
next_month d =
    let ns = month_lengths d.year in
    let (m, r) = month_day ns (d.ms / day_ms) in
    if ltb m 11
    then record { year = d.year; ms = (month_start ns (m + 1) + r) * day_ms + d.ms % day_ms }
    else record { year = d.year + 1; ms = r * day_ms + d.ms % day_ms }

-- `d.setUTCMilliseconds(d.getUTCMilliseconds() - 1)`
unfoldable pub millisecond_before : Date → Date
millisecond_before d =
    if d.ms == 0
    then record { year = d.year - 1; ms = year_days (d.year - 1) * day_ms - 1 }
    else record { year = d.year; ms = d.ms - 1 }

-- The instant lies in its year.
abbrev pub IsDate : Date → Type 0
IsDate d = d.ms < year_days d.year * day_ms

month_day-start : (ns : List ℕ) (d : ℕ) → month_start ns (month_day ns d).0 + (month_day ns d).1 ≡ d
unfolding month_day month_start
month_day-start [] d = omega arith
month_day-start (n ∷ ns) d = ground (arith, month_day-start ns (d - n))

month_start-next :
    (ns : List ℕ) (m : ℕ)
    → All (λ n. 1 ≤ n) ns
    → m < length ns
    → month_start ns m < month_start ns (m + 1)
unfolding month_start
month_start-next [] m h k = absurd (omega arith)
month_start-next (n ∷ ns) zero h k = ground arith
month_start-next (n ∷ ns) (suc m) h k = ground (arith, month_start-next ns m h.1)

month_lengths-positive : (y : ℕ) → All (λ n. 1 ≤ n) (month_lengths y)
unfolding month_lengths
month_lengths-positive y = ground arith

month_lengths-length : (y : ℕ) → length (month_lengths y) ≡ 12
unfolding month_lengths
month_lengths-length y = refl

year_days-positive : (y : ℕ) → 1 ≤ year_days y
unfolding year_days
year_days-positive y = ground arith

-- the instant of a day of the year at a time of the day
at_later : (t t' a : ℕ) → t + 1 ≤ t' → t * day_ms + a < t' * day_ms + a
at_later t t' a h = omega arith

-- `setUTCMonth` goes forward.
pub next_month-later : (d : Date) → ltb_date d (next_month d) ≡ true
unfolding next_month
next_month-later d =
    let ns = month_lengths d.year in
    let day = d.ms / day_ms in
    let same : day * day_ms + d.ms % day_ms ≡ d.ms = omega arith in
    let placed = month_day-start ns day in
    elim (Bool-cases (ltb (month_day ns day).0 11)) [
      | inl early ↦
          let short : (month_day ns day).0 < length ns = rw month_lengths-length (ground arith) in
          let further =
            month_start-next ns (month_day ns day).0 (month_lengths-positive d.year) short in
          let after : day + 1 ≤ month_start ns ((month_day ns day).0 + 1) + (month_day ns day).1 =
            omega arith in
          let later =
            at_later day (month_start ns ((month_day ns day).0 + 1) + (month_day ns day).1)
              (d.ms % day_ms) after in
          rw early (ground arith)
      | inr late ↦ rw late (ground arith)
    ]

-- the last millisecond of a year
leb_date-last :
    (d : Date) (y : ℕ)
    → IsDate d
    → leb_date d (record { year = y; ms = year_days y * day_ms - 1 }) ≡ leb d.year y
leb_date-last d y h = elim (Bool-cases (d.year == y)) [
  | inl same ↦
      let years : d.year ≡ y = ground arith in
      let within : d.ms < year_days y * day_ms = rw (sym years) h in
      rw same (ground (arith, within))
  | inr other ↦ rw other (ground arith)
]

-- Up to a millisecond before an instant is before it.
pub leb_date-before :
    (d c n : Date)
    → IsDate d
    → ltb_date c n ≡ true
    → leb_date d (millisecond_before n) ≡ ltb_date d n
unfolding millisecond_before
leb_date-before d c n h k = elim (Bool-cases (n.ms == 0)) [
  | inl first ↦
      let later : 1 ≤ n.year = ground arith in
      rw (first, leb_date-last d (n.year - 1) h) (ground arith)
  | inr within ↦ rw within (ground arith)
]

-- `setUTCHours(0, 0, 0, 0)` and `setUTCHours(23, 59, 59, 999)`
abbrev pub start_of_day : Date → Date
start_of_day d = record { year = d.year; ms = d.ms - d.ms % day_ms }

abbrev pub end_of_day : Date → Date
end_of_day d = record { year = d.year; ms = d.ms - d.ms % day_ms + 86399999 }

-- so many milliseconds later, for less than a year
unfoldable pub milliseconds_after : ℕ → Date → Date
milliseconds_after n d =
    if ltb (d.ms + n) (year_days d.year * day_ms)
    then record { year = d.year; ms = d.ms + n }
    else record { year = d.year + 1; ms = d.ms + n - year_days d.year * day_ms }

-- the instant lies between two others, both included
abbrev pub within : Date → Date → Date → Bool
within start end d = leb_date start d && leb_date d end

abbrev pub one_if : Bool → ℕ
one_if c = if c then 1 else 0

-- before a later instant, or from it on
pub within_split :
    (a n e d : Date)
    → ltb_date a n ≡ true
    → ltb_date e n ≡ false
    → one_if (leb_date a d && ltb_date d n) + one_if (within n e d) ≡ one_if (within a e d)
within_split a n e d h k = ground arith
