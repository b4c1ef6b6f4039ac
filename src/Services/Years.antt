-- ===== src/Services/Years.antt =====
-- Properties of the journal entries that the creation of a fiscal year keeps.
use erp_ai_private.Prelude.{ℕ, List, [], ◌∷◌, Bool-cases, inl, inr, arith}
use erp_ai_private.Db.{Date, Period, Entry, FiscalYear, pure, ◌>>=◌}
use erp_ai_private.Db.{ltb_date}
use erp_ai_private.Periods.Years.{
  YearDto, has_year, month_periods, end_last, insert_year, insert_period, insert_periods,
  execute_create_year, create_year, whole_year, numbered_periods, execute_initialize,
  initialize_fiscal_year,
}
use erp_ai_private.Services.Keeps.{Keeps, >>=-Keeps, rollback-Keeps}

module _ (Q : List Entry → Type 0) where
  insert_period-Keeps : (p : Period) → Keeps Q (insert_period p)
  unfolding insert_period
  insert_period-Keeps p db h = ground arith

  insert_periods-Keeps : (ps : List Period) → Keeps Q (insert_periods ps)
  unfolding insert_periods
  insert_periods-Keeps [] db h = h
  insert_periods-Keeps (p ∷ ps) db h =
      >>=-Keeps Q (insert_period p) (λ _. insert_periods ps) (insert_period-Keeps p)
        (λ _. insert_periods-Keeps ps) db h

  insert_year-Keeps : (tenant : ℕ) (dto : YearDto) → Keeps Q (insert_year tenant dto)
  unfolding insert_year
  insert_year-Keeps tenant dto db h = ground arith

  -- a year with its periods
  year_then-Keeps :
      (tenant : ℕ) (dto : YearDto) (rows : FiscalYear → List Period)
      → Keeps Q (insert_year tenant dto >>= λ y. insert_periods (rows y) >>= λ _. pure y)
  year_then-Keeps tenant dto rows =
      >>=-Keeps Q (insert_year tenant dto) (λ y. insert_periods (rows y) >>= λ _. pure y)
        (insert_year-Keeps tenant dto)
        (λ y.
          >>=-Keeps Q (insert_periods (rows y)) (λ _. pure y) (insert_periods-Keeps (rows y))
            (λ _ db h. h))

  pub create_year-Keeps : (tenant : ℕ) (dto : YearDto) → Keeps Q (create_year tenant dto)
  unfolding create_year
  create_year-Keeps tenant dto db h =
      let rows : FiscalYear → List Period =
        λ y. end_last dto.end_date (month_periods 12 tenant y.id dto.start_date dto.end_date) in
      let kept =
        rollback-Keeps Q db (execute_create_year tenant dto db) h
          (year_then-Keeps tenant dto rows db h) in
      elim (Bool-cases (ltb_date dto.start_date dto.end_date)) [
        | inr wrong ↦ rw wrong h
        | inl order ↦ elim (Bool-cases (has_year tenant dto.name db)) [
          | inl taken ↦ rw (order, taken) h
          | inr free ↦ rw (order, free) kept
        ]
      ]

  pub initialize_fiscal_year-Keeps :
      (local_month_end : ℕ → ℕ → Date) (tenant y : ℕ)
      → Keeps Q (initialize_fiscal_year local_month_end tenant y)
  unfolding initialize_fiscal_year
  initialize_fiscal_year-Keeps local_month_end tenant y db h =
      rollback-Keeps Q db (execute_initialize local_month_end tenant y db) h (
        year_then-Keeps tenant (whole_year y)
          (λ f. numbered_periods local_month_end 12 tenant f.id y) db h)
