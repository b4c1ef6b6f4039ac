-- ===== src/Journal/Balance.antt =====
-- The debits and credits of a request to `create` and of the entry that is stored.
use erp_ai_private.Prelude.{
  ℕ, ◌+◌, ◌≤◌, ◌≡◌, refl, ◌⊎◌, inl, inr, List, [], ◌∷◌, arith, length, All,
}
use erp_ai_private.Prelude.Int.{ℤ, pos, ◌+ℤ◌, ◌≤ℤ◌, sum_by, +ℤ_zero, +ℤ_assoc}
use erp_ai_private.Decimal.{Decimals, Rounds, IsCents}
use erp_ai_private.Db.{Line, Entry, Db, ok, Date, Period, Account, Result-cases}
use erp_ai_private.Accounts.{validate_account_for_posting}
use erp_ai_private.Periods.{find_active_period_by_date}
use erp_ai_private.Journal.{amount, LineDto, EntryDto, check_line, check_lines, store_lines}

abbrev pub debit_of : LineDto → ℤ
debit_of l = amount l.debit

abbrev pub credit_of : LineDto → ℤ
credit_of l = amount l.credit

-- What the loop of `create` asks of a line.
pub record IsPostable (db : Db) (tenant : ℕ) (l : LineDto) : Type 0 where
  pub debit_nonneg : pos 0 ≤ℤ debit_of l
  pub credit_nonneg : pos 0 ≤ℤ credit_of l
  pub one_side : (debit_of l ≡ pos 0) ⊎ (credit_of l ≡ pos 0)
  pub account : Account
  pub account_ok : validate_account_for_posting db tenant l.account ≡ ok account

pub check_line-IsPostable :
    (db : Db) (tenant : ℕ) (t u : ℤ × ℤ) (l : LineDto)
    → check_line db tenant t l ≡ ok u
    → IsPostable db tenant l × (u ≡ (t.0 +ℤ debit_of l, t.1 +ℤ credit_of l))
unfolding check_line
check_line-IsPostable db tenant t u l h =
    elim (Result-cases (validate_account_for_posting db tenant l.account)) [
      | inl (a, e) ↦ (
        record {
          debit_nonneg = ground arith;
          credit_nonneg = ground arith;
          one_side = ground arith;
          account = a;
          account_ok = e;
        },
        ground arith,
      )
      | inr (x, e) ↦ absurd (ground arith)
    ]

pub IsPostable-check_line :
    (db : Db) (tenant : ℕ) (t : ℤ × ℤ) (l : LineDto)
    → IsPostable db tenant l
    → check_line db tenant t l ≡ ok (t.0 +ℤ debit_of l, t.1 +ℤ credit_of l)
unfolding check_line
IsPostable-check_line db tenant t l h = ground arith

pub check_lines-IsPostable :
    (db : Db) (tenant : ℕ) (t u : ℤ × ℤ) (ls : List LineDto)
    → check_lines db tenant t ls ≡ ok u
    → All (IsPostable db tenant) ls × (u ≡ (t.0 +ℤ sum_by debit_of ls, t.1 +ℤ sum_by credit_of ls))
unfolding check_lines
check_lines-IsPostable db tenant t u [] h = (tt, ground (arith, +ℤ_zero t.0, +ℤ_zero t.1))
check_lines-IsPostable db tenant t u (l ∷ ls) h = elim (Result-cases (check_line db tenant t l)) [
  | inl (v, e) ↦
      let (good, total) = check_line-IsPostable db tenant t v l e in
      let (rest, sums) = check_lines-IsPostable db tenant v u ls (rw e at h) in
      ((good, rest), rw (sums, total, +ℤ_assoc, +ℤ_assoc))
  | inr (x, e) ↦ absurd (ground arith)
]

pub IsPostable-check_lines :
    (db : Db) (tenant : ℕ) (t : ℤ × ℤ) (ls : List LineDto)
    → All (IsPostable db tenant) ls
    → check_lines db tenant t ls ≡ ok (t.0 +ℤ sum_by debit_of ls, t.1 +ℤ sum_by credit_of ls)
unfolding check_lines
IsPostable-check_lines db tenant t [] h = rw (+ℤ_zero, +ℤ_zero)
IsPostable-check_lines db tenant t (l ∷ ls) h = rw (IsPostable-check_line db tenant t l h.0) (
    rw (IsPostable-check_lines db tenant (t.0 +ℤ debit_of l, t.1 +ℤ credit_of l) ls h.1)
      (rw (+ℤ_assoc, +ℤ_assoc)))

-- What `create` asks of a request.
pub record IsAcceptable (db : Db) (tenant : ℕ) (dto : EntryDto) : Type 0 where
  pub two_lines : 2 ≤ length dto.lines
  pub period : Period
  pub period_ok : find_active_period_by_date db tenant dto.entry_date ≡ ok period
  pub lines_ok : All (IsPostable db tenant) dto.lines
  pub balanced : sum_by debit_of dto.lines ≡ sum_by credit_of dto.lines

-- What a stored line looks like, and a balanced entry.
pub record IsLine (l : Line) : Type 0 where
  pub debit_nonneg : pos 0 ≤ℤ l.debit
  pub credit_nonneg : pos 0 ≤ℤ l.credit
  pub one_side : (l.debit ≡ pos 0) ⊎ (l.credit ≡ pos 0)

abbrev pub line_debit : Line → ℤ
line_debit l = l.debit

abbrev pub line_credit : Line → ℤ
line_credit l = l.credit

abbrev pub IsBalanced : Entry → Type 0
IsBalanced e = sum_by line_debit e.lines ≡ sum_by line_credit e.lines

-- Every amount of the request has at most two decimal places.
abbrev pub InCents : Decimals → LineDto → Type 0
InCents D l = IsCents D (debit_of l) × IsCents D (credit_of l)

module _ (D : Decimals) where
  pub sum-store_lines :
      (tenant : ℕ) (now : Date) (id : ℕ) (ls : List LineDto)
      → All (InCents D) ls
      → (sum_by line_debit (store_lines D tenant now id ls) ≡ sum_by debit_of ls)
        × (sum_by line_credit (store_lines D tenant now id ls) ≡ sum_by credit_of ls)
  unfolding store_lines
  sum-store_lines tenant now id [] h = (refl, refl)
  sum-store_lines tenant now id (l ∷ ls) h =
      ground (arith, sum-store_lines tenant now (id + 1) ls h.1)

  pub store_lines-IsLine :
      (db : Db) (tenant : ℕ) (now : Date) (id : ℕ) (ls : List LineDto)
      → Rounds D
      → All (IsPostable db tenant) ls
      → All IsLine (store_lines D tenant now id ls)
  unfolding store_lines
  store_lines-IsLine db tenant now id [] r h = tt
  store_lines-IsLine db tenant now id (l ∷ ls) r h = (
    ground
        (arith, r.column_zero 2, r.column_nonneg 2 (debit_of l), r.column_nonneg 2 (credit_of l)),
    store_lines-IsLine db tenant now (id + 1) ls r h.1,
  )
