-- ===== src/Reconciliations/Matching.antt =====
-- The completion of a reconciliation and the calls after it.
use erp_ai_private.Prelude.{
  ℕ, ◌==◌, ◌≡◌, ◌↔◌, refl, ap, ◌∙◌, List, [], ◌∷◌, none, some, true, false, ◌&&◌, arith,
  find-update_sub, select, select-append, is_id, if◌then◌else◌, Option-cases, Bool-cases, inl, inr,
}
use erp_ai_private.Prelude.Int.{
  ℤ, pos, ◌+ℤ◌, ◌-ℤ◌, eq_ℤ, eq_ℤ→eq, eq_ℤ_refl, sum_by, sum_by-append, int_laws,
}
use erp_ai_private.Db.{
  Reconciliation, ReconciliationStatus, draft_reconciliation, reconciled, Line, Entry, Db, ok, err,
  already_reconciled,
}
use erp_ai_private.Journal.Balance.{line_debit, line_credit}
use erp_ai_private.Reconciliations.{
  all_lines, is_reconciled, find_reconciliation, matched_total, set_reconciled, auto_match,
  manual_match, manual_unmatch, complete_reconciliation,
}

-- The sum of an amount over the lines of all entries that are matched to a reconciliation.
abbrev pub matched_by : (Line → ℤ) → ℕ → Line → ℤ
matched_by f id l = elim l.reconciliation [ none ↦ pos 0 | some r ↦ if r == id then f l else pos 0 ]

abbrev pub matched_in : (Line → ℤ) → ℕ → List Entry → ℤ
matched_in f id es = sum_by (λ e. sum_by (matched_by f id) e.lines) es

-- A draft that balances as a bank statement: the opening balance and the matched debits are the
-- closing balance and the matched credits.
abbrev pub IsComplete : ℕ → ℕ → Db → Type 0
IsComplete tenant id db =
    (r : Reconciliation) × (find_reconciliation tenant id db ≡ some r)
    × (r.status ≡ draft_reconciliation)
    × (r.opening_balance +ℤ matched_in line_debit r.id db.entries
        ≡ r.closing_balance +ℤ matched_in line_credit r.id db.entries)

abbrev matched_of : ℕ → List Line → ℤ
matched_of id ls = sum_by (λ l. l.debit -ℤ l.credit) (select (λ l. is_id l.reconciliation id) ls)

matched_of-lines :
    (id : ℕ) (ls : List Line)
    → matched_of id ls
      ≡ sum_by (matched_by line_debit id) ls -ℤ sum_by (matched_by line_credit id) ls
matched_of-lines id [] = omega int_laws
matched_of-lines id (l ∷ ls) = elim (Option-cases l.reconciliation) [
  | inl free ↦ rw free (grind (int_laws, matched_of-lines id ls))
  | inr (r, taken) ↦ elim (Bool-cases (r == id)) [
    | inl own ↦ rw (taken, own) (grind (int_laws, matched_of-lines id ls))
    | inr other ↦ rw (taken, other) (grind (int_laws, matched_of-lines id ls))
  ]
]

matched_of-all_lines :
    (id : ℕ) (es : List Entry)
    → matched_of id (all_lines es) ≡ matched_in line_debit id es -ℤ matched_in line_credit id es
matched_of-all_lines id [] = omega int_laws
matched_of-all_lines id (e ∷ es) =
    let own = matched_of-lines id e.lines in
    let rest = matched_of-all_lines id es in rw (select-append, sum_by-append) (grind int_laws)

matched_total-balance :
    (r : Reconciliation) (db : Db)
    → r.opening_balance +ℤ matched_total r.id db ≡ r.closing_balance
    → r.opening_balance +ℤ matched_in line_debit r.id db.entries
      ≡ r.closing_balance +ℤ matched_in line_credit r.id db.entries
matched_total-balance r db h = let net = matched_of-all_lines r.id db.entries in grind int_laws

balance-matched_total :
    (r : Reconciliation) (db : Db)
    → r.opening_balance +ℤ matched_in line_debit r.id db.entries
      ≡ r.closing_balance +ℤ matched_in line_credit r.id db.entries
    → r.opening_balance +ℤ matched_total r.id db ≡ r.closing_balance
balance-matched_total r db h = let net = matched_of-all_lines r.id db.entries in grind int_laws

status_draft : (s : ReconciliationStatus) → is_reconciled s ≡ false → s ≡ draft_reconciliation
status_draft draft_reconciliation h = refl
status_draft reconciled h = cc

complete_reconciliation-IsComplete :
    (tenant id user : ℕ) (db : Db)
    → (complete_reconciliation tenant id user db).0 ≡ ok tt
    → IsComplete tenant id db
unfolding complete_reconciliation
complete_reconciliation-IsComplete tenant id user db h =
    elim (Option-cases (find_reconciliation tenant id db)) [
      | inl missing ↦ absurd (ground arith)
      | inr (r, found) ↦ elim (Bool-cases (is_reconciled r.status)) [
        | inl done ↦ absurd (ground arith)
        | inr draft ↦
            elim (Bool-cases
              (eq_ℤ (r.opening_balance +ℤ matched_total r.id db) r.closing_balance)) [
                | inl even ↦ (
                  r,
                  found,
                  status_draft r.status draft,
                  matched_total-balance r db
                      (eq_ℤ→eq (r.opening_balance +ℤ matched_total r.id db) r.closing_balance even),
                )
                | inr odd ↦ absurd (ground arith)
              ]
      ]
    ]

IsComplete-complete_reconciliation :
    (tenant id user : ℕ) (db : Db)
    → IsComplete tenant id db
    → (complete_reconciliation tenant id user db).0 ≡ ok tt
unfolding complete_reconciliation
IsComplete-complete_reconciliation tenant id user db (r, found, draft, even) =
    let total = balance-matched_total r db even in
    let open_draft : is_reconciled r.status ≡ false = ap is_reconciled draft in
    let same = ap (λ b. eq_ℤ b r.closing_balance) total ∙ eq_ℤ_refl r.closing_balance in
    ground arith

-- A reconciliation can be completed exactly if the tenant has it as a draft and its opening balance
-- with the debits of the journal lines that are matched to it equals its closing balance with their
-- credits.
pub complete_reconciliation_iff :
    (tenant id user : ℕ) (db : Db)
    → ((complete_reconciliation tenant id user db).0 ≡ ok tt) ↔ IsComplete tenant id db
complete_reconciliation_iff tenant id user db = (
  complete_reconciliation-IsComplete tenant id user db,
  IsComplete-complete_reconciliation tenant id user db,
)

-- Every change is refused, and changes nothing.
abbrev pub IsFrozen : ℕ → ℕ → Db → Type 0
IsFrozen tenant id db =
    (auto_match tenant id db ≡ (err already_reconciled, db))
    × ((ids : List ℕ) → manual_match tenant id ids db ≡ (err already_reconciled, db))
    × ((ids : List ℕ) → manual_unmatch tenant id ids db ≡ (err already_reconciled, db))
    × ((user : ℕ) → complete_reconciliation tenant id user db ≡ (err already_reconciled, db))

find_reconciliation-set_reconciled :
    (tenant id user : ℕ) (db : Db) {r : Reconciliation}
    → find_reconciliation tenant id db ≡ some r
    → find_reconciliation tenant id (set_reconciled id user db)
      ≡ some (record r { status = reconciled; reconciled_by = some user })
find_reconciliation-set_reconciled tenant id user db found =
    find-update_sub (λ r. r.id == id && r.tenant == tenant) (λ r. r.id == id)
      (λ r. record r { status = reconciled; reconciled_by = some user }) db.reconciliations
      (λ r. refl) (λ r e. ground arith)
    ∙ rw found refl

reconciled-IsFrozen :
    (tenant id : ℕ) (db : Db) {r : Reconciliation}
    → find_reconciliation tenant id db ≡ some r
    → is_reconciled r.status ≡ true
    → IsFrozen tenant id db
unfolding auto_match manual_match manual_unmatch complete_reconciliation
reconciled-IsFrozen tenant id db found done =
    (ground arith, (λ ids. ground arith), (λ ids. ground arith), λ user. ground arith)

-- Once a reconciliation is completed, it is neither matched nor unmatched nor completed again.
pub complete_reconciliation-IsFrozen :
    (tenant id user : ℕ) (db db' : Db)
    → complete_reconciliation tenant id user db ≡ (ok tt, db')
    → IsFrozen tenant id db'
unfolding complete_reconciliation
complete_reconciliation-IsFrozen tenant id user db db' h =
    elim (Option-cases (find_reconciliation tenant id db)) [
      | inl missing ↦ absurd (ground arith)
      | inr (r, found) ↦
          let set : db' ≡ set_reconciled id user db = ground arith in
          reconciled-IsFrozen tenant id db'
            (ap (find_reconciliation tenant id) set
              ∙ find_reconciliation-set_reconciled tenant id user db found)
            refl
    ]
