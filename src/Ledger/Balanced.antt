-- ===== src/Ledger/Balanced.antt =====
-- The totals of `getTrialBalance` over double entries.
use erp_ai_private.Prelude.{
  ℕ, ◌==◌, ◌≡◌, refl, inl, inr, Bool-cases, ◌∙◌, List, [], ◌∷◌, Option, some, Bool, true, ◌&&◌,
  arith, All, count, find, select, select-append, map, if◌then◌else◌,
}
use erp_ai_private.Prelude.Int.{
  ℤ, pos, ◌+ℤ◌, ◌-ℤ◌, neg, sum_by, sum_by-add, sum_by-append, sum_by-sub, int_laws, eq_ℤ_refl,
}
use erp_ai_private.Db.{Account, Date, Line, Entry, Db}
use erp_ai_private.Journal.Balance.{IsBalanced, line_debit, line_credit}
use erp_ai_private.Journal.Reversal.{movement}
use erp_ai_private.Ledger.{
  Row, debit_side, credit_side, sum_for, trial_row, add_row, grand_totals, lines_of, posted_lines,
  is_posted, in_range, active_accounts, get_trial_balance,
}

abbrev pub net : Line → ℤ
net l = l.debit -ℤ l.credit

difference_zero : (a b : ℤ) → a -ℤ b ≡ pos 0 → a ≡ b
difference_zero a b h = grind int_laws

-- what a row adds to debits less credits
abbrev pub signed : Row → ℤ
signed r = elim r.balance_type [ debit_side ↦ r.balance | credit_side ↦ neg r.balance ]

pub grand_totals-signed :
    (acc : ℤ × ℤ) (rs : List Row)
    → (grand_totals acc rs).0 -ℤ (grand_totals acc rs).1 ≡ acc.0 -ℤ acc.1 +ℤ sum_by signed rs
unfolding grand_totals
grand_totals-signed acc [] = omega int_laws
grand_totals-signed acc (r ∷ rs) = grind (int_laws, grand_totals-signed (add_row acc r) rs)

-- A row's signed balance is its debits less its credits, whatever the account's type.
trial_row-signed :
    (ls : List Line) (a : Account)
    → signed (trial_row ls a) ≡ sum_for line_debit a.id ls -ℤ sum_for line_credit a.id ls
unfolding trial_row
trial_row-signed ls a = grind int_laws

sum_for-movement :
    (account : ℕ) (ls : List Line)
    → sum_for line_debit account ls -ℤ sum_for line_credit account ls ≡ sum_by (movement account) ls
sum_for-movement account [] = omega int_laws
sum_for-movement account (l ∷ ls) = grind (int_laws, sum_for-movement account ls)

-- each line in its own account, once
abbrev of_account : Line → Account → Bool
of_account l a = a.id == l.account

sum-movement_none :
    (l : Line) (accounts : List Account)
    → count (of_account l) accounts ≡ 0
    → sum_by (λ a. movement a.id l) accounts ≡ pos 0
sum-movement_none l [] h = refl
sum-movement_none l (a ∷ rest) h = grind (int_laws, sum-movement_none l rest)

sum-movement_one :
    (l : Line) (accounts : List Account)
    → count (of_account l) accounts ≡ 1
    → sum_by (λ a. movement a.id l) accounts ≡ net l
sum-movement_one l [] h = absurd (omega arith)
sum-movement_one l (a ∷ rest) h =
    grind (int_laws, sum-movement_none l rest, sum-movement_one l rest)

sum_by_zero : (accounts : List Account) → sum_by (λ a. pos 0) accounts ≡ pos 0
sum_by_zero [] = refl
sum_by_zero (a ∷ rest) = grind (int_laws, sum_by_zero rest)

sum-sum-movement :
    (ls : List Line) (accounts : List Account)
    → All (λ l. count (of_account l) accounts ≡ 1) ls
    → sum_by (λ a. sum_by (movement a.id) ls) accounts ≡ sum_by net ls
sum-sum-movement [] accounts h = sum_by_zero accounts
sum-sum-movement (l ∷ ls) accounts h =
    sum_by-add (λ a. movement a.id l) (λ a. sum_by (movement a.id) ls) accounts
    ∙ rw (sum-movement_one l accounts h.0, sum-sum-movement ls accounts h.1) refl

sum-map-signed :
    (ls : List Line) (accounts : List Account)
    → sum_by signed (map (trial_row ls) accounts) ≡ sum_by (λ a. sum_by (movement a.id) ls) accounts
sum-map-signed ls [] = refl
sum-map-signed ls (a ∷ rest) =
    ground (arith, sum-map-signed ls rest, trial_row-signed ls a, sum_for-movement a.id ls)

-- every line belongs to the entry's tenant
abbrev pub IsOwned : Entry → Type 0
IsOwned e = All (λ l. l.tenant ≡ e.tenant) e.lines

-- the line's account exists
abbrev pub HasAccount : Db → Line → Type 0
HasAccount db l = (a : Account) × (find (λ x. x.id == l.account) db.accounts ≡ some a)

-- the account of the line is one active account of the tenant
abbrev pub HasOneAccount : ℕ → Db → Line → Type 0
HasOneAccount tenant db l = count (λ a. a.id == l.account) (active_accounts tenant db) ≡ 1

pub select_owned :
    (tenant owner : ℕ) (ls : List Line)
    → All (λ l. l.tenant ≡ owner) ls
    → select (λ l. l.tenant == tenant) ls ≡ (if owner == tenant then ls else [])
select_owned tenant owner [] h = ground arith
select_owned tenant owner (l ∷ ls) h = ground (arith, select_owned tenant owner ls h.1)

sum-net : (ls : List Line) → sum_by net ls ≡ sum_by line_debit ls -ℤ sum_by line_credit ls
sum-net ls = sum_by-sub line_debit line_credit ls

-- what an entry adds to the postings of a tenant nets out
entry_nets :
    (p : Entry → Bool) (tenant : ℕ) (e : Entry)
    → IsBalanced e
    → IsOwned e
    → sum_by net (select (λ l. l.tenant == tenant) (if p e then e.lines else [])) ≡ pos 0
entry_nets p tenant e b o = elim (Bool-cases (p e)) [
  | inl taken ↦
      rw (taken, select_owned tenant e.tenant e.lines o) (grind (int_laws, sum-net e.lines))
  | inr left ↦ rw left
]

pub lines_of-nets :
    (p : Entry → Bool) (tenant : ℕ) (es : List Entry)
    → All IsBalanced es
    → All IsOwned es
    → sum_by net (select (λ l. l.tenant == tenant) (lines_of p es)) ≡ pos 0
lines_of-nets p tenant [] b o = refl
lines_of-nets p tenant (e ∷ es) b o =
    rw
      (
        select-append,
        sum_by-append,
        entry_nets p tenant e b.0 o.0,
        lines_of-nets p tenant es b.1 o.1,
      )
      (omega int_laws)

-- The grand totals differ by what the posted lines do not balance.
pub get_trial_balance-difference :
    (tenant : ℕ) (start end : Option Date) (db : Db)
    → All (HasOneAccount tenant db) (posted_lines tenant start end db)
    → let t = get_trial_balance tenant start end db in
      t.debit -ℤ t.credit ≡ sum_by net (posted_lines tenant start end db)
unfolding get_trial_balance
get_trial_balance-difference tenant start end db h =
    let ls = posted_lines tenant start end db in
    let accounts = active_accounts tenant db in
    grand_totals-signed (pos 0, pos 0) (map (trial_row ls) accounts)
    ∙ rw (sum-map-signed ls accounts, sum-sum-movement ls accounts h) (omega int_laws)

-- The trial balance of a tenant balances over every range of dates, with equal grand totals, if
-- every entry is balanced and keeps to its tenant, and every posted line of the range has one
-- active account of the tenant.
pub get_trial_balance-is_balanced :
    (tenant : ℕ) (start end : Option Date) (db : Db)
    → All IsBalanced db.entries
    → All IsOwned db.entries
    → All (HasOneAccount tenant db) (posted_lines tenant start end db)
    → let t = get_trial_balance tenant start end db in (t.debit ≡ t.credit) × (t.is_balanced ≡ true)
unfolding get_trial_balance
get_trial_balance-is_balanced tenant start end db b o h =
    let ls = posted_lines tenant start end db in
    let totals = grand_totals (pos 0, pos 0) (map (trial_row ls) (active_accounts tenant db)) in
    let zero_net : sum_by net ls ≡ pos 0 =
      unfold posted_lines in
      lines_of-nets (λ e. is_posted e.status && in_range start end e.date) tenant db.entries b o in
    let same : totals.0 ≡ totals.1 = difference_zero totals.0 totals.1 (
      (unfold get_trial_balance in get_trial_balance-difference tenant start end db h)
      ∙ zero_net) in
    (same, rw same (eq_ℤ_refl totals.1))
