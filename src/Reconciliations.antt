-- ===== src/Reconciliations.antt =====
-- Bank reconciliation
-- (apps/api/src/modules/accounting/bank-reconciliation/bank-reconciliation.service.ts).
pub mod Matching
use erp_ai_private.Prelude.{
  ℕ, ◌+◌, ◌-◌, ◌*◌, ◌/◌, ◌==◌, leb, List, [], ◌∷◌, ◌++◌, Option, none, some, Bool, true, false,
  ◌&&◌, not, find, select, count, update, map, length, is_id, is_none, if◌then◌else◌,
}
use erp_ai_private.Prelude.Int.{ℤ, ◌+ℤ◌, ◌-ℤ◌, eq_ℤ, sum_by}
use erp_ai_private.Decimal.{Decimals}
use erp_ai_private.Db.{
  ReconciliationStatus, draft_reconciliation, reconciled, Date, Line, Entry, StatementLine,
  Reconciliation, Db, Result, ok, err, Action, ◌>>=◌, ◌>>◌, read, write, pure, or_throw, guard,
  account_not_found, reconciliation_not_found, already_reconciled, balance_mismatch,
}
use erp_ai_private.Accounts.{account_with_id}

-- all rows of the table `JournalEntryLine`
abbrev pub all_lines : List Entry → List Line
all_lines [] = []
all_lines (e ∷ es) = e.lines ++ all_lines es

-- `updateMany` on that table
abbrev pub update_lines : (Line → Bool) → (Line → Line) → List Entry → List Entry
update_lines p f [] = []
update_lines p f (e ∷ es) = record e { lines = update p f e.lines } ∷ update_lines p f es

-- `UploadStatementDto`
pub record StatementDto : Type 0 where
  pub account : ℕ
  pub opening_balance : ℤ
  pub closing_balance : ℤ
  pub transactions : List StatementLine

store_statement_line : Decimals → StatementLine → StatementLine
store_statement_line D t = record t { amount = D.column 2 t.amount }

unfoldable pub upload_statement : Decimals → ℕ → StatementDto → Action Reconciliation
unfolding store_statement_line
upload_statement D tenant dto = do
  read (λ db.
      or_throw (find (λ a. a.id == dto.account && a.tenant == tenant) db.accounts)
        account_not_found)
  r ← read (λ db. ok (record {
    id = db.next_id;
    tenant = tenant;
    account = dto.account;
    status = draft_reconciliation;
    opening_balance = D.column 2 dto.opening_balance;
    closing_balance = D.column 2 dto.closing_balance;
    transactions = map (store_statement_line D) dto.transactions;
    reconciled_by = none;
  }))
  write (λ db. record db { next_id = db.next_id + 1; reconciliations = r ∷ db.reconciliations })
  pure r

abbrev pub is_reconciled : ReconciliationStatus → Bool
is_reconciled reconciled = true
is_reconciled draft_reconciliation = false

abbrev pub find_reconciliation : ℕ → ℕ → Db → Option Reconciliation
find_reconciliation tenant id db = find (λ r. r.id == id && r.tenant == tenant) db.reconciliations

-- the guard that every change of a reconciliation begins with
abbrev pub draft_of : ℕ → ℕ → Action Reconciliation
draft_of tenant id = do
  r ← read (λ db. or_throw (find_reconciliation tenant id db) reconciliation_not_found)
  read (λ db. guard (not (is_reconciled r.status)) already_reconciled)
  pure r

-- `getUnreconciledLines`, and the filter of `autoMatch`
abbrev pub is_unreconciled : ℕ → ℕ → Line → Bool
is_unreconciled tenant account l =
    l.tenant == tenant && (l.account == account && is_none l.reconciliation)

-- days from a fixed day to the first of January
abbrev pub days_before : ℕ → ℕ
days_before y = 365 * y + (y + 3) / 4 + (y + 399) / 400 - (y + 99) / 100

-- `getTime`, up to a constant
unfoldable pub get_time : Date → ℕ
get_time d = days_before d.year * 86400000 + d.ms

-- `daysDiff <= 3`
abbrev pub within_three_days : Date → Date → Bool
within_three_days a b =
    leb (get_time a) (get_time b + 259200000) && leb (get_time b) (get_time a + 259200000)

abbrev pub contains : ℕ → List ℕ → Bool
contains id ids = not (is_none (find (λ i. i == id) ids))

-- the test of `unreconciledLines.find`
abbrev pub is_match : List ℕ → StatementLine → Line → Bool
is_match matched t l =
    not (contains l.id matched)
    && (eq_ℤ t.amount (l.debit -ℤ l.credit) && within_three_days t.date l.created_at)

abbrev pub reconcile : ℕ → ℕ → Db → Db
reconcile id line db = record db {
  entries =
      update_lines (λ l. l.id == line) (λ l. record l { reconciliation = some id }) db.entries;
}

-- The loop of `autoMatch` over the statement; `matched` is `matchedLineIds`.
unfoldable pub match_transactions : ℕ → List Line → List ℕ → List StatementLine → Db → List ℕ × Db
match_transactions id lines matched [] db = (matched, db)
match_transactions id lines matched (t ∷ ts) db =
    let skip = match_transactions id lines matched ts db in
    let take =
      λ (l : Line). match_transactions id lines (l.id ∷ matched) ts (reconcile id l.id db) in
    elim (find (is_match matched t) lines) [ none ↦ skip | some l ↦ take l ]

-- it returns `matchedCount`
unfoldable pub auto_match : ℕ → ℕ → Action ℕ
auto_match tenant id = do
  r ← draft_of tenant id
  lines ← read (λ db. ok (select (is_unreconciled tenant r.account) (all_lines db.entries)))
  (λ db.
      let (matched, db') = match_transactions r.id lines [] r.transactions db in
      (ok (length matched), db'))

-- the filter of `manualMatch`
abbrev pub is_matchable : ℕ → ℕ → List ℕ → Line → Bool
is_matchable tenant account ids l = contains l.id ids && is_unreconciled tenant account l

unfoldable pub manual_match : ℕ → ℕ → List ℕ → Action ℕ
manual_match tenant id ids = do
  r ← draft_of tenant id
  (λ db. (
    ok (count (is_matchable tenant r.account ids) (all_lines db.entries)),
    record db {
      entries =
          update_lines (is_matchable tenant r.account ids)
            (λ l. record l { reconciliation = some id }) db.entries;
    },
  ))

-- the filter of `manualUnmatch`
abbrev pub is_unmatchable : ℕ → ℕ → ℕ → List ℕ → Line → Bool
is_unmatchable tenant account id ids l =
    contains l.id ids && (l.tenant == tenant && (l.account == account && is_id l.reconciliation id))

unfoldable pub manual_unmatch : ℕ → ℕ → List ℕ → Action ℕ
manual_unmatch tenant id ids = do
  r ← draft_of tenant id
  (λ db. (
    ok (count (is_unmatchable tenant r.account id ids) (all_lines db.entries)),
    record db {
      entries =
          update_lines (is_unmatchable tenant r.account id ids)
            (λ l. record l { reconciliation = none }) db.entries;
    },
  ))

-- the sum of the reconciliation's journal lines
abbrev pub matched_total : ℕ → Db → ℤ
matched_total id db =
    sum_by (λ l. l.debit -ℤ l.credit)
      (select (λ l. is_id l.reconciliation id) (all_lines db.entries))

abbrev pub set_reconciled : ℕ → ℕ → Db → Db
set_reconciled id user db = record db {
  reconciliations =
      update (λ r. r.id == id) (λ r. record r { status = reconciled; reconciled_by = some user })
        db.reconciliations;
}

unfoldable pub complete_reconciliation : ℕ → ℕ → ℕ → Action (Unit {0})
complete_reconciliation tenant id user = do
  r ← draft_of tenant id
  read (λ db.
      guard (eq_ℤ (r.opening_balance +ℤ matched_total r.id db) r.closing_balance) balance_mismatch)
  write (set_reconciled id user)
