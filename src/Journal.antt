-- ===== src/Journal.antt =====
-- Journal entries (apps/api/src/modules/accounting/journal-entries/journal-entries.service.ts).
pub mod Balance
pub mod Numbers
pub mod Reversal
pub mod Frame
pub mod InBalance
pub mod Create
use erp_ai_private.Prelude.{
  ℕ, ◌+◌, ◌*◌, ◌==◌, ltb, leb, true, List, [], ◌∷◌, Option, none, some, Bool, ◌&&◌, ◌||◌, not,
  length, find, count, update, is_none, if◌then◌else◌,
}
use erp_ai_private.Prelude.Int.{ℤ, pos, pos_part, neg_part, ◌+ℤ◌, eq_ℤ}
use erp_ai_private.Decimal.{Decimals, is_negative, is_zero}
use erp_ai_private.Db.{
  Date, leb_date, ltb_date, start_of_year, posted, je, rev, EntryPrefix, EntryNumber, same_number,
  Line, Entry, Db, Result, ok, err, Action, ◌>>=◌, ◌>>◌, read, check, transaction, and_then,
  too_few_lines, negative_amount, both_sides, out_of_balance, entry_not_found, already_reversed,
  unique_violation, foreign_key, numeric_overflow,
}
use erp_ai_private.Accounts.{validate_account_for_posting}
use erp_ai_private.Periods.{find_active_period_by_date}

-- `number | string` in a request: JavaScript takes the number 0 for false, and not the text "0".
pub data Input : Type 0 where
  number text : ℤ → Input

abbrev pub value : Input → ℤ
value (number a) = a
value (text a) = a

-- `new Decimal(x || 0)`
abbrev pub amount : Option Input → ℤ
amount none = pos 0
amount (some x) = value x

-- `x ? new Decimal(x) : null`
abbrev pub optional : Option Input → Option ℤ
optional none = none
optional (some (number a)) = if is_zero a then none else some a
optional (some (text a)) = some a

-- `CreateJournalEntryLineDto`
pub record LineDto : Type 0 where
  pub account : ℕ
  pub debit : Option Input
  pub credit : Option Input
  pub currency : Option ℕ
  pub foreign_debit : Option Input
  pub foreign_credit : Option Input
  pub exchange_rate : Option Input
  pub contact : Option ℕ

-- `CreateJournalEntryDto`
pub record EntryDto : Type 0 where
  pub entry_date : Date
  pub lines : List LineDto

-- one round of the loop in `create`, over the totals so far
unfoldable pub check_line : Db → ℕ → ℤ × ℤ → LineDto → Result (ℤ × ℤ)
check_line db tenant totals line =
    let debit = amount line.debit in
    let credit = amount line.credit in
    if is_negative debit || is_negative credit
    then err negative_amount
    else if not (is_zero debit) && not (is_zero credit)
    then err both_sides
    else and_then (validate_account_for_posting db tenant line.account)
        (λ a. ok (totals.0 +ℤ debit, totals.1 +ℤ credit))

unfoldable pub check_lines : Db → ℕ → ℤ × ℤ → List LineDto → Result (ℤ × ℤ)
check_lines db tenant totals [] = ok totals
check_lines db tenant totals (line ∷ lines) =
    and_then (check_line db tenant totals line) (λ t. check_lines db tenant t lines)

-- the filter of `journalEntry.count`: the tenant's entries of one year, by UTC bounds
abbrev pub in_year : ℕ → ℕ → Entry → Bool
in_year tenant year e =
    e.tenant == tenant
    && (leb_date (start_of_year year) e.date && ltb_date e.date (start_of_year (year + 1)))

abbrev pub next_number : EntryPrefix → ℕ → Date → Db → EntryNumber
next_number prefix tenant date db = record {
  prefix = prefix;
  year = date.year;
  seq = count (in_year tenant date.year) db.entries + 1;
}

-- the unique index on (tenantId, entryNumber)
abbrev pub is_taken : Db → ℕ → EntryNumber → Bool
is_taken db tenant n =
    not (is_none (find (λ e. e.tenant == tenant && same_number e.number n) db.entries))

-- the foreign keys of a line: its account, its contact and its currency
abbrev pub is_known : Db → Line → Bool
is_known db l =
    not (is_none (find (λ a. a.id == l.account) db.accounts))
    && (elim l.contact [ none ↦ true | some c ↦ not (is_none (find (λ x. x.id == c) db.contacts)) ]
        && elim l.currency [
          | none ↦ true
          | some c ↦ not (is_none (find (λ x. x.id == c) db.currencies))
        ])

unfoldable pub has_references : Db → List Line → Bool
has_references db [] = true
has_references db (l ∷ ls) = is_known db l && has_references db ls

unfoldable pub insert_entry : Entry → Action Entry
insert_entry e db =
    if is_taken db e.tenant e.number
    then (err unique_violation, db)
    else if not (has_references db e.lines)
    then (err foreign_key, db)
    else (ok e, record db { next_id = db.next_id + 1 + length e.lines; entries = e ∷ db.entries })

abbrev pub stored : Decimals → Option ℤ → ℕ → Option ℤ
stored D none n = none
stored D (some a) n = some (D.column n a)

-- `tx.journalEntry.update`: the original points to its reversal
abbrev pub link : ℕ → Entry → Action Entry
link original reversal db = (
  ok reversal,
  record db {
    entries =
        update (λ e. e.id == original) (λ e. record e { reversal = some reversal.id }) db.entries;
  },
)

-- the reads and checks of `createReversal`
abbrev pub find_original : ℕ → ℕ → Db → Result Entry
find_original tenant id db = elim (find (λ e. e.id == id) db.entries) [
  | none ↦ err entry_not_found
  | some e ↦
      if not (e.tenant == tenant)
      then err entry_not_found
      else if not (is_none e.reversal)
      then err already_reversed
      else ok e
]

module _ (D : Decimals) where
  -- the rows of `lines: { create: … }`; `id` numbers them
  unfoldable pub store_lines : ℕ → Date → ℕ → List LineDto → List Line
  store_lines tenant now id [] = []
  store_lines tenant now id (l ∷ ls) =
      record {
        id = id;
        tenant = tenant;
        account = l.account;
        debit = D.column 2 (amount l.debit);
        credit = D.column 2 (amount l.credit);
        currency = l.currency;
        foreign_debit = stored D (optional l.foreign_debit) 2;
        foreign_credit = stored D (optional l.foreign_credit) 2;
        exchange_rate = stored D (optional l.exchange_rate) 6;
        contact = l.contact;
        reconciliation = none;
        created_at = now;
      }
      ∷ store_lines tenant now (id + 1) ls

  -- the `data` of `client.journalEntry.create`
  abbrev pub new_entry : ℕ → Date → EntryDto → Db → Entry
  new_entry tenant now dto db = record {
    id = db.next_id;
    tenant = tenant;
    number = next_number je tenant dto.entry_date db;
    date = dto.entry_date;
    status = posted;
    reversal = none;
    lines = store_lines tenant now (db.next_id + 1) dto.lines;
  }

  -- Decimal(18, 2) has 16 digits before the point, Decimal(18, 6) has 12.
  abbrev pub has_digits : ℕ → ℤ → Bool
  has_digits limit a = ltb (pos_part a + neg_part a) (limit * D.scale)

  abbrev pub optional_has_digits : ℕ → Option ℤ → Bool
  optional_has_digits limit none = true
  optional_has_digits limit (some a) = has_digits limit a

  abbrev pub line_has_room : Line → Bool
  line_has_room l =
      (has_digits 10000000000000000 l.debit && has_digits 10000000000000000 l.credit)
      && (optional_has_digits 10000000000000000 l.foreign_debit
          && (optional_has_digits 10000000000000000 l.foreign_credit
              && optional_has_digits 1000000000000 l.exchange_rate))

  -- The columns take every amount of the lines. The amounts of a reversal and of a depreciation
  -- come from columns of the same size.
  unfoldable pub has_room : List Line → Bool
  has_room [] = true
  has_room (l ∷ ls) = line_has_room l && has_room ls

  unfoldable pub execute_create : ℕ → Date → EntryDto → Action Entry
  execute_create tenant now dto db =
      if not (has_room (new_entry tenant now dto db).lines)
      then (err numeric_overflow, db)
      else insert_entry (new_entry tenant now dto db) db

  -- `create`; with a client of the caller's transaction, the caller's own `transaction` stands
  -- round this call.
  unfoldable pub create : ℕ → Date → EntryDto → Action Entry
  create tenant now dto = do
    check (leb 2 (length dto.lines)) too_few_lines
    read (λ db. find_active_period_by_date db tenant dto.entry_date)
    totals ← read (λ db. check_lines db tenant (pos 0, pos 0) dto.lines)
    check (eq_ℤ totals.0 totals.1) out_of_balance
    transaction (execute_create tenant now dto)

  -- `reversalLines`, as they are stored: debit and credit change places
  unfoldable pub reverse_lines : ℕ → Date → ℕ → List Line → List Line
  reverse_lines tenant now id [] = []
  reverse_lines tenant now id (l ∷ ls) =
      record {
        id = id;
        tenant = tenant;
        account = l.account;
        debit = D.column 2 l.credit;
        credit = D.column 2 l.debit;
        currency = l.currency;
        foreign_debit = stored D l.foreign_credit 2;
        foreign_credit = stored D l.foreign_debit 2;
        exchange_rate = stored D l.exchange_rate 6;
        contact = l.contact;
        reconciliation = none;
        created_at = now;
      }
      ∷ reverse_lines tenant now (id + 1) ls

  -- the `data` of the reversing entry
  abbrev pub reversal_entry : ℕ → Date → Entry → Date → Db → Entry
  reversal_entry tenant now original date db = record {
    id = db.next_id;
    tenant = tenant;
    number = next_number rev tenant date db;
    date = date;
    status = posted;
    reversal = none;
    lines = reverse_lines tenant now (db.next_id + 1) original.lines;
  }

  unfoldable pub execute_reversal : ℕ → Date → Entry → Date → Action Entry
  execute_reversal tenant now original date db =
      (do
        reversal ← insert_entry (reversal_entry tenant now original date db)
        link original.id reversal)
        db

  unfoldable pub create_reversal : ℕ → Date → ℕ → Date → Action Entry
  create_reversal tenant now id date = do
    original ← read (find_original tenant id)
    read (λ db. find_active_period_by_date db tenant date)
    transaction (execute_reversal tenant now original date)
