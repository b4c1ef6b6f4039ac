-- ===== src/Accounts.antt =====
-- The chart of accounts (apps/api/src/modules/accounting/chart-of-accounts/
-- chart-of-accounts.service.ts). `findUnique` by id reads every tenant's rows, as in the source.
pub mod Codes
pub mod Seeding
use erp_ai_private.Prelude.{
  ℕ, ◌+◌, ◌==◌, ltb, List, [], ◌∷◌, Option, none, some, Bool, true, false, ◌&&◌, ◌||◌, not, find,
  select, count, is_id, is_none, if◌then◌else◌,
}
use erp_ai_private.Db.{
  AccountType, asset, liability, equity, revenue, expense, AccountStatus, active, inactive, Account,
  Db, Result, ok, err, Action, ◌>>=◌, ◌>>◌, read, write, transaction, duplicate_code, bad_parent,
  parent_type_differs, invalid_account, summary_account,
}

abbrev pub type_code : AccountType → ℕ
type_code asset = 0
type_code liability = 1
type_code equity = 2
type_code revenue = 3
type_code expense = 4

abbrev pub is_active : AccountStatus → Bool
is_active active = true
is_active inactive = false

pub record CreateAccountDto : Type 0 where
  pub code : ℕ
  pub type : AccountType
  pub parent : Option ℕ
  pub currency : Option ℕ

abbrev pub account_with_code : Db → ℕ → ℕ → Option Account
account_with_code db tenant code = find (λ a. a.tenant == tenant && a.code == code) db.accounts

abbrev pub account_with_id : Db → ℕ → Option Account
account_with_id db id = find (λ a. a.id == id) db.accounts

-- the checks on `dto.parentId`
abbrev check_parent : Db → ℕ → CreateAccountDto → Option ℕ → Result (Unit {0})
check_parent db tenant dto none = ok tt
check_parent db tenant dto (some id) = elim (account_with_id db id) [
  | none ↦ err bad_parent
  | some parent ↦
      if not (parent.tenant == tenant)
      then err bad_parent
      else if not (type_code parent.type == type_code dto.type)
      then err parent_type_differs
      else ok tt
]

abbrev check_account : Db → ℕ → CreateAccountDto → Result (Unit {0})
check_account db tenant dto = elim (account_with_code db tenant dto.code) [
  | none ↦ check_parent db tenant dto dto.parent
  | some a ↦ err duplicate_code
]

abbrev pub insert_account : Account → Action Account
insert_account a db = (ok a, record db { next_id = db.next_id + 1; accounts = a ∷ db.accounts })

unfoldable pub create_account : ℕ → CreateAccountDto → Action Account
create_account tenant dto db = elim (check_account db tenant dto) [
  | err e ↦ (err e, db)
  | ok u ↦
      insert_account
        (record {
          id = db.next_id;
          tenant = tenant;
          parent = dto.parent;
          code = dto.code;
          type = dto.type;
          status = active;
          currency = dto.currency;
        })
        db
]

-- `_count: { select: { children: true } }`
abbrev pub children : Db → ℕ → ℕ
children db id = count (λ a. is_id a.parent id) db.accounts

-- Only an active account of the tenant with no children may be posted to.
unfoldable pub validate_account_for_posting : Db → ℕ → ℕ → Result Account
validate_account_for_posting db tenant id = elim (account_with_id db id) [
  | none ↦ err invalid_account
  | some a ↦
      if not (a.tenant == tenant) || not (is_active a.status)
      then err invalid_account
      else if ltb 0 (children db id)
      then err summary_account
      else ok a
]

-- one row of `template` in `seedSmeTemplate`
pub record TemplateRow : Type 0 where
  pub code : ℕ
  pub type : AccountType
  pub parent_code : Option ℕ

abbrev pub row : ℕ → AccountType → Option ℕ → TemplateRow
row c t p = record { code = c; type = t; parent_code = p }

unfoldable pub sme_template : List TemplateRow
sme_template =
    row 1000 asset none
    ∷ row 1100 asset (some 1000)
    ∷ row 1110 asset (some 1100)
    ∷ row 1111 asset (some 1110)
    ∷ row 1120 asset (some 1100)
    ∷ row 2000 liability none
    ∷ row 2100 liability (some 2000)
    ∷ row 2110 liability (some 2100)
    ∷ row 2120 liability (some 2100)
    ∷ row 3000 equity none
    ∷ row 3100 equity (some 3000)
    ∷ row 3200 equity (some 3000)
    ∷ row 4000 revenue none
    ∷ row 4100 revenue (some 4000)
    ∷ row 4110 revenue (some 4000)
    ∷ row 5000 expense none
    ∷ row 5100 expense (some 5000)
    ∷ row 5110 expense (some 5100)
    ∷ row 5120 expense (some 5100)
    ∷ []

-- `createdMap`: from a code to the id of its account
abbrev pub CreatedMap : Type 0
CreatedMap = List (ℕ × ℕ)

abbrev pub lookup : ℕ → CreatedMap → Option ℕ
lookup code [] = none
lookup code ((c, id) ∷ m) = if c == code then some id else lookup code m

abbrev pub codes_of : List Account → CreatedMap
codes_of [] = []
codes_of (a ∷ rest) = (a.code, a.id) ∷ codes_of rest

-- the parent of a template row: `null`, or an id from `createdMap`, or the throw
abbrev pub parent_of_row : CreatedMap → Option ℕ → Result (Option ℕ)
parent_of_row created none = ok none
parent_of_row created (some code) = elim (lookup code created) [
  | none ↦ err bad_parent
  | some id ↦ ok (some id)
]

abbrev pub seed_account : ℕ → ℕ → TemplateRow → Option ℕ → Account
seed_account tenant id r parent = record {
  id = id;
  tenant = tenant;
  parent = parent;
  code = r.code;
  type = r.type;
  status = active;
  currency = none;
}

-- the loop of `executeSeeding`; `existing` are the codes found before it
unfoldable pub seed_rows : ℕ → CreatedMap → CreatedMap → List TemplateRow → Action (Unit {0})
seed_rows tenant existing created [] db = (ok tt, db)
seed_rows tenant existing created (r ∷ rs) db =
    let skip = seed_rows tenant existing created rs db in
    let make = λ (p : Option ℕ).
      (do
        a ← insert_account (seed_account tenant db.next_id r p)
        seed_rows tenant existing ((r.code, a.id) ∷ created) rs)
        db in
    if not (is_none (lookup r.code existing))
    then skip
    else elim (parent_of_row created r.parent_code) [ ok p ↦ make p | err e ↦ (err e, db) ]

unfoldable pub seed_sme_template : ℕ → Action (Unit {0})
unfolding seed_rows sme_template
seed_sme_template tenant db =
    let existing = codes_of (select (λ a. a.tenant == tenant) db.accounts) in
    transaction (seed_rows tenant existing existing sme_template) db
