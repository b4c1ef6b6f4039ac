-- ===== src/Accounts/Codes.antt =====
-- The codes and the parents of accounts, and which accounts may be posted to.
use erp_ai_private.Prelude.{
  ℕ, ◌==◌, ◌≡◌, ◌↔◌, inl, inr, List, [], ◌∷◌, none, some, ◌&&◌, arith, find, Option-cases,
}
use erp_ai_private.Db.{Account, active, Db, ok}
use erp_ai_private.Accounts.{
  CreateAccountDto, account_with_code, account_with_id, create_account, children, type_code,
  validate_account_for_posting,
}

-- No two accounts of a tenant share a code.
abbrev pub HasUniqueCodes : List Account → Type 0
HasUniqueCodes [] = Unit
HasUniqueCodes (a ∷ rest) =
    (find (λ b. b.tenant == a.tenant && b.code == a.code) rest ≡ none) × HasUniqueCodes rest

-- `createAccount` keeps the codes of every tenant distinct, also when it refuses.
pub create_account-HasUniqueCodes :
    (tenant : ℕ) (dto : CreateAccountDto) (db : Db)
    → HasUniqueCodes db.accounts
    → HasUniqueCodes (create_account tenant dto db).1.accounts
unfolding create_account
create_account-HasUniqueCodes tenant dto db h = ground arith

-- An account with a parent that `createAccount` returns had an unused code and is put in front of
-- the accounts, which are otherwise the same; its parent belongs to the tenant and has its type.
pub create_account-parent :
    (tenant : ℕ) (dto : CreateAccountDto) (db : Db) {a : Account} (p : ℕ)
    → (create_account tenant dto db).0 ≡ ok a
    → a.parent ≡ some p
    → (account_with_code db tenant a.code ≡ none)
      × ((create_account tenant dto db).1.accounts ≡ a ∷ db.accounts)
      × ((parent : Account) × (account_with_id db p ≡ some parent)
          × (parent.tenant ≡ tenant)
          × (type_code parent.type ≡ type_code a.type))
unfolding create_account
create_account-parent tenant dto db {a = a} p h e = elim (Option-cases (account_with_id db p)) [
  | inl missing ↦ absurd (ground arith)
  | inr (parent, found) ↦ (ground arith, ground arith, (parent, found, ground arith, ground arith))
]

-- An account passes for posting exactly if it exists, belongs to the tenant, is active and is no
-- account's parent.
pub validate_account_for_posting_iff :
    (db : Db) (tenant id : ℕ) (a : Account)
    → (validate_account_for_posting db tenant id ≡ ok a) ↔ (
        (account_with_id db id ≡ some a)
        × (a.tenant ≡ tenant)
        × (a.status ≡ active)
        × (children db id ≡ 0))
unfolding validate_account_for_posting
validate_account_for_posting_iff db tenant id a =
    ((λ h. (ground arith, ground arith, ground arith, ground arith)), (λ h. ground arith))
