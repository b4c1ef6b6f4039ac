-- ===== src/Db/Monad.antt =====
-- A service call: it returns or throws, and leaves a database. What was written before a throw
-- stays written, unless it was written inside `transaction`.
use erp_ai_private.Prelude.{
  ℕ, ◌+◌, ◌≡◌, refl, ◌⊎◌, inl, inr, Bool, Option, none, some, if◌then◌else◌,
}
use erp_ai_private.Db.Tables.{Db}

-- The throw sites of the services, and the two refusals of the database that a call can meet.
pub data Error : Type 0 where
  too_few_lines no_period period_closed negative_amount both_sides invalid_account : Error
  summary_account out_of_balance entry_not_found already_reversed : Error
  duplicate_code bad_parent parent_type_differs : Error
  period_not_found year_not_found year_closed open_periods year_exists bad_dates
        method_unsupported :
      Error
  item_not_found insufficient_stock : Error
  invoice_not_found invoice_not_draft no_receivable no_payable : Error
  over_allocated payment_not_found payment_not_draft invoice_not_approved : Error
  request_not_found already_decided : Error
  run_exists profiles_missing contract_mismatch run_not_found run_approved no_employees : Error
  reconciliation_not_found already_reconciled balance_mismatch account_not_found : Error
  order_not_found order_not_receivable order_not_draft order_billed no_default_accounts : Error
  tenant_not_found currency_not_configured : Error
  currency_exists currency_not_found base_currency : Error
  no_tenant not_active no_role insufficient_permissions unauthenticated : Error
  passwords_differ weak_password email_registered bad_credentials account_disabled : Error
  account_locked invalid_invitation invitation_expired invalid_token already_seeded : Error
  unique_violation foreign_key numeric_overflow : Error

pub data Result {ℓ} (A : Type ℓ) : Type ℓ where
  ok : A → Result A
  err : Error → Result A

pub Result-cases {ℓ} :
    {A : Type ℓ} (r : Result A) → ((a : A) × (r ≡ ok a)) ⊎ ((e : Error) × (r ≡ err e))
Result-cases (ok a) = inl (a, refl)
Result-cases (err e) = inr (e, refl)

abbrev pub Action : Type 0 → Type 0
Action A = Db → Result A × Db

module _ {A : Type 0} where
  abbrev pub pure : A → Action A
  pure a db = (ok a, db)

  abbrev pub throw : Error → Action A
  throw e db = (err e, db)

  -- a read of the database, which may throw
  abbrev pub read : (Db → Result A) → Action A
  read f db = (f db, db)

  abbrev pub or_throw : Option A → Error → Result A
  or_throw none e = err e
  or_throw (some a) e = ok a

  -- `$transaction`: a throw inside it takes back what it wrote
  abbrev pub rollback : Db → Result A × Db → Result A × Db
  rollback db (ok a, db') = (ok a, db')
  rollback db (err e, db') = (err e, db)

  abbrev pub transaction : Action A → Action A
  transaction m db = rollback db (m db)

module _ {A : Type 0} where
  pub rollback_refused :
      (db : Db) (r : Result A × Db) {x : Error} {db' : Db} → rollback db r ≡ (err x, db') → db' ≡ db
  rollback_refused db (ok a, d) h = cc
  rollback_refused db (err e, d) h = cc

  pub rollback_returns :
      (db : Db) (r : Result A × Db) {a : A} {db' : Db}
      → rollback db r ≡ (ok a, db')
      → r ≡ (ok a, db')
  rollback_returns db (ok a, d) h = h
  rollback_returns db (err e, d) h = cc

  pub rollback_ok : (db : Db) (r : Result A × Db) {a : A} → r.0 ≡ ok a → (rollback db r).0 ≡ ok a
  rollback_ok db (ok b, d) h = h
  rollback_ok db (err e, d) h = cc

abbrev pub guard : Bool → Error → Result (Unit {0})
guard c e = if c then ok tt else err e

infixl 5 ◌>>=◌ ◌>>◌
abbrev pub ◌>>=◌ : {A B : Type 0} → Action A → (A → Action B) → Action B
◌>>=◌ m f db = let (r, db') = m db in elim r [ ok a ↦ f a db' | err e ↦ (err e, db') ]

abbrev pub ◌>>◌ : {A B : Type 0} → Action A → Action B → Action B
m >> k = m >>= λ _. k

-- the same for the reads alone
abbrev pub and_then : {A B : Type 0} → Result A → (A → Result B) → Result B
and_then (ok a) f = f a
and_then (err e) f = err e

abbrev pub check : Bool → Error → Action (Unit {0})
check c e db = (guard c e, db)

abbrev pub write : (Db → Db) → Action (Unit {0})
write f db = (ok tt, f db)

-- the id of a new row
abbrev pub fresh : Action ℕ
fresh db = (ok db.next_id, record db { next_id = db.next_id + 1 })

bind_returns :
    {A B : Type 0} (r : Result A × Db) (f : A → Action B) {b : B} {db' : Db}
    → (elim r.0 [ ok a ↦ f a r.1 | err e ↦ (err e, r.1) ]) ≡ (ok b, db')
    → (a : A) × (mid : Db) × (r ≡ (ok a, mid)) × (f a mid ≡ (ok b, db'))
bind_returns (ok a, mid) f h = (a, mid, refl, h)
bind_returns (err e, mid) f h = cc

-- Inversion of a bind that returns.
pub >>=-eq-ok :
    {A B : Type 0} (m : Action A) (f : A → Action B) (db : Db) {b : B} {db' : Db}
    → (m >>= f) db ≡ (ok b, db')
    → (a : A) × (mid : Db) × (m db ≡ (ok a, mid)) × (f a mid ≡ (ok b, db'))
>>=-eq-ok m f db h = bind_returns (m db) f h
