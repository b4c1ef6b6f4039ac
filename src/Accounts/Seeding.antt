-- ===== src/Accounts/Seeding.antt =====
-- The parents of the template accounts in `seedSmeTemplate`.
use erp_ai_private.Prelude.{
  ℕ, ◌==◌, ◌≡◌, ◌∙◌, inl, inr, refl, select, Bool-cases, Option-cases, List, [], ◌∷◌, Option, none,
  some, true, false, Bool, ◌||◌, arith, All, is_none,
}
use erp_ai_private.Db.{Account, Db, Result, ok, err, Result-cases, rollback, rollback_ok}
use erp_ai_private.Accounts.{
  TemplateRow, CreatedMap, lookup, seed_account, seed_rows, seed_sme_template, sme_template,
  codes_of, parent_of_row, insert_account,
}

-- A row's parent is among the codes of the rows above it.
abbrev contains : ℕ → List ℕ → Bool
contains c [] = false
contains c (d ∷ ds) = d == c || contains c ds

abbrev parent_above : List ℕ → Option ℕ → Bool
parent_above above none = true
parent_above above (some c) = contains c above

abbrev IsOrdered : List ℕ → List TemplateRow → Type 0
IsOrdered above [] = Unit
IsOrdered above (r ∷ rs) = (parent_above above r.parent_code ≡ true) × IsOrdered (r.code ∷ above) rs

-- every code above has an id by now
abbrev Knows : CreatedMap → List ℕ → Type 0
Knows m above = All (λ c. is_none (lookup c m) ≡ false) above

Knows-cons :
    (c id : ℕ) (m : CreatedMap) (above : List ℕ) → Knows m above → Knows ((c, id) ∷ m) above
Knows-cons c id m [] h = tt
Knows-cons c id m (d ∷ ds) h = ground (arith, Knows-cons c id m ds h.1)

Knows-contains :
    (c : ℕ) (m : CreatedMap) (above : List ℕ)
    → Knows m above
    → contains c above ≡ true
    → is_none (lookup c m) ≡ false
Knows-contains c m [] h e = cc
Knows-contains c m (d ∷ ds) h e = ground (arith, Knows-contains c m ds h.1)

-- what was there before stays known
abbrev Extends : CreatedMap → CreatedMap → Type 0
Extends existing created =
    (c : ℕ) → is_none (lookup c existing) ≡ false → is_none (lookup c created) ≡ false

module _ (tenant : ℕ) (existing : CreatedMap) where
  seed_rows_skip :
      (created : CreatedMap) (r : TemplateRow) (rs : List TemplateRow) (db : Db)
      → is_none (lookup r.code existing) ≡ false
      → seed_rows tenant existing created (r ∷ rs) db ≡ seed_rows tenant existing created rs db
  unfolding seed_rows
  seed_rows_skip created r rs db e = rw e

  seed_rows_make :
      (created : CreatedMap) (r : TemplateRow) (rs : List TemplateRow) (db : Db) (p : Option ℕ)
      → is_none (lookup r.code existing) ≡ true
      → parent_of_row created r.parent_code ≡ ok p
      → seed_rows tenant existing created (r ∷ rs) db
        ≡ seed_rows tenant existing
            ((r.code, db.next_id) ∷ created)
            rs
            (insert_account (seed_account tenant db.next_id r p) db).1
  unfolding seed_rows
  seed_rows_make created r rs db p e f = rw (e, f)

  parent_found :
      (created : CreatedMap) (above : List ℕ) (parent : Option ℕ)
      → Knows created above
      → parent_above above parent ≡ true
      → (p : Option ℕ) × (parent_of_row created parent ≡ ok p)
  parent_found created above none k e = (none, refl)
  parent_found created above (some c) k e = elim (Option-cases (lookup c created)) [
    | inl missing ↦ absurd (ground (arith, Knows-contains c created above k e))
    | inr (id, found) ↦ (some id, rw (found, parent_of_row))
  ]

  seed_rows_end :
      (created : CreatedMap) (db : Db) → (seed_rows tenant existing created [] db).0 ≡ ok tt
  unfolding seed_rows
  seed_rows_end created db = refl

  Extends-cons :
      (c id : ℕ) (created : CreatedMap)
      → Extends existing created
      → Extends existing ((c, id) ∷ created)
  Extends-cons c id created x d e = ground (arith, x d e)

  seed_rows_ok :
      (created : CreatedMap) (above : List ℕ) (rs : List TemplateRow) (db : Db)
      → Extends existing created
      → Knows created above
      → IsOrdered above rs
      → (seed_rows tenant existing created rs db).0 ≡ ok tt
  seed_rows_ok created above [] db x k o = seed_rows_end created db
  seed_rows_ok created above (r ∷ rs) db x k (p, o) =
      elim (Bool-cases (is_none (lookup r.code existing))) [
        | inl new ↦
            let (parent, found) = parent_found created above r.parent_code k p in
            let step = seed_rows_make created r rs db parent new found in
            rw step (
              seed_rows_ok ((r.code, db.next_id) ∷ created) (r.code ∷ above) rs
                (insert_account (seed_account tenant db.next_id r parent) db).1
                (Extends-cons r.code db.next_id created x)
                (ground arith, Knows-cons r.code db.next_id created above k) o)
        | inr old ↦
            rw (seed_rows_skip created r rs db old)
              (seed_rows_ok created (r.code ∷ above) rs db x (x r.code old, k) o)
      ]

-- Seeding the template never fails, whatever accounts the tenant already has: each row's parent
-- is an existing account or was made before.
pub seed_sme_template_total : (tenant : ℕ) (db : Db) → (seed_sme_template tenant db).0 ≡ ok tt
unfolding seed_sme_template
seed_sme_template_total tenant db =
    let existing = codes_of (select (λ a. a.tenant == tenant) db.accounts) in
    rollback_ok db (seed_rows tenant existing existing sme_template db)
      (seed_rows_ok tenant existing existing [] sme_template db (λ c e. e) tt (ground arith))

-- Seeding changes nothing but accounts and ids.
module _ {X : Type 0} (f : Db → X)
    (blind : (a : Account) (db : Db) → f (insert_account a db).1 ≡ f db) where
  seed_rows-same :
      (tenant : ℕ) (existing created : CreatedMap) (rs : List TemplateRow) (db : Db)
      → f (seed_rows tenant existing created rs db).1 ≡ f db
  unfolding seed_rows
  seed_rows-same tenant existing created [] db = refl
  seed_rows-same tenant existing created (r ∷ rs) db =
      elim (Bool-cases (is_none (lookup r.code existing))) [
        | inl new ↦ elim (Result-cases (parent_of_row created r.parent_code)) [
          | inl (parent, found) ↦
              rw (new, found)
                (seed_rows-same tenant existing ((r.code, db.next_id) ∷ created) rs
                    (insert_account (seed_account tenant db.next_id r parent) db).1
                  ∙ blind (seed_account tenant db.next_id r parent) db)
          | inr (x, missing) ↦ rw (new, missing) refl
        ]
        | inr old ↦ rw old (seed_rows-same tenant existing created rs db)
      ]

  rollback-same :
      {A : Type 0} (db : Db) (r : Result A × Db) → f r.1 ≡ f db → f (rollback db r).1 ≡ f db
  rollback-same db (ok a, d) h = h
  rollback-same db (err e, d) h = refl

  pub seed_sme_template-same : (tenant : ℕ) (db : Db) → f (seed_sme_template tenant db).1 ≡ f db
  unfolding seed_sme_template
  seed_sme_template-same tenant db =
      let existing = codes_of (select (λ a. a.tenant == tenant) db.accounts) in
      rollback-same db (seed_rows tenant existing existing sme_template db)
        (seed_rows-same tenant existing existing sme_template db)
