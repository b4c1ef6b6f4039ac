-- ===== src/Journal/Reversal.antt =====
-- Reversals: the reversing entry, and its link with the original.
use erp_ai_private.Prelude.{
  ℕ, ◌+◌, ◌==◌, ◌≡◌, refl, sym, ◌∙◌, ◌⊎◌, Bool-cases, Option-cases, inl, inr, List, [], ◌∷◌, Option,
  some, arith, find, update, All, if◌then◌else◌, count-update, find-update, find-true,
}
use erp_ai_private.Prelude.Int.{ℤ, pos, ◌+ℤ◌, ◌-ℤ◌, sum_by, int_laws}
use erp_ai_private.Decimal.{Decimals, IsCents}
use erp_ai_private.Db.{
  Line, Entry, Date, Db, Result, ok, err, Error, already_reversed, rev, rollback, rollback_refused,
  rollback_returns, Result-cases,
}
use erp_ai_private.Periods.{find_active_period_by_date}
use erp_ai_private.Journal.{
  insert_entry, reverse_lines, execute_reversal, create_reversal, find_original, in_year,
  reversal_entry, link, is_taken, next_number,
}
use erp_ai_private.Journal.Balance.{IsBalanced, line_debit, line_credit}
use erp_ai_private.Journal.Numbers.{WellNumbered}

-- What a line adds to an account's debit balance.
abbrev pub movement : ℕ → Line → ℤ
movement account l = if l.account == account then l.debit -ℤ l.credit else pos 0

abbrev pub StoredInCents : Decimals → Line → Type 0
StoredInCents D l = IsCents D l.debit × IsCents D l.credit

pub sum-movement-reverse_lines :
    (D : Decimals) (tenant : ℕ) (now : Date) (id account : ℕ) (ls : List Line)
    → All (StoredInCents D) ls
    → sum_by (movement account) (reverse_lines D tenant now id ls) +ℤ sum_by (movement account) ls
      ≡ pos 0
unfolding reverse_lines
sum-movement-reverse_lines D tenant now id account [] h = omega int_laws
sum-movement-reverse_lines D tenant now id account (l ∷ ls) h =
    grind (int_laws, sum-movement-reverse_lines D tenant now (id + 1) account ls h.1)

pub sum-reverse_lines :
    (D : Decimals) (tenant : ℕ) (now : Date) (id : ℕ) (ls : List Line)
    → All (StoredInCents D) ls
    → (sum_by line_debit (reverse_lines D tenant now id ls) ≡ sum_by line_credit ls)
      × (sum_by line_credit (reverse_lines D tenant now id ls) ≡ sum_by line_debit ls)
unfolding reverse_lines
sum-reverse_lines D tenant now id [] h = (refl, refl)
sum-reverse_lines D tenant now id (l ∷ ls) h =
    ground (arith, sum-reverse_lines D tenant now (id + 1) ls h.1)

pub WellNumbered-link :
    (id : ℕ) (reversal : Option ℕ) (es : List Entry)
    → WellNumbered es
    → WellNumbered (update (λ e. e.id == id) (λ e. record e { reversal = reversal }) es)
WellNumbered-link id reversal [] h = tt
WellNumbered-link id reversal (e ∷ es) h = ground (
  arith,
  WellNumbered-link id reversal es h.1,
  count-update (in_year e.tenant e.number.year) (λ e. e.id == id)
      (λ e. record e { reversal = reversal }) es (λ x. refl),
)

find_original-link :
    (tenant id : ℕ) (o r : Entry) (db db' : Db)
    → find_original tenant id db ≡ ok o
    → r ≡ record r { tenant = tenant }
    → db'.entries ≡ (link o.id r (insert_entry r db).1).1.entries
    → find_original tenant id db' ≡ err already_reversed
unfolding insert_entry
find_original-link tenant id o r db db' f t e =
    elim (Option-cases (find (λ e. e.id == id) db.entries)) [
      | inl nothing ↦ absurd (ground arith)
      | inr (x, found) ↦ ground (
        arith,
        e,
        find-true (λ e. e.id == id) db.entries found,
        find-update (λ e. e.id == id) (λ e. record e { reversal = some r.id }) db.entries
            (λ y. refl),
      )
    ]

module _ (D : Decimals) (tenant : ℕ) (now : Date) (id : ℕ) (date : Date) where
  abbrev ran : Entry → Db → Result Entry × Db
  ran original db = execute_reversal D tenant now original date db

  ran-WellNumbered :
      (o : Entry) (db : Db)
      → WellNumbered db.entries
      → WellNumbered (rollback db (ran o db)).1.entries
  unfolding execute_reversal insert_entry
  ran-WellNumbered o db h = ground (
    arith,
    WellNumbered-link o.id (some db.next_id) (reversal_entry D tenant now o date db ∷ db.entries),
  )

  -- What a call comes to: nothing is written, or its transaction has run.
  pub create_reversal_outcome :
      (db : Db)
      → ((x : Error) × (create_reversal D tenant now id date db ≡ (err x, db)))
        ⊎ ((original : Entry) × (find_original tenant id db ≡ ok original)
            × (create_reversal D tenant now id date db ≡ rollback db (ran original db)))
  unfolding create_reversal
  create_reversal_outcome db = elim (Result-cases (find_original tenant id db)) [
    | inl (original, found) ↦ elim (Result-cases (find_active_period_by_date db tenant date)) [
      | inl (p, open_then) ↦ inr (original, found, ground arith)
      | inr (x, shut) ↦ inl (x, ground arith)
    ]
    | inr (x, missing) ↦ inl (x, ground arith)
  ]

  -- A refused reversal leaves the database as it was.
  pub create_reversal_refused :
      (db db' : Db) {x : Error} → create_reversal D tenant now id date db ≡ (err x, db') → db' ≡ db
  create_reversal_refused db db' h = elim (create_reversal_outcome db) [
    | inl (y, refused) ↦ ground arith
    | inr (original, found, wrote) ↦ rollback_refused db (ran original db) (sym wrote ∙ h)
  ]

  execute_reversal-link :
      (original r : Entry) (db db' : Db)
      → ran original db ≡ (ok r, db')
      → (r ≡ reversal_entry D tenant now original date db)
        × (db' ≡ (link original.id r (insert_entry r db).1).1)
  unfolding execute_reversal insert_entry
  execute_reversal-link original r db db' h =
      elim (Bool-cases (is_taken db tenant (next_number rev tenant date db))) [
        | inl taken ↦ absurd (ground arith)
        | inr free ↦ (ground arith, ground arith)
      ]

  -- A call that returns has entered the reversing entry and linked the original to it.
  pub create_reversal-link :
      (original r : Entry) (db db' : Db)
      → find_original tenant id db ≡ ok original
      → create_reversal D tenant now id date db ≡ (ok r, db')
      → (r ≡ reversal_entry D tenant now original date db)
        × (db' ≡ (link original.id r (insert_entry r db).1).1)
  create_reversal-link original r db db' f h = elim (create_reversal_outcome db) [
    | inl (y, refused) ↦ absurd (ground arith)
    | inr (o, found, wrote) ↦
        let same : o ≡ original = cc in
        execute_reversal-link original r db db'
          (rw (← same) (rollback_returns db (ran o db) (sym wrote ∙ h)))
  ]

  -- The reversal of a balanced entry that is stored in whole cents cancels it: on every account the
  -- two entries together move nothing, and the reversal is balanced.
  pub create_reversal-cancels :
      (original r : Entry) (db db' : Db) (account : ℕ)
      → find_original tenant id db ≡ ok original
      → All (StoredInCents D) original.lines
      → IsBalanced original
      → create_reversal D tenant now id date db ≡ (ok r, db')
      → (sum_by (movement account) r.lines +ℤ sum_by (movement account) original.lines ≡ pos 0)
        × IsBalanced r
  create_reversal-cancels original r db db' account f cents balanced h =
      let made = (create_reversal-link original r db db' f h).0 in
      let (ds, cs) = sum-reverse_lines D tenant now (db.next_id + 1) original.lines cents in
      (
        rw made
            (sum-movement-reverse_lines D tenant now (db.next_id + 1) account original.lines cents),
        rw (made, ds, cs) (sym balanced),
      )

  create_reversal_missing :
      (db : Db) {x : Error}
      → find_original tenant id db ≡ err x
      → create_reversal D tenant now id date db ≡ (err x, db)
  unfolding create_reversal
  create_reversal_missing db f = ground arith

  -- A reversal keeps the numbering, also when it refuses.
  pub create_reversal-WellNumbered :
      (db : Db)
      → WellNumbered db.entries
      → WellNumbered (create_reversal D tenant now id date db).1.entries
  unfolding execute_reversal
  create_reversal-WellNumbered db h = elim (create_reversal_outcome db) [
    | inl (x, refused) ↦ rw refused h
    | inr (o, found, wrote) ↦ rw wrote (ran-WellNumbered o db h)
  ]

-- An entry is reversed at most once: after a reversal, every later one is refused, at any time
-- and on any date, and changes nothing.
pub create_reversal_once :
    (D : Decimals) (tenant id : ℕ) (now now' date date' : Date) (r : Entry) (db db' : Db)
    → create_reversal D tenant now id date db ≡ (ok r, db')
    → create_reversal D tenant now' id date' db' ≡ (err already_reversed, db')
create_reversal_once D tenant id now now' date date' r db db' h =
    elim (create_reversal_outcome D tenant now id date db) [
      | inl (y, refused) ↦ absurd (ground arith)
      | inr (o, found, wrote) ↦
          let (made, linked) = create_reversal-link D tenant now id date o r db db' found h in
          create_reversal_missing D tenant now' id date' db'
            (find_original-link tenant id o r db db' found (ground arith) (rw linked))
    ]
