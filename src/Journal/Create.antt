-- ===== src/Journal/Create.antt =====
-- The contract of `create`: what it accepts and what it writes.
use erp_ai_private.Prelude.{
  ℕ, ◌+◌, ◌≡◌, ◌⊎◌, inl, inr, ◌∙◌, sym, List, ◌∷◌, arith, All, none, Bool-cases,
}
use erp_ai_private.Prelude.Int.{pos, sum_by, zero_+ℤ, eq_ℤ→eq, eq_ℤ_refl}
use erp_ai_private.Decimal.{Decimals, Rounds}
use erp_ai_private.Db.{Entry, Db, ok, err, Error, Date, posted, je, transaction, Result-cases}
use erp_ai_private.Periods.{find_active_period_by_date}
use erp_ai_private.Journal.{
  EntryDto, new_entry, has_room, check_lines, insert_entry, store_lines, execute_create, create,
  next_number,
}
use erp_ai_private.Journal.Balance.{
  debit_of, credit_of, IsAcceptable, IsLine, IsBalanced, InCents, check_lines-IsPostable,
  IsPostable-check_lines, sum-store_lines, store_lines-IsLine,
}

-- The entry that an accepted request becomes, but for its lines.
pub record IsEntryOf (D : Decimals) (db : Db) (tenant : ℕ) (now : Date) (dto : EntryDto) (e : Entry)
    : Type 0 where
  pub id : e.id ≡ db.next_id
  pub tenant_kept : e.tenant ≡ tenant
  pub date : e.date ≡ dto.entry_date
  pub status : e.status ≡ posted
  pub number : e.number ≡ next_number je tenant dto.entry_date db
  pub unreversed : e.reversal ≡ none
  pub lines : e.lines ≡ store_lines D tenant now (db.next_id + 1) dto.lines

module _ (D : Decimals) (tenant : ℕ) (now : Date) (dto : EntryDto) where
  -- A refused entry leaves the database as it was.
  pub create_refused :
      (db db' : Db) {x : Error} → create D tenant now dto db ≡ (err x, db') → db' ≡ db
  unfolding create execute_create insert_entry
  create_refused db db' h = ground arith

  transaction-execute_create :
      (db : Db)
      → transaction (execute_create D tenant now dto) db ≡ execute_create D tenant now dto db
  unfolding execute_create insert_entry
  transaction-execute_create db = ground arith

  pub create-insert :
      (db db' : Db) {e : Entry}
      → create D tenant now dto db ≡ (ok e, db')
      → IsAcceptable db tenant dto × (execute_create D tenant now dto db ≡ (ok e, db'))
  unfolding create
  create-insert db db' {e = e} h =
      elim (Result-cases (find_active_period_by_date db tenant dto.entry_date)) [
        | inl (p, found) ↦ elim (Result-cases (check_lines db tenant (pos 0, pos 0) dto.lines)) [
          | inl (u, checked) ↦
              let (good, sums) =
                check_lines-IsPostable db tenant (pos 0, pos 0) u dto.lines checked in
              (
                record {
                  two_lines = ground arith;
                  period = p;
                  period_ok = found;
                  lines_ok = good;
                  balanced = ground (
                    arith,
                    sums,
                    zero_+ℤ (sum_by debit_of dto.lines),
                    zero_+ℤ (sum_by credit_of dto.lines),
                    eq_ℤ→eq u.0 u.1,
                  );
                },
                ground (arith, transaction-execute_create db),
              )
          | inr (x, failed) ↦ absurd (ground arith)
        ]
        | inr (x, missing) ↦ absurd (ground arith)
      ]

  pub create-accepts :
      (db : Db)
      → IsAcceptable db tenant dto
      → create D tenant now dto db ≡ execute_create D tenant now dto db
  unfolding create
  create-accepts db h = ground (
    arith,
    transaction-execute_create db,
    IsPostable-check_lines db tenant (pos 0, pos 0) dto.lines h.lines_ok,
    zero_+ℤ (sum_by debit_of dto.lines),
    zero_+ℤ (sum_by credit_of dto.lines),
    eq_ℤ_refl (sum_by credit_of dto.lines),
  )

  -- What a call of `create` comes to: nothing is written, or the entry is.
  pub create_outcome :
      (db : Db)
      → ((create D tenant now dto db).1 ≡ db)
        ⊎ (IsAcceptable db tenant dto
            × (create D tenant now dto db ≡ execute_create D tenant now dto db))
  create_outcome db = elim (Result-cases (create D tenant now dto db).0) [
    | inl (e, returned) ↦
        let whole : create D tenant now dto db ≡ (ok e, (create D tenant now dto db).1) =
          λ i. (returned i, (create D tenant now dto db).1) in
        let (fine, ran) = create-insert db (create D tenant now dto db).1 whole in
        inr (fine, whole ∙ sym ran)
    | inr (x, thrown) ↦ inl (
        create_refused db (create D tenant now dto db).1
          (λ i. (thrown i, (create D tenant now dto db).1)))
  ]

  -- What the transaction comes to: nothing is written when an amount is too large for its column,
  -- and otherwise the entry is inserted.
  pub execute_create_outcome :
      (db : Db)
      → ((execute_create D tenant now dto db).1 ≡ db)
        ⊎ (execute_create D tenant now dto db ≡ insert_entry (new_entry D tenant now dto db) db)
  unfolding execute_create
  execute_create_outcome db = elim (Bool-cases (has_room D (new_entry D tenant now dto db).lines)) [
    | inl fits ↦ inr (ground arith)
    | inr large ↦ inl (ground arith)
  ]

  -- A property of the entries that the new entry keeps is kept by `create`.
  pub create-entries :
      (Q : List Entry → Type 0) (db : Db)
      → Q db.entries
      → (IsAcceptable db tenant dto → Q (insert_entry (new_entry D tenant now dto db) db).1.entries)
      → Q (create D tenant now dto db).1.entries
  create-entries Q db h k = elim (create_outcome db) [
    | inl unchanged ↦ rw unchanged h
    | inr (fine, ran) ↦ elim (execute_create_outcome db) [
      | inl same ↦ rw (ran, same) h
      | inr inserted ↦ rw (ran, inserted) (k fine)
    ]
  ]

  pub execute_create-IsEntryOf :
      (db db' : Db) {e : Entry}
      → execute_create D tenant now dto db ≡ (ok e, db')
      → IsEntryOf D db tenant now dto e × (db'.entries ≡ e ∷ db.entries)
  unfolding execute_create insert_entry
  execute_create-IsEntryOf db db' {e = e} h = ground arith

  -- An entry that `create` returns stands in front of the ledger, is posted for its tenant on the
  -- requested date, and each of its lines is one-sided and not negative.
  pub create-IsLine :
      (db db' : Db) {e : Entry}
      → Rounds D
      → create D tenant now dto db ≡ (ok e, db')
      → (db'.entries ≡ e ∷ db.entries)
        × (e.tenant ≡ tenant)
        × (e.date ≡ dto.entry_date)
        × (e.status ≡ posted)
        × All IsLine e.lines
  create-IsLine db db' r h =
      let (fine, ran) = create-insert db db' h in
      let (made, added) = execute_create-IsEntryOf db db' ran in
      (
        added,
        made.tenant_kept,
        made.date,
        made.status,
        rw made.lines
            (store_lines-IsLine D db tenant now (db.next_id + 1) dto.lines r fine.lines_ok),
      )

  -- If all amounts of the request are whole cents, an entry that `create` returns is balanced as
  -- it is stored: its debits and its credits have the same sum.
  pub create-IsBalanced :
      (db db' : Db) {e : Entry}
      → All (InCents D) dto.lines
      → create D tenant now dto db ≡ (ok e, db')
      → IsBalanced e
  create-IsBalanced db db' cents h =
      let (fine, ran) = create-insert db db' h in
      let (made, added) = execute_create-IsEntryOf db db' ran in
      let (ds, cs) = sum-store_lines D tenant now (db.next_id + 1) dto.lines cents in
      rw (made.lines, ds, cs) fine.balanced
