-- ===== src/Services/Balance.antt =====
-- The balance of the entries that the services leave, and with it the trial balance.
use erp_ai_private.Prelude.{
  ◌+◌, ℕ, ◌≡◌, refl, sym, ◌∙◌, List, [], ◌∷◌, Option, some, Bool, ◌==◌, arith, All, All-find,
  All-update, update, find, inl, inr, Option-cases, if◌then◌else◌,
}
use erp_ai_private.Prelude.Int.{ℤ, ◌-ℤ◌, sum_by}
use erp_ai_private.Decimal.{Decimals}
use erp_ai_private.Db.{ok, Date, Line, Entry, Db}
use erp_ai_private.Journal.{
  EntryDto, insert_entry, new_entry, create, find_original, reversal_entry, execute_reversal,
  create_reversal,
}
use erp_ai_private.Journal.Create.{create-entries}
use erp_ai_private.Journal.Reversal.{StoredInCents, create_reversal_outcome}
use erp_ai_private.Ledger.{posted_lines, get_trial_balance}
use erp_ai_private.Ledger.Balanced.{HasOneAccount, net, get_trial_balance-difference}
use erp_ai_private.Ledger.Rounding.{
  IsRounding, IsWithin, IsEven, IsNear, IsNear-IsEven, allowed, store_lines-IsEven,
  store_lines-StoredInCents, reversal-IsNear, posted_lines-IsEven,
}
use erp_ai_private.Reconciliations.{update_lines}
use erp_ai_private.Services.{Reaches}
use erp_ai_private.Services.Keeps.{IsKept, rollback-Keeps}
use erp_ai_private.Services.Numbering.{Reaches-IsOwned, execute_reversal-entries}
use erp_ai_private.Services.Steps.{Reaches-Keeps}

insert_entry-All :
    (P : Entry → Type 0) (e : Entry) (db : Db)
    → P e
    → All P db.entries
    → All P (insert_entry e db).1.entries
unfolding insert_entry
insert_entry-All P e db p h = ground arith

find_original-find :
    (tenant id : ℕ) (o : Entry) (db : Db)
    → find_original tenant id db ≡ ok o
    → find (λ e. e.id == id) db.entries ≡ some o
find_original-find tenant id o db h = elim (Option-cases (find (λ e. e.id == id) db.entries)) [
  | inl missing ↦ absurd (ground arith)
  | inr (x, found) ↦ ground arith
]

sum-update_lines :
    (f : Line → ℤ) (p : Line → Bool) (id : Option ℕ) (ls : List Line)
    → ((l : Line) → f (record l { reconciliation = id }) ≡ f l)
    → sum_by f (update p (λ l. record l { reconciliation = id }) ls) ≡ sum_by f ls
sum-update_lines f p id [] k = refl
sum-update_lines f p id (l ∷ ls) k = ground (arith, k l, sum-update_lines f p id ls k)

allowed-update_lines :
    (half : ℕ) (p : Line → Bool) (id : Option ℕ) (ls : List Line)
    → allowed half (update p (λ l. record l { reconciliation = id }) ls) ≡ allowed half ls
allowed-update_lines half p id [] = refl
allowed-update_lines half p id (l ∷ ls) = ground (arith, allowed-update_lines half p id ls)

marked-debit :
    (q : Bool) (id : Option ℕ) (l : Line)
    → (if q then record l { reconciliation = id } else l).debit ≡ l.debit
marked-debit q id l = ground arith

marked-credit :
    (q : Bool) (id : Option ℕ) (l : Line)
    → (if q then record l { reconciliation = id } else l).credit ≡ l.credit
marked-credit q id l = ground arith

update-IsNear :
    (D : Decimals) (half : ℕ) (p : Line → Bool) (id : Option ℕ) (e : Entry)
    → IsNear D half e
    → IsNear D half (record e { lines = update p (λ l. record l { reconciliation = id }) e.lines })
update-IsNear D half p id e (inl (cents, even)) = inl (
  All-update (StoredInCents D) p (λ l. record l { reconciliation = id }) e.lines (λ l k. k) cents,
  rw (allowed-update_lines half p id e.lines, sum-update_lines net p id e.lines (λ l. refl)) even,
)
update-IsNear D half p id e (inr (a, b, two, x, y)) = inr (
    rw two (
      _,
      _,
      refl,
      marked-debit (p a) id a ∙ x ∙ sym (marked-credit (p b) id b),
      marked-credit (p a) id a ∙ y ∙ sym (marked-debit (p b) id b),
    ))

update_lines-IsNear :
    (D : Decimals) (half : ℕ) (p : Line → Bool) (id : Option ℕ) (es : List Entry)
    → All (IsNear D half) es
    → All (IsNear D half) (update_lines p (λ l. record l { reconciliation = id }) es)
update_lines-IsNear D half p id [] h = tt
update_lines-IsNear D half p id (e ∷ es) (b, h) =
    (update-IsNear D half p id e b, update_lines-IsNear D half p id es h)

module _ (D : Decimals) (half : ℕ) (r : IsRounding D half) where
  create-keeps :
      (tenant : ℕ) (now : Date) (dto : EntryDto) (db : Db)
      → All (IsNear D half) db.entries
      → All (IsNear D half) (create D tenant now dto db).1.entries
  create-keeps tenant now dto db h =
      create-entries D tenant now dto (All (IsNear D half)) db h (λ fine.
        insert_entry-All (IsNear D half) (new_entry D tenant now dto db) db
          (inl (
            store_lines-StoredInCents D half tenant now (db.next_id + 1) dto.lines r,
            store_lines-IsEven D half db tenant now (db.next_id + 1) dto.lines r fine.lines_ok
                fine.balanced,
          ))
          h)

  create_reversal-keeps :
      (tenant : ℕ) (now : Date) (id : ℕ) (date : Date) (db : Db)
      → All (IsNear D half) db.entries
      → All (IsNear D half) (create_reversal D tenant now id date db).1.entries
  create_reversal-keeps tenant now id date db h =
      elim (create_reversal_outcome D tenant now id date db) [
        | inl (x, refused) ↦ rw refused h
        | inr (o, found, wrote) ↦
            let original : IsNear D half o =
              All-find (IsNear D half) (λ e. e.id == id) db.entries h
                (find_original-find tenant id o db found) in
            let near : IsNear D half (reversal_entry D tenant now o date db) =
              reversal-IsNear D half tenant now (db.next_id + 1) o
                (reversal_entry D tenant now o date db) r refl original in
            let after : All (IsNear D half) (execute_reversal D tenant now o date db).1.entries =
              elim (execute_reversal-entries D tenant now o date db) [
                | inl same ↦ rw same h
                | inr made ↦ rw made (
                    All-update (IsNear D half) (λ e. e.id == o.id)
                      (λ e. record e { reversal = some db.next_id })
                      (reversal_entry D tenant now o date db ∷ db.entries) (λ e k. k) (near, h))
              ] in
            rw wrote (
              rollback-Keeps (All (IsNear D half)) db (execute_reversal D tenant now o date db) h
                after)
      ]

  IsNear-IsKept : IsKept D (All (IsNear D half))
  IsNear-IsKept = record {
    by_create = create-keeps;
    by_reversal = create_reversal-keeps;
    by_mark = λ p id es h. update_lines-IsNear D half p id es h;
    by_depreciation = λ tenant now s a db h. (inr (_, _, refl, refl, refl), h);
  }

  each_IsEven : (es : List Entry) → All (IsNear D half) es → All (λ e. IsEven half e.lines) es
  each_IsEven [] h = tt
  each_IsEven (e ∷ es) (near, h) = (IsNear-IsEven D half e near, each_IsEven es h)

  -- From a ledger without entries, whatever calls the services answer, in any order and with any
  -- refusals among them: the debits and the credits of every entry differ by at most `half` for
  -- each of its lines, where `half` is the most that a column of two places moves an amount when
  -- it rounds.
  pub Reaches-IsEven :
      (db db' : Db)
      → Reaches D db db'
      → db.entries ≡ []
      → All (λ e. IsEven half e.lines) db'.entries
  Reaches-IsEven db db' calls e =
      each_IsEven db'.entries
        (Reaches-Keeps D (All (IsNear D half)) IsNear-IsKept db db' calls (rw e tt))

  -- In every ledger that the services reach from one without entries, the totals of the trial
  -- balance of a tenant over any range of dates differ by at most `half`, the most that a column of
  -- two places moves an amount when it rounds, for each posted line of the range, if each of these
  -- lines has one active account of the tenant.
  pub Reaches-get_trial_balance :
      (tenant : ℕ) (from to : Option Date) (db db' : Db)
      → Reaches D db db'
      → db.entries ≡ []
      → All (HasOneAccount tenant db') (posted_lines tenant from to db')
      → let t = get_trial_balance tenant from to db' in
        IsWithin (allowed half (posted_lines tenant from to db')) (t.debit -ℤ t.credit)
  Reaches-get_trial_balance tenant from to db db' calls e h =
      rw (get_trial_balance-difference tenant from to db' h) (
        posted_lines-IsEven half tenant from to db' (Reaches-IsEven db db' calls e)
          (Reaches-IsOwned D db db' calls e))
