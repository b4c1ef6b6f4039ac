-- ===== src/Services/Numbering.antt =====
-- The ledger that the services leave: its numbers, and whose lines its entries have.
use erp_ai_private.Prelude.{
  ◌+◌, ℕ, ◌≡◌, ◌⊎◌, refl, sym, ap, ◌∙◌, List, [], ◌∷◌, Option, some, Bool, Bool-cases, ◌==◌, arith,
  All, count, update, inl, inr, All-update,
}
use erp_ai_private.Decimal.{Decimals}
use erp_ai_private.Db.{ok, rev, Date, Line, Entry, Db}
use erp_ai_private.Journal.{
  EntryDto, in_year, has_references, insert_entry, store_lines, reverse_lines, new_entry, create,
  reversal_entry, is_taken, next_number, execute_reversal, create_reversal, LineDto,
}
use erp_ai_private.Journal.Balance.{IsAcceptable}
use erp_ai_private.Journal.Create.{create-entries}
use erp_ai_private.Journal.Numbers.{WellNumbered, IsStorable, create_total, create-WellNumbered}
use erp_ai_private.Journal.Reversal.{create_reversal_outcome, create_reversal-WellNumbered}
use erp_ai_private.Ledger.Balanced.{IsOwned}
use erp_ai_private.Reconciliations.{update_lines}
use erp_ai_private.Services.{Reaches}
use erp_ai_private.Services.Keeps.{IsKept, rollback-Keeps}
use erp_ai_private.Services.Steps.{Reaches-Keeps}

count-update_lines :
    (tenant year : ℕ) (p : Line → Bool) (f : Line → Line) (es : List Entry)
    → count (in_year tenant year) (update_lines p f es) ≡ count (in_year tenant year) es
count-update_lines tenant year p f [] = refl
count-update_lines tenant year p f (e ∷ es) = ground (arith, count-update_lines tenant year p f es)

update_lines-WellNumbered :
    (p : Line → Bool) (f : Line → Line) (es : List Entry)
    → WellNumbered es
    → WellNumbered (update_lines p f es)
update_lines-WellNumbered p f [] h = tt
update_lines-WellNumbered p f (e ∷ es) (inl other, h) =
    (inl other, update_lines-WellNumbered p f es h)
update_lines-WellNumbered p f (e ∷ es) (inr (y, s), h) =
    let same = count-update_lines e.tenant e.number.year p f es in
    (inr (y, s ∙ ap (λ n. n + 1) (sym same)), update_lines-WellNumbered p f es h)

WellNumbered-IsKept : (D : Decimals) → IsKept D WellNumbered
WellNumbered-IsKept D = record {
  by_create = λ tenant now dto db h. create-WellNumbered D tenant now dto db h;
  by_reversal = λ tenant now id date db h. create_reversal-WellNumbered D tenant now id date db h;
  by_mark = λ p id es h. update_lines-WellNumbered p (λ l. record l { reconciliation = id }) es h;
  by_depreciation = λ tenant now s a db h. (inl refl, h);
}

store_lines-IsOwned :
    (D : Decimals) (tenant : ℕ) (now : Date) (id : ℕ) (ls : List LineDto)
    → All (λ l. l.tenant ≡ tenant) (store_lines D tenant now id ls)
unfolding store_lines
store_lines-IsOwned D tenant now id [] = tt
store_lines-IsOwned D tenant now id (l ∷ ls) = (refl, store_lines-IsOwned D tenant now (id + 1) ls)

reverse_lines-IsOwned :
    (D : Decimals) (tenant : ℕ) (now : Date) (id : ℕ) (ls : List Line)
    → All (λ l. l.tenant ≡ tenant) (reverse_lines D tenant now id ls)
unfolding reverse_lines
reverse_lines-IsOwned D tenant now id [] = tt
reverse_lines-IsOwned D tenant now id (l ∷ ls) =
    (refl, reverse_lines-IsOwned D tenant now (id + 1) ls)

insert_entry-IsOwned :
    (e : Entry) (db : Db)
    → IsOwned e
    → All IsOwned db.entries
    → All IsOwned (insert_entry e db).1.entries
unfolding insert_entry
insert_entry-IsOwned e db o h = ground arith

create-IsOwned :
    (D : Decimals) (tenant : ℕ) (now : Date) (dto : EntryDto) (db : Db)
    → All IsOwned db.entries
    → All IsOwned (create D tenant now dto db).1.entries
create-IsOwned D tenant now dto db h = create-entries D tenant now dto (All IsOwned) db h (λ fine.
    insert_entry-IsOwned (new_entry D tenant now dto db) db
      (store_lines-IsOwned D tenant now (db.next_id + 1) dto.lines) h)

-- the entries after the transaction of a reversal
pub execute_reversal-entries :
    (D : Decimals) (tenant : ℕ) (now : Date) (o : Entry) (date : Date) (db : Db)
    → ((execute_reversal D tenant now o date db).1.entries ≡ db.entries)
      ⊎ ((execute_reversal D tenant now o date db).1.entries
          ≡ update
              (λ e. e.id == o.id)
              (λ e. record e { reversal = some db.next_id })
              (reversal_entry D tenant now o date db ∷ db.entries))
unfolding execute_reversal insert_entry
execute_reversal-entries D tenant now o date db =
    elim (Bool-cases (is_taken db tenant (next_number rev tenant date db))) [
      | inl taken ↦ inl (ground arith)
      | inr free ↦
          elim (Bool-cases (has_references db (reversal_entry D tenant now o date db).lines)) [
            | inl known ↦ inr (ground arith)
            | inr unknown ↦ inl (ground arith)
          ]
    ]

execute_reversal-IsOwned :
    (D : Decimals) (tenant : ℕ) (now : Date) (o : Entry) (date : Date) (db : Db)
    → All IsOwned db.entries
    → All IsOwned (execute_reversal D tenant now o date db).1.entries
execute_reversal-IsOwned D tenant now o date db h =
    let owned = reverse_lines-IsOwned D tenant now (db.next_id + 1) o.lines in
    elim (execute_reversal-entries D tenant now o date db) [
      | inl same ↦ rw same h
      | inr made ↦ rw made (
          All-update IsOwned (λ e. e.id == o.id) (λ e. record e { reversal = some db.next_id })
            (reversal_entry D tenant now o date db ∷ db.entries) (λ e k. k) (owned, h))
    ]

create_reversal-IsOwned :
    (D : Decimals) (tenant : ℕ) (now : Date) (id : ℕ) (date : Date) (db : Db)
    → All IsOwned db.entries
    → All IsOwned (create_reversal D tenant now id date db).1.entries
create_reversal-IsOwned D tenant now id date db h =
    elim (create_reversal_outcome D tenant now id date db) [
      | inl (x, refused) ↦ rw refused h
      | inr (o, found, wrote) ↦ rw wrote (
          rollback-Keeps (All IsOwned) db (execute_reversal D tenant now o date db) h
            (execute_reversal-IsOwned D tenant now o date db h))
    ]

update-IsOwned :
    (tenant : ℕ) (p : Line → Bool) (id : Option ℕ) (ls : List Line)
    → All (λ l. l.tenant ≡ tenant) ls
    → All (λ l. l.tenant ≡ tenant) (update p (λ l. record l { reconciliation = id }) ls)
update-IsOwned tenant p id ls h =
    All-update (λ l. l.tenant ≡ tenant) p (λ l. record l { reconciliation = id }) ls (λ l k. k) h

update_lines-IsOwned :
    (p : Line → Bool) (id : Option ℕ) (es : List Entry)
    → All IsOwned es
    → All IsOwned (update_lines p (λ l. record l { reconciliation = id }) es)
update_lines-IsOwned p id [] h = tt
update_lines-IsOwned p id (e ∷ es) (o, h) =
    (update-IsOwned e.tenant p id e.lines o, update_lines-IsOwned p id es h)

IsOwned-IsKept : (D : Decimals) → IsKept D (All IsOwned)
IsOwned-IsKept D = record {
  by_create = λ tenant now dto db h. create-IsOwned D tenant now dto db h;
  by_reversal = λ tenant now id date db h. create_reversal-IsOwned D tenant now id date db h;
  by_mark = λ p id es h. update_lines-IsOwned p id es h;
  by_depreciation = λ tenant now s a db h. ((refl, (refl, tt)), h);
}

-- From a ledger without entries, whatever calls the services answer, in any order and with any
-- refusals among them: every line belongs to the tenant of its entry.
pub Reaches-IsOwned :
    (D : Decimals) (db db' : Db) → Reaches D db db' → db.entries ≡ [] → All IsOwned db'.entries
Reaches-IsOwned D db db' r e = Reaches-Keeps D (All IsOwned) (IsOwned-IsKept D) db db' r (rw e tt)

-- From a ledger without entries, whatever calls the services answer, in any order and with any
-- refusals among them: each entry, but for those of depreciation, is numbered by the year of its date
-- and by its place among its tenant's entries of that year.
pub Reaches-WellNumbered :
    (D : Decimals) (db db' : Db) → Reaches D db db' → db.entries ≡ [] → WellNumbered db'.entries
Reaches-WellNumbered D db db' r e =
    Reaches-Keeps D WellNumbered (WellNumbered-IsKept D) db db' r (rw e tt)

-- In every ledger that the services reach from one without entries, a request with two lines or
-- more, equal debits and credits, lines that may be posted and a date in a period that is not
-- closed is always entered, if the accounts, contacts and currencies of its lines exist and their
-- amounts have no more digits than their columns: `create` returns the entry and puts it in front.
pub Reaches-create_total :
    (D : Decimals) (db db' : Db) (tenant : ℕ) (now : Date) (dto : EntryDto)
    → Reaches D db db'
    → db.entries ≡ []
    → IsAcceptable db' tenant dto
    → All (IsStorable D db') (new_entry D tenant now dto db').lines
    → ((create D tenant now dto db').0 ≡ ok (new_entry D tenant now dto db'))
      × ((create D tenant now dto db').1.entries ≡ new_entry D tenant now dto db' ∷ db'.entries)
Reaches-create_total D db db' tenant now dto r e fine taken =
    create_total D tenant now dto db' (Reaches-WellNumbered D db db' r e) fine taken
