-- ===== src/Journal/Numbers.antt =====
-- Entry numbers: the count that `create` and `createReversal` number by, and the unique index on
-- (tenantId, entryNumber).
use erp_ai_private.Prelude.{
  ℕ, ◌+◌, ◌==◌, ◌≤◌, ◌≡◌, refl, ◌⊎◌, List, [], ◌∷◌, none, ◌&&◌, true, false, arith, find, count,
  All,
}
use erp_ai_private.Decimal.{Decimals}
use erp_ai_private.Db.{
  je, is_counter, Line, Entry, EntryPrefix, EntryNumber, same_number, Date, Db, ok,
}
use erp_ai_private.Journal.{
  EntryDto, in_year, next_number, is_taken, is_known, has_references, line_has_room, has_room,
  insert_entry, execute_create, new_entry, create,
}
use erp_ai_private.Journal.Balance.{IsAcceptable}
use erp_ai_private.Journal.Create.{create-accepts, create-entries}

-- The entry is numbered by the year of its date and its place among that year's entries.
abbrev pub IsCounted : Entry → List Entry → Type 0
IsCounted e es =
    (e.number.year ≡ e.date.year) × (e.number.seq ≡ count (in_year e.tenant e.number.year) es + 1)

-- Each entry, but for those of depreciation, is numbered by the year of its date and its place among
-- that year's entries.
abbrev pub WellNumbered : List Entry → Type 0
WellNumbered [] = Unit
WellNumbered (e ∷ es) = ((is_counter e.number.prefix ≡ false) ⊎ IsCounted e es) × WellNumbered es

pub find-number :
    (tenant : ℕ) (n : EntryNumber) (es : List Entry)
    → WellNumbered es
    → is_counter n.prefix ≡ true
    → count (in_year tenant n.year) es + 1 ≤ n.seq
    → find (λ e. e.tenant == tenant && same_number e.number n) es ≡ none
find-number tenant n [] h c k = refl
find-number tenant n (e ∷ es) (o, h) c k = ground (arith, find-number tenant n es h c, o)

pub next_number-free :
    (prefix : EntryPrefix) (tenant : ℕ) (date : Date) (db : Db)
    → is_counter prefix ≡ true
    → WellNumbered db.entries
    → is_taken db tenant (next_number prefix tenant date db) ≡ false
next_number-free prefix tenant date db c h =
    ground (arith, find-number tenant (next_number prefix tenant date db) db.entries h)

pub insert_entry-WellNumbered :
    (e : Entry) (db : Db) {prefix : EntryPrefix}
    → e.number ≡ next_number prefix e.tenant e.date db
    → WellNumbered db.entries
    → WellNumbered (insert_entry e db).1.entries
unfolding insert_entry
insert_entry-WellNumbered e db n h = ground arith

-- The tables take the line: its account, its contact and its currency exist, and its columns have
-- the digits for its amounts.
abbrev pub IsStorable : Decimals → Db → Line → Type 0
IsStorable D db l = (is_known db l ≡ true) × (line_has_room D l ≡ true)

IsStorable-has_references :
    (D : Decimals) (db : Db) (ls : List Line)
    → All (IsStorable D db) ls
    → has_references db ls ≡ true
unfolding has_references
IsStorable-has_references D db [] h = refl
IsStorable-has_references D db (l ∷ ls) ((known, room), h) =
    rw (known, IsStorable-has_references D db ls h) refl

IsStorable-has_room :
    (D : Decimals) (db : Db) (ls : List Line) → All (IsStorable D db) ls → has_room D ls ≡ true
unfolding has_room
IsStorable-has_room D db [] h = refl
IsStorable-has_room D db (l ∷ ls) ((known, room), h) = rw (room, IsStorable-has_room D db ls h) refl

module _ (D : Decimals) (tenant : ℕ) (now : Date) (dto : EntryDto) where
  -- `create` keeps the numbering, also when it refuses.
  pub create-WellNumbered :
      (db : Db) → WellNumbered db.entries → WellNumbered (create D tenant now dto db).1.entries
  create-WellNumbered db h =
      create-entries D tenant now dto WellNumbered db h
        (λ fine. insert_entry-WellNumbered (new_entry D tenant now dto db) db refl h)

  -- In a well-numbered ledger every acceptable request that the tables take is entered: `create`
  -- returns the entry, numbered one past the entries of its year.
  pub create_total :
      (db : Db)
      → WellNumbered db.entries
      → IsAcceptable db tenant dto
      → All (IsStorable D db) (new_entry D tenant now dto db).lines
      → ((create D tenant now dto db).0 ≡ ok (new_entry D tenant now dto db))
        × ((create D tenant now dto db).1.entries ≡ new_entry D tenant now dto db ∷ db.entries)
  unfolding execute_create insert_entry
  create_total db h fine taken = rw (create-accepts D tenant now dto db fine) (
      ground (
        arith,
        next_number-free je tenant dto.entry_date db refl h,
        IsStorable-has_references D db (new_entry D tenant now dto db).lines taken,
        IsStorable-has_room D db (new_entry D tenant now dto db).lines taken,
      ))
