-- ===== src/Vat/Returns.antt =====
-- Returns over consecutive periods.
use erp_ai_private.Prelude.{
  ℕ, ◌+◌, ◌-◌, ◌%◌, ◌==◌, ◌≤◌, ◌≡◌, refl, ap, ◌∙◌, List, [], ◌∷◌, Bool, true, false, ◌&&◌, arith,
  select, Bool-cases, inl, inr, if◌then◌else◌,
}
use erp_ai_private.Prelude.Int.{ℤ, pos, ◌+ℤ◌, ◌-ℤ◌, sum_by, int_laws}
use erp_ai_private.Db.{
  InvoiceType, sales_invoice, purchase_invoice, credit_note, debit_note, Invoice, Date, leb_date,
  ltb_date, Db,
}
use erp_ai_private.Periods.Calendar.{day_ms, start_of_day, end_of_day, one_if, within_split}
use erp_ai_private.Vat.{
  is_effective, in_return, is_output, is_input, add_tax, add_taxes, vat_totals, net_vat,
  calculate_vat_return,
}

-- an invoice's part of the tax that is due
abbrev pub due : Invoice → ℤ
due i = if is_output i.type then i.tax_total else pos 0 -ℤ i.tax_total

due_typed :
    (t : InvoiceType) (a : ℤ) (acc : ℤ × ℤ) → is_input t ≡ (if is_output t then false else true)
due_typed sales_invoice a acc = refl
due_typed purchase_invoice a acc = refl
due_typed credit_note a acc = refl
due_typed debit_note a acc = refl

add_tax-due :
    (acc : ℤ × ℤ) (i : Invoice) → (add_tax acc i).0 -ℤ (add_tax acc i).1 ≡ acc.0 -ℤ acc.1 +ℤ due i
unfolding add_tax
add_tax-due acc i = elim (Bool-cases (is_output i.type)) [
  | inl sold ↦ grind (int_laws, sold)
  | inr bought ↦
      let input : is_input i.type ≡ true = due_typed i.type i.tax_total acc ∙ rw bought refl in
      grind (int_laws, bought, input)
]

add_taxes-due :
    (acc : ℤ × ℤ) (is : List Invoice)
    → (add_taxes acc is).0 -ℤ (add_taxes acc is).1 ≡ acc.0 -ℤ acc.1 +ℤ sum_by due is
unfolding add_taxes
add_taxes-due acc [] = omega int_laws
add_taxes-due acc (i ∷ is) = grind (int_laws, add_taxes-due (add_tax acc i) is, add_tax-due acc i)

-- the day after, in the same year
abbrev pub next_day : Date → Date
next_day d = record { year = d.year; ms = d.ms + day_ms }

-- the days are even parts of the year
day_after : (m : ℕ) → m + day_ms - (m + day_ms) % day_ms ≡ m - m % day_ms + day_ms
day_after m = omega arith

day_order : (m n : ℕ) → m ≤ n → m - m % day_ms ≤ n - n % day_ms
day_order m n h = omega arith

-- up to the end of a day is before the start of the next
leb_date-end_of_day :
    (d mid : Date) → leb_date d (end_of_day mid) ≡ ltb_date d (start_of_day (next_day mid))
leb_date-end_of_day d mid = let next = day_after mid.ms in ground arith

start_before :
    (start mid : Date)
    → leb_date start mid ≡ true
    → ltb_date (start_of_day start) (start_of_day (next_day mid)) ≡ true
start_before start mid h = elim (Bool-cases (start.year == mid.year)) [
  | inl same ↦
      let within_year : start.ms ≤ mid.ms = ground arith in
      let order = day_order start.ms mid.ms within_year in
      let next = day_after mid.ms in ground arith
  | inr other ↦ ground arith
]

end_after :
    (mid end : Date)
    → leb_date (next_day mid) end ≡ true
    → ltb_date (end_of_day end) (start_of_day (next_day mid)) ≡ false
end_after mid end h = elim (Bool-cases (mid.year == end.year)) [
  | inl same ↦
      let within_year : mid.ms + day_ms ≤ end.ms = ground arith in
      let order = day_order (mid.ms + day_ms) end.ms within_year in ground arith
  | inr other ↦ ground arith
]

-- an invoice is in one of the two parts or in none
one_part :
    (tenant : ℕ) (start mid end : Date) (i : Invoice)
    → leb_date start mid ≡ true
    → leb_date (next_day mid) end ≡ true
    → one_if (in_return tenant start mid i) + one_if (in_return tenant (next_day mid) end i)
      ≡ one_if (in_return tenant start end i)
one_part tenant start mid end i h k =
    elim (Bool-cases (i.tenant == tenant && is_effective i.status)) [
      | inl counts ↦
          rw (counts, leb_date-end_of_day i.issue_date mid)
            (within_split (start_of_day start) (start_of_day (next_day mid)) (end_of_day end)
              i.issue_date (start_before start mid h) (end_after mid end k))
      | inr not_counted ↦ rw not_counted refl
    ]

sum-select_parts :
    (f g h : Invoice → Bool) (xs : List Invoice)
    → ((i : Invoice) → one_if (f i) + one_if (g i) ≡ one_if (h i))
    → sum_by due (select h xs) ≡ sum_by due (select f xs) +ℤ sum_by due (select g xs)
sum-select_parts f g h [] k = omega int_laws
sum-select_parts f g h (i ∷ is) k =
    let rest = sum-select_parts f g h is k in
    let one = k i in
    elim (Bool-cases (f i)) [
      | inl a ↦ elim (Bool-cases (g i)) [
        | inl b ↦ absurd (grind (arith, a, b))
        | inr b ↦ let c : h i ≡ true = grind (arith, a, b) in rw (a, b, c) (grind (int_laws, rest))
      ]
      | inr a ↦ elim (Bool-cases (g i)) [
        | inl b ↦ let c : h i ≡ true = grind (arith, a, b) in rw (a, b, c) (grind (int_laws, rest))
        | inr b ↦ let c : h i ≡ false = grind (arith, a, b) in rw (a, b, c) rest
      ]
    ]

vat_totals-split :
    (tenant : ℕ) (start mid end : Date) (db : Db)
    → leb_date start mid ≡ true
    → leb_date (next_day mid) end ≡ true
    → net_vat (vat_totals tenant start end db)
      ≡ net_vat (vat_totals tenant start mid db)
        +ℤ net_vat (vat_totals tenant (next_day mid) end db)
unfolding vat_totals
vat_totals-split tenant start mid end db h k =
    let whole = select (in_return tenant start end) db.invoices in
    let first = select (in_return tenant start mid) db.invoices in
    let second = select (in_return tenant (next_day mid) end) db.invoices in
    let parts =
      sum-select_parts (in_return tenant start mid) (in_return tenant (next_day mid) end)
        (in_return tenant start end) db.invoices (λ i. one_part tenant start mid end i h k) in
    grind (
      int_laws,
      parts,
      add_taxes-due (pos 0, pos 0) whole,
      add_taxes-due (pos 0, pos 0) first,
      add_taxes-due (pos 0, pos 0) second,
    )

-- The liability that is returned for a period is the number made of the exact sum of the decimal
-- liabilities of its first part, up to and with a day, and of its second, from the next day of the
-- same year on, whatever number is made of a decimal.
pub calculate_vat_return-split :
    {N : Type 0} (to_number : ℤ → N) (tenant : ℕ) (start mid end : Date) (db : Db)
    → leb_date start mid ≡ true
    → leb_date (next_day mid) end ≡ true
    → (calculate_vat_return to_number tenant start end db).net_vat_liability
      ≡ to_number (
          net_vat (vat_totals tenant start mid db)
          +ℤ net_vat (vat_totals tenant (next_day mid) end db))
unfolding calculate_vat_return
calculate_vat_return-split to_number tenant start mid end db h k =
    ap to_number (vat_totals-split tenant start mid end db h k)
