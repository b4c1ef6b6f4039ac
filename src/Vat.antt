-- ===== src/Vat.antt =====
-- The VAT return (apps/api/src/modules/compliance/vat/vat.service.ts).
pub mod Returns
use erp_ai_private.Prelude.{
  ℕ, ◌+◌, ◌-◌, ◌%◌, ◌==◌, List, [], ◌∷◌, Bool, true, false, ◌&&◌, select, if◌then◌else◌,
}
use erp_ai_private.Prelude.Int.{ℤ, pos, ◌+ℤ◌, ◌-ℤ◌}
use erp_ai_private.Db.{
  InvoiceType, sales_invoice, purchase_invoice, credit_note, debit_note, InvoiceStatus,
  approved_invoice, paid_invoice, Invoice, Date, leb_date, Db,
}
use erp_ai_private.Periods.Calendar.{start_of_day, end_of_day}

abbrev pub is_effective : InvoiceStatus → Bool
is_effective approved_invoice = true
is_effective paid_invoice = true
is_effective _ = false

-- the invoices of the return
abbrev pub in_return : ℕ → Date → Date → Invoice → Bool
in_return tenant start end i =
    (i.tenant == tenant && is_effective i.status)
    && (leb_date (start_of_day start) i.issue_date && leb_date i.issue_date (end_of_day end))

abbrev pub is_output : InvoiceType → Bool
is_output sales_invoice = true
is_output debit_note = true
is_output _ = false

abbrev pub is_input : InvoiceType → Bool
is_input purchase_invoice = true
is_input credit_note = true
is_input _ = false

-- one round of the loop, over the output and the input tax so far
unfoldable pub add_tax : ℤ × ℤ → Invoice → ℤ × ℤ
add_tax acc i =
    if is_output i.type
    then (acc.0 +ℤ i.tax_total, acc.1)
    else if is_input i.type
    then (acc.0, acc.1 +ℤ i.tax_total)
    else acc

unfoldable pub add_taxes : ℤ × ℤ → List Invoice → ℤ × ℤ
add_taxes acc [] = acc
add_taxes acc (i ∷ is) = add_taxes (add_tax acc i) is

-- `outputVat` and `inputVat` after the loop
unfoldable pub vat_totals : ℕ → Date → Date → Db → ℤ × ℤ
vat_totals tenant start end db =
    add_taxes (pos 0, pos 0) (select (in_return tenant start end) db.invoices)

-- `netVatLiability`, still a decimal
abbrev pub net_vat : ℤ × ℤ → ℤ
net_vat totals = totals.0 -ℤ totals.1

-- The returned amounts are JavaScript numbers, made by the `toNumber` of decimal.js.
pub record VatReturn (N : Type 0) : Type 0 where
  pub output_vat : N
  pub input_vat : N
  pub net_vat_liability : N

unfoldable pub calculate_vat_return : {N : Type 0} → (ℤ → N) → ℕ → Date → Date → Db → VatReturn N
calculate_vat_return to_number tenant start end db =
    let totals = vat_totals tenant start end db in
    record {
      output_vat = to_number totals.0;
      input_vat = to_number totals.1;
      net_vat_liability = to_number (net_vat totals);
    }
