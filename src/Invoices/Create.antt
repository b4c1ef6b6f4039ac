-- ===== src/Invoices/Create.antt =====
-- `create`: the totals of an invoice, its number and its row.
use erp_ai_private.Prelude.{
  ℕ, ◌+◌, ◌==◌, List, ◌∷◌, Option, none, some, Bool, ◌&&◌, not, find, map, is_none, if◌then◌else◌,
}
use erp_ai_private.Prelude.Int.{ℤ, pos, ◌+ℤ◌, sum_by}
use erp_ai_private.Decimal.{Decimals, lit, is_zero}
use erp_ai_private.Db.{
  InvoiceType, sales_invoice, purchase_invoice, credit_note, debit_note, draft_invoice, Date,
  DocumentPrefix, inv, pinv, cn, dn, of_invoice, InvoiceNumber, document, same_invoice_number,
  Contact, Invoice, InvoiceLine, Db, ok, err, Action, ◌>>=◌, foreign_key, unique_violation,
}
use erp_ai_private.Sequences.{get_next_sequence}

-- `CreateInvoiceLineDto`
pub record InvoiceLineDto : Type 0 where
  pub quantity : ℤ
  pub unit_price : ℤ
  pub tax_rate : Option ℤ
  pub account : ℕ
  pub item : Option ℕ
  pub warehouse : Option ℕ

-- `CreateInvoiceDto`
pub record InvoiceDto : Type 0 where
  pub type : InvoiceType
  pub contact : ℕ
  pub issue_date : Date
  pub due_date : Option Date
  pub currency : Option ℕ
  pub exchange_rate : Option ℤ
  pub lines : List InvoiceLineDto

-- `x || 0`
abbrev pub or_zero : Option ℤ → ℤ
or_zero none = pos 0
or_zero (some a) = a

abbrev pub prefix_of : InvoiceType → DocumentPrefix
prefix_of sales_invoice = inv
prefix_of purchase_invoice = pinv
prefix_of credit_note = cn
prefix_of debit_note = dn

-- a number that is 0 is taken for a missing one
abbrev pub rate_column : Decimals → Option ℤ → Option ℤ
rate_column D none = none
rate_column D (some a) = if is_zero a then none else some (D.column 6 a)

abbrev pub contact_with_id : ℕ → Db → Option Contact
contact_with_id id db = find (λ c. c.id == id) db.contacts

abbrev pub number_taken : ℕ → InvoiceNumber → Db → Bool
number_taken tenant n db =
    not (is_none (find (λ i. i.tenant == tenant && same_invoice_number i.number n) db.invoices))

-- the foreign key to the contact and the unique index on (tenantId, invoiceNumber)
unfoldable pub insert_invoice : Invoice → Action Invoice
insert_invoice i db =
    if is_none (contact_with_id i.contact db)
    then (err foreign_key, db)
    else if number_taken i.tenant i.number db
    then (err unique_violation, db)
    else (ok i, record db { next_id = db.next_id + 1; invoices = i ∷ db.invoices })

module _ (D : Decimals) where
  -- `lineTotalBeforeTax`, `lineTaxAmount` and `lineTotal`
  abbrev pub before_tax : InvoiceLineDto → ℤ
  before_tax l = D.mul l.quantity l.unit_price

  abbrev pub tax_amount : InvoiceLineDto → ℤ
  tax_amount l = D.mul (before_tax l) (D.div (or_zero l.tax_rate) (lit D 100))

  abbrev pub line_total : InvoiceLineDto → ℤ
  line_total l = before_tax l +ℤ tax_amount l

  -- a calculated line, as it is stored
  abbrev pub store_line : InvoiceLineDto → InvoiceLine
  store_line l = record {
    quantity = D.column 2 l.quantity;
    unit_price = D.column 2 l.unit_price;
    tax_rate = D.column 2 (or_zero l.tax_rate);
    tax_amount = D.column 2 (tax_amount l);
    total = D.column 2 (line_total l);
    account = l.account;
    item = l.item;
    warehouse = l.warehouse;
  }

  abbrev pub invoice_of : ℕ → InvoiceDto → InvoiceNumber → ℕ → Invoice
  invoice_of tenant dto number id =
      let sub_total = sum_by before_tax dto.lines in
      let tax_total = sum_by tax_amount dto.lines in
      record {
        id = id;
        tenant = tenant;
        number = number;
        contact = dto.contact;
        type = dto.type;
        status = draft_invoice;
        issue_date = dto.issue_date;
        due_date = dto.due_date;
        currency = dto.currency;
        exchange_rate = rate_column D dto.exchange_rate;
        sub_total = D.column 2 sub_total;
        tax_total = D.column 2 tax_total;
        total = D.column 2 (sub_total +ℤ tax_total);
        amount_paid = pos 0;
        journal_entry = none;
        zatca_uuid = none;
        zatca_pih = none;
        lines = map store_line dto.lines;
      }

  -- The number is drawn before the row is made, and outside its transaction.
  unfoldable pub create_invoice : ℕ → ℕ → InvoiceDto → Action Invoice
  create_invoice tenant year dto = do
    n ← get_next_sequence tenant (of_invoice dto.type) (prefix_of dto.type) year
    (λ db. insert_invoice (invoice_of tenant dto (document n) db.next_id) db)
