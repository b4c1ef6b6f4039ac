-- ===== src/Invoices/Approve.antt =====
-- `approve`: the journal entry of an invoice, its stock movements and its new status.
use erp_ai_private.Prelude.{
  ℕ, ◌==◌, List, [], ◌∷◌, ◌++◌, Option, none, some, Bool, true, false, ◌&&◌, not, find, update,
  if◌then◌else◌,
}
use erp_ai_private.Prelude.Int.{ℤ, pos}
use erp_ai_private.Decimal.{Decimals, lit}
use erp_ai_private.Db.{
  InvoiceType, sales_invoice, purchase_invoice, credit_note, debit_note, InvoiceStatus,
  draft_invoice, pending_invoice, approved_invoice, Date, Entry, Contact, Invoice, InvoiceLine,
  InvoiceHash, Db, Result, ok, err, Action, ◌>>=◌, ◌>>◌, read, write, pure, fresh, transaction,
  or_throw, and_then, invoice_not_found, invoice_not_draft, no_receivable, no_payable, foreign_key,
}
use erp_ai_private.Journal.{Input, number, text, LineDto, create}
use erp_ai_private.Inventory.{CostOfGoods, process_inward_movement, process_outward_movement}
use erp_ai_private.Sequences.{get_previous_invoice_hash}
use erp_ai_private.Invoices.Create.{contact_with_id}

abbrev pub find_one : ℕ → ℕ → Db → Option Invoice
find_one tenant id db = find (λ i. i.tenant == tenant && i.id == id) db.invoices

abbrev pub is_approvable : InvoiceStatus → Bool
is_approvable draft_invoice = true
is_approvable pending_invoice = true
is_approvable _ = false

-- the types whose total is a debit on the control account
abbrev pub is_sales : InvoiceType → Bool
is_sales sales_invoice = true
is_sales debit_note = true
is_sales _ = false

-- `controlAccountId`, from the contact's defaults
unfoldable pub control_account : InvoiceType → Contact → Result ℕ
control_account type c =
    if is_sales type
    then or_throw c.receivable_account no_receivable
    else or_throw c.payable_account no_payable

abbrev pub line : ℕ → Option ℕ → Input → Input → LineDto
line account contact debit credit = record {
  account = account;
  debit = some debit;
  credit = some credit;
  currency = none;
  foreign_debit = none;
  foreign_credit = none;
  exchange_rate = none;
  contact = contact;
}

-- the two lines for the cost of goods sold, if the item has both accounts
abbrev pub cogs_lines : ℕ → CostOfGoods → List LineDto
cogs_lines contact c = elim c.cogs_account [
  | none ↦ []
  | some cogs ↦ elim c.inventory_account [
    | none ↦ []
    | some stock ↦
        line cogs (some contact) (text c.amount) (number (pos 0))
        ∷ line stock (some contact) (number (pos 0)) (text c.amount)
        ∷ []
  ]
]

-- `exRate`
abbrev pub rate_or_one : Decimals → Option ℤ → ℤ
rate_or_one D none = lit D 1
rate_or_one D (some r) = r

-- the side of an invoice line: a debit for purchases and credit notes
abbrev pub side_line : Invoice → InvoiceLine → ℤ → LineDto
side_line i l base =
    if is_sales i.type
    then line l.account (some i.contact) (text (pos 0)) (text base)
    else line l.account (some i.contact) (text base) (text (pos 0))

-- the first line, on the control account
abbrev pub control_line : Invoice → ℕ → ℤ → LineDto
control_line i account base =
    if is_sales i.type
    then line account (some i.contact) (text base) (number (pos 0))
    else line account (some i.contact) (number (pos 0)) (text base)

-- the columns that `tx.invoice.update` sets
abbrev pub set_approved : ℕ → ℕ → ℕ → InvoiceHash → Db → Db
set_approved id entry uuid pih db = record db {
  invoices =
      update (λ i. i.id == id)
        (λ i. record i {
          status = approved_invoice;
          journal_entry = some entry;
          zatca_uuid = some uuid;
          zatca_pih = some pih;
        })
        db.invoices;
}

-- the reads and checks before the transaction
abbrev pub approvable : ℕ → ℕ → Db → Result (Invoice × ℕ)
approvable tenant id db = and_then (or_throw (find_one tenant id db) invoice_not_found) λ i.
    if not (is_approvable i.status)
    then err invoice_not_draft
    else and_then (or_throw (contact_with_id i.contact db) foreign_key)
        λ c. and_then (control_account i.type c) λ account. ok (i, account)

-- what `approve` does once the entry is made
abbrev pub finish : ℕ → Invoice → Entry → Action (Unit {0})
finish tenant i entry = do
  uuid ← fresh
  pih ← read (λ db. ok (get_previous_invoice_hash tenant db))
  write (set_approved i.id entry.id uuid pih)

module _ (D : Decimals) where
  abbrev pub base_of : Invoice → ℤ → ℤ
  base_of i total = D.mul total (rate_or_one D i.exchange_rate)

  -- the stock movement of a line with an item and a warehouse
  unfoldable pub stock_of_line :
      ℕ → Invoice → InvoiceLine → ℕ → ℕ → InvoiceType → Action (List LineDto)
  stock_of_line tenant i l item warehouse purchase_invoice = do
    process_inward_movement D tenant item warehouse l.quantity (base_of i l.total) i.issue_date
    pure []
  stock_of_line tenant i l item warehouse sales_invoice = do
    c ← process_outward_movement D tenant item warehouse l.quantity i.issue_date
    pure (cogs_lines i.contact c)
  stock_of_line tenant i l item warehouse credit_note = pure []
  stock_of_line tenant i l item warehouse debit_note = pure []

  unfoldable pub stock_lines : ℕ → Invoice → InvoiceLine → Action (List LineDto)
  unfolding stock_of_line
  stock_lines tenant i l = elim l.item [
    | none ↦ pure []
    | some item ↦ elim l.warehouse [
      | none ↦ pure []
      | some warehouse ↦ stock_of_line tenant i l item warehouse i.type
    ]
  ]

  -- the loop over `invoice.lines`
  unfoldable pub post_lines : ℕ → Invoice → List InvoiceLine → Action (List LineDto)
  post_lines tenant i [] = pure []
  post_lines tenant i (l ∷ ls) = do
    goods ← stock_lines tenant i l
    rest ← post_lines tenant i ls
    pure (goods ++ side_line i l (base_of i l.total) ∷ rest)

  unfoldable pub execute_approve : ℕ → Date → Invoice → ℕ → Action (Unit {0})
  execute_approve tenant now i account = do
    lines ← post_lines tenant i i.lines
    entry ← create D tenant now (record {
      entry_date = i.issue_date;
      lines = control_line i account (base_of i i.total) ∷ lines;
    })
    finish tenant i entry

  unfoldable pub approve_invoice : ℕ → Date → ℕ → Action (Unit {0})
  approve_invoice tenant now id = do
    found ← read (approvable tenant id)
    transaction (execute_approve tenant now found.0 found.1)
