-- ===== src/Invoices/Posting.antt =====
-- The approval of an invoice: its refusals, its journal entry and the invoice afterwards.
use erp_ai_private.Prelude.{
  ℕ, ◌+◌, ◌==◌, ◌≡◌, refl, List, [], ◌∷◌, ◌++◌, some, true, ◌&&◌, arith, find-true, find-update_sub,
  Option-cases, Bool-cases, inl, inr,
}
use erp_ai_private.Decimal.{Decimals}
use erp_ai_private.Db.{
  InvoiceType, sales_invoice, purchase_invoice, credit_note, debit_note, approved_invoice, Date,
  Entry, Invoice, InvoiceLine, InvoiceHash, Db, ok, err, Error, Result-cases, rollback_refused,
  rollback_returns, >>=-eq-ok, pure, ◌>>=◌, invoice_not_draft,
}
use erp_ai_private.Journal.{LineDto, EntryDto, create}
use erp_ai_private.Journal.Create.{create-insert, execute_create-IsEntryOf}
use erp_ai_private.Journal.Frame.{create-SameDocuments}
use erp_ai_private.Inventory.{process_inward_movement, process_outward_movement}
use erp_ai_private.Sequences.{get_previous_invoice_hash}
use erp_ai_private.Invoices.Create.{contact_with_id}
use erp_ai_private.Invoices.Approve.{
  control_account, find_one, is_approvable, approvable, stock_of_line, stock_lines, post_lines,
  side_line, control_line, base_of, set_approved, finish, execute_approve, approve_invoice,
}

-- Stock movements leave the ledger and the invoices.
pub record Kept (db db' : Db) : Type 0 where
  pub same_entries : db'.entries ≡ db.entries
  pub same_invoices : db'.invoices ≡ db.invoices

module _ (D : Decimals) (tenant : ℕ) (i : Invoice) where
  stock_of_line-Kept :
      (l : InvoiceLine) (item warehouse : ℕ) (type : InvoiceType) (db : Db)
      → Kept db (stock_of_line D tenant i l item warehouse type db).1
  unfolding stock_of_line process_inward_movement process_outward_movement
  stock_of_line-Kept l item warehouse purchase_invoice db = ground arith
  stock_of_line-Kept l item warehouse sales_invoice db = ground arith
  stock_of_line-Kept l item warehouse credit_note db = ground arith
  stock_of_line-Kept l item warehouse debit_note db = ground arith

  pub stock_lines-Kept : (l : InvoiceLine) (db : Db) → Kept db (stock_lines D tenant i l db).1
  unfolding stock_lines
  stock_lines-Kept l db = elim (Option-cases l.item) [
    | inl no_item ↦ rw no_item (ground arith)
    | inr (item, e) ↦ elim (Option-cases l.warehouse) [
      | inl no_warehouse ↦ rw (e, no_warehouse) (ground arith)
      | inr (w, f) ↦ rw (e, f) (stock_of_line-Kept l item w i.type db)
    ]
  ]

  post_lines-Kept :
      (ls : List InvoiceLine) (db db' : Db) {out : List LineDto}
      → post_lines D tenant i ls db ≡ (ok out, db')
      → Kept db db'
  unfolding post_lines
  post_lines-Kept [] db db' h = ground arith
  post_lines-Kept (l ∷ ls) db db' {out = out} h =
      let last =
        λ (goods rest : List LineDto). pure (goods ++ side_line i l (base_of D i l.total) ∷ rest) in
      let (goods, mid, stocked, h₁) =
        >>=-eq-ok (stock_lines D tenant i l) (λ g. post_lines D tenant i ls >>= last g) db h in
      let (rest, mid', posted, h₂) = >>=-eq-ok (post_lines D tenant i ls) (last goods) mid h₁ in
      let first = stock_lines-Kept l db in
      let more = post_lines-Kept ls mid mid' posted in ground arith

module _ (D : Decimals) (tenant : ℕ) (now : Date) (id : ℕ) where
  -- A refused approval leaves the database as it was: no stock has moved and nothing is posted.
  pub approve_invoice_refused :
      (db db' : Db) {x : Error} → approve_invoice D tenant now id db ≡ (err x, db') → db' ≡ db
  unfolding approve_invoice
  approve_invoice_refused db db' {x = x} h = elim (Result-cases (approvable tenant id db)) [
    | inl ((i, account), fine) ↦
        rollback_refused db (execute_approve D tenant now i account db) {x = x} {db' = db'}
          (ground arith)
    | inr (y, wrong) ↦ ground arith
  ]

  approve_invoice-execute :
      (db db' : Db)
      → approve_invoice D tenant now id db ≡ (ok tt, db')
      → (i : Invoice) × (account : ℕ) × (approvable tenant id db ≡ ok (i, account))
        × (execute_approve D tenant now i account db ≡ (ok tt, db'))
  unfolding approve_invoice
  approve_invoice-execute db db' h = elim (Result-cases (approvable tenant id db)) [
    | inl ((i, account), fine) ↦ (
      i,
      account,
      fine,
      rollback_returns db (execute_approve D tenant now i account db) (ground arith),
    )
    | inr (y, wrong) ↦ absurd (ground arith)
  ]

  -- what the transaction leaves of the ledger and the invoices
  record Approved (i : Invoice) (db db' : Db) : Type 0 where
    entry : Entry
    uuid : ℕ
    pih : InvoiceHash
    entries : db'.entries ≡ entry ∷ db.entries
    owner : entry.tenant ≡ tenant
    date : entry.date ≡ i.issue_date
    invoices : db'.invoices ≡ (set_approved i.id entry.id uuid pih db).invoices

  execute_approve-Approved :
      (i : Invoice) (account : ℕ) (db db' : Db)
      → execute_approve D tenant now i account db ≡ (ok tt, db')
      → Approved i db db'
  unfolding execute_approve
  execute_approve-Approved i account db db' h =
      let (lines, mid, gathered, h₁) =
        >>=-eq-ok (post_lines D tenant i i.lines)
          (λ lines.
            create D tenant now (record {
              entry_date = i.issue_date;
              lines = control_line i account (base_of D i i.total) ∷ lines;
            })
            >>= finish tenant i)
          db h in
      let dto : EntryDto = record {
        entry_date = i.issue_date;
        lines = control_line i account (base_of D i i.total) ∷ lines;
      } in
      let (e, mid', entered, h₂) = >>=-eq-ok (create D tenant now dto) (finish tenant i) mid h₁ in
      let kept = post_lines-Kept D tenant i i.lines db mid gathered in
      let (fine, ran) = create-insert D tenant now dto mid mid' entered in
      let (made, added) = execute_create-IsEntryOf D tenant now dto mid mid' ran in
      let same = create-SameDocuments D tenant now dto mid in
      record {
        entry = e;
        uuid = mid'.next_id;
        pih = get_previous_invoice_hash tenant (record mid' { next_id = mid'.next_id + 1 });
        entries = ground arith;
        owner = made.tenant_kept;
        date = made.date;
        invoices = ground arith;
      }

approvable-find_one :
    (tenant id : ℕ) (db : Db) {i : Invoice} {account : ℕ}
    → approvable tenant id db ≡ ok (i, account)
    → (find_one tenant id db ≡ some i) × (is_approvable i.status ≡ true)
approvable-find_one tenant id db {i = i} h = elim (Option-cases (find_one tenant id db)) [
  | inl missing ↦ absurd (ground arith)
  | inr (j, found) ↦ elim (Bool-cases (is_approvable j.status)) [
    | inl fine ↦ elim (Option-cases (contact_with_id j.contact db)) [
      | inl nobody ↦ absurd (ground arith)
      | inr (c, known) ↦ elim (Result-cases (control_account j.type c)) [
        | inl (a, set) ↦ let same : j ≡ i = ground arith in (rw (← same) found, rw (← same) fine)
        | inr (x, unset) ↦ absurd (ground arith)
      ]
    ]
    | inr locked ↦ absurd (ground arith)
  ]
]

-- the columns of an approved invoice
abbrev as_approved : Entry → ℕ → InvoiceHash → Invoice → Invoice
as_approved e uuid pih i = record i {
  status = approved_invoice;
  journal_entry = some e.id;
  zatca_uuid = some uuid;
  zatca_pih = some pih;
}

module _ (D : Decimals) (tenant : ℕ) (now : Date) (id : ℕ) (db db' : Db)
    (done : approve_invoice D tenant now id db ≡ (ok tt, db')) where
  -- An approval that returns was of a Draft or PendingApproval invoice of the tenant; it puts one
  -- entry in front of the ledger, for the tenant and on the invoice's date, and the invoice is now
  -- Approved and points to that entry.
  pub approve_invoice_posts :
      (e : Entry) × (i j : Invoice) × (db'.entries ≡ e ∷ db.entries)
      × (e.tenant ≡ tenant)
      × (find_one tenant id db ≡ some i)
      × (is_approvable i.status ≡ true)
      × (e.date ≡ i.issue_date)
      × (find_one tenant id db' ≡ some j)
      × (j.status ≡ approved_invoice)
      × (j.journal_entry ≡ some e.id)
  approve_invoice_posts =
      let (i, account, fine, ran) = approve_invoice-execute D tenant now id db db' done in
      let (found, right) = approvable-find_one tenant id db fine in
      let left = execute_approve-Approved D tenant now id i account db db' ran in
      let itself = find-true (λ j. j.tenant == tenant && j.id == id) db.invoices found in
      let change = as_approved left.entry left.uuid left.pih in
      (
        left.entry,
        i,
        change i,
        left.entries,
        left.owner,
        found,
        right,
        left.date,
        ground (
          arith,
          left.invoices,
          found,
          find-update_sub (λ j. j.tenant == tenant && j.id == id) (λ j. j.id == i.id) change
              db.invoices (λ j. refl) (λ j h. ground (arith, itself)),
        ),
        refl,
        refl,
      )

-- An invoice is approved at most once: after an approval every later one is refused, at any time,
-- and changes nothing.
pub approve_invoice_once :
    (D : Decimals) (tenant id : ℕ) (now now' : Date) (db db' : Db)
    → approve_invoice D tenant now id db ≡ (ok tt, db')
    → approve_invoice D tenant now' id db' ≡ (err invoice_not_draft, db')
unfolding approve_invoice
approve_invoice_once D tenant id now now' db db' done =
    let (e, i, j, entered, owner, found, right, date, after, locked, linked) =
      approve_invoice_posts D tenant now id db db' done in
    ground (arith, after, locked)
