-- ===== src/Services/Keeps.antt =====
-- Properties of the journal entries that a call keeps: the approvals of invoices and payments.
use erp_ai_private.Prelude.{
  ℕ, ◌≡◌, refl, List, [], ◌∷◌, ◌++◌, Option, Bool, arith, Option-cases, inl, inr,
}
use erp_ai_private.Decimal.{Decimals}
use erp_ai_private.Db.{
  Date, Line, Entry, Invoice, InvoiceLine, Allocation, Payment, Asset, Schedule, Db, Result, ok,
  err, Action, ◌>>=◌, transaction, rollback, read, write, pure,
}
use erp_ai_private.Journal.{LineDto, EntryDto, create, create_reversal}
use erp_ai_private.Assets.{depreciation_entry}
use erp_ai_private.Invoices.{
  approvable, stock_lines, post_lines, side_line, base_of, control_line, finish, execute_approve,
  approve_invoice,
}
use erp_ai_private.Invoices.Posting.{stock_lines-Kept}
use erp_ai_private.Payments.{
  allocate, invoice_with_id, pay_invoice, payment_lines, set_payment_approved,
  execute_approve_payment, approvable_payment, approve_payment,
}
use erp_ai_private.Reconciliations.{update_lines}

-- The action keeps the property, whether it returns or throws.
abbrev pub Keeps : (List Entry → Type 0) → {A : Type 0} → Action A → Type 0
Keeps Q m = (db : Db) → Q db.entries → Q (m db).1.entries

module _ (Q : List Entry → Type 0) {A : Type 0} where
  pub rollback-Keeps :
      (db : Db) (r : Result A × Db) → Q db.entries → Q r.1.entries → Q (rollback db r).1.entries
  rollback-Keeps db (ok a, d) h k = k
  rollback-Keeps db (err e, d) h k = h

module _ (Q : List Entry → Type 0) {A B : Type 0} where
  bind-Keeps :
      (r : Result A × Db) (f : A → Action B)
      → Q r.1.entries
      → ((a : A) → Keeps Q (f a))
      → (d : Db) → Q (((λ _. r) >>= f) d).1.entries
  bind-Keeps (ok a, d) f h k _ = k a d h
  bind-Keeps (err e, d) f h k _ = h

  pub >>=-Keeps :
      (m : Action A) (f : A → Action B) → Keeps Q m → ((a : A) → Keeps Q (f a)) → Keeps Q (m >>= f)
  >>=-Keeps m f k l db h = bind-Keeps (m db) f (k db h) l db

-- What a service asks of the property.
pub record IsKept (D : Decimals) (Q : List Entry → Type 0) : Type 0 where
  pub by_create : (tenant : ℕ) (now : Date) (dto : EntryDto) → Keeps Q (create D tenant now dto)
  pub by_reversal :
      (tenant : ℕ) (now : Date) (id : ℕ) (date : Date)
      → Keeps Q (create_reversal D tenant now id date)
  pub by_mark :
      (p : Line → Bool) (id : Option ℕ) (es : List Entry)
      → Q es
      → Q (update_lines p (λ l. record l { reconciliation = id }) es)
  pub by_depreciation :
      (tenant : ℕ) (now : Date) (s : Schedule) (a : Asset) (db : Db)
      → Q db.entries
      → Q (depreciation_entry tenant now s a db ∷ db.entries)

module _ (D : Decimals) (Q : List Entry → Type 0) (kept : IsKept D Q) where
  pub create-write-Keeps :
      (tenant : ℕ) (now : Date) (dto : EntryDto) (f : Entry → Db → Db)
      → ((e : Entry) (db : Db) → (f e db).entries ≡ db.entries)
      → Keeps Q (create D tenant now dto >>= λ e. write (f e))
  create-write-Keeps tenant now dto f k =
      >>=-Keeps Q (create D tenant now dto) (λ e. write (f e)) (kept.by_create tenant now dto)
        (λ e db h. rw (k e db) h)

  post_lines-Keeps :
      (tenant : ℕ) (i : Invoice) (ls : List InvoiceLine) → Keeps Q (post_lines D tenant i ls)
  unfolding post_lines
  post_lines-Keeps tenant i [] = λ db h. h
  post_lines-Keeps tenant i (l ∷ ls) =
      >>=-Keeps Q (stock_lines D tenant i l)
        (λ goods. post_lines D tenant i ls >>= λ rest.
          pure (goods ++ side_line i l (base_of D i l.total) ∷ rest))
        (λ db h. rw ((stock_lines-Kept D tenant i l db).same_entries) h)
        (λ goods.
          >>=-Keeps Q (post_lines D tenant i ls)
            (λ rest. pure (goods ++ side_line i l (base_of D i l.total) ∷ rest))
            (post_lines-Keeps tenant i ls) (λ rest db h. h))

  execute_approve-Keeps :
      (tenant : ℕ) (now : Date) (i : Invoice) (account : ℕ)
      → Keeps Q (execute_approve D tenant now i account)
  unfolding execute_approve
  execute_approve-Keeps tenant now i account =
      let dto : List LineDto → EntryDto = λ lines. record {
        entry_date = i.issue_date;
        lines = control_line i account (base_of D i i.total) ∷ lines;
      } in
      >>=-Keeps Q (post_lines D tenant i i.lines)
        (λ lines. create D tenant now (dto lines) >>= finish tenant i)
        (post_lines-Keeps tenant i i.lines)
        (λ lines.
          >>=-Keeps Q (create D tenant now (dto lines)) (finish tenant i)
            (kept.by_create tenant now (dto lines)) (λ e db h. h))

  pub approve_invoice-Keeps :
      (tenant : ℕ) (now : Date) (id : ℕ) → Keeps Q (approve_invoice D tenant now id)
  unfolding approve_invoice
  approve_invoice-Keeps tenant now id =
      >>=-Keeps Q (read (approvable tenant id))
        (λ found. transaction (execute_approve D tenant now found.0 found.1)) (λ db h. h)
        (λ found db h.
          rollback-Keeps Q db (execute_approve D tenant now found.0 found.1 db) h
            (execute_approve-Keeps tenant now found.0 found.1 db h))

  allocate-Keeps : (before : Db) (as' : List Allocation) → Keeps Q (allocate D before as')
  unfolding allocate
  allocate-Keeps before [] db h = h
  allocate-Keeps before (a ∷ rest) db h = elim (Option-cases (invoice_with_id a.invoice before)) [
    | inl missing ↦ ground arith
    | inr (i, e) ↦ ground (arith, allocate-Keeps before rest (pay_invoice D i a.amount db) h)
  ]

  execute_approve_payment-Keeps :
      (tenant : ℕ) (now : Date) (p : Payment) (account : ℕ) (before : Db)
      → Keeps Q (execute_approve_payment D tenant now p account before)
  unfolding execute_approve_payment
  execute_approve_payment-Keeps tenant now p account before =
      let dto : EntryDto = record {
        entry_date = p.payment_date;
        lines = payment_lines D p account;
      } in
      >>=-Keeps Q (allocate D before p.allocations)
        (λ u. create D tenant now dto >>= λ e. write (set_payment_approved p.id e.id))
        (allocate-Keeps before p.allocations)
        (λ u. create-write-Keeps tenant now dto (λ e. set_payment_approved p.id e.id) (λ e d. refl))

  pub approve_payment-Keeps :
      (tenant : ℕ) (now : Date) (id : ℕ) → Keeps Q (approve_payment D tenant now id)
  unfolding approve_payment
  approve_payment-Keeps tenant now id db =
      >>=-Keeps Q (read (approvable_payment tenant id))
        (λ found. transaction (execute_approve_payment D tenant now found.0 found.1 db)) (λ d h. h)
        (λ found d h.
          rollback-Keeps Q d (execute_approve_payment D tenant now found.0 found.1 db d) h
            (execute_approve_payment-Keeps tenant now found.0 found.1 db d h))
        db
