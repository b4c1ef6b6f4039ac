-- ===== src/Payments/Approve.antt =====
-- `approve` and the handlers of the approval events.
use erp_ai_private.Prelude.{
  ℕ, ◌==◌, List, [], ◌∷◌, Option, none, some, Bool, true, false, ◌&&◌, not, find, update,
  if◌then◌else◌,
}
use erp_ai_private.Prelude.Int.{ℤ, pos, ◌+ℤ◌, ◌-ℤ◌, leb_ℤ, ltb_ℤ}
use erp_ai_private.Decimal.{Decimals}
use erp_ai_private.Db.{
  PaymentType, incoming, outgoing, PaymentStatus, draft_payment, pending_payment, approved_payment,
  InvoiceStatus, approved_invoice, paid_invoice, Date, EntityType, payment_entity, Contact, Invoice,
  Allocation, Payment, Db, Result, ok, err, Action, ◌>>=◌, ◌>>◌, read, write, pure, transaction,
  or_throw, and_then, payment_not_found, payment_not_draft, no_receivable, no_payable,
  invoice_not_approved, foreign_key,
}
use erp_ai_private.Journal.{number, text, LineDto, create}
use erp_ai_private.Invoices.{contact_with_id, rate_or_one, line}

abbrev pub find_payment : ℕ → ℕ → Db → Option Payment
find_payment tenant id db = find (λ p. p.tenant == tenant && p.id == id) db.payments

abbrev pub is_approvable_payment : PaymentStatus → Bool
is_approvable_payment draft_payment = true
is_approvable_payment pending_payment = true
is_approvable_payment _ = false

abbrev pub is_incoming : PaymentType → Bool
is_incoming incoming = true
is_incoming outgoing = false

unfoldable pub payment_account : PaymentType → Contact → Result ℕ
payment_account type c =
    if is_incoming type
    then or_throw c.receivable_account no_receivable
    else or_throw c.payable_account no_payable

abbrev pub is_payable : InvoiceStatus → Bool
is_payable approved_invoice = true
is_payable paid_invoice = true
is_payable _ = false

abbrev pub invoice_with_id : ℕ → Db → Option Invoice
invoice_with_id id db = find (λ i. i.id == id) db.invoices

abbrev pub set_payment_approved : ℕ → ℕ → Db → Db
set_payment_approved id entry db = record db {
  payments =
      update (λ p. p.id == id)
        (λ p. record p { status = approved_payment; journal_entry = some entry }) db.payments;
}

-- the reads and checks before the transaction
abbrev pub approvable_payment : ℕ → ℕ → Db → Result (Payment × ℕ)
approvable_payment tenant id db =
    and_then (or_throw (find_payment tenant id db) payment_not_found) λ p.
      if not (is_approvable_payment p.status)
      then err payment_not_draft
      else and_then (or_throw (contact_with_id p.contact db) foreign_key)
          λ c. and_then (payment_account p.type c) λ account. ok (p, account)

module _ (D : Decimals) where
  -- the columns that the loop's `tx.invoice.update` sets
  abbrev pub pay_invoice : Invoice → ℤ → Db → Db
  pay_invoice i amount db =
      let paid = i.amount_paid +ℤ amount in
      record db {
        invoices =
            update (λ j. j.id == i.id)
              (λ j. record j {
                amount_paid = D.column 2 paid;
                status = if leb_ℤ i.total paid then paid_invoice else i.status;
              })
              db.invoices;
      }

  -- The loop over the allocations. `before` is the database that `findOne` read their invoices
  -- from, ahead of the transaction.
  unfoldable pub allocate : Db → List Allocation → Action (Unit {0})
  allocate before [] = pure tt
  allocate before (a ∷ rest) = do
    i ← read (λ db. or_throw (invoice_with_id a.invoice before) foreign_key)
    read (λ db. if not (is_payable i.status) then err invoice_not_approved else ok tt)
    write (pay_invoice i a.amount)
    allocate before rest

  -- `jeLines`: bank, control account, and the tax withheld
  unfoldable pub payment_lines : Payment → ℕ → List LineDto
  payment_lines p account =
      let rate = rate_or_one D p.exchange_rate in
      let base = D.mul p.amount rate in
      let wht = D.mul p.wht_amount rate in
      let full = number (pos 0) in
      let plain =
        if is_incoming p.type
        then line p.account none (text base) full
          ∷ line account (some p.contact) full (text base)
          ∷ []
        else line p.account none full (text base)
          ∷ line account (some p.contact) (text base) full
          ∷ [] in
      let split = λ (tax : ℕ).
        if is_incoming p.type
        then line p.account none (text (base -ℤ wht)) full
          ∷ line account (some p.contact) full (text base)
          ∷ line tax none (text wht) full
          ∷ []
        else line p.account none full (text (base -ℤ wht))
          ∷ line account (some p.contact) (text base) full
          ∷ line tax none full (text wht)
          ∷ [] in
      elim p.wht_account [
        | none ↦ plain
        | some tax ↦ if ltb_ℤ (pos 0) wht then split tax else plain
      ]

  unfoldable pub execute_approve_payment : ℕ → Date → Payment → ℕ → Db → Action (Unit {0})
  execute_approve_payment tenant now p account before = do
    allocate before p.allocations
    entry ←
        create D tenant now
          (record { entry_date = p.payment_date; lines = payment_lines p account })
    write (set_payment_approved p.id entry.id)

  unfoldable pub approve_payment : ℕ → Date → ℕ → Action (Unit {0})
  approve_payment tenant now id db =
      (do
        found ← read (approvable_payment tenant id)
        transaction (execute_approve_payment tenant now found.0 found.1 db))
        db

  -- `handleApprovalApproved` and `handleApprovalRejected`
  unfoldable pub payment_approved_event : Date → ℕ → EntityType → ℕ → Action (Unit {0})
  payment_approved_event now tenant payment_entity id = approve_payment tenant now id
  payment_approved_event now tenant _ id = pure tt

unfoldable pub payment_rejected_event : EntityType → ℕ → Action (Unit {0})
payment_rejected_event payment_entity id = write (λ db. record db {
  payments = update (λ p. p.id == id) (λ p. record p { status = draft_payment }) db.payments;
})
payment_rejected_event _ id = pure tt
