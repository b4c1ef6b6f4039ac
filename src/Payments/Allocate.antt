-- ===== src/Payments/Allocate.antt =====
-- The allocations of a payment to invoices.
use erp_ai_private.Prelude.{
  ℕ, ◌==◌, ◌≡◌, ◌≢◌, refl, sym, ◌∙◌, List, [], ◌∷◌, some, true, arith, All, find-true,
  find-update_sub, find_not-update, Option-cases, Bool-cases, inl, inr, if◌then◌else◌,
}
use erp_ai_private.Prelude.Int.{ℤ, ◌+ℤ◌, leb_ℤ, sum_by, int_laws}
use erp_ai_private.Decimal.{Decimals}
use erp_ai_private.Db.{Invoice, Allocation, Payment, Db, ok, paid_invoice}
use erp_ai_private.Journal.Balance.{debit_of, credit_of}
use erp_ai_private.Payments.Approve.{
  is_payable, invoice_with_id, pay_invoice, allocate, payment_lines,
}

-- The lines of a payment have equal debits and credits, for incoming and outgoing payments, with
-- tax withheld or without, whatever the exchange rate.
pub payment_lines-balance :
    (D : Decimals) (p : Payment) (account : ℕ)
    → sum_by debit_of (payment_lines D p account) ≡ sum_by credit_of (payment_lines D p account)
unfolding payment_lines
payment_lines-balance D p account = grind int_laws

-- The allocations name no invoice twice.
abbrev pub IsFresh : ℕ → List Allocation → Type 0
IsFresh id rest = All (λ a. a.invoice ≢ id) rest

abbrev pub AreDistinct : List Allocation → Type 0
AreDistinct [] = Unit
AreDistinct (a ∷ rest) = IsFresh a.invoice rest × AreDistinct rest

-- The invoice after an allocation.
abbrev pub paid : Decimals → Invoice → ℤ → Invoice
paid D i amount = record i {
  amount_paid = D.column 2 (i.amount_paid +ℤ amount);
  status = if leb_ℤ i.total (i.amount_paid +ℤ amount) then paid_invoice else i.status;
}

-- one round of the loop that does not throw
allocate-cons :
    (D : Decimals) (before : Db) (a : Allocation) (rest : List Allocation) (db db' : Db)
    → allocate D before (a ∷ rest) db ≡ (ok tt, db')
    → (i : Invoice) × (invoice_with_id a.invoice before ≡ some i)
      × (i.id ≡ a.invoice)
      × (is_payable i.status ≡ true)
      × (allocate D before rest (pay_invoice D i a.amount db) ≡ (ok tt, db'))
unfolding allocate
allocate-cons D before a rest db db' h = elim (Option-cases (invoice_with_id a.invoice before)) [
  | inl missing ↦ absurd (ground arith)
  | inr (i, found) ↦ elim (Bool-cases (is_payable i.status)) [
    | inl fine ↦ (
      i,
      found,
      ground (arith, find-true (λ j. j.id == a.invoice) before.invoices found),
      fine,
      ground arith,
    )
    | inr unpayable ↦ absurd (ground arith)
  ]
]

pay_invoice-other :
    (D : Decimals) (i : Invoice) (amount : ℤ) (id : ℕ) (db : Db)
    → i.id ≢ id
    → invoice_with_id id (pay_invoice D i amount db) ≡ invoice_with_id id db
pay_invoice-other D i amount id db ne =
    find_not-update (λ j. j.id == id) (λ j. j.id == i.id) _ db.invoices (λ j. refl)
      (λ j e. ground arith)

-- the invoice with the id of `i`, whatever it has become since `i` was read
pay_invoice_self :
    (D : Decimals) (i j : Invoice) (amount : ℤ) (id : ℕ) (db : Db)
    → i.id ≡ id
    → invoice_with_id id db ≡ some j
    → invoice_with_id id (pay_invoice D i amount db)
      ≡ some (record j {
        amount_paid = D.column 2 (i.amount_paid +ℤ amount);
        status = if leb_ℤ i.total (i.amount_paid +ℤ amount) then paid_invoice else i.status;
      })
pay_invoice_self D i j amount id db e found =
    find-update_sub (λ k. k.id == id) (λ k. k.id == i.id)
      (λ k. record k {
        amount_paid = D.column 2 (i.amount_paid +ℤ amount);
        status = if leb_ℤ i.total (i.amount_paid +ℤ amount) then paid_invoice else i.status;
      })
      db.invoices (λ k. refl) (λ k f. ground arith)
    ∙ rw found refl

-- An invoice that no allocation names is left alone.
pub allocate-other :
    (D : Decimals) (before : Db) (id : ℕ) (rest : List Allocation) (db db' : Db)
    → IsFresh id rest
    → allocate D before rest db ≡ (ok tt, db')
    → invoice_with_id id db' ≡ invoice_with_id id db
unfolding allocate
allocate-other D before id [] db db' f h = ground arith
allocate-other D before id (a ∷ rest) db db' f h =
    let (i, found, key, fine, ran) = allocate-cons D before a rest db db' h in
    allocate-other D before id rest (pay_invoice D i a.amount db) db' f.1 ran
    ∙ pay_invoice-other D i a.amount id db (λ e. f.0 (sym key ∙ e))

-- the loop's reads are up to date
abbrev Agrees : Db → Db → List Allocation → Type 0
Agrees before db as' =
    All (λ a. invoice_with_id a.invoice db ≡ invoice_with_id a.invoice before) as'

Agrees-pay :
    (D : Decimals) (before : Db) (i : Invoice) (amount : ℤ) (rest : List Allocation) (db : Db)
    → IsFresh i.id rest
    → Agrees before db rest
    → Agrees before (pay_invoice D i amount db) rest
Agrees-pay D before i amount [] db f g = tt
Agrees-pay D before i amount (a ∷ rest) db f g = (
  pay_invoice-other D i amount a.invoice db (λ e. f.0 (sym e)) ∙ g.0,
  Agrees-pay D before i amount rest db f.1 g.1,
)

-- What an allocation does to its invoice: the amount is added to what was paid, and the invoice is
-- Paid once that reaches its total.
abbrev pub IsPaidIn : Decimals → Db → Db → Allocation → Type 0
IsPaidIn D db db' a =
    (i : Invoice) × (invoice_with_id a.invoice db ≡ some i)
    × (is_payable i.status ≡ true)
    × (invoice_with_id a.invoice db' ≡ some (paid D i a.amount))

allocate-paid_from :
    (D : Decimals) (before : Db) (as' : List Allocation) (db db' : Db)
    → AreDistinct as'
    → Agrees before db as'
    → allocate D before as' db ≡ (ok tt, db')
    → All (IsPaidIn D before db') as'
allocate-paid_from D before [] db db' d g h = tt
allocate-paid_from D before (a ∷ rest) db db' d g h =
    let (i, found, key, fine, ran) = allocate-cons D before a rest db db' h in
    let here = pay_invoice_self D i i a.amount a.invoice db key (g.0 ∙ found) in
    (
      (
        i,
        found,
        fine,
        allocate-other D before a.invoice rest (pay_invoice D i a.amount db) db' d.0 ran ∙ here,
      ),
      allocate-paid_from D before rest (pay_invoice D i a.amount db) db' d.1
          (Agrees-pay D before i a.amount rest db (rw key d.0) g.1) ran,
    )

Agrees-refl : (db : Db) (as' : List Allocation) → Agrees db db as'
Agrees-refl db [] = tt
Agrees-refl db (a ∷ rest) = (refl, Agrees-refl db rest)

-- If the allocations name no invoice twice, the loop of `approve` adds every allocation to its
-- invoice, which was Approved or Paid, and marks it Paid once its total is reached.
pub allocate-paid :
    (D : Decimals) (as' : List Allocation) (db db' : Db)
    → AreDistinct as'
    → allocate D db as' db ≡ (ok tt, db')
    → All (IsPaidIn D db db') as'
allocate-paid D as' db db' d h = allocate-paid_from D db as' db db' d (Agrees-refl db as') h

-- Two allocations of one payment to one invoice: only the second is added to what was paid, since
-- both are added to the amount read before the loop.
pub allocate_twice :
    (D : Decimals) (i : Invoice) (x y : ℤ) (db db' : Db)
    → invoice_with_id i.id db ≡ some i
    → allocate D db
        (record { invoice = i.id; amount = x } ∷ record { invoice = i.id; amount = y } ∷ [])
        db
      ≡ (ok tt, db')
    → (j : Invoice) × (invoice_with_id i.id db' ≡ some j)
      × (j.amount_paid ≡ D.column 2 (i.amount_paid +ℤ y))
unfolding allocate
allocate_twice D i x y db db' found h = elim (Bool-cases (is_payable i.status)) [
  | inl fine ↦
      let first = pay_invoice_self D i i x i.id db refl found in
      let second = pay_invoice_self D i (paid D i x) y i.id (pay_invoice D i x db) refl first in
      (paid D i y, ground (arith, second), refl)
  | inr unpayable ↦ absurd (ground arith)
]
