-- ===== src/Approvals/Decisions.antt =====
-- The guard of `approveRequest` and `rejectRequest`, and the handlers of their events.
use erp_ai_private.Prelude.{
  ℕ, ◌==◌, ◌≡◌, refl, sym, ap, ◌∙◌, some, false, ◌&&◌, arith, find, find-update_sub, Option-cases,
  Bool-cases, inl, inr,
}
use erp_ai_private.Decimal.{Decimals}
use erp_ai_private.Db.{
  draft_payment, ApprovalStatus, approved, rejected, Date, Approval, Payment, Db, ok, err,
  already_decided, ◌>>◌, >>=-eq-ok, payment_entity, write,
}
use erp_ai_private.Payments.{payment_rejected_event}
use erp_ai_private.Payroll.{payroll_rejected_event}
use erp_ai_private.Orders.{order_rejected_event}
use erp_ai_private.Approvals.{
  is_pending, find_request, pending_request, decide, approve_request, reject_request, emit_approved,
  emit_rejected,
}
use erp_ai_private.Approvals.Requests.{emit_approved-KeepsRequests, emit_rejected-KeepsRequests}

-- Both decisions are refused, and change nothing.
abbrev pub IsClosed : Decimals → ℕ → ℕ → Db → Type 0
IsClosed D tenant id db =
    (now : Date) (approver : ℕ)
    → (approve_request D tenant now id approver db ≡ (err already_decided, db))
      × (reject_request tenant id approver db ≡ (err already_decided, db))

decided-IsClosed :
    (D : Decimals) (tenant id : ℕ) (db : Db) {a : Approval}
    → find_request tenant id db ≡ some a
    → is_pending a.status ≡ false
    → IsClosed D tenant id db
unfolding approve_request reject_request
decided-IsClosed D tenant id db found decided now approver = ground arith

pending_request-ok :
    (tenant id : ℕ) (db db' : Db) {r : Approval}
    → pending_request tenant id db ≡ (ok r, db')
    → (find_request tenant id db ≡ some r) × (db' ≡ db)
pending_request-ok tenant id db db' {r} h = elim (Option-cases (find_request tenant id db)) [
  | inl missing ↦ absurd (ground arith)
  | inr (a, found) ↦ elim (Bool-cases (is_pending a.status)) [
    | inl waiting ↦ ground arith
    | inr decided ↦ absurd (ground arith)
  ]
]

find_request-decided :
    (tenant id approver : ℕ) (status : ApprovalStatus) (db : Db) {r : Approval}
    → find_request tenant id db ≡ some r
    → find_request tenant id (decide id status approver db)
      ≡ some (record r { status = status; approver = some approver })
find_request-decided tenant id approver status db found =
    find-update_sub (λ a. a.id == id && a.tenant == tenant) (λ a. a.id == id)
      (λ a. record a { status = status; approver = some approver }) db.approvals (λ a. refl)
      (λ a e. ground arith)
    ∙ rw found refl

find_request-decide :
    (tenant id approver : ℕ) (status : ApprovalStatus) (db db' : Db) {r : Approval}
    → find_request tenant id db ≡ some r
    → db'.approvals ≡ (decide id status approver db).approvals
    → find_request tenant id db' ≡ some (record r { status = status; approver = some approver })
find_request-decide tenant id approver status db db' {r} found same =
    ap (find (λ a. a.id == id && a.tenant == tenant)) same
    ∙ find_request-decided tenant id approver status db found

module _ (D : Decimals) (tenant id approver : ℕ) (db db' : Db) where
  -- A request that was approved is neither approved nor rejected again, whatever the handlers of
  -- its event did.
  pub approve_request_once :
      (now : Date)
      → approve_request D tenant now id approver db ≡ (ok tt, db')
      → IsClosed D tenant id db'
  unfolding approve_request
  approve_request_once now h =
      let (r, mid, asked, ran) =
        >>=-eq-ok (pending_request tenant id)
          (λ r. write (decide id approved approver) >> emit_approved D now tenant r) db h in
      let (found, same) = pending_request-ok tenant id db mid asked in
      decided-IsClosed D tenant id db'
        (find_request-decide tenant id approver approved db db' found (
          sym (ap (λ p. p.1.approvals) ran)
          ∙ emit_approved-KeepsRequests D now tenant r (decide id approved approver mid)
          ∙ ap (λ d. (decide id approved approver d).approvals) same))
        refl

  -- A request that was rejected is neither approved nor rejected again.
  pub reject_request_once :
      reject_request tenant id approver db ≡ (ok tt, db') → IsClosed D tenant id db'
  unfolding reject_request
  reject_request_once h =
      let (r, mid, asked, ran) =
        >>=-eq-ok (pending_request tenant id)
          (λ r. write (decide id rejected approver) >> emit_rejected r) db h in
      let (found, same) = pending_request-ok tenant id db mid asked in
      decided-IsClosed D tenant id db'
        (find_request-decide tenant id approver rejected db db' found (
          sym (ap (λ p. p.1.approvals) ran)
          ∙ emit_rejected-KeepsRequests r (decide id rejected approver mid)
          ∙ ap (λ d. (decide id rejected approver d).approvals) same))
        refl

-- Rejecting a pending request for a payment makes the payment a Draft whatever its status was,
-- also if it had been approved and posted in the meantime, and changes nothing else of it.
pub reject_request-payment :
    (tenant id approver : ℕ) (db db' : Db) {r : Approval} {p : Payment}
    → find_request tenant id db ≡ some r
    → r.entity_type ≡ payment_entity
    → find (λ q. q.id == r.entity_id) db.payments ≡ some p
    → reject_request tenant id approver db ≡ (ok tt, db')
    → find (λ q. q.id == r.entity_id) db'.payments ≡ some (record p { status = draft_payment })
unfolding reject_request payment_rejected_event payroll_rejected_event order_rejected_event
reject_request-payment tenant id approver db db' {r = r} {p = p} asked payment found h =
    let reset =
      find-update_sub (λ q. q.id == r.entity_id) (λ q. q.id == r.entity_id)
        (λ q. record q { status = draft_payment }) db.payments (λ q. refl) (λ q e. e) in
    elim (Bool-cases (is_pending r.status)) [
      | inl waiting ↦ ground (arith, reset)
      | inr decided ↦ absurd (ground arith)
    ]
