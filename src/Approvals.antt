-- ===== src/Approvals.antt =====
-- Approval requests and their events (apps/api/src/modules/approvals/approvals.service.ts).
pub mod Requests
pub mod Decisions
use erp_ai_private.Prelude.{
  ℕ, ◌==◌, Option, none, some, Bool, true, false, ◌&&◌, not, find, select, update, List,
  if◌then◌else◌,
}
use erp_ai_private.Decimal.{Decimals}
use erp_ai_private.Db.{
  ApprovalStatus, pending, approved, rejected, cancelled, Date, EntityType, Approval, Db, Result,
  ok, err, Action, ◌>>=◌, ◌>>◌, read, write, pure, or_throw, guard, request_not_found,
  already_decided,
}
use erp_ai_private.Payments.{payment_approved_event, payment_rejected_event}
use erp_ai_private.Payroll.{payroll_approved_event, payroll_rejected_event}
use erp_ai_private.Orders.{order_approved_event, order_rejected_event}

abbrev pub is_pending : ApprovalStatus → Bool
is_pending pending = true
is_pending _ = false

abbrev pub find_request : ℕ → ℕ → Db → Option Approval
find_request tenant id db = find (λ a. a.id == id && a.tenant == tenant) db.approvals

-- `getPendingApprovals`
unfoldable pub get_pending_approvals : ℕ → Db → List Approval
get_pending_approvals tenant db =
    select (λ a. a.tenant == tenant && is_pending a.status) db.approvals

-- A handler's exception does not reach the service that emits the event.
abbrev pub swallow : Action (Unit {0}) → Action (Unit {0})
swallow m db = (ok tt, (m db).1)

abbrev pub decide : ℕ → ApprovalStatus → ℕ → Db → Db
decide id status approver db = record db {
  approvals =
      update (λ a. a.id == id) (λ a. record a { status = status; approver = some approver })
        db.approvals;
}

-- the guard that both decisions share
abbrev pub pending_request : ℕ → ℕ → Action Approval
pending_request tenant id = do
  r ← read (λ db. or_throw (find_request tenant id db) request_not_found)
  read (λ db. guard (is_pending r.status) already_decided)
  pure r

module _ (D : Decimals) where
  -- the handlers of `approval.approved`, in the order of the modules
  abbrev pub emit_approved : Date → ℕ → Approval → Action (Unit {0})
  emit_approved now tenant r = do
    swallow (payment_approved_event D now tenant r.entity_type r.entity_id)
    swallow (payroll_approved_event D now tenant r.entity_type r.entity_id)
    swallow (order_approved_event r.entity_type r.entity_id)

  unfoldable pub approve_request : ℕ → Date → ℕ → ℕ → Action (Unit {0})
  approve_request tenant now id approver = do
    r ← pending_request tenant id
    write (decide id approved approver)
    emit_approved now tenant r

abbrev pub emit_rejected : Approval → Action (Unit {0})
emit_rejected r = do
  swallow (payment_rejected_event r.entity_type r.entity_id)
  swallow (payroll_rejected_event r.entity_type r.entity_id)
  swallow (order_rejected_event r.entity_type r.entity_id)

unfoldable pub reject_request : ℕ → ℕ → ℕ → Action (Unit {0})
reject_request tenant id approver = do
  r ← pending_request tenant id
  write (decide id rejected approver)
  emit_rejected r
