-- ===== src/Payments/Requests.antt =====
-- The status and the approval request of a new payment.
use erp_ai_private.Prelude.{ℕ, ◌+◌, ◌≡◌, refl, ◌∷◌, none, true, arith, Bool-cases, inl, inr, ◌⊎◌}
use erp_ai_private.Prelude.Int.{◌≤ℤ◌, ◌<ℤ◌, ltb_ℤ}
use erp_ai_private.Decimal.{Decimals, lit}
use erp_ai_private.Db.{
  draft_payment, pending_payment, pending, payment_entity, Payment, Approval, Db, ok, err,
  over_allocated,
}
use erp_ai_private.Sequences.{get_next_sequence}
use erp_ai_private.Payments.Create.{
  PaymentDto, allocated, insert_payment, execute_create_payment, create_payment, requires_approval,
}

module _ (D : Decimals) (tenant user year : ℕ) (dto : PaymentDto) where
  -- Allocations beyond the amount are refused before anything is written, the number included.
  pub create_payment_over_allocated :
      (db : Db)
      → ltb_ℤ dto.amount (allocated dto.allocations) ≡ true
      → create_payment D tenant user year dto db ≡ (err over_allocated, db)
  unfolding create_payment
  create_payment_over_allocated db h = ground arith

  -- A payment of more than 10,000 is created PendingApproval, together with one pending request
  -- for its approval; any other is created a Draft with no request.
  pub create_payment-approvals :
      (db db' : Db) {p : Payment}
      → create_payment D tenant user year dto db ≡ (ok p, db')
      → (db'.payments ≡ p ∷ db.payments)
        × (((lit D 10000 <ℤ dto.amount)
              × (p.status ≡ pending_payment)
              × (r : Approval) × (db'.approvals ≡ r ∷ db.approvals)
              × (r.status ≡ pending)
              × (r.entity_type ≡ payment_entity)
              × (r.entity_id ≡ p.id))
            ⊎ ((dto.amount ≤ℤ lit D 10000)
                × (p.status ≡ draft_payment)
                × (db'.approvals ≡ db.approvals)))
  unfolding create_payment execute_create_payment insert_payment get_next_sequence
  create_payment-approvals db db' {p = p} h = elim (Bool-cases (requires_approval D dto.amount)) [
    | inl large ↦ (
      ground arith,
      inl (
        ground arith,
        ground arith,
        record {
          id = db.next_id + 1;
          tenant = tenant;
          entity_type = payment_entity;
          entity_id = db.next_id;
          requested_by = user;
          approver = none;
          status = pending;
        },
        ground arith,
        refl,
        refl,
        ground arith,
      ),
    )
    | inr small ↦ (ground arith, inr (ground arith, ground arith, ground arith))
  ]
