-- ===== src/Sequences.antt =====
-- Document numbers (apps/api/src/modules/business/sequences/sequences.service.ts).
pub mod Gapless
use erp_ai_private.Prelude.{
  ℕ, ◌+◌, ◌==◌, List, [], ◌∷◌, Option, none, some, Bool, ◌&&◌, not, find, is_none, if◌then◌else◌,
}
use erp_ai_private.Db.{
  SequenceType, sequence_code, DocumentPrefix, DocumentNumber, Sequence, InvoiceHash, zero_hash,
  mock_hash, uuid_hash, Db, ok, Action,
}

-- the unique index on (tenantId, entityType)
abbrev pub is_sequence_of : ℕ → SequenceType → Sequence → Bool
is_sequence_of tenant type s =
    s.tenant == tenant && sequence_code s.entity_type == sequence_code type

-- the atomic `upsert` with its increment
unfoldable pub upsert : ℕ → SequenceType → DocumentPrefix → List Sequence → List Sequence
upsert tenant type prefix [] =
    record { tenant = tenant; entity_type = type; prefix = prefix; next_number = 1 } ∷ []
upsert tenant type prefix (s ∷ rest) =
    if is_sequence_of tenant type s
    then record s { next_number = s.next_number + 1 } ∷ rest
    else s ∷ upsert tenant type prefix rest

-- the number that a sequence has reached, 0 before its row is made
abbrev pub current : ℕ → SequenceType → List Sequence → ℕ
current tenant type ss = elim (find (is_sequence_of tenant type) ss) [
  | none ↦ 0
  | some s ↦ s.next_number
]

-- `getNextSequence`; `year` is the current year
unfoldable pub get_next_sequence : ℕ → SequenceType → DocumentPrefix → ℕ → Action DocumentNumber
get_next_sequence tenant type prefix year db =
    let rows = upsert tenant type prefix db.sequences in
    (
      ok (record { prefix = prefix; year = year; seq = current tenant type rows }),
      record db { sequences = rows },
    )

-- the hash for an invoice that `findFirst` has found, or for none
abbrev pub hash_of : Option ℕ → InvoiceHash
hash_of none = mock_hash
hash_of (some uuid) = uuid_hash uuid

-- `getPreviousInvoiceHash`: of the tenant's invoices with a hash, the one created last
unfoldable pub get_previous_invoice_hash : ℕ → Db → InvoiceHash
get_previous_invoice_hash tenant db =
    elim (find (λ i. i.tenant == tenant && not (is_none i.zatca_pih)) db.invoices) [
      | none ↦ zero_hash
      | some i ↦ hash_of i.zatca_uuid
    ]
