-- ===== src/Services/Matches.antt =====
-- What the matching of a bank statement keeps of the entries.
use erp_ai_private.Prelude.{
  ℕ, ◌≡◌, List, [], ◌∷◌, ◌==◌, none, some, arith, find, select, count, length, Option-cases,
  Bool-cases, inl, inr,
}
use erp_ai_private.Decimal.{Decimals}
use erp_ai_private.Db.{Line, Entry, StatementLine, Reconciliation, Db, ok, Action, ◌>>=◌, read}
use erp_ai_private.Reconciliations.{
  find_reconciliation, is_reconciled, draft_of, all_lines, is_unreconciled, is_matchable,
  is_unmatchable, update_lines, match_transactions, auto_match, manual_match, manual_unmatch,
  is_match, reconcile,
}
use erp_ai_private.Services.Keeps.{Keeps, IsKept, >>=-Keeps}

draft_of-db : (tenant id : ℕ) (db : Db) → (draft_of tenant id db).1 ≡ db
draft_of-db tenant id db = elim (Option-cases (find_reconciliation tenant id db)) [
  | inl missing ↦ ground arith
  | inr (r, found) ↦ elim (Bool-cases (is_reconciled r.status)) [
    | inl done ↦ ground arith
    | inr draft ↦ ground arith
  ]
]

module _ (D : Decimals) (Q : List Entry → Type 0) (kept : IsKept D Q) where
  match_transactions-Keeps :
      (id : ℕ) (lines : List Line) (matched : List ℕ) (ts : List StatementLine) (db : Db)
      → Q db.entries
      → Q (match_transactions id lines matched ts db).1.entries
  unfolding match_transactions
  match_transactions-Keeps id lines matched [] db h = h
  match_transactions-Keeps id lines matched (t ∷ ts) db h =
      elim (Option-cases (find (is_match matched t) lines)) [
        | inl missing ↦
            rw (missing, match_transactions) (match_transactions-Keeps id lines matched ts db h)
        | inr (l, found) ↦
            rw (found, match_transactions)
              (match_transactions-Keeps id lines (l.id ∷ matched) ts (reconcile id l.id db)
                (kept.by_mark (λ k. k.id == l.id) (some id) db.entries h))
      ]

  pub auto_match-Keeps : (tenant id : ℕ) → Keeps Q (auto_match tenant id)
  unfolding auto_match
  auto_match-Keeps tenant id =
      let lines : Reconciliation → Db → List Line =
        λ r db. select (is_unreconciled tenant r.account) (all_lines db.entries) in
      let mark : Reconciliation → List Line → Action ℕ = λ r ls db. (
        ok (length (match_transactions r.id ls [] r.transactions db).0),
        (match_transactions r.id ls [] r.transactions db).1,
      ) in
      >>=-Keeps Q (draft_of tenant id) (λ r. read (λ db. ok (lines r db)) >>= mark r)
        (λ db h. rw (draft_of-db tenant id db) h)
        (λ r.
          >>=-Keeps Q (read (λ db. ok (lines r db))) (mark r) (λ db h. h)
            (λ ls db h. match_transactions-Keeps r.id ls [] r.transactions db h))

  pub manual_match-Keeps : (tenant id : ℕ) (ids : List ℕ) → Keeps Q (manual_match tenant id ids)
  unfolding manual_match
  manual_match-Keeps tenant id ids =
      let mark : Reconciliation → Action ℕ = λ r db. (
        ok (count (is_matchable tenant r.account ids) (all_lines db.entries)),
        record db {
          entries =
              update_lines (is_matchable tenant r.account ids)
                (λ l. record l { reconciliation = some id }) db.entries;
        },
      ) in
      >>=-Keeps Q (draft_of tenant id) mark (λ db h. rw (draft_of-db tenant id db) h)
        (λ r db h. kept.by_mark (is_matchable tenant r.account ids) (some id) db.entries h)

  pub manual_unmatch-Keeps : (tenant id : ℕ) (ids : List ℕ) → Keeps Q (manual_unmatch tenant id ids)
  unfolding manual_unmatch
  manual_unmatch-Keeps tenant id ids =
      let mark : Reconciliation → Action ℕ = λ r db. (
        ok (count (is_unmatchable tenant r.account id ids) (all_lines db.entries)),
        record db {
          entries =
              update_lines (is_unmatchable tenant r.account id ids)
                (λ l. record l { reconciliation = none }) db.entries;
        },
      ) in
      >>=-Keeps Q (draft_of tenant id) mark (λ db h. rw (draft_of-db tenant id db) h)
        (λ r db h. kept.by_mark (is_unmatchable tenant r.account id ids) none db.entries h)
