-- ===== src/Services/Depreciation.antt =====
-- What a run of the depreciation keeps of the journal entries.
use erp_ai_private.Prelude.{ℕ, ◌+◌, ◌≡◌, refl, List, [], ◌∷◌, All, inl, inr}
use erp_ai_private.Prelude.Int.{int_laws}
use erp_ai_private.Db.{
  Asset, Schedule, Entry, Date, Db, ok, ◌>>=◌, rollback_returns, rollback_refused, Result-cases,
  transaction, pure,
}
use erp_ai_private.Journal.Balance.{IsBalanced}
use erp_ai_private.Ledger.Balanced.{IsOwned}
use erp_ai_private.Assets.{
  pending_schedules, depreciation_entry, post_schedule, post_schedules, run_monthly_depreciation,
}
use erp_ai_private.Assets.Run.{post_schedule-IsPosting}
use erp_ai_private.Services.Keeps.{Keeps, >>=-Keeps}

-- A property of the entries that a posting adds is kept by the run, whether it returns or throws.
module _ (Q : List Entry → Type 0)
    (keeps : (tenant : ℕ) (now : Date) (s : Schedule) (a : Asset) (db : Db)
      → Q db.entries
      → Q (depreciation_entry tenant now s a db ∷ db.entries)) where
  post_schedule-Keeps :
      (tenant : ℕ) (now : Date) (s : Schedule) (a : Asset) (db : Db)
      → Q db.entries
      → Q (transaction (post_schedule tenant now (s, a)) db).1.entries
  post_schedule-Keeps tenant now s a db h =
      elim (Result-cases (transaction (post_schedule tenant now (s, a)) db).0) [
        | inl (u, returned) ↦
            let mid = (transaction (post_schedule tenant now (s, a)) db).1 in
            let whole : transaction (post_schedule tenant now (s, a)) db ≡ (ok tt, mid) =
              λ i. (returned i, mid) in
            let one =
              post_schedule-IsPosting tenant now s a db mid
                (rollback_returns db (post_schedule tenant now (s, a) db) whole) in
            rw one.entries (keeps tenant now s a db h)
        | inr (x, thrown) ↦
            rw
              (rollback_refused db (post_schedule tenant now (s, a) db)
                (λ i. (thrown i, (transaction (post_schedule tenant now (s, a)) db).1)))
              h
      ]

  post_schedules-Keeps :
      (tenant : ℕ) (now : Date) (ps : List (Schedule × Asset))
      → Keeps Q (post_schedules tenant now ps)
  unfolding post_schedules
  post_schedules-Keeps tenant now [] = λ db h. h
  post_schedules-Keeps tenant now ((s, a) ∷ ps) =
      >>=-Keeps Q (transaction (post_schedule tenant now (s, a)))
        (λ _. post_schedules tenant now ps >>= λ n. pure (n + 1))
        (post_schedule-Keeps tenant now s a)
        (λ _.
          >>=-Keeps Q (post_schedules tenant now ps) (λ n. pure (n + 1))
            (post_schedules-Keeps tenant now ps) (λ n db h. h))

  pub run_monthly_depreciation-Keeps :
      (tenant : ℕ) (now date : Date) (db : Db)
      → Q db.entries
      → Q (run_monthly_depreciation tenant now date db).1.entries
  unfolding run_monthly_depreciation
  run_monthly_depreciation-Keeps tenant now date db h =
      post_schedules-Keeps tenant now (pending_schedules tenant date db.assets db.schedules) db h

pub depreciation_entry-IsBalanced :
    (tenant : ℕ) (now : Date) (s : Schedule) (a : Asset) (db : Db)
    → IsBalanced (depreciation_entry tenant now s a db)
depreciation_entry-IsBalanced tenant now s a db = omega int_laws

-- A run of the depreciation keeps a ledger of balanced entries balanced and each line with the
-- tenant of its entry, whether it returns or stops at a refusal midway.
pub run_monthly_depreciation-IsBalanced :
    (tenant : ℕ) (now date : Date) (db : Db)
    → All IsBalanced db.entries
    → All IsOwned db.entries
    → let es = (run_monthly_depreciation tenant now date db).1.entries in
      All IsBalanced es × All IsOwned es
run_monthly_depreciation-IsBalanced tenant now date db b o = (
  run_monthly_depreciation-Keeps (All IsBalanced)
      (λ t n s a d h. (depreciation_entry-IsBalanced t n s a d, h)) tenant now date db b,
  run_monthly_depreciation-Keeps (All IsOwned) (λ t n s a d h. ((refl, (refl, tt)), h)) tenant now
      date db o,
)
