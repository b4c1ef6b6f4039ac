-- ===== src/Assets/Run.antt =====
-- The monthly run: what it posts, and what it leaves to be posted.
use erp_ai_private.Prelude.{
  ℕ, ◌+◌, ◌≡◌, refl, sym, ◌∙◌, ap, ◌==◌, List, [], ◌∷◌, Bool, true, false, ◌||◌, arith, All, length,
  remove, update, some, Option-cases, find, inl, inr,
}
use erp_ai_private.Db.{
  Asset, Schedule, Date, Db, ok, ◌>>=◌, >>=-eq-ok, rollback_returns, transaction, pure,
}
use erp_ai_private.Journal.{insert_entry}
use erp_ai_private.Assets.{
  pending_schedules, depreciation_entry, post_schedule, post_schedules, run_monthly_depreciation,
}

-- a pair's schedule has the id
abbrev is_of : ℕ → Schedule × Asset → Bool
is_of id p = p.0.id == id

pending-mark :
    (tenant : ℕ) (date : Date) (assets : List Asset) (id entry : ℕ) (ss : List Schedule)
    → pending_schedules tenant date assets
        (update (λ s. s.id == id) (λ s. record s { posted = true; journal_entry = some entry }) ss)
      ≡ remove (is_of id) (pending_schedules tenant date assets ss)
unfolding pending_schedules
pending-mark tenant date assets id entry [] = refl
pending-mark tenant date assets id entry (s ∷ ss) =
    elim (Option-cases (find (λ a. a.id == s.asset) assets)) [
      | inl missing ↦ ground (arith, pending-mark tenant date assets id entry ss)
      | inr (a, found) ↦ ground (arith, pending-mark tenant date assets id entry ss)
    ]

-- What a posted schedule changes.
pub record IsPosting (tenant : ℕ) (now : Date) (s : Schedule) (a : Asset) (db db' : Db)
    : Type 0 where
  pub assets : db'.assets ≡ db.assets
  pub schedules :
      db'.schedules
      ≡ update
          (λ x. x.id == s.id)
          (λ x. record x { posted = true; journal_entry = some db.next_id })
          db.schedules
  pub entries : db'.entries ≡ depreciation_entry tenant now s a db ∷ db.entries

pub post_schedule-IsPosting :
    (tenant : ℕ) (now : Date) (s : Schedule) (a : Asset) (db db' : Db)
    → post_schedule tenant now (s, a) db ≡ (ok tt, db')
    → IsPosting tenant now s a db db'
unfolding post_schedule insert_entry
post_schedule-IsPosting tenant now s a db db' h = record {
  assets = ground arith;
  schedules = ground arith;
  entries = ground arith;
}

-- a pair's schedule is one of these
abbrev listed : List (Schedule × Asset) → Schedule × Asset → Bool
listed [] p = false
listed (q ∷ qs) p = p.0.id == q.0.id || listed qs p

remove-remove :
    (p q : Schedule × Asset → Bool) (xs : List (Schedule × Asset))
    → remove p (remove q xs) ≡ remove (λ x. q x || p x) xs
remove-remove p q [] = refl
remove-remove p q (x ∷ xs) = ground (arith, remove-remove p q xs)

remove_none : (xs : List (Schedule × Asset)) → remove (λ x. false) xs ≡ xs
remove_none [] = refl
remove_none (x ∷ xs) = ap (λ r. x ∷ r) (remove_none xs)

remove-All :
    (p : Schedule × Asset → Bool) (xs : List (Schedule × Asset))
    → All (λ x. p x ≡ true) xs
    → remove p xs ≡ []
remove-All p [] h = refl
remove-All p (x ∷ xs) h = rw h.0 (remove-All p xs h.1)

listed_more :
    (q : Schedule × Asset) (qs ps : List (Schedule × Asset))
    → All (λ x. listed qs x ≡ true) ps
    → All (λ x. listed (q ∷ qs) x ≡ true) ps
listed_more q qs [] h = tt
listed_more q qs (p ∷ ps) h = (ground (arith, h.0), listed_more q qs ps h.1)

each_listed : (ps : List (Schedule × Asset)) → All (λ x. listed ps x ≡ true) ps
each_listed [] = tt
each_listed (p ∷ ps) = (ground arith, listed_more p ps ps (each_listed ps))

-- What the loop leaves when it returns.
record IsRun (tenant : ℕ) (ps : List (Schedule × Asset)) (n : ℕ) (db db' : Db) : Type 0 where
  assets : db'.assets ≡ db.assets
  posted_count : n ≡ length ps
  entries : length db'.entries ≡ n + length db.entries
  pending :
      (date : Date)
      → pending_schedules tenant date db'.assets db'.schedules
        ≡ remove (listed ps) (pending_schedules tenant date db.assets db.schedules)

post_schedules-IsRun :
    (tenant : ℕ) (now : Date) (ps : List (Schedule × Asset)) (db db' : Db) {n : ℕ}
    → post_schedules tenant now ps db ≡ (ok n, db')
    → IsRun tenant ps n db db'
unfolding post_schedules
post_schedules-IsRun tenant now [] db db' {n = n} h =
    let same : db ≡ db' = ap (λ r. r.1) h in
    record {
      assets = ap (λ d. d.assets) (sym same);
      posted_count = ground arith;
      entries = ground (arith, same);
      pending = λ date.
          ap (λ d. pending_schedules tenant date d.assets d.schedules) (sym same)
          ∙ sym (remove_none (pending_schedules tenant date db.assets db.schedules));
    }
post_schedules-IsRun tenant now ((s, a) ∷ ps) db db' {n = n} h =
    let (u, mid, first, more) =
      >>=-eq-ok (transaction (post_schedule tenant now (s, a)))
        (λ _. post_schedules tenant now ps >>= λ m. pure (m + 1)) db h in
    let (m, last, looped, done) =
      >>=-eq-ok (post_schedules tenant now ps) (λ m. pure (m + 1)) mid more in
    let one =
      post_schedule-IsPosting tenant now s a db mid
        (rollback_returns db (post_schedule tenant now (s, a) db) first) in
    let rest = post_schedules-IsRun tenant now ps mid last looped in
    let same : last ≡ db' = ap (λ r. r.1) done in
    let counted : n ≡ m + 1 = ground arith in
    record {
      assets = ap (λ d. d.assets) (sym same) ∙ rest.assets ∙ one.assets;
      posted_count = counted ∙ rw rest.posted_count (omega arith);
      entries =
          ap (λ d. length d.entries) (sym same)
          ∙ rest.entries
          ∙ rw (one.entries, counted) (omega arith);
      pending = λ date.
          ap (λ d. pending_schedules tenant date d.assets d.schedules) (sym same)
          ∙ rest.pending date
          ∙ rw
              (
                one.assets,
                one.schedules,
                pending-mark tenant date db.assets s.id db.next_id db.schedules,
              )
              (remove-remove (listed ps) (is_of s.id)
                (pending_schedules tenant date db.assets db.schedules));
    }

-- A run that returns has posted every schedule that was due, with one entry for each: it returns
-- how many that were, none is due any more, and a second run for the date posts nothing and
-- changes nothing.
pub run_monthly_depreciation_twice :
    (tenant : ℕ) (now later date : Date) (db db' : Db) {n : ℕ}
    → run_monthly_depreciation tenant now date db ≡ (ok n, db')
    → (n ≡ length (pending_schedules tenant date db.assets db.schedules))
      × (length db'.entries ≡ n + length db.entries)
      × (pending_schedules tenant date db'.assets db'.schedules ≡ [])
      × (run_monthly_depreciation tenant later date db' ≡ (ok 0, db'))
unfolding run_monthly_depreciation post_schedules
run_monthly_depreciation_twice tenant now later date db db' {n = n} h =
    let due = pending_schedules tenant date db.assets db.schedules in
    let ran = post_schedules-IsRun tenant now due db db' h in
    let settled : pending_schedules tenant date db'.assets db'.schedules ≡ [] =
      ran.pending date ∙ remove-All (listed due) due (each_listed due) in
    (ran.posted_count, ran.entries, settled, rw settled refl)
