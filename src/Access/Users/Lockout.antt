-- ===== src/Access/Users/Lockout.antt =====
-- Wrong passwords.
use erp_ai_private.Prelude.{
  ℕ, ◌+◌, ◌≤◌, ◌==◌, leb, ◌≡◌, refl, List, some, true, false, arith, find-update_hit,
}
use erp_ai_private.Db.{User, Date, ltb_date, Db, err, bad_credentials, account_locked}
use erp_ai_private.Periods.Calendar.{milliseconds_after}
use erp_ai_private.Access.Tokens.{Jwt}
use erp_ai_private.Access.Users.{
  Policy, Crypto, is_disabled, is_locked, user_with_email, fail_login, login,
}

module _ (P : Policy) (C : Crypto) (J : Jwt) (email : ℕ) where
  -- What a login with a wrong password leaves of the account.
  login_wrong :
      (password : List ℕ) (now : Date) (u : User) (db : Db) {h : ℕ}
      → user_with_email (C.lower_case email) db ≡ some u
      → u.password_hash ≡ some h
      → is_disabled u.status ≡ false
      → is_locked now u ≡ false
      → C.verify h password ≡ false
      → (((login P C J email password now db).0) ≡ err bad_credentials)
        × (user_with_email (C.lower_case email) (login P C J email password now db).1
            ≡ some (fail_login P C J now u.failed_attempts u))
  unfolding login
  login_wrong password now u db f p d l w =
      let after =
        find-update_hit (λ x. x.email == C.lower_case email) (λ x. x.id == u.id)
          (fail_login P C J now u.failed_attempts) db.users (λ x. refl) f (ground arith) in
      ground (arith, f, p, d, l, w, after)

  login_locked :
      (password : List ℕ) (now : Date) (u : User) (db : Db) {h : ℕ}
      → user_with_email (C.lower_case email) db ≡ some u
      → u.password_hash ≡ some h
      → is_disabled u.status ≡ false
      → is_locked now u ≡ true
      → login P C J email password now db ≡ (err account_locked, db)
  unfolding login
  login_locked password now u db f p d l = ground (arith, f, p, d, l)

  -- The wrong password that reaches the limit locks the account: from then on until the lockout is
  -- over every login is refused, also with the right password, and changes nothing.
  pub login-locks :
      (wrong password : List ℕ) (now later : Date) (u : User) (db : Db) {h : ℕ}
      → user_with_email (C.lower_case email) db ≡ some u
      → u.password_hash ≡ some h
      → is_disabled u.status ≡ false
      → is_locked now u ≡ false
      → C.verify h wrong ≡ false
      → P.max_failed_attempts ≤ u.failed_attempts + 1
      → ltb_date later (milliseconds_after P.lockout now) ≡ true
      → let first = login P C J email wrong now db in
        (first.0 ≡ err bad_credentials)
        × (login P C J email password later first.1 ≡ (err account_locked, first.1))
  login-locks wrong password now later u db f p d l w limit soon =
      let (refused, found) = login_wrong wrong now u db f p d l w in
      let full : leb P.max_failed_attempts (u.failed_attempts + 1) ≡ true = ground arith in
      (
        refused,
        login_locked password later (fail_login P C J now u.failed_attempts u)
            (login P C J email wrong now db).1 found p d (rw full soon),
      )
