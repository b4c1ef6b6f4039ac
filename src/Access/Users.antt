-- ===== src/Access/Users.antt =====
-- Accounts of people: registration, login and invitations
-- (apps/api/src/modules/auth/auth.service.ts, auth/services/password.service.ts and
-- users/users.service.ts). The audit log is left out.
pub mod Lockout
pub mod Invites
use erp_ai_private.Prelude.{
  ℕ, ◌+◌, ◌==◌, ltb, leb, List, [], ◌∷◌, Option, none, some, Bool, true, false, ◌&&◌, ◌||◌, not,
  length, find, update, is_none, is_id, if◌then◌else◌,
}
use erp_ai_private.Db.{
  User, UserStatus, active_user, invited_user, disabled_user, Member, MemberStatus, invited_member,
  Date, ltb_date, Db, Result, ok, err, Action, ◌>>=◌, ◌>>◌, pure, read, check, write, guard,
  passwords_differ, weak_password, email_registered, bad_credentials, account_disabled,
  account_locked, invalid_invitation, invitation_expired,
}
use erp_ai_private.Periods.Calendar.{milliseconds_after}
use erp_ai_private.Access.Tokens.{Jwt, generate_refresh_token, rotate_refresh_token}

-- the environment (apps/api/src/config/env.validation.ts); the lockout in milliseconds
pub record Policy : Type 0 where
  pub min_length : ℕ
  pub require_uppercase : Bool
  pub require_lowercase : Bool
  pub require_digit : Bool
  pub require_special : Bool
  pub max_failed_attempts : ℕ
  pub lockout : ℕ

-- argon2, SHA-256 and `toLowerCase`. A password is the list of its UTF-16 code units.
pub record Crypto : Type 0 where
  pub hash : List ℕ → ℕ
  pub verify : ℕ → List ℕ → Bool
  pub digest : ℕ → ℕ
  pub lower_case : ℕ → ℕ

abbrev some_unit : (ℕ → Bool) → List ℕ → Bool
some_unit p [] = false
some_unit p (c ∷ cs) = p c || some_unit p cs

abbrev between : ℕ → ℕ → ℕ → Bool
between low high c = leb low c && leb c high

-- the characters !"#$%&'()*+,-./ :;<=>?@ [\]^_ {|} of the pattern, which leaves out ` and ~
abbrev is_special : ℕ → Bool
is_special c = between 33 47 c || (between 58 64 c || (between 91 95 c || between 123 125 c))

-- `validateStrength`
unfoldable pub validate_strength : Policy → List ℕ → Bool
validate_strength P password =
    if ltb (length password) P.min_length
    then false
    else if P.require_uppercase && not (some_unit (between 65 90) password)
    then false
    else if P.require_lowercase && not (some_unit (between 97 122) password)
    then false
    else if P.require_digit && not (some_unit (between 48 57) password)
    then false
    else not (P.require_special && not (some_unit is_special password))

abbrev pub is_disabled : UserStatus → Bool
is_disabled disabled_user = true
is_disabled _ = false

abbrev pub is_invited : UserStatus → Bool
is_invited invited_user = true
is_invited _ = false

abbrev pub is_locked : Date → User → Bool
is_locked now u = elim u.locked_until [ none ↦ false | some t ↦ ltb_date now t ]

abbrev pub user_with_email : ℕ → Db → Option User
user_with_email email db = find (λ u. u.email == email) db.users

-- `user.update` by id
abbrev pub update_user : ℕ → (User → User) → Action (Unit {0})
update_user id f = write (λ db. record db { users = update (λ u. u.id == id) f db.users })

abbrev pub is_member : ℕ → ℕ → Member → Bool
is_member tenant user m = m.tenant == tenant && m.user == user

-- `tenantUser.upsert`
unfoldable pub upsert_member : ℕ → ℕ → ℕ → Db → Db
upsert_member tenant user role db = elim (find (is_member tenant user) db.members) [
  | none ↦ record db {
    members =
        record { tenant = tenant; user = user; role = some role; status = invited_member }
        ∷ db.members;
  }
  | some m ↦ record db {
    members =
        update (is_member tenant user) (λ x. record x { role = some role; status = invited_member })
          db.members;
  }
]

module _ (P : Policy) (C : Crypto) (J : Jwt) where
  unfoldable pub register : ℕ → List ℕ → Bool → Date → Action ℕ
  register email password confirmed now db =
      if not confirmed
      then (err passwords_differ, db)
      else if not (validate_strength P password)
      then (err weak_password, db)
      else if not (is_none (user_with_email (C.lower_case email) db))
      then (err email_registered, db)
      else (let u : User = record {
        id = db.next_id;
        email = C.lower_case email;
        password_hash = some (C.hash password);
        failed_attempts = 0;
        locked_until = none;
        status = active_user;
        invite_token_hash = none;
        invite_expires_at = none;
      } in
          generate_refresh_token J u.id now
            (record db { next_id = db.next_id + 1; users = u ∷ db.users }))

  -- `handleFailedLogin`
  abbrev pub fail_login : Date → ℕ → User → User
  fail_login now attempts u = record u {
    failed_attempts = attempts + 1;
    locked_until =
        if leb P.max_failed_attempts (attempts + 1)
        then some (milliseconds_after P.lockout now)
        else none;
  }

  abbrev pub reset_login : User → User
  reset_login u = record u { failed_attempts = 0; locked_until = none }

  unfoldable pub login : ℕ → List ℕ → Date → Action ℕ
  login email password now db = elim (user_with_email (C.lower_case email) db) [
    | none ↦ (err bad_credentials, db)
    | some u ↦ elim u.password_hash [
      | none ↦ (err bad_credentials, db)
      | some h ↦
          if is_disabled u.status
          then (err account_disabled, db)
          else if is_locked now u
          then (err account_locked, db)
          else if not (C.verify h password)
          then (err bad_credentials, (update_user u.id (fail_login now u.failed_attempts) db).1)
          else (update_user u.id reset_login >> generate_refresh_token J u.id now) db
    ]
  ]

  -- `UsersService.inviteUser`; the token is random, `expires` a week ahead in local time
  abbrev pub invited : ℕ → Date → User → User
  invited token expires u = record u {
    invite_token_hash = some (C.digest token);
    invite_expires_at = some expires;
  }

  -- the user that the invitation is for, as `findUnique` and `create` or `update` leave it
  abbrev pub find_or_create_user : ℕ → ℕ → Date → Action ℕ
  find_or_create_user email token expires db = elim (user_with_email email db) [
    | none ↦
        let u : User = record {
          id = db.next_id;
          email = email;
          password_hash = none;
          failed_attempts = 0;
          locked_until = none;
          status = invited_user;
          invite_token_hash = some (C.digest token);
          invite_expires_at = some expires;
        } in
        (ok u.id, record db { next_id = db.next_id + 1; users = u ∷ db.users })
    | some u ↦ (ok u.id, (update_user u.id (invited token expires) db).1)
  ]

  unfoldable pub invite_user : ℕ → ℕ → ℕ → ℕ → Date → Action ℕ
  invite_user tenant email role token expires = do
    user ← find_or_create_user email token expires
    write (upsert_member tenant user role)
    pure user

  abbrev pub accept : List ℕ → User → User
  accept password u = record u {
    password_hash = some (C.hash password);
    status = active_user;
    invite_token_hash = none;
    invite_expires_at = none;
  }

  abbrev pub has_expired : Date → User → Bool
  has_expired now u = elim u.invite_expires_at [ none ↦ false | some t ↦ ltb_date t now ]

  -- `AuthService.acceptInvite`
  unfoldable pub accept_invite : ℕ → List ℕ → Date → Action ℕ
  accept_invite token password now db =
      elim (find (λ u. is_id u.invite_token_hash (C.digest token)) db.users) [
        | none ↦ (err invalid_invitation, db)
        | some u ↦
            if not (is_invited u.status)
            then (err invalid_invitation, db)
            else if has_expired now u
            then (err invitation_expired, db)
            else if not (validate_strength P password)
            then (err weak_password, db)
            else (update_user u.id (accept password) >> generate_refresh_token J u.id now) db
      ]

  -- `refreshTokens`: the token is rotated before the account is looked at
  unfoldable pub refresh_tokens : ℕ → ℕ → Date → Action ℕ
  refresh_tokens user text now = do
    next ← rotate_refresh_token J user text now
    read (λ db. elim (find (λ u. u.id == user) db.users) [
      | none ↦ err account_disabled
      | some u ↦ guard (not (is_disabled u.status || is_locked now u)) account_disabled
    ])
    pure next
