-- ===== src/Examples/Access.antt =====
-- The theorems of users, roles and tokens at concrete people.
use erp_ai_private.Prelude.{
  ◌+◌, ◌*◌, ◌/◌, ◌%◌, ◌==◌, ◌≡◌, refl, [], ◌∷◌, none, some, false, arith, select, length,
}
use erp_ai_private.Db.{
  auth_users_manage, active_user, active_member, User, Db, ok, err, bad_credentials, account_locked,
  invalid_token, not_active,
}
use erp_ai_private.Periods.Calendar.{milliseconds_after, year_days}
use erp_ai_private.Access.{create_tenant, permissions_guard, tenant_guard}
use erp_ai_private.Access.Tenants.{create_tenant-permissions_guard}
use erp_ai_private.Access.Redis.{store, exists, del, set_with_ttl}
use erp_ai_private.Access.Tokens.{
  Jwt, generate_refresh_token, rotate_refresh_token, rotate_refresh_token_once,
}
use erp_ai_private.Access.Users.{Policy, Crypto, login, upsert_member, invite_user, accept_invite}
use erp_ai_private.Access.Users.Lockout.{login-locks}
use erp_ai_private.Access.Users.Invites.{invite_user-tenant_guard}
use erp_ai_private.Examples.{company, today, later}

create_tenant-permissions_guard_example :
    let made = create_tenant 5 company in
    (made.0 ≡ ok 100)
    × (tenant_guard (some 100) (some 5) made.1 ≡ ok tt)
    × (permissions_guard (auth_users_manage ∷ []) (some 5) (some 100) made.1 ≡ ok tt)
create_tenant-permissions_guard_example =
    create_tenant-permissions_guard 5 company (auth_users_manage ∷ [])

-- tokens that never expire
abbrev jwt : Jwt
jwt = record {
  sign = λ user jti. user * 1000 + jti;
  verify = λ now text. some (text / 1000, text % 1000);
  ttl = 604800000;
}

abbrev plain : Crypto
plain = record {
  hash = λ p. length p;
  verify = λ h p. h == length p;
  digest = λ t. t;
  lower_case = λ e. e;
}

abbrev policy : Policy
policy = record {
  min_length = 2;
  require_uppercase = false;
  require_lowercase = false;
  require_digit = false;
  require_special = false;
  max_failed_attempts = 5;
  lockout = 1800000;
}

abbrev sara : User
sara = record {
  id = 7;
  email = 77;
  password_hash = some 3;
  failed_attempts = 4;
  locked_until = none;
  status = active_user;
  invite_token_hash = none;
  invite_expires_at = none;
}

abbrev office : Db
office = record company {
  users = sara ∷ [];
  members = record { tenant = 1; user = 7; role = none; status = active_member } ∷ [];
  redis = record company.redis { keys = record { user = 7; jti = 50; expires_at = later } ∷ [] };
}

abbrev rotated : Db
rotated = (rotate_refresh_token jwt 7 7050 today office).1

rotation : rotate_refresh_token jwt 7 7050 today office ≡ (ok 7100, rotated)
unfolding rotate_refresh_token generate_refresh_token exists del set_with_ttl
rotation = refl

rotate_refresh_token_once_example :
    let again = rotate_refresh_token jwt 7 7050 later rotated in
    (again.0 ≡ err invalid_token) × (select (λ t. t.user == 7) (store again.1.redis) ≡ [])
unfolding rotate_refresh_token generate_refresh_token exists del set_with_ttl
rotate_refresh_token_once_example =
    rotate_refresh_token_once jwt 7 7050 50 today later office rotated (ground arith) rotation refl
      refl refl refl

login-locks_example :
    let first = login policy plain jwt 77 (1 ∷ []) today office in
    (first.0 ≡ err bad_credentials)
    × (login policy plain jwt 77 (1 ∷ 2 ∷ 3 ∷ []) today first.1 ≡ (err account_locked, first.1))
login-locks_example =
    login-locks policy plain jwt 77 (1 ∷ []) (1 ∷ 2 ∷ 3 ∷ []) today today sara office refl refl refl
      refl refl (ground arith) (unfold milliseconds_after year_days in refl)

abbrev after_invite : Db
after_invite = (invite_user policy plain jwt 1 77 2 9 later office).1

invited_again : invite_user policy plain jwt 1 77 2 9 later office ≡ (ok 7, after_invite)
unfolding invite_user upsert_member
invited_again = refl

invite_user-tenant_guard_example :
    let accepted = (accept_invite policy plain jwt 9 (1 ∷ 2 ∷ []) today after_invite).1 in
    (tenant_guard (some 1) (some 7) after_invite ≡ err not_active)
    × (tenant_guard (some 1) (some 7) accepted ≡ err not_active)
invite_user-tenant_guard_example =
    invite_user-tenant_guard policy plain jwt 1 77 2 9 9 (1 ∷ 2 ∷ []) later today office
      after_invite invited_again
