-- ===== src/Access/Users/Invites.antt =====
-- Invited members.
use erp_ai_private.Prelude.{
  ℕ, ◌≡◌, refl, sym, ap, ◌∙◌, inl, inr, List, some, arith, find, find-update, Option-cases,
}
use erp_ai_private.Db.{
  Member, invited_member, Date, Db, ok, err, not_active, Action, ◌>>◌, write, pure, >>=-eq-ok,
}
use erp_ai_private.Access.{membership, tenant_guard}
use erp_ai_private.Access.Tokens.{Jwt, generate_refresh_token}
use erp_ai_private.Access.Users.{
  Policy, Crypto, is_member, upsert_member, find_or_create_user, invite_user, accept_invite,
}

-- the member of an invitation is found, and not active
upsert_member-found :
    (tenant user role : ℕ) (db : Db)
    → (m : Member) × (membership tenant user (upsert_member tenant user role db) ≡ some m)
      × (m.status ≡ invited_member)
unfolding upsert_member
upsert_member-found tenant user role db =
    elim (Option-cases (find (is_member tenant user) db.members)) [
      | inl new ↦ (
        record { tenant = tenant; user = user; role = some role; status = invited_member },
        ground arith,
        refl,
      )
      | inr (m, found) ↦ (
        record m { role = some role; status = invited_member },
        ground (
          arith,
          find-update (is_member tenant user)
              (λ x. record x { role = some role; status = invited_member }) db.members (λ x. refl),
        ),
        refl,
      )
    ]

accept_invite-members :
    (P : Policy) (C : Crypto) (J : Jwt) (token : ℕ) (password : List ℕ) (now : Date) (db : Db)
    → (accept_invite P C J token password now db).1.members ≡ db.members
unfolding accept_invite generate_refresh_token
accept_invite-members P C J token password now db = ground arith

not_yet_active :
    (tenant user : ℕ) (db : Db)
    → (m : Member) × (membership tenant user db ≡ some m) × (m.status ≡ invited_member)
    → tenant_guard (some tenant) (some user) db ≡ err not_active
unfolding tenant_guard
not_yet_active tenant user db (m, found, waiting) = ground (arith, found, waiting)

-- Whoever was invited to a tenant is refused by the tenant's guard, also one who was an active member
-- before, and also after any invitation was accepted.
pub invite_user-tenant_guard :
    (P : Policy) (C : Crypto) (J : Jwt) (tenant email role token other : ℕ) (password : List ℕ)
    (expires now : Date) (db db' : Db) {user : ℕ}
    → invite_user P C J tenant email role token expires db ≡ (ok user, db')
    → let accepted = (accept_invite P C J other password now db').1 in
      (tenant_guard (some tenant) (some user) db' ≡ err not_active)
      × (tenant_guard (some tenant) (some user) accepted ≡ err not_active)
unfolding invite_user
invite_user-tenant_guard P C J tenant email role token other password expires now db db' {user = u}
      h =
    let add : ℕ → Action ℕ = λ x. write (upsert_member tenant x role) >> pure x in
    let (x, mid, found, more) =
      >>=-eq-ok (find_or_create_user P C J email token expires) add db h in
    let same : x ≡ u = ground arith in
    let last : db' ≡ upsert_member tenant u role mid =
      sym (ap (λ r. r.1) more) ∙ ap (λ y. upsert_member tenant y role mid) same in
    let member = upsert_member-found tenant u role mid in
    let same_members = accept_invite-members P C J other password now db' in
    (
      not_yet_active tenant u db' (rw last member),
      not_yet_active tenant u (accept_invite P C J other password now db').1
          (rw (same_members, last) member),
    )
