-- ===== src/Access/Tenants.antt =====
-- What the creator of a tenant may do.
use erp_ai_private.Prelude.{
  ℕ, ◌+◌, ◌==◌, ◌≡◌, refl, ap, ◌∙◌, List, [], ◌∷◌, ◌++◌, some, true, arith, select, select-append,
  length,
}
use erp_ai_private.Db.{
  PermissionKey, all_permission_keys, includes, Permission, RoleName, Member, active_member, Db,
  Action, ◌>>=◌, ◌>>◌, pure, ok, role_permissions_of, admin_role, accountant_role, viewer_role,
}
use erp_ai_private.Accounts.{seed_sme_template}
use erp_ai_private.Accounts.Seeding.{seed_sme_template_total, seed_sme_template-same}
use erp_ai_private.Access.{
  membership, linked_keys, role_keys, permissions_guard, tenant_guard, permission_rows,
  set_up_tenant, execute_create_tenant, create_tenant,
}
use erp_ai_private.Access.Rows.{
  links, keys_of-permission_rows, permission_rows-AreFound, linked_keys-links, linked_keys-append,
  links-append, select-permission_rows, select-links, includes-append, every_included_all,
  all_permission_keys-includes, holds-behind, holds-front,
}

-- an action and another with its result, both of which return
then_returns :
    (m : Action ℕ) (step : ℕ → Action (Unit {0})) (db : Db) {n : ℕ}
    → (m db).0 ≡ ok n
    → (step n (m db).1).0 ≡ ok tt
    → (m >>= λ t. step t >> pure t) db ≡ (ok n, (step n (m db).1).1)
then_returns m step db {n = n} h k = ground arith

-- An active member whose role holds every permission passes every guard.
passes_every :
    (required : List PermissionKey) (tenant user role : ℕ) (m : Member) (db : Db)
    → membership tenant user db ≡ some m
    → m.status ≡ active_member
    → m.role ≡ some role
    → ((k : PermissionKey) → includes (role_keys role db) k ≡ true)
    → permissions_guard required (some user) (some tenant) db ≡ ok tt
unfolding permissions_guard
passes_every [] tenant user role m db f s r h = refl
passes_every (k ∷ ks) tenant user role m db f s r h =
    ground (arith, f, s, r, every_included_all (k ∷ ks) (role_keys role db) h)

module _ (user : ℕ) (db : Db) where
  abbrev new_rows : List Permission
  new_rows = permission_rows db.next_id (db.next_id + 1) all_permission_keys

  -- what `findMany` returns: the new permissions, before any that had the tenant's id already
  abbrev seen : List Permission
  seen = select (λ p. p.tenant == db.next_id) (new_rows ++ db.permissions)

  abbrev owner : ℕ
  owner = db.next_id + 1 + length all_permission_keys

  abbrev part : RoleName → List Permission
  part name = select (λ p. includes (role_permissions_of name) p.key) seen

  -- the rows that the first steps of `createTenant` leave
  set_up_tenant-rows :
      let made = set_up_tenant user db in
      (made.0 ≡ ok db.next_id)
      × (membership db.next_id user made.1
          ≡ some (record {
            tenant = db.next_id;
            user = user;
            role = some owner;
            status = active_member;
          }))
      × (made.1.permissions ≡ new_rows ++ db.permissions)
      × (made.1.role_permissions
          ≡ links (owner + 1 + 1 + 1) (part viewer_role)
            ++ (links (owner + 1 + 1) (part accountant_role)
                ++ (links (owner + 1) (part admin_role)
                    ++ (links owner seen ++ db.role_permissions))))
  unfolding set_up_tenant
  set_up_tenant-rows = (refl, ground arith, refl, refl)

  seen-append : seen ≡ new_rows ++ select (λ p. p.tenant == db.next_id) db.permissions
  seen-append =
      select-append (λ p. p.tenant == db.next_id) new_rows db.permissions
      ∙ ap (λ r. r ++ select (λ p. p.tenant == db.next_id) db.permissions)
          (select-permission_rows db.next_id (db.next_id + 1) all_permission_keys)

  -- the keys of the new permissions are among those that the owner's links lead to
  owner-includes :
      (k : PermissionKey)
      → includes (linked_keys (links owner seen) (new_rows ++ db.permissions)) k ≡ true
  owner-includes k =
      let old = select (λ p. p.tenant == db.next_id) db.permissions in
      let all_rows = new_rows ++ db.permissions in
      let split : links owner seen ≡ links owner new_rows ++ links owner old =
        ap (links owner) seen-append ∙ links-append owner new_rows old in
      let made : linked_keys (links owner new_rows) all_rows ≡ all_permission_keys =
        linked_keys-links owner new_rows all_rows
          (permission_rows-AreFound db.next_id (db.next_id + 1) all_permission_keys db.permissions)
        ∙ keys_of-permission_rows db.next_id (db.next_id + 1) all_permission_keys in
      rw split (
        rw (linked_keys-append (links owner new_rows) (links owner old) all_rows) (
          rw made (
            rw (includes-append all_permission_keys (linked_keys (links owner old) all_rows) k)
              (rw (all_permission_keys-includes k) refl))))

  owner_role-includes :
      (k : PermissionKey) → includes (role_keys owner (set_up_tenant user db).1) k ≡ true
  owner_role-includes k =
      let (returned, member, perms, linked) = set_up_tenant-rows in
      let qs = new_rows ++ db.permissions in
      let viewers = links (owner + 1 + 1 + 1) (part viewer_role) in
      let accountants = links (owner + 1 + 1) (part accountant_role) in
      let admins = links (owner + 1) (part admin_role) in
      let owners = links owner seen in
      let old = db.role_permissions in
      let own : select (λ l. l.role == owner) owners ≡ owners =
        select-links owner owner seen ∙ ground arith in
      rw (perms, linked)
        (holds-behind owner viewers (accountants ++ (admins ++ (owners ++ old))) qs k (
          holds-behind owner accountants (admins ++ (owners ++ old)) qs k (
            holds-behind owner admins (owners ++ old) qs k
              (holds-front owner owners old qs k (rw own (owner-includes k))))))

  -- The creation of a tenant always returns, and its creator passes both guards of the tenant, for
  -- every list of permissions that a handler may require.
  pub create_tenant-permissions_guard :
      (required : List PermissionKey)
      → let made = create_tenant user db in
        (made.0 ≡ ok db.next_id)
        × (tenant_guard (some db.next_id) (some user) made.1 ≡ ok tt)
        × (permissions_guard required (some user) (some db.next_id) made.1 ≡ ok tt)
  unfolding create_tenant tenant_guard
  create_tenant-permissions_guard required =
      let mid = (set_up_tenant user db).1 in
      let last = (seed_sme_template db.next_id mid).1 in
      let (returned, member, perms, linked) = set_up_tenant-rows in
      let seeded = seed_sme_template_total db.next_id mid in
      let ran : execute_create_tenant user db ≡ (ok db.next_id, last) =
        then_returns (set_up_tenant user) seed_sme_template db returned seeded in
      let m : Member = record {
        tenant = db.next_id;
        user = user;
        role = some owner;
        status = active_member;
      } in
      let joined : membership db.next_id user last ≡ some m =
        rw (seed_sme_template-same (λ d. d.members) (λ a d. refl) db.next_id mid) member in
      let held : (k : PermissionKey) → includes (role_keys owner last) k ≡ true = λ k.
        rw
          (
            seed_sme_template-same (λ d. d.permissions) (λ a d. refl) db.next_id mid,
            seed_sme_template-same (λ d. d.role_permissions) (λ a d. refl) db.next_id mid,
          )
          (owner_role-includes k) in
      let guarded = passes_every required db.next_id user owner m last joined refl refl held in
      rw ran (refl, ground (arith, joined), guarded)
