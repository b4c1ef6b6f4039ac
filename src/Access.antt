-- ===== src/Access.antt =====
-- Who may do what: the guards in front of the controllers
-- (apps/api/src/common/guards/tenant.guard.ts and permissions.guard.ts), and the creation of
-- tenants, roles and permissions (apps/api/src/modules/tenants, roles and permissions).
pub mod Rows
pub mod Tenants
pub mod Users
pub mod Redis
pub mod Tokens
use erp_ai_private.Prelude.{
  ℕ, ◌+◌, ◌==◌, ltb, List, [], ◌∷◌, ◌++◌, Option, none, some, Bool, true, false, ◌&&◌, not, length,
  find, select, count, map, if◌then◌else◌,
}
use erp_ai_private.Db.{
  PermissionKey, same_key, all_permission_keys, RoleName, owner_role, admin_role, accountant_role,
  viewer_role, role_permissions_of, includes, MemberStatus, active_member, invited_member,
  disabled_member, Member, Role, Permission, RolePermission, Db, Result, ok, err, Action, ◌>>=◌,
  ◌>>◌, pure, read, check, guard, write, transaction, rollback, no_tenant, not_active, no_role,
  insufficient_permissions, unauthenticated, already_seeded,
}
use erp_ai_private.Accounts.{seed_sme_template}

abbrev pub is_active_member : MemberStatus → Bool
is_active_member active_member = true
is_active_member _ = false

-- the row of `tenantUser`, by its unique index
abbrev pub membership : ℕ → ℕ → Db → Option Member
membership tenant user db = find (λ m. m.tenant == tenant && m.user == user) db.members

-- `TenantGuard`: the tenant of the header, if any, and the user of the request
unfoldable pub tenant_guard : Option ℕ → Option ℕ → Db → Result (Unit {0})
tenant_guard none user db = ok tt
tenant_guard (some t) none db = err unauthenticated
tenant_guard (some t) (some u) db = elim (membership t u db) [
  | none ↦ err not_active
  | some m ↦ if is_active_member m.status then ok tt else err not_active
]

-- the keys of the permissions that these links lead to
unfoldable pub linked_keys : List RolePermission → List Permission → List PermissionKey
linked_keys [] ps = []
linked_keys (l ∷ ls) ps =
    let rest = linked_keys ls ps in
    elim (find (λ p. p.id == l.permission) ps) [ none ↦ rest | some p ↦ p.key ∷ rest ]

-- `userPermissions`
abbrev pub role_keys : ℕ → Db → List PermissionKey
role_keys role db = linked_keys (select (λ l. l.role == role) db.role_permissions) db.permissions

-- `every`
abbrev pub every_included : List PermissionKey → List PermissionKey → Bool
every_included [] held = true
every_included (k ∷ ks) held = includes held k && every_included ks held

-- `PermissionsGuard`: the permissions that the handler requires, the user and the tenant
unfoldable pub permissions_guard : List PermissionKey → Option ℕ → Option ℕ → Db → Result (Unit {0})
permissions_guard [] user tenant db = ok tt
permissions_guard (k ∷ ks) none tenant db = err no_tenant
permissions_guard (k ∷ ks) (some u) none db = err no_tenant
permissions_guard (k ∷ ks) (some u) (some t) db = elim (membership t u db) [
  | none ↦ err not_active
  | some m ↦ if not (is_active_member m.status) then err not_active else elim m.role [
    | none ↦ err no_role
    | some r ↦
        if every_included (k ∷ ks) (role_keys r db) then ok tt else err insufficient_permissions
  ]
]

unfoldable pub permission_rows : ℕ → ℕ → List PermissionKey → List Permission
permission_rows tenant id [] = []
permission_rows tenant id (k ∷ ks) =
    record { id = id; tenant = tenant; key = k } ∷ permission_rows tenant (id + 1) ks

-- The code of the Saudi riyal. Currency codes are numbers.
abbrev pub sar : ℕ
sar = 0

-- `tenant.create`
abbrev pub insert_tenant : Action ℕ
insert_tenant db = (
  ok db.next_id,
  record db {
    next_id = db.next_id + 1;
    tenants = record { id = db.next_id; currency = sar } ∷ db.tenants;
  },
)

-- `permission.createMany`
abbrev pub insert_permissions : ℕ → Action (Unit {0})
insert_permissions tenant = write (λ db. record db {
  next_id = db.next_id + length all_permission_keys;
  permissions = permission_rows tenant db.next_id all_permission_keys ++ db.permissions;
})

abbrev pub tenant_permissions : ℕ → Db → List Permission
tenant_permissions tenant db = select (λ p. p.tenant == tenant) db.permissions

-- `role.create`
abbrev pub insert_role : ℕ → RoleName → Action ℕ
insert_role tenant name db = (
  ok db.next_id,
  record db {
    next_id = db.next_id + 1;
    roles = record { id = db.next_id; tenant = tenant; name = name } ∷ db.roles;
  },
)

-- `rolePermission.createMany`
abbrev pub link_permissions : ℕ → List Permission → Action (Unit {0})
link_permissions role ps = write (λ db. record db {
  role_permissions = map (λ p. record { role = role; permission = p.id }) ps ++ db.role_permissions;
})

-- one of the roles after the owner's, with those of the tenant's permissions that it has
abbrev pub create_role : ℕ → List Permission → RoleName → Action (Unit {0})
create_role tenant ps name = do
  role ← insert_role tenant name
  link_permissions role (select (λ p. includes (role_permissions_of name) p.key) ps)

abbrev pub insert_member : Member → Action (Unit {0})
insert_member m = write (λ db. record db { members = m ∷ db.members })

-- The steps of `createTenant` before the accounts are seeded. The tenant is new, so none of its rows
-- can meet another in a unique index.
unfoldable pub set_up_tenant : ℕ → Action ℕ
set_up_tenant user = do
  tenant ← insert_tenant
  insert_permissions tenant
  owner ← insert_role tenant owner_role
  ps ← read (λ db. ok (tenant_permissions tenant db))
  link_permissions owner ps
  create_role tenant ps admin_role
  create_role tenant ps accountant_role
  create_role tenant ps viewer_role
  insert_member (record { tenant = tenant; user = user; role = some owner; status = active_member })
  pure tenant

abbrev pub execute_create_tenant : ℕ → Action ℕ
execute_create_tenant user = do tenant ← set_up_tenant user; seed_sme_template tenant; pure tenant

-- `TenantsService.createTenant`
unfoldable pub create_tenant : ℕ → Action ℕ
create_tenant user = transaction (execute_create_tenant user)

-- `PermissionsService.seedDefaultPermissionsForTenant`
unfoldable pub seed_default_permissions : ℕ → Action (Unit {0})
seed_default_permissions tenant = do
  read (λ db. guard (count (λ p. p.tenant == tenant) db.permissions == 0) already_seeded)
  insert_permissions tenant
