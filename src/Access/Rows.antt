-- ===== src/Access/Rows.antt =====
-- The permissions that a role's links lead to, right after they were made.
use erp_ai_private.Prelude.{
  ℕ, ◌+◌, ◌≤◌, ◌==◌, ◌≡◌, refl, ap, List, [], ◌∷◌, ◌++◌, some, Bool, true, false, ◌||◌, arith, All,
  find, select, select-append, map, if◌then◌else◌,
}
use erp_ai_private.Db.{
  PermissionKey, key_code, all_permission_keys, includes, Permission, RolePermission,
  auth_users_read, auth_users_manage, auth_roles_read, auth_roles_manage, auth_permissions_read,
  auth_permissions_manage, accounting_coa_read, accounting_coa_write, accounting_journal_read,
  accounting_journal_write, accounting_journal_post, accounting_journal_reverse,
  accounting_period_read, accounting_period_manage, accounting_reports_read,
  accounting_reports_export, accounting_budget_read, accounting_budget_manage,
  business_contacts_read, business_contacts_manage, business_invoices_read,
  business_invoices_manage, business_invoices_approve, business_payments_read,
  business_payments_manage, business_payments_approve, compliance_vat_read, compliance_vat_manage,
  compliance_zatca_read, compliance_zatca_manage, compliance_zakat_read, compliance_zakat_manage,
  compliance_wht_read, compliance_wht_manage, compliance_gosi_read, compliance_gosi_manage,
  compliance_wps_read, compliance_wps_manage, admin_tenant_read, admin_tenant_manage,
  admin_audit_read, admin_settings_read, admin_settings_manage, admin_branches_read,
  admin_branches_manage, admin_cost_centers_read, admin_cost_centers_manage,
}
use erp_ai_private.Access.{linked_keys, every_included, permission_rows}

-- the links of a role to permissions
abbrev pub links : ℕ → List Permission → List RolePermission
links role ps = map (λ p. record { role = role; permission = p.id }) ps

abbrev pub keys_of : List Permission → List PermissionKey
keys_of ps = map (λ p. p.key) ps

pub keys_of-permission_rows :
    (tenant id : ℕ) (ks : List PermissionKey) → keys_of (permission_rows tenant id ks) ≡ ks
unfolding permission_rows
keys_of-permission_rows tenant id [] = refl
keys_of-permission_rows tenant id (k ∷ ks) =
    ap (λ r. k ∷ r) (keys_of-permission_rows tenant (id + 1) ks)

-- each permission is the one that its id leads to
abbrev pub AreFound : List Permission → List Permission → Type 0
AreFound qs ps = All (λ p. find (λ q. q.id == p.id) qs ≡ some p) ps

permission_rows-from :
    (tenant id low : ℕ) (ks : List PermissionKey)
    → low ≤ id
    → All (λ p. low ≤ p.id) (permission_rows tenant id ks)
unfolding permission_rows
permission_rows-from tenant id low [] h = tt
permission_rows-from tenant id low (k ∷ ks) h =
    (h, permission_rows-from tenant (id + 1) low ks (omega arith))

found_behind :
    (q : Permission) (qs ps : List Permission)
    → All (λ p. q.id + 1 ≤ p.id) ps
    → AreFound qs ps
    → AreFound (q ∷ qs) ps
found_behind q qs [] h f = tt
found_behind q qs (p ∷ ps) h f =
    let other : q.id == p.id ≡ false = ground (arith, h.0) in
    (rw other f.0, found_behind q qs ps h.1 f.1)

pub permission_rows-AreFound :
    (tenant id : ℕ) (ks : List PermissionKey) (old : List Permission)
    → AreFound (permission_rows tenant id ks ++ old) (permission_rows tenant id ks)
unfolding permission_rows
permission_rows-AreFound tenant id [] old = tt
permission_rows-AreFound tenant id (k ∷ ks) old = (
  ground arith,
  found_behind (record { id = id; tenant = tenant; key = k })
      (permission_rows tenant (id + 1) ks ++ old) (permission_rows tenant (id + 1) ks)
      (permission_rows-from tenant (id + 1) (id + 1) ks (omega arith))
      (permission_rows-AreFound tenant (id + 1) ks old),
)

pub linked_keys-links :
    (role : ℕ) (ps qs : List Permission)
    → AreFound qs ps
    → linked_keys (links role ps) qs ≡ keys_of ps
unfolding linked_keys
linked_keys-links role [] qs h = refl
linked_keys-links role (p ∷ ps) qs h = ground (arith, h.0, linked_keys-links role ps qs h.1)

pub linked_keys-append :
    (xs ys : List RolePermission) (qs : List Permission)
    → linked_keys (xs ++ ys) qs ≡ linked_keys xs qs ++ linked_keys ys qs
unfolding linked_keys
linked_keys-append [] ys qs = refl
linked_keys-append (x ∷ xs) ys qs = ground (arith, linked_keys-append xs ys qs)

pub links-append :
    (role : ℕ) (xs ys : List Permission) → links role (xs ++ ys) ≡ links role xs ++ links role ys
links-append role [] ys = refl
links-append role (x ∷ xs) ys =
    ap (λ r. record { role = role; permission = x.id } ∷ r) (links-append role xs ys)

pub select-permission_rows :
    (tenant id : ℕ) (ks : List PermissionKey)
    → select (λ p. p.tenant == tenant) (permission_rows tenant id ks) ≡ permission_rows tenant id ks
unfolding permission_rows
select-permission_rows tenant id [] = refl
select-permission_rows tenant id (k ∷ ks) =
    ground (arith, select-permission_rows tenant (id + 1) ks)

pub select-links :
    (role r : ℕ) (ps : List Permission)
    → select (λ l. l.role == r) (links role ps) ≡ (if role == r then links role ps else [])
select-links role r [] = ground arith
select-links role r (p ∷ ps) = ground (arith, select-links role r ps)

pub includes-append :
    (xs ys : List PermissionKey) (k : PermissionKey)
    → includes (xs ++ ys) k ≡ includes xs k || includes ys k
includes-append [] ys k = refl
includes-append (x ∷ xs) ys k = ground (arith, includes-append xs ys k)

-- a key that some links of a role lead to, with other links before or behind them
abbrev holds : ℕ → List RolePermission → List Permission → PermissionKey → Bool
holds role ls qs k = includes (linked_keys (select (λ l. l.role == role) ls) qs) k

pub holds-behind :
    (role : ℕ) (xs ys : List RolePermission) (qs : List Permission) (k : PermissionKey)
    → holds role ys qs k ≡ true
    → holds role (xs ++ ys) qs k ≡ true
holds-behind role xs ys qs k h =
    let f : RolePermission → Bool = λ l. l.role == role in
    rw
      (
        select-append f xs ys,
        linked_keys-append (select f xs) (select f ys) qs,
        includes-append (linked_keys (select f xs) qs) (linked_keys (select f ys) qs) k,
      )
      (ground (arith, h))

pub holds-front :
    (role : ℕ) (xs ys : List RolePermission) (qs : List Permission) (k : PermissionKey)
    → holds role xs qs k ≡ true
    → holds role (xs ++ ys) qs k ≡ true
holds-front role xs ys qs k h =
    let f : RolePermission → Bool = λ l. l.role == role in
    rw
      (
        select-append f xs ys,
        linked_keys-append (select f xs) (select f ys) qs,
        includes-append (linked_keys (select f xs) qs) (linked_keys (select f ys) qs) k,
      )
      (ground (arith, h))

pub every_included_all :
    (ks held : List PermissionKey)
    → ((k : PermissionKey) → includes held k ≡ true)
    → every_included ks held ≡ true
every_included_all [] held h = refl
every_included_all (k ∷ ks) held h = rw (h k) (every_included_all ks held h)

pub all_permission_keys-includes : (k : PermissionKey) → includes all_permission_keys k ≡ true
unfolding all_permission_keys key_code
all_permission_keys-includes auth_users_read = refl
all_permission_keys-includes auth_users_manage = refl
all_permission_keys-includes auth_roles_read = refl
all_permission_keys-includes auth_roles_manage = refl
all_permission_keys-includes auth_permissions_read = refl
all_permission_keys-includes auth_permissions_manage = refl
all_permission_keys-includes accounting_coa_read = refl
all_permission_keys-includes accounting_coa_write = refl
all_permission_keys-includes accounting_journal_read = refl
all_permission_keys-includes accounting_journal_write = refl
all_permission_keys-includes accounting_journal_post = refl
all_permission_keys-includes accounting_journal_reverse = refl
all_permission_keys-includes accounting_period_read = refl
all_permission_keys-includes accounting_period_manage = refl
all_permission_keys-includes accounting_reports_read = refl
all_permission_keys-includes accounting_reports_export = refl
all_permission_keys-includes accounting_budget_read = refl
all_permission_keys-includes accounting_budget_manage = refl
all_permission_keys-includes business_contacts_read = refl
all_permission_keys-includes business_contacts_manage = refl
all_permission_keys-includes business_invoices_read = refl
all_permission_keys-includes business_invoices_manage = refl
all_permission_keys-includes business_invoices_approve = refl
all_permission_keys-includes business_payments_read = refl
all_permission_keys-includes business_payments_manage = refl
all_permission_keys-includes business_payments_approve = refl
all_permission_keys-includes compliance_vat_read = refl
all_permission_keys-includes compliance_vat_manage = refl
all_permission_keys-includes compliance_zatca_read = refl
all_permission_keys-includes compliance_zatca_manage = refl
all_permission_keys-includes compliance_zakat_read = refl
all_permission_keys-includes compliance_zakat_manage = refl
all_permission_keys-includes compliance_wht_read = refl
all_permission_keys-includes compliance_wht_manage = refl
all_permission_keys-includes compliance_gosi_read = refl
all_permission_keys-includes compliance_gosi_manage = refl
all_permission_keys-includes compliance_wps_read = refl
all_permission_keys-includes compliance_wps_manage = refl
all_permission_keys-includes admin_tenant_read = refl
all_permission_keys-includes admin_tenant_manage = refl
all_permission_keys-includes admin_audit_read = refl
all_permission_keys-includes admin_settings_read = refl
all_permission_keys-includes admin_settings_manage = refl
all_permission_keys-includes admin_branches_read = refl
all_permission_keys-includes admin_branches_manage = refl
all_permission_keys-includes admin_cost_centers_read = refl
all_permission_keys-includes admin_cost_centers_manage = refl
