-- ===== src/Db/Keys.antt =====
-- The permission catalogue and the default roles
-- (packages/shared/src/constants/permissions.constants.ts).
use erp_ai_private.Prelude.{ℕ, ◌==◌, List, [], ◌∷◌, Bool, false, ◌||◌}

pub data PermissionKey : Type 0 where
  auth_users_read auth_users_manage auth_roles_read auth_roles_manage : PermissionKey
  auth_permissions_read auth_permissions_manage accounting_coa_read accounting_coa_write :
      PermissionKey
  accounting_journal_read accounting_journal_write accounting_journal_post
        accounting_journal_reverse :
      PermissionKey
  accounting_period_read accounting_period_manage accounting_reports_read
        accounting_reports_export :
      PermissionKey
  accounting_budget_read accounting_budget_manage business_contacts_read business_contacts_manage :
      PermissionKey
  business_invoices_read business_invoices_manage business_invoices_approve business_payments_read :
      PermissionKey
  business_payments_manage business_payments_approve compliance_vat_read compliance_vat_manage :
      PermissionKey
  compliance_zatca_read compliance_zatca_manage compliance_zakat_read compliance_zakat_manage :
      PermissionKey
  compliance_wht_read compliance_wht_manage compliance_gosi_read compliance_gosi_manage :
      PermissionKey
  compliance_wps_read compliance_wps_manage admin_tenant_read admin_tenant_manage : PermissionKey
  admin_audit_read admin_settings_read admin_settings_manage admin_branches_read : PermissionKey
  admin_branches_manage admin_cost_centers_read admin_cost_centers_manage : PermissionKey

unfoldable pub key_code : PermissionKey → ℕ
key_code auth_users_read = 0
key_code auth_users_manage = 1
key_code auth_roles_read = 2
key_code auth_roles_manage = 3
key_code auth_permissions_read = 4
key_code auth_permissions_manage = 5
key_code accounting_coa_read = 6
key_code accounting_coa_write = 7
key_code accounting_journal_read = 8
key_code accounting_journal_write = 9
key_code accounting_journal_post = 10
key_code accounting_journal_reverse = 11
key_code accounting_period_read = 12
key_code accounting_period_manage = 13
key_code accounting_reports_read = 14
key_code accounting_reports_export = 15
key_code accounting_budget_read = 16
key_code accounting_budget_manage = 17
key_code business_contacts_read = 18
key_code business_contacts_manage = 19
key_code business_invoices_read = 20
key_code business_invoices_manage = 21
key_code business_invoices_approve = 22
key_code business_payments_read = 23
key_code business_payments_manage = 24
key_code business_payments_approve = 25
key_code compliance_vat_read = 26
key_code compliance_vat_manage = 27
key_code compliance_zatca_read = 28
key_code compliance_zatca_manage = 29
key_code compliance_zakat_read = 30
key_code compliance_zakat_manage = 31
key_code compliance_wht_read = 32
key_code compliance_wht_manage = 33
key_code compliance_gosi_read = 34
key_code compliance_gosi_manage = 35
key_code compliance_wps_read = 36
key_code compliance_wps_manage = 37
key_code admin_tenant_read = 38
key_code admin_tenant_manage = 39
key_code admin_audit_read = 40
key_code admin_settings_read = 41
key_code admin_settings_manage = 42
key_code admin_branches_read = 43
key_code admin_branches_manage = 44
key_code admin_cost_centers_read = 45
key_code admin_cost_centers_manage = 46

abbrev pub same_key : PermissionKey → PermissionKey → Bool
same_key a b = key_code a == key_code b

-- `ALL_PERMISSION_KEYS`
unfoldable pub all_permission_keys : List PermissionKey
all_permission_keys =
    auth_users_read ∷ auth_users_manage ∷ auth_roles_read ∷ auth_roles_manage
    ∷ auth_permissions_read ∷ auth_permissions_manage ∷ accounting_coa_read ∷ accounting_coa_write
    ∷ accounting_journal_read ∷ accounting_journal_write ∷ accounting_journal_post
    ∷ accounting_journal_reverse ∷ accounting_period_read ∷ accounting_period_manage
    ∷ accounting_reports_read ∷ accounting_reports_export ∷ accounting_budget_read
    ∷ accounting_budget_manage ∷ business_contacts_read ∷ business_contacts_manage
    ∷ business_invoices_read ∷ business_invoices_manage ∷ business_invoices_approve
    ∷ business_payments_read ∷ business_payments_manage ∷ business_payments_approve
    ∷ compliance_vat_read ∷ compliance_vat_manage ∷ compliance_zatca_read ∷ compliance_zatca_manage
    ∷ compliance_zakat_read ∷ compliance_zakat_manage ∷ compliance_wht_read ∷ compliance_wht_manage
    ∷ compliance_gosi_read ∷ compliance_gosi_manage ∷ compliance_wps_read ∷ compliance_wps_manage
    ∷ admin_tenant_read ∷ admin_tenant_manage ∷ admin_audit_read ∷ admin_settings_read
    ∷ admin_settings_manage ∷ admin_branches_read ∷ admin_branches_manage ∷ admin_cost_centers_read
    ∷ admin_cost_centers_manage ∷ []

pub data RoleName : Type 0 where
  owner_role admin_role accountant_role viewer_role : RoleName

-- the permissions of `DEFAULT_ROLES`
unfoldable pub role_permissions_of : RoleName → List PermissionKey
role_permissions_of owner_role = all_permission_keys
role_permissions_of admin_role =
    auth_users_read ∷ auth_users_manage ∷ auth_roles_read ∷ auth_roles_manage
    ∷ auth_permissions_read ∷ accounting_coa_read ∷ accounting_coa_write ∷ accounting_journal_read
    ∷ accounting_journal_write ∷ accounting_journal_post ∷ accounting_period_read
    ∷ accounting_period_manage ∷ accounting_reports_read ∷ accounting_reports_export
    ∷ accounting_budget_read ∷ accounting_budget_manage ∷ business_contacts_read
    ∷ business_contacts_manage ∷ business_invoices_read ∷ business_invoices_manage
    ∷ business_invoices_approve ∷ business_payments_read ∷ business_payments_manage
    ∷ business_payments_approve ∷ compliance_vat_read ∷ compliance_vat_manage
    ∷ compliance_zatca_read ∷ compliance_zatca_manage ∷ compliance_zakat_read
    ∷ compliance_zakat_manage ∷ compliance_wht_read ∷ compliance_wht_manage ∷ compliance_gosi_read
    ∷ compliance_gosi_manage ∷ compliance_wps_read ∷ compliance_wps_manage ∷ admin_tenant_read
    ∷ admin_audit_read ∷ admin_settings_read ∷ admin_settings_manage ∷ admin_branches_read
    ∷ admin_branches_manage ∷ admin_cost_centers_read ∷ admin_cost_centers_manage ∷ []
role_permissions_of accountant_role =
    accounting_coa_read ∷ accounting_coa_write ∷ accounting_journal_read ∷ accounting_journal_write
    ∷ accounting_journal_post ∷ accounting_journal_reverse ∷ accounting_period_read
    ∷ accounting_period_manage ∷ accounting_reports_read ∷ accounting_reports_export
    ∷ accounting_budget_read ∷ accounting_budget_manage ∷ business_contacts_read
    ∷ business_contacts_manage ∷ business_invoices_read ∷ business_invoices_manage
    ∷ business_invoices_approve ∷ business_payments_read ∷ business_payments_manage
    ∷ business_payments_approve ∷ compliance_vat_read ∷ compliance_vat_manage
    ∷ compliance_zatca_read ∷ compliance_zatca_manage ∷ compliance_zakat_read
    ∷ compliance_zakat_manage ∷ compliance_wht_read ∷ compliance_wht_manage ∷ compliance_gosi_read
    ∷ compliance_gosi_manage ∷ compliance_wps_read ∷ compliance_wps_manage ∷ admin_branches_read
    ∷ admin_cost_centers_read ∷ []
role_permissions_of viewer_role =
    accounting_coa_read ∷ accounting_journal_read ∷ accounting_period_read ∷ accounting_reports_read
    ∷ accounting_budget_read ∷ business_contacts_read ∷ business_invoices_read
    ∷ business_payments_read ∷ compliance_vat_read ∷ compliance_zatca_read ∷ compliance_zakat_read
    ∷ compliance_wht_read ∷ admin_branches_read ∷ admin_cost_centers_read ∷ []

-- `includes`
abbrev pub includes : List PermissionKey → PermissionKey → Bool
includes [] k = false
includes (x ∷ xs) k = same_key x k || includes xs k
