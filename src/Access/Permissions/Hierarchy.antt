-- ===== src/Access/Permissions/Hierarchy.antt =====
-- What the roles may do relative to each other.
use infra_inventory.Prelude.{
  ℕ, ◌≡◌, refl, ◌≤◌, Bool, true, false, ◌&&◌, List, [], ◌∷◌, arith, eq_iff, not, ◌↔◌,
}
use infra_inventory.Access.Permissions.{
  Role, Permission, literal, admin_permissions, technician_permissions, viewer_permissions,
  get_role_permissions, includes, has_permission,
}

covers : List Permission → List Permission → Bool
covers [] ys = true
covers (q ∷ qs) ys = includes ys q && covers qs ys

includes-literal :
    (ys : List Permission) (p q : Permission)
    → literal q ≡ literal p
    → includes ys q ≡ includes ys p
unfolding includes
includes-literal [] p q h = refl
includes-literal (y ∷ ys) p q h = ground (
  arith,
  eq_iff (literal y) (literal p),
  eq_iff (literal y) (literal q),
  includes-literal ys p q h,
)

includes-covers :
    (xs ys : List Permission) (p : Permission)
    → covers xs ys ≡ true
    → includes xs p ≡ true
    → includes ys p ≡ true
unfolding covers includes
includes-covers [] ys p c h = absurd (ground arith)
includes-covers (x ∷ xs) ys p c h =
    ground (arith, eq_iff (literal x) (literal p), includes-literal ys p x, includes-covers xs ys p)

viewer-technician : covers viewer_permissions technician_permissions ≡ true
unfolding covers includes literal viewer_permissions technician_permissions
viewer-technician = refl

technician-admin : covers technician_permissions admin_permissions ≡ true
unfolding covers includes literal technician_permissions admin_permissions
technician-admin = refl

admin-holds : (p : Permission) → includes admin_permissions p ≡ true
unfolding includes literal admin_permissions
admin-holds Permission.machine_read = refl
admin-holds Permission.machine_create = refl
admin-holds Permission.machine_update = refl
admin-holds Permission.machine_delete = refl
admin-holds Permission.network_read = refl
admin-holds Permission.network_create = refl
admin-holds Permission.network_update = refl
admin-holds Permission.network_delete = refl
admin-holds Permission.port_read = refl
admin-holds Permission.port_create = refl
admin-holds Permission.port_update = refl
admin-holds Permission.port_delete = refl
admin-holds Permission.service_read = refl
admin-holds Permission.service_create = refl
admin-holds Permission.service_update = refl
admin-holds Permission.service_delete = refl
admin-holds Permission.location_read = refl
admin-holds Permission.location_create = refl
admin-holds Permission.location_update = refl
admin-holds Permission.location_delete = refl
admin-holds Permission.discovery_read = refl
admin-holds Permission.discovery_run = refl
admin-holds Permission.discovery_import = refl
admin-holds Permission.change_read = refl
admin-holds Permission.user_read = refl
admin-holds Permission.user_create = refl
admin-holds Permission.user_update = refl
admin-holds Permission.user_delete = refl
admin-holds Permission.settings_read = refl
admin-holds Permission.settings_update = refl
admin-holds Permission.metrics_read = refl
admin-holds Permission.metrics_config = refl
admin-holds Permission.monitoring_update = refl
admin-holds Permission.tag_read = refl
admin-holds Permission.tag_create = refl
admin-holds Permission.tag_update = refl
admin-holds Permission.tag_delete = refl
admin-holds Permission.ipam_read = refl
admin-holds Permission.ipam_manage = refl
admin-holds Permission.ipam_import = refl
admin-holds Permission.ipam_export = refl
admin-holds Permission.topology_read = refl
admin-holds Permission.topology_create = refl
admin-holds Permission.topology_update = refl
admin-holds Permission.topology_delete = refl
admin-holds Permission.topology_export = refl
admin-holds Permission.topology_import = refl
admin-holds Permission.asset_read = refl
admin-holds Permission.asset_create = refl
admin-holds Permission.asset_update = refl
admin-holds Permission.asset_delete = refl
admin-holds Permission.asset_export = refl
admin-holds Permission.asset_import = refl
admin-holds Permission.license_read = refl
admin-holds Permission.license_manage = refl
admin-holds Permission.license_reveal = refl
admin-holds Permission.supplier_manage = refl
admin-holds Permission.purchase_manage = refl
admin-holds Permission.warranty_manage = refl
admin-holds Permission.software_manage = refl
admin-holds Permission.ticket_read = refl
admin-holds Permission.ticket_create = refl
admin-holds Permission.ticket_update = refl
admin-holds Permission.ticket_delete = refl
admin-holds Permission.ticket_export = refl
admin-holds Permission.sla_read = refl
admin-holds Permission.sla_manage = refl
admin-holds Permission.maintenance_read = refl
admin-holds Permission.maintenance_manage = refl
admin-holds Permission.maintenance_export = refl
admin-holds Permission.task_read = refl
admin-holds Permission.task_manage = refl
admin-holds Permission.change_manage = refl
admin-holds Permission.change_approve = refl
admin-holds Permission.change_export = refl
admin-holds Permission.runbook_read = refl
admin-holds Permission.runbook_manage = refl
admin-holds Permission.operations_read = refl
admin-holds Permission.ai_chat = refl
admin-holds Permission.ai_analyze = refl
admin-holds Permission.ai_config = refl
admin-holds Permission.automation_read = refl
admin-holds Permission.automation_execute = refl
admin-holds Permission.automation_approve = refl
admin-holds Permission.automation_manage = refl
admin-holds Permission.agent_read = refl
admin-holds Permission.agent_manage = refl

-- The permissions to destroy, to administer and to approve.
abbrev pub reserved : List Permission
reserved =
    Permission.machine_delete ∷ Permission.network_delete ∷ Permission.port_delete
    ∷ Permission.service_delete ∷ Permission.location_delete ∷ Permission.user_read
    ∷ Permission.user_create ∷ Permission.user_update ∷ Permission.user_delete
    ∷ Permission.settings_update ∷ Permission.monitoring_update ∷ Permission.tag_delete
    ∷ Permission.ipam_import ∷ Permission.topology_delete ∷ Permission.asset_delete
    ∷ Permission.license_reveal ∷ Permission.ticket_delete ∷ Permission.sla_manage
    ∷ Permission.change_approve ∷ Permission.ai_config ∷ Permission.automation_approve
    ∷ Permission.automation_manage ∷ Permission.agent_manage ∷ []

disjoint : List Permission → List Permission → Bool
disjoint [] ys = true
disjoint (q ∷ qs) ys = not (includes ys q) && disjoint qs ys

includes-disjoint :
    (xs ys : List Permission) (p : Permission)
    → disjoint xs ys ≡ true
    → includes xs p ≡ true
    → includes ys p ≡ false
unfolding disjoint includes
includes-disjoint [] ys p c h = absurd (ground arith)
includes-disjoint (x ∷ xs) ys p c h =
    ground
      (arith, eq_iff (literal x) (literal p), includes-literal ys p x, includes-disjoint xs ys p)

reserved-technician : disjoint reserved technician_permissions ≡ true
unfolding disjoint includes literal technician_permissions
reserved-technician = refl

reserved-viewer : disjoint reserved viewer_permissions ≡ true
unfolding disjoint includes literal viewer_permissions
reserved-viewer = refl

abbrev pub rank : Role → ℕ
rank Role.viewer = 0
rank Role.technician = 1
rank Role.admin = 2

viewer-below :
    (p : Permission)
    → includes viewer_permissions p ≡ true
    → includes technician_permissions p ≡ true
viewer-below p = includes-covers viewer_permissions technician_permissions p viewer-technician

-- The roles form a hierarchy: a role of a higher rank (VIEWER, then TECHNICIAN, then ADMIN) holds
-- every permission that a role of a lower rank holds, and so does ADMIN.
pub has_permission-hierarchy :
    (r s : Role) (p : Permission)
    → rank r ≤ rank s
    → has_permission r p ≡ true
    → (has_permission s p ≡ true) × (has_permission Role.admin p ≡ true)
unfolding has_permission get_role_permissions
has_permission-hierarchy r Role.admin p h k = (admin-holds p, admin-holds p)
has_permission-hierarchy Role.viewer Role.viewer p h k = (k, admin-holds p)
has_permission-hierarchy Role.viewer Role.technician p h k = (viewer-below p k, admin-holds p)
has_permission-hierarchy Role.technician Role.technician p h k = (k, admin-holds p)
has_permission-hierarchy Role.technician Role.viewer p h k = absurd (omega arith)
has_permission-hierarchy Role.admin Role.technician p h k = absurd (omega arith)
has_permission-hierarchy Role.admin Role.viewer p h k = absurd (omega arith)

-- ADMIN holds every permission.
pub has_permission-admin : (p : Permission) → has_permission Role.admin p ≡ true
unfolding has_permission get_role_permissions
has_permission-admin p = admin-holds p

-- A role holds a reserved permission (every permission to delete, manage users or settings,
-- approve a change or an automation, manage automations, agents or SLAs, configure the AI, reveal
-- a licence key, import addresses, or update monitoring) exactly when it is ADMIN.
pub has_permission-reserved :
    (r : Role) (p : Permission)
    → includes reserved p ≡ true
    → (has_permission r p ≡ true) ↔ (r ≡ Role.admin)
unfolding has_permission get_role_permissions
has_permission-reserved Role.admin p h = (λ k. refl, λ k. admin-holds p)
has_permission-reserved Role.technician p h = (
  λ k. absurd (cc (includes-disjoint reserved technician_permissions p reserved-technician h)),
  λ k. absurd cc,
)
has_permission-reserved Role.viewer p h = (
  λ k. absurd (cc (includes-disjoint reserved viewer_permissions p reserved-viewer h)),
  λ k. absurd cc,
)
