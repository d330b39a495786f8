-- ===== src/Access/Permissions.antt =====
-- The roles and what each may do: backend/src/utils/permissions.ts, with the enum `Role` of
-- backend/prisma/schema.prisma.
pub mod Hierarchy
use infra_inventory.Prelude.{Bool, false, ◌||◌, List, [], ◌∷◌, String, str_eq}

pub data Role : Type 0 where
  admin technician viewer : Role

pub data Permission : Type 0 where
  machine_read machine_create machine_update machine_delete network_read : Permission
  network_create network_update network_delete port_read port_create : Permission
  port_update port_delete service_read service_create service_update : Permission
  service_delete location_read location_create location_update location_delete : Permission
  discovery_read discovery_run discovery_import change_read user_read : Permission
  user_create user_update user_delete settings_read settings_update : Permission
  metrics_read metrics_config monitoring_update tag_read tag_create tag_update : Permission
  tag_delete ipam_read ipam_manage ipam_import ipam_export topology_read : Permission
  topology_create topology_update topology_delete topology_export : Permission
  topology_import asset_read asset_create asset_update asset_delete : Permission
  asset_export asset_import license_read license_manage license_reveal : Permission
  supplier_manage purchase_manage warranty_manage software_manage ticket_read : Permission
  ticket_create ticket_update ticket_delete ticket_export sla_read sla_manage : Permission
  maintenance_read maintenance_manage maintenance_export task_read task_manage : Permission
  change_manage change_approve change_export runbook_read runbook_manage : Permission
  operations_read ai_chat ai_analyze ai_config automation_read : Permission
  automation_execute automation_approve automation_manage agent_read : Permission
  agent_manage : Permission

-- The string literal that a permission is.
unfoldable pub literal : Permission → String
literal Permission.machine_read = "MACHINE_READ"
literal Permission.machine_create = "MACHINE_CREATE"
literal Permission.machine_update = "MACHINE_UPDATE"
literal Permission.machine_delete = "MACHINE_DELETE"
literal Permission.network_read = "NETWORK_READ"
literal Permission.network_create = "NETWORK_CREATE"
literal Permission.network_update = "NETWORK_UPDATE"
literal Permission.network_delete = "NETWORK_DELETE"
literal Permission.port_read = "PORT_READ"
literal Permission.port_create = "PORT_CREATE"
literal Permission.port_update = "PORT_UPDATE"
literal Permission.port_delete = "PORT_DELETE"
literal Permission.service_read = "SERVICE_READ"
literal Permission.service_create = "SERVICE_CREATE"
literal Permission.service_update = "SERVICE_UPDATE"
literal Permission.service_delete = "SERVICE_DELETE"
literal Permission.location_read = "LOCATION_READ"
literal Permission.location_create = "LOCATION_CREATE"
literal Permission.location_update = "LOCATION_UPDATE"
literal Permission.location_delete = "LOCATION_DELETE"
literal Permission.discovery_read = "DISCOVERY_READ"
literal Permission.discovery_run = "DISCOVERY_RUN"
literal Permission.discovery_import = "DISCOVERY_IMPORT"
literal Permission.change_read = "CHANGE_READ"
literal Permission.user_read = "USER_READ"
literal Permission.user_create = "USER_CREATE"
literal Permission.user_update = "USER_UPDATE"
literal Permission.user_delete = "USER_DELETE"
literal Permission.settings_read = "SETTINGS_READ"
literal Permission.settings_update = "SETTINGS_UPDATE"
literal Permission.metrics_read = "METRICS_READ"
literal Permission.metrics_config = "METRICS_CONFIG"
literal Permission.monitoring_update = "MONITORING_UPDATE"
literal Permission.tag_read = "TAG_READ"
literal Permission.tag_create = "TAG_CREATE"
literal Permission.tag_update = "TAG_UPDATE"
literal Permission.tag_delete = "TAG_DELETE"
literal Permission.ipam_read = "IPAM_READ"
literal Permission.ipam_manage = "IPAM_MANAGE"
literal Permission.ipam_import = "IPAM_IMPORT"
literal Permission.ipam_export = "IPAM_EXPORT"
literal Permission.topology_read = "TOPOLOGY_READ"
literal Permission.topology_create = "TOPOLOGY_CREATE"
literal Permission.topology_update = "TOPOLOGY_UPDATE"
literal Permission.topology_delete = "TOPOLOGY_DELETE"
literal Permission.topology_export = "TOPOLOGY_EXPORT"
literal Permission.topology_import = "TOPOLOGY_IMPORT"
literal Permission.asset_read = "ASSET_READ"
literal Permission.asset_create = "ASSET_CREATE"
literal Permission.asset_update = "ASSET_UPDATE"
literal Permission.asset_delete = "ASSET_DELETE"
literal Permission.asset_export = "ASSET_EXPORT"
literal Permission.asset_import = "ASSET_IMPORT"
literal Permission.license_read = "LICENSE_READ"
literal Permission.license_manage = "LICENSE_MANAGE"
literal Permission.license_reveal = "LICENSE_REVEAL"
literal Permission.supplier_manage = "SUPPLIER_MANAGE"
literal Permission.purchase_manage = "PURCHASE_MANAGE"
literal Permission.warranty_manage = "WARRANTY_MANAGE"
literal Permission.software_manage = "SOFTWARE_MANAGE"
literal Permission.ticket_read = "TICKET_READ"
literal Permission.ticket_create = "TICKET_CREATE"
literal Permission.ticket_update = "TICKET_UPDATE"
literal Permission.ticket_delete = "TICKET_DELETE"
literal Permission.ticket_export = "TICKET_EXPORT"
literal Permission.sla_read = "SLA_READ"
literal Permission.sla_manage = "SLA_MANAGE"
literal Permission.maintenance_read = "MAINTENANCE_READ"
literal Permission.maintenance_manage = "MAINTENANCE_MANAGE"
literal Permission.maintenance_export = "MAINTENANCE_EXPORT"
literal Permission.task_read = "TASK_READ"
literal Permission.task_manage = "TASK_MANAGE"
literal Permission.change_manage = "CHANGE_MANAGE"
literal Permission.change_approve = "CHANGE_APPROVE"
literal Permission.change_export = "CHANGE_EXPORT"
literal Permission.runbook_read = "RUNBOOK_READ"
literal Permission.runbook_manage = "RUNBOOK_MANAGE"
literal Permission.operations_read = "OPERATIONS_READ"
literal Permission.ai_chat = "AI_CHAT"
literal Permission.ai_analyze = "AI_ANALYZE"
literal Permission.ai_config = "AI_CONFIG"
literal Permission.automation_read = "AUTOMATION_READ"
literal Permission.automation_execute = "AUTOMATION_EXECUTE"
literal Permission.automation_approve = "AUTOMATION_APPROVE"
literal Permission.automation_manage = "AUTOMATION_MANAGE"
literal Permission.agent_read = "AGENT_READ"
literal Permission.agent_manage = "AGENT_MANAGE"

pub admin_permissions : List Permission
admin_permissions =
    Permission.machine_read ∷ Permission.machine_create ∷ Permission.machine_update
    ∷ Permission.machine_delete ∷ Permission.network_read ∷ Permission.network_create
    ∷ Permission.network_update ∷ Permission.network_delete ∷ Permission.port_read
    ∷ Permission.port_create ∷ Permission.port_update ∷ Permission.port_delete
    ∷ Permission.service_read ∷ Permission.service_create ∷ Permission.service_update
    ∷ Permission.service_delete ∷ Permission.location_read ∷ Permission.location_create
    ∷ Permission.location_update ∷ Permission.location_delete ∷ Permission.discovery_read
    ∷ Permission.discovery_run ∷ Permission.discovery_import ∷ Permission.change_read
    ∷ Permission.user_read ∷ Permission.user_create ∷ Permission.user_update
    ∷ Permission.user_delete ∷ Permission.settings_read ∷ Permission.settings_update
    ∷ Permission.metrics_read ∷ Permission.metrics_config ∷ Permission.monitoring_update
    ∷ Permission.tag_read ∷ Permission.tag_create ∷ Permission.tag_update ∷ Permission.tag_delete
    ∷ Permission.ipam_read ∷ Permission.ipam_manage ∷ Permission.ipam_import
    ∷ Permission.ipam_export ∷ Permission.topology_read ∷ Permission.topology_create
    ∷ Permission.topology_update ∷ Permission.topology_delete ∷ Permission.topology_export
    ∷ Permission.topology_import ∷ Permission.asset_read ∷ Permission.asset_create
    ∷ Permission.asset_update ∷ Permission.asset_delete ∷ Permission.asset_export
    ∷ Permission.asset_import ∷ Permission.license_read ∷ Permission.license_manage
    ∷ Permission.license_reveal ∷ Permission.supplier_manage ∷ Permission.purchase_manage
    ∷ Permission.warranty_manage ∷ Permission.software_manage ∷ Permission.ticket_read
    ∷ Permission.ticket_create ∷ Permission.ticket_update ∷ Permission.ticket_delete
    ∷ Permission.ticket_export ∷ Permission.sla_read ∷ Permission.sla_manage
    ∷ Permission.maintenance_read ∷ Permission.maintenance_manage ∷ Permission.maintenance_export
    ∷ Permission.task_read ∷ Permission.task_manage ∷ Permission.change_manage
    ∷ Permission.change_approve ∷ Permission.change_export ∷ Permission.runbook_read
    ∷ Permission.runbook_manage ∷ Permission.operations_read ∷ Permission.ai_chat
    ∷ Permission.ai_analyze ∷ Permission.ai_config ∷ Permission.automation_read
    ∷ Permission.automation_execute ∷ Permission.automation_approve ∷ Permission.automation_manage
    ∷ Permission.agent_read ∷ Permission.agent_manage ∷ []

pub technician_permissions : List Permission
technician_permissions =
    Permission.machine_read ∷ Permission.machine_create ∷ Permission.machine_update
    ∷ Permission.network_read ∷ Permission.network_create ∷ Permission.network_update
    ∷ Permission.port_read ∷ Permission.port_create ∷ Permission.port_update
    ∷ Permission.service_read ∷ Permission.service_create ∷ Permission.service_update
    ∷ Permission.location_read ∷ Permission.location_create ∷ Permission.location_update
    ∷ Permission.discovery_read ∷ Permission.discovery_run ∷ Permission.discovery_import
    ∷ Permission.change_read ∷ Permission.settings_read ∷ Permission.metrics_read
    ∷ Permission.metrics_config ∷ Permission.tag_read ∷ Permission.tag_create
    ∷ Permission.tag_update ∷ Permission.ipam_read ∷ Permission.ipam_manage ∷ Permission.ipam_export
    ∷ Permission.topology_read ∷ Permission.topology_create ∷ Permission.topology_update
    ∷ Permission.topology_export ∷ Permission.topology_import ∷ Permission.asset_read
    ∷ Permission.asset_create ∷ Permission.asset_update ∷ Permission.asset_export
    ∷ Permission.asset_import ∷ Permission.license_read ∷ Permission.license_manage
    ∷ Permission.supplier_manage ∷ Permission.purchase_manage ∷ Permission.warranty_manage
    ∷ Permission.software_manage ∷ Permission.ticket_read ∷ Permission.ticket_create
    ∷ Permission.ticket_update ∷ Permission.ticket_export ∷ Permission.sla_read
    ∷ Permission.maintenance_read ∷ Permission.maintenance_manage ∷ Permission.maintenance_export
    ∷ Permission.task_read ∷ Permission.task_manage ∷ Permission.change_manage
    ∷ Permission.change_export ∷ Permission.runbook_read ∷ Permission.runbook_manage
    ∷ Permission.operations_read ∷ Permission.ai_chat ∷ Permission.ai_analyze
    ∷ Permission.automation_read ∷ Permission.automation_execute ∷ Permission.agent_read ∷ []

unfoldable pub viewer_permissions : List Permission
viewer_permissions =
    Permission.machine_read ∷ Permission.network_read ∷ Permission.port_read
    ∷ Permission.service_read ∷ Permission.location_read ∷ Permission.discovery_read
    ∷ Permission.change_read ∷ Permission.settings_read ∷ Permission.metrics_read
    ∷ Permission.tag_read ∷ Permission.ipam_read ∷ Permission.topology_read
    ∷ Permission.topology_export ∷ Permission.asset_read ∷ Permission.license_read
    ∷ Permission.asset_export ∷ Permission.ticket_read ∷ Permission.sla_read
    ∷ Permission.maintenance_read ∷ Permission.task_read ∷ Permission.runbook_read
    ∷ Permission.operations_read ∷ Permission.ai_chat ∷ Permission.ai_analyze
    ∷ Permission.automation_read ∷ Permission.agent_read ∷ []

-- `ROLE_PERMISSIONS[role]`; no role lacks an entry, so `|| []` and `!allowed` do not apply.
unfoldable pub get_role_permissions : Role → List Permission
get_role_permissions Role.admin = admin_permissions
get_role_permissions Role.technician = technician_permissions
get_role_permissions Role.viewer = viewer_permissions

-- `allowed.includes(permission)`.
unfoldable pub includes : List Permission → Permission → Bool
includes [] p = false
includes (q ∷ qs) p = str_eq (literal q) (literal p) || includes qs p

unfoldable pub has_permission : Role → Permission → Bool
has_permission role p = includes (get_role_permissions role) p
