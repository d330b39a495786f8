-- ===== src/Access.antt =====
-- Who may do what: the permission table, and the guard of the routes.
pub mod Permissions
pub mod Auth
