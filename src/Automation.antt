-- ===== src/Automation.antt =====
-- The automation engine, backend/src/modules/automation.
pub mod Locks
pub mod Breaker
pub mod Risk
pub mod Worker
pub mod Approvals
pub mod Gate
pub mod Agents
pub mod Proposals
