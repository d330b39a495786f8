-- ===== src/Discovery.antt =====
-- The discovery service: the addresses that a scan visits, the scan itself, and the
-- types of the devices it finds.
pub mod Cidr
pub mod Classifier
pub mod Engine
