-- ===== src/Ipv4.antt =====
-- IPv4 addresses and subnets: the subnet calculator of the backend.
pub mod Bits
pub mod Address
pub mod Subnet
mod Tests
