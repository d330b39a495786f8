-- ===== src/Ipv4/Tests.antt =====
-- The subnet theorems at concrete ranges.
use infra_inventory.Prelude.{ℕ, ◌+◌, ◌-◌, ◌^◌, ◌≤◌, ◌≡◌, refl, ◌↔◌, true, append}
use infra_inventory.Prelude.Decimal.{
  split, join, trim_start, trim_end, is_space, read_signed, read_digits, is_digit, decimal, digit,
}
use infra_inventory.Ipv4.Address.{int_to_ip, push_octet, push_octets, ip_to_int}
use infra_inventory.Ipv4.Subnet.{
  mask_of, complement, network_of, broadcast_of, next_address, previous_address, range_of,
  is_private, ip_class, class_c, Subnet, ok, err, Error, octet_value, is_octet, all_octets,
  prefix_value, describe, check_address, check_parts, calculate_ipv4_subnet, is_within,
  is_ip_in_subnet,
}
use infra_inventory.Ipv4.Subnet.Membership.{calculate_ipv4_subnet-ok, is_ip_in_subnet_iff}

unfolds : Unit {0}
unfolding split join trim_start trim_end is_space read_signed read_digits is_digit decimal digit
    append int_to_ip push_octet push_octets ip_to_int mask_of complement network_of broadcast_of
    next_address previous_address range_of is_private ip_class octet_value is_octet all_octets
    prefix_value describe check_address check_parts calculate_ipv4_subnet is_within is_ip_in_subnet
unfolds = tt

abbrev lan : Subnet
lan = record {
  cidr = "192.168.10.0/24";
  ip = "192.168.10.5";
  prefix = 24;
  network_address = "192.168.10.0";
  broadcast_address = "192.168.10.255";
  subnet_mask = "255.255.255.0";
  wildcard_mask = "0.0.0.255";
  first_usable_ip = "192.168.10.1";
  last_usable_ip = "192.168.10.254";
  gateway = "192.168.10.1";
  total_addresses = 256;
  usable_addresses = 254;
  private = true;
  class = class_c;
}

calculated : calculate_ipv4_subnet " 192.168.10.5/24" ≡ ok lan
unfolding unfolds
calculated = refl

leading_zero : calculate_ipv4_subnet "192.168.010.5/24" ≡ err Error.invalid_octet
unfolding unfolds
leading_zero = refl

prefix_too_long : calculate_ipv4_subnet "192.168.10.5/33" ≡ err Error.invalid_prefix
unfolding unfolds
prefix_too_long = refl

calculate_ipv4_subnet-ok_example :
    let ip : ℕ = ip_to_int lan.ip in
    let network : ℕ = ip_to_int lan.network_address in
    let broadcast : ℕ = ip_to_int lan.broadcast_address in
    let first : ℕ = ip_to_int lan.first_usable_ip in
    let last : ℕ = ip_to_int lan.last_usable_ip in
    (lan.prefix ≤ 32)
    × (lan.total_addresses ≡ 2 ^ (32 - lan.prefix))
    × (network ≤ ip)
    × (ip ≤ broadcast)
    × (network + lan.total_addresses ≡ broadcast + 1)
    × (network ≤ first)
    × (last ≤ broadcast)
    × (first + lan.usable_addresses ≡ last + 1)
calculate_ipv4_subnet-ok_example = calculate_ipv4_subnet-ok " 192.168.10.5/24" lan calculated

is_ip_in_subnet_iff_example :
    (is_ip_in_subnet "192.168.10.77" " 192.168.10.5/24" ≡ true)
    ↔ (network_of (ip_to_int "192.168.10.77") 24 ≡ network_of (ip_to_int "192.168.10.5") 24)
is_ip_in_subnet_iff_example = is_ip_in_subnet_iff "192.168.10.77" " 192.168.10.5/24" lan calculated
