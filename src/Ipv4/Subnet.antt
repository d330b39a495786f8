-- ===== src/Ipv4/Subnet.antt =====
-- The subnet calculator, backend/src/utils/subnetCalculator.ts. The branch of `calculateSubnet` for
-- IPv6 is not modelled: it copies parts of the text.
pub mod Blocks
pub mod Membership
use Prim.Native.Nat.{bit_and, bit_or}
use infra_inventory.Prelude.{
  ℕ, zero, suc, ◌+◌, ◌-◌, ◌*◌, ◌/◌, ◌%◌, ◌^◌, Bool, true, false, not, ◌&&◌, ◌||◌, Option, none,
  some, List, [], ◌∷◌, String, ◌==◌, leb, str_eq, if◌then◌else◌, append,
}
use infra_inventory.Prelude.Decimal.{ℤ, pos, negsuc, split, trim, parse_int, to_decimal}
use infra_inventory.Ipv4.Address.{int_to_ip, ip_to_int}

-- `prefix === 0 ? 0 : ((0xffffffff << (32 - prefix)) >>> 0)`, for a prefix of at most 32.
unfoldable pub mask_of : ℕ → ℕ
mask_of prefix = if prefix == 0 then 0 else 4294967295 * 2 ^ (32 - prefix) % 2 ^ 32

-- `(~mask) >>> 0`.
unfoldable pub complement : ℕ → ℕ
complement mask = 4294967295 - mask

pub record Range : Type 0 where
  pub network : ℕ
  pub broadcast : ℕ
  pub first_usable : ℕ
  pub last_usable : ℕ
  pub gateway : ℕ
  pub total : ℕ
  pub usable : ℕ

unfoldable pub network_of : ℕ → ℕ → ℕ
network_of ip prefix = bit_and ip (mask_of prefix)

unfoldable pub broadcast_of : ℕ → ℕ → ℕ
broadcast_of ip prefix = bit_or (network_of ip prefix) (complement (mask_of prefix))

-- `(n + 1) >>> 0` and `(n - 1) >>> 0`.
unfoldable pub next_address : ℕ → ℕ
next_address n = (n + 1) % 2 ^ 32

unfoldable pub previous_address : ℕ → ℕ
previous_address n = (n + 4294967295) % 2 ^ 32

-- The three cases of the prefix, on the bounds of the block and its size: 32, 31 (RFC 3021), others.
abbrev pub single_address : ℕ → ℕ → ℕ → Range
single_address network broadcast total = record {
  network = network;
  broadcast = broadcast;
  first_usable = network;
  last_usable = network;
  gateway = network;
  total = total;
  usable = 1;
}

abbrev pub point_to_point : ℕ → ℕ → ℕ → Range
point_to_point network broadcast total = record {
  network = network;
  broadcast = broadcast;
  first_usable = network;
  last_usable = broadcast;
  gateway = network;
  total = total;
  usable = 2;
}

abbrev pub with_hosts : ℕ → ℕ → ℕ → Range
with_hosts network broadcast total = record {
  network = network;
  broadcast = broadcast;
  first_usable = next_address network;
  last_usable = previous_address broadcast;
  gateway = next_address network;
  total = total;
  usable = total - 2;
}

unfoldable pub range_of : ℕ → ℕ → Range
range_of ip prefix =
    let network = network_of ip prefix in
    let broadcast = broadcast_of ip prefix in
    let total = 2 ^ (32 - prefix) in
    if prefix == 32
    then single_address network broadcast total
    else if prefix == 31
    then point_to_point network broadcast total
    else with_hosts network broadcast total

unfoldable pub is_private : ℕ → Bool
is_private ip =
    ip / 2 ^ 24 == 10
    || ip / 2 ^ 20 == ip_to_int "172.16.0.0" / 2 ^ 20
    || ip / 2 ^ 16 == ip_to_int "192.168.0.0" / 2 ^ 16
    || ip / 2 ^ 24 == 127
    || ip / 2 ^ 16 == ip_to_int "169.254.0.0" / 2 ^ 16

pub data IpClass : Type 0 where
  class_a loopback class_b class_c class_d class_e : IpClass

unfoldable pub ip_class : ℕ → IpClass
ip_class first =
    if leb 1 first && leb first 126
    then class_a
    else if first == 127
    then loopback
    else if leb 128 first && leb first 191
    then class_b
    else if leb 192 first && leb first 223
    then class_c
    else if leb 224 first && leb first 239
    then class_d
    else class_e

pub data Error : Type 0 where
  invalid_format invalid_prefix invalid_address invalid_octet : Error

-- The fields of SubnetCalculationResult that are computed, `ip` and `prefix` as read.
pub record Subnet : Type 0 where
  pub cidr : String
  pub ip : String
  pub prefix : ℕ
  pub network_address : String
  pub broadcast_address : String
  pub subnet_mask : String
  pub wildcard_mask : String
  pub first_usable_ip : String
  pub last_usable_ip : String
  pub gateway : String
  pub total_addresses : ℕ
  pub usable_addresses : ℕ
  pub private : Bool
  pub class : IpClass

pub data Result : Type 0 where
  ok : Subnet → Result
  err : Error → Result

-- `!(isNaN(num) || num < 0 || num > 255 || String(num) !== octet)`.
unfoldable pub octet_value : String → Option ℤ → Option ℕ
octet_value octet none = none
octet_value octet (some (negsuc n)) = none
octet_value octet (some (pos n)) = if leb n 255 && str_eq (to_decimal n) octet then some n else none

unfoldable pub is_octet : String → Bool
is_octet octet = elim (octet_value octet (parse_int octet)) [ none ↦ false | some n ↦ true ]

unfoldable pub all_octets : List String → Bool
all_octets [] = true
all_octets (o ∷ os) = is_octet o && all_octets os

unfoldable pub prefix_value : Option ℤ → Option ℕ
prefix_value none = none
prefix_value (some (negsuc n)) = none
prefix_value (some (pos n)) = if leb n 32 then some n else none

abbrev first_octet : List String → ℕ
first_octet [] = 0
first_octet (o ∷ os) = elim (octet_value o (parse_int o)) [ none ↦ 0 | some n ↦ n ]

unfoldable pub describe : String → ℕ → List String → Subnet
describe raw_ip prefix octets =
    let r = range_of (ip_to_int raw_ip) prefix in
    record {
      cidr = append (int_to_ip r.network) (append "/" (to_decimal prefix));
      ip = raw_ip;
      prefix = prefix;
      network_address = int_to_ip r.network;
      broadcast_address = int_to_ip r.broadcast;
      subnet_mask = int_to_ip (mask_of prefix);
      wildcard_mask = int_to_ip (complement (mask_of prefix));
      first_usable_ip = int_to_ip r.first_usable;
      last_usable_ip = int_to_ip r.last_usable;
      gateway = int_to_ip r.gateway;
      total_addresses = r.total;
      usable_addresses = r.usable;
      private = is_private (ip_to_int raw_ip);
      class = ip_class (first_octet octets);
    }

-- The checks of the address, on its octets.
unfoldable pub check_address : String → ℕ → List String → Result
check_address raw_ip prefix (a ∷ b ∷ c ∷ d ∷ []) =
    if all_octets (a ∷ b ∷ c ∷ d ∷ [])
    then ok (describe raw_ip prefix (a ∷ b ∷ c ∷ d ∷ []))
    else err invalid_octet
check_address raw_ip prefix octets = err invalid_address

abbrev check_prefix : String → Option ℕ → Result
check_prefix raw_ip none = err invalid_prefix
check_prefix raw_ip (some prefix) = check_address raw_ip prefix (split 46 raw_ip)

unfoldable pub check_parts : List String → Result
check_parts (raw ∷ bits ∷ []) = check_prefix (trim raw) (prefix_value (parse_int (trim bits)))
check_parts parts = err invalid_format

unfoldable pub calculate_ipv4_subnet : String → Result
calculate_ipv4_subnet input = check_parts (split 47 (trim input))

unfoldable pub is_within : String → Result → Bool
is_within ip (ok s) =
    leb (ip_to_int s.network_address) (ip_to_int ip)
    && leb (ip_to_int ip) (ip_to_int s.broadcast_address)
is_within ip (err e) = false

unfoldable pub is_ip_in_subnet : String → String → Bool
is_ip_in_subnet ip cidr = is_within ip (calculate_ipv4_subnet cidr)
