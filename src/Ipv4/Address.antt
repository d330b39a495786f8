-- ===== src/Ipv4/Address.antt =====
-- Addresses as 32-bit numbers and as dotted texts: `intToIp` and `ipToInt` of
-- backend/src/utils/subnetCalculator.ts.
pub mod Dotted
use Prim.Native.Nat.{bit_and}
use infra_inventory.Prelude.{
  ℕ, zero, suc, ◌+◌, ◌-◌, ◌*◌, ◌/◌, ◌%◌, ◌^◌, Option, none, some, List, [], ◌∷◌, String,
}
use infra_inventory.Prelude.Decimal.{ℤ, pos, negsuc, split, join, parse_int, to_decimal}

-- `[…].join('.')` of the four bytes.
unfoldable pub int_to_ip : ℕ → String
int_to_ip n = join "." (
    to_decimal (bit_and (n / 2 ^ 24) 255)
    ∷ to_decimal (bit_and (n / 2 ^ 16) 255)
    ∷ to_decimal (bit_and (n / 2 ^ 8) 255)
    ∷ to_decimal (bit_and n 255)
    ∷ [])

-- `((acc << 8) + octet) >>> 0`, with NaN giving 0.
unfoldable pub push_octet : ℕ → Option ℤ → ℕ
push_octet acc none = 0
push_octet acc (some (pos n)) = (acc * 256 + n) % 2 ^ 32
push_octet acc (some (negsuc n)) = (acc * 256 % 2 ^ 32 + (2 ^ 32 - suc n % 2 ^ 32)) % 2 ^ 32

unfoldable pub push_octets : ℕ → List String → ℕ
push_octets acc [] = acc
push_octets acc (octet ∷ octets) = push_octets (push_octet acc (parse_int octet)) octets

unfoldable pub ip_to_int : String → ℕ
ip_to_int ip = push_octets 0 (split 46 ip)
