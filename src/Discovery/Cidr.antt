-- ===== src/Discovery/Cidr.antt =====
-- The targets of a scan, discovery/src/scanner/cidr.ts. `ipToLong` and `longToIp` there are the same
-- code as `ipToInt` and `intToIp` of the backend. `parseCidr` and `parseExcludedIps` call each other
-- to a depth of two: the exclusions of an exclusion are none.
mod KeptHosts
pub mod Hosts
pub mod Limit
pub mod Members
pub mod Spared
pub mod Complete
mod Tests
use Prim.Native.Nat.{bit_and, bit_or}
use infra_inventory.Prelude.{
  ℕ, zero, suc, ◌+◌, ◌-◌, ◌*◌, ◌%◌, ◌^◌, Bool, true, false, not, ◌&&◌, ◌||◌, Option, none, some,
  List, [], ◌∷◌, ◌++◌, map, String, ◌==◌, ltb, leb, str_eq, if◌then◌else◌, includes_text, length,
}
use infra_inventory.Prelude.Decimal.{ℤ, pos, negsuc, split, trim, parse_int}
use infra_inventory.Ipv4.Address.{int_to_ip, ip_to_int}

abbrev pub ip_to_long : String → ℕ
ip_to_long ip = ip_to_int ip

abbrev pub long_to_ip : ℕ → String
long_to_ip n = int_to_ip n

-- `mask === 0 ? 0 : (~0 << (32 - mask)) >>> 0`: minus one is all ones.
pub netmask_of : ℕ → ℕ
netmask_of mask = if mask == 0 then 0 else 4294967295 * 2 ^ (32 - mask) % 2 ^ 32

-- A number that `parseInt` gives, between two bounds.
pub mask_value : ℕ → Option ℤ → Option ℕ
mask_value least none = none
mask_value least (some (negsuc n)) = none
mask_value least (some (pos n)) = if leb least n && leb n 32 then some n else none

pub same_network : String → String → Option ℕ → Bool
same_network ip base none = false
same_network ip base (some mask) =
    bit_and (ip_to_long ip) (netmask_of mask) == bit_and (ip_to_long base) (netmask_of mask)

pub is_in_parts : String → List String → Bool
is_in_parts ip (base ∷ bits ∷ []) = same_network ip base (mask_value 0 (parse_int bits))
is_in_parts ip parts = false

pub is_ip_in_cidr : String → String → Bool
is_ip_in_cidr ip cidr = is_in_parts ip (split 47 (trim cidr))

-- `count` numbers from `start` on, the values of a counting loop.
pub count_from : ℕ → ℕ → List ℕ
count_from start zero = []
count_from start (suc count) = start ∷ count_from (suc start) count

-- The members of a set of texts.
pub has : List String → String → Bool
has [] s = false
has (t ∷ ts) s = str_eq t s || has ts s

pub without : List String → List String → List String
without excluded [] = []
without excluded (ip ∷ ips) =
    let rest = without excluded ips in if has excluded ip then rest else ip ∷ rest

pub record Targets : Type 0 where
  pub network : String
  pub mask : ℕ
  pub ips : List String

pub data Error : Type 0 where
  invalid_format invalid_mask : Error
  too_many : (count : ℕ) → Error

pub data Result : Type 0 where
  ok : Targets → Result
  err : Error → Result

-- The hosts between the bounds, by the three cases of the mask.
pub raw_hosts : ℕ → ℕ → ℕ → List ℕ
raw_hosts mask network broadcast =
    if mask == 32
    then network ∷ []
    else if mask == 31
    then network ∷ broadcast ∷ []
    else count_from (network + 1) (broadcast - (network + 1))

pub raw_ips : ℕ → ℕ → ℕ → List String
raw_ips mask network broadcast = map long_to_ip (raw_hosts mask network broadcast)

-- At most 1024 hosts per scan.
pub limit_targets : ℕ → ℕ → List String → Result
limit_targets network mask ips =
    if ltb 1024 (length ips)
    then err (too_many (length ips))
    else ok (record { network = long_to_ip network; mask = mask; ips = ips })

pub targets_at : String → List String → Option ℕ → Result
targets_at base excluded none = err invalid_mask
targets_at base excluded (some mask) =
    let network = bit_and (ip_to_long base) (netmask_of mask) in
    let broadcast = bit_or network (4294967295 - netmask_of mask) in
    limit_targets network mask (without excluded (raw_ips mask network broadcast))

pub targets_of : List String → List String → Result
targets_of excluded (base ∷ bits ∷ []) = targets_at base excluded (mask_value 16 (parse_int bits))
targets_of excluded parts = err invalid_format

-- `parseCidr` on a set of excluded addresses.
pub parse_cidr_without : List String → String → Result
parse_cidr_without excluded cidr = targets_of excluded (split 47 (trim cidr))

pub ips_of : Result → List String
ips_of (ok t) = t.ips
ips_of (err e) = []

pub range_ips : List String → List String
range_ips (start ∷ end ∷ rest) =
    let first = ip_to_long (trim start) in
    let last = ip_to_long (trim end) in
    if not (str_eq (trim start) "")
      && not (str_eq (trim end) "")
      && leb first last
      && leb (last - first) 256
    then map long_to_ip (count_from first (suc (last - first)))
    else []
range_ips parts = []

-- What one entry of the list excludes.
pub excluded_by : String → List String
excluded_by item =
    let trimmed = trim item in
    if str_eq trimmed ""
    then []
    else if includes_text trimmed "-"
    then range_ips (split 45 trimmed)
    else if includes_text trimmed "/"
    then ips_of (parse_cidr_without [] trimmed)
    else trimmed ∷ []

pub parse_excluded_ips : List String → List String
parse_excluded_ips [] = []
parse_excluded_ips (item ∷ items) = excluded_by item ++ parse_excluded_ips items

pub parse_cidr : String → List String → Result
parse_cidr cidr excluded = parse_cidr_without (parse_excluded_ips excluded) cidr
