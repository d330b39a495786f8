-- ===== src/Ipv4/Subnet/Membership.antt =====
-- What a successful calculation is, and when an address is in a subnet.
use infra_inventory.Prelude.{
  ℕ, ◌+◌, ◌-◌, ◌≤◌, ◌<◌, ◌^◌, ◌≡◌, refl, sym, ap, subst, ◌∙◌, ◌↔◌, Bool, true, false, ◌&&◌, Option,
  none, some, List, [], ◌∷◌, String, arith, leb, if◌then◌else◌,
}
use infra_inventory.Prelude.Decimal.{ℤ, pos, negsuc, split, trim, parse_int}
use infra_inventory.Ipv4.Bits.{shl, shr, shl-shr, shr-block}
use infra_inventory.Ipv4.Address.{ip_to_int}
use infra_inventory.Ipv4.Address.Dotted.{ip_to_int-int_to_ip, ip_to_int-lt}
use infra_inventory.Ipv4.Subnet.Blocks.{
  network_of-shl, broadcast_of-shl, range_of-block, range_of-fields, range_of-Usable,
}
use infra_inventory.Ipv4.Subnet.{
  network_of, broadcast_of, range_of, Subnet, ok, err, Error, prefix_value, all_octets, describe,
  check_address, check_prefix, check_parts, calculate_ipv4_subnet, is_within, is_ip_in_subnet,
}

-- The subnet is computed from an address and a prefix of at most 32.
abbrev pub Described : Subnet → Type 0
Described s =
    (octets : List String) × (s.prefix ≤ 32)
    × (all_octets octets ≡ true)
    × (split 46 s.ip ≡ octets)
    × (s ≡ describe s.ip s.prefix octets)

ok_injective : (s t : Subnet) → ok s ≡ ok t → s ≡ t
ok_injective s t h = cc

describe-Described :
    (raw : String) (p : ℕ) (octets : List String)
    → p ≤ 32
    → split 46 raw ≡ octets
    → all_octets octets ≡ true
    → Described (describe raw p octets)
unfolding describe
describe-Described raw p octets h e v = (octets, h, v, e, refl)

checked :
    (v : Bool) (raw : String) (p : ℕ) (octets : List String) (s : Subnet)
    → p ≤ 32
    → split 46 raw ≡ octets
    → all_octets octets ≡ v
    → (if v then ok (describe raw p octets) else err Error.invalid_octet) ≡ ok s
    → Described s
checked true raw p octets s h e v k =
    subst Described (ok_injective (describe raw p octets) s k)
      (describe-Described raw p octets h e v)
checked false raw p octets s h e v k = absurd cc

check_address-Described :
    (raw : String) (p : ℕ) (octets : List String) (s : Subnet)
    → p ≤ 32
    → split 46 raw ≡ octets
    → check_address raw p octets ≡ ok s
    → Described s
unfolding check_address
check_address-Described raw p [] s h e k = absurd cc
check_address-Described raw p (_ ∷ []) s h e k = absurd cc
check_address-Described raw p (_ ∷ _ ∷ []) s h e k = absurd cc
check_address-Described raw p (_ ∷ _ ∷ _ ∷ []) s h e k = absurd cc
check_address-Described raw p (_ ∷ _ ∷ _ ∷ _ ∷ _ ∷ _) s h e k = absurd cc
check_address-Described raw p (a ∷ b ∷ c ∷ d ∷ []) s h e k =
    checked (all_octets (a ∷ b ∷ c ∷ d ∷ [])) raw p (a ∷ b ∷ c ∷ d ∷ []) s h e refl k

prefix_value-le : (o : Option ℤ) (p : ℕ) → prefix_value o ≡ some p → p ≤ 32
unfolding prefix_value
prefix_value-le none p h = absurd cc
prefix_value-le (some (negsuc n)) p h = absurd cc
prefix_value-le (some (pos n)) p h = ground arith

check_prefix-Described :
    (raw : String) (o : Option ℕ) (s : Subnet)
    → ((p : ℕ) → o ≡ some p → p ≤ 32)
    → check_prefix raw o ≡ ok s
    → Described s
check_prefix-Described raw none s h k = absurd cc
check_prefix-Described raw (some p) s h k =
    check_address-Described raw p (split 46 raw) s (h p refl) refl k

check_parts-Described : (parts : List String) (s : Subnet) → check_parts parts ≡ ok s → Described s
unfolding check_parts
check_parts-Described [] s k = absurd cc
check_parts-Described (_ ∷ []) s k = absurd cc
check_parts-Described (_ ∷ _ ∷ _ ∷ _) s k = absurd cc
check_parts-Described (raw ∷ bits ∷ []) s k =
    check_prefix-Described (trim raw) (prefix_value (parse_int (trim bits))) s
      (prefix_value-le (parse_int (trim bits))) k

pub calculate_ipv4_subnet-Described :
    (input : String) (s : Subnet) → calculate_ipv4_subnet input ≡ ok s → Described s
unfolding calculate_ipv4_subnet
calculate_ipv4_subnet-Described input s k = check_parts-Described (split 47 (trim input)) s k

-- The numbers behind the texts of a subnet.
abbrev Bounds : Subnet → Type 0
Bounds s =
    let r = range_of (ip_to_int s.ip) s.prefix in
    (ip_to_int s.network_address ≡ r.network)
    × (ip_to_int s.broadcast_address ≡ r.broadcast)
    × (s.total_addresses ≡ r.total)
    × (s.usable_addresses ≡ r.usable)
    × (ip_to_int s.first_usable_ip ≡ r.first_usable)
    × (ip_to_int s.last_usable_ip ≡ r.last_usable)

describe-Bounds :
    (raw : String) (p : ℕ) (octets : List String) → p ≤ 32 → Bounds (describe raw p octets)
unfolding describe
describe-Bounds raw p octets h =
    let ip = ip_to_int raw in
    let (total, low, high, size, top, _) = range_of-block ip p h (ip_to_int-lt raw) in
    let (count, positive, gate, cases) = range_of-Usable ip p h (ip_to_int-lt raw) in
    (
      ip_to_int-int_to_ip (range_of ip p).network (omega arith),
      ip_to_int-int_to_ip (range_of ip p).broadcast top,
      refl,
      refl,
      ip_to_int-int_to_ip (range_of ip p).first_usable (omega arith),
      ip_to_int-int_to_ip (range_of ip p).last_usable (omega arith),
    )

Described-Bounds : (s : Subnet) → Described s → Bounds s
Described-Bounds s (octets, h, v, e, d) =
    subst Bounds (sym d) (describe-Bounds s.ip s.prefix octets h)

-- A calculation that succeeds gives a block of 2 ^ (32 - prefix) addresses, a number that
-- `totalAddresses` states, from the network address to the broadcast address, with the address of the
-- input in it. The usable addresses lie in the block, as many as `usableAddresses` states.
pub calculate_ipv4_subnet-ok :
    (input : String) (s : Subnet)
    → calculate_ipv4_subnet input ≡ ok s
    → let ip : ℕ = ip_to_int s.ip in
      let network : ℕ = ip_to_int s.network_address in
      let broadcast : ℕ = ip_to_int s.broadcast_address in
      let first : ℕ = ip_to_int s.first_usable_ip in
      let last : ℕ = ip_to_int s.last_usable_ip in
      (s.prefix ≤ 32)
      × (s.total_addresses ≡ 2 ^ (32 - s.prefix))
      × (network ≤ ip)
      × (ip ≤ broadcast)
      × (network + s.total_addresses ≡ broadcast + 1)
      × (network ≤ first)
      × (last ≤ broadcast)
      × (first + s.usable_addresses ≡ last + 1)
calculate_ipv4_subnet-ok input s k =
    let d = calculate_ipv4_subnet-Described input s k in
    let h = d.1 in
    let (n, b, t, u, f, l) = Described-Bounds s d in
    let (total, low, high, size, top, _) =
      range_of-block (ip_to_int s.ip) s.prefix h (ip_to_int-lt s.ip) in
    let (count, positive, gate, cases) =
      range_of-Usable (ip_to_int s.ip) s.prefix h (ip_to_int-lt s.ip) in
    (
      h,
      t ∙ total,
      omega (arith, n, low),
      omega (arith, b, high),
      omega (arith, n, b, t, size),
      omega (arith, n, f, cases),
      omega (arith, b, l, cases),
      omega (arith, f, u, l, count),
    )

pub within_iff :
    (p ip base : ℕ)
    → p ≤ 32
    → ip < 2 ^ 32
    → base < 2 ^ 32
    → ((network_of base p ≤ ip) × (ip ≤ broadcast_of base p))
      ↔ (network_of ip p ≡ network_of base p)
within_iff p ip base h lt lb =
    let (low, high) = shl-shr (32 - p) ip in
    let n = network_of-shl ip p h lt in
    let nb = network_of-shl base p h lb in
    let bb = broadcast_of-shl base p h lb in
    (
      λ w.
          let r : ℕ = ip - shl (32 - p) (shr (32 - p) base) in
          let e : shr (32 - p) ip ≡ shr (32 - p) base =
            ap (shr (32 - p)) {x = ip} {y = shl (32 - p) (shr (32 - p) base) + r}
              (omega (arith, nb, w.0))
            ∙ shr-block (32 - p) (shr (32 - p) base) r (omega (arith, bb, w.1)) in
          n ∙ ap (shl (32 - p)) e ∙ sym nb,
      λ e. (omega (arith, low, n, e, nb), omega (arith, high, n, e, nb, bb)),
    )

leb_both : (a b c : ℕ) → (leb a b && leb b c ≡ true) ↔ ((a ≤ b) × (b ≤ c))
leb_both a b c = ground arith

-- After a calculation that succeeds, an address is in the subnet exactly when its network address
-- under the subnet's prefix is that of the subnet.
pub is_ip_in_subnet_iff :
    (ip cidr : String) (s : Subnet)
    → calculate_ipv4_subnet cidr ≡ ok s
    → (is_ip_in_subnet ip cidr ≡ true)
      ↔ (network_of (ip_to_int ip) s.prefix ≡ network_of (ip_to_int s.ip) s.prefix)
unfolding is_ip_in_subnet is_within
is_ip_in_subnet_iff ip cidr s k =
    let d = calculate_ipv4_subnet-Described cidr s k in
    let (n, b, _, _, _, _) = Described-Bounds s d in
    let (rn, rb, _) = range_of-fields (ip_to_int s.ip) s.prefix in
    let w =
      within_iff s.prefix (ip_to_int ip) (ip_to_int s.ip) d.1 (ip_to_int-lt ip)
        (ip_to_int-lt s.ip) in
    let l = leb_both (ip_to_int s.network_address) (ip_to_int ip) (ip_to_int s.broadcast_address) in
    rw k (
      (
        λ t. w.0 (omega (arith, n, rn, (l.0 t).0), omega (arith, b, rb, (l.0 t).1)),
        λ e. l.1 (omega (arith, n, rn, (w.1 e).0), omega (arith, b, rb, (w.1 e).1)),
      ))
