-- ===== src/Discovery/Cidr/KeptHosts.antt =====
-- The hosts of a range, and those that the exclusions leave.
use Prim.Native.Nat.{bit_and, bit_or}
use infra_inventory.Prelude.{
  ℕ, zero, suc, ◌+◌, ◌-◌, ◌≤◌, ◌<◌, ◌^◌, ◌≡◌, refl, sym, ap, ◌∙◌, inl, inr, true, false, some, List,
  [], ◌∷◌, map, String, arith, ◌==◌, ==_iff, Bool-cases, All, All-weaken, All-map,
}
use infra_inventory.Ipv4.Address.Dotted.{ip_to_int-int_to_ip, ip_to_int-lt}
use infra_inventory.Ipv4.Subnet.{mask_of, complement, network_of, broadcast_of}
use infra_inventory.Ipv4.Subnet.Blocks.{range_of-block, range_of-fields}
use infra_inventory.Ipv4.Subnet.Membership.{within_iff}
use infra_inventory.Discovery.Cidr.{
  ip_to_long, long_to_ip, netmask_of, same_network, count_from, has, without, raw_hosts, raw_ips,
}

count_from-All :
    (start count : ℕ) → All (λ h. (start ≤ h) × (h < start + count)) (count_from start count)
unfolding count_from
count_from-All start zero = tt
count_from-All start (suc count) = (
  (omega arith, omega arith),
  All-weaken (λ h. (suc start ≤ h) × (h < suc start + count)) _ (λ h k. (omega arith, omega arith))
      (count_from (suc start) count) (count_from-All (suc start) count),
)

-- The hosts lie between the bounds.
raw_hosts-All : (mask n b : ℕ) → n ≤ b → All (λ h. (n ≤ h) × (h ≤ b)) (raw_hosts mask n b)
unfolding raw_hosts
raw_hosts-All mask n b h = elim (Bool-cases (mask == 32)) [
  | inl single ↦ rw single ((omega arith, h), tt)
  | inr other ↦ elim (Bool-cases (mask == 31)) [
    | inl pair ↦ rw other (rw pair ((omega arith, h), ((h, omega arith), tt)))
    | inr wide ↦ rw other (
        rw wide (
          All-weaken (λ k. (n + 1 ≤ k) × (k < n + 1 + (b - (n + 1)))) _
            (λ k c. (omega arith, omega arith)) _ (count_from-All (n + 1) (b - (n + 1)))))
  ]
]

without-All :
    (P : String → Type 0) (excluded ips : List String)
    → All P ips
    → All (λ ip. P ip × (has excluded ip ≡ false)) (without excluded ips)
unfolding without
without-All P excluded [] h = tt
without-All P excluded (ip ∷ ips) h = elim (Bool-cases (has excluded ip)) [
  | inl out ↦ rw out (without-All P excluded ips h.1)
  | inr stays ↦ rw stays ((h.0, stays), without-All P excluded ips h.1)
]

network-broadcast :
    (base mask : ℕ)
    → (bit_and base (netmask_of mask) ≡ network_of base mask)
      × (bit_or (bit_and base (netmask_of mask)) (4294967295 - netmask_of mask)
          ≡ broadcast_of base mask)
unfolding netmask_of network_of broadcast_of mask_of complement
network-broadcast base mask = (refl, refl)

-- The address is in the network of the base, and written as numbers are written.
abbrev pub Joins : String → ℕ → String → Type 0
Joins base mask ip = (same_network ip base (some mask) ≡ true) × (long_to_ip (ip_to_long ip) ≡ ip)

host-Joins :
    (base : String) (mask h : ℕ)
    → mask ≤ 32
    → (network_of (ip_to_long base) mask ≤ h) × (h ≤ broadcast_of (ip_to_long base) mask)
    → Joins base mask (long_to_ip h)
unfolding same_network
host-Joins base mask h le w =
    let (total, low, high, size, top, _) =
      range_of-block (ip_to_long base) mask le (ip_to_int-lt base) in
    let (n, b, _) = range_of-fields (ip_to_long base) mask in
    let lt : h < 2 ^ 32 = omega (arith, w.1, top, b) in
    let back = ip_to_int-int_to_ip h lt in
    (
      (==_iff _ _).1 (
          (network-broadcast (ip_to_long (long_to_ip h)) mask).0
          ∙ ap (λ x. network_of x mask) back
          ∙ (within_iff mask h (ip_to_long base) le lt (ip_to_int-lt base)).0 w
          ∙ sym (network-broadcast (ip_to_long base) mask).0),
      ap long_to_ip back,
    )

abbrev pub Kept : String → ℕ → List String → List String → Type 0
Kept base mask excluded ips = All (λ ip. Joins base mask ip × (has excluded ip ≡ false)) ips

block_order :
    (base : String) (mask : ℕ)
    → mask ≤ 32
    → network_of (ip_to_long base) mask ≤ broadcast_of (ip_to_long base) mask
block_order base mask le =
    let (total, low, high, _, _, _) =
      range_of-block (ip_to_long base) mask le (ip_to_int-lt base) in
    let (n, b, _) = range_of-fields (ip_to_long base) mask in omega (arith, low, high, n, b)

-- Every host that is left after the exclusions is in the network, and not excluded.
pub targets-Kept :
    (base : String) (mask : ℕ) (excluded : List String)
    → mask ≤ 32
    → Kept base mask excluded (
        without excluded
          (raw_ips mask (network_of (ip_to_long base) mask) (broadcast_of (ip_to_long base) mask)))
unfolding raw_ips
targets-Kept base mask excluded le =
    let n = network_of (ip_to_long base) mask in
    let b = broadcast_of (ip_to_long base) mask in
    without-All (Joins base mask) excluded (map long_to_ip (raw_hosts mask n b)) (
      All-map (Joins base mask) long_to_ip (raw_hosts mask n b) (
        All-weaken (λ h. (n ≤ h) × (h ≤ b)) (λ h. Joins base mask (long_to_ip h))
          (λ h w. host-Joins base mask h le w) (raw_hosts mask n b)
          (raw_hosts-All mask n b (block_order base mask le))))
