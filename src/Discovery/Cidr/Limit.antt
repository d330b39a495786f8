-- ===== src/Discovery/Cidr/Limit.antt =====
-- A range of at most 1024 addresses is never refused.
use infra_inventory.Prelude.{
  ℕ, zero, suc, ◌+◌, ◌-◌, ◌≤◌, ◌<◌, ◌^◌, ◌≡◌, refl, ap, ◌∙◌, inl, inr, Bool, true, false, ◌||◌,
  some, List, [], ◌∷◌, map, String, arith, ltb, leb, ◌==◌, Bool-cases, length, below, below-at,
}
use infra_inventory.Prelude.Decimal.{parse_int}
use infra_inventory.Ipv4.Address.Dotted.{ip_to_int-lt}
use infra_inventory.Ipv4.Subnet.{network_of, broadcast_of}
use infra_inventory.Ipv4.Subnet.Blocks.{range_of-block, range_of-fields}
use infra_inventory.Discovery.Cidr.Hosts.{block_ips, targets_at-block, mask_value-bounds}
use infra_inventory.Discovery.Cidr.{
  ip_to_long, long_to_ip, mask_value, count_from, has, without, ok, raw_hosts, raw_ips,
  limit_targets, targets_at, targets_of,
}

length-without : (excluded ips : List String) → length (without excluded ips) ≤ length ips
unfolding without
length-without excluded [] = omega arith
length-without excluded (ip ∷ ips) = elim (Bool-cases (has excluded ip)) [
  | inl out ↦ rw out (omega (arith, length-without excluded ips))
  | inr stays ↦ rw stays (omega (arith, length-without excluded ips))
]

length-count_from : (start count : ℕ) → length (count_from start count) ≡ count
unfolding count_from
length-count_from start zero = refl
length-count_from start (suc count) = omega (arith, length-count_from (suc start) count)

length-map : (f : ℕ → String) (xs : List ℕ) → length (map f xs) ≡ length xs
length-map f [] = refl
length-map f (x ∷ xs) = omega (arith, length-map f xs)

length-raw_hosts : (mask n b : ℕ) → b < n + 1024 → length (raw_hosts mask n b) ≤ 1024
unfolding raw_hosts
length-raw_hosts mask n b h = elim (Bool-cases (mask == 32)) [
  | inl single ↦ rw single (omega arith)
  | inr other ↦ elim (Bool-cases (mask == 31)) [
    | inl pair ↦ rw other (rw pair (omega arith))
    | inr wide ↦ rw other (rw wide (omega (arith, length-count_from (n + 1) (b - (n + 1)))))
  ]
]

small_test : ℕ → Bool
small_test mask = ltb mask 22 || leb (2 ^ (32 - mask)) 1024

small_pass : below 33 small_test ≡ true
unfolding below small_test
small_pass = refl

small : (mask : ℕ) → 22 ≤ mask → mask ≤ 32 → 2 ^ (32 - mask) ≤ 1024
unfolding small_test
small mask h k =
    let t : small_test mask ≡ true = below-at 33 small_test mask small_pass (omega arith) in
    ground arith

block_ips-length :
    (base : String) (mask : ℕ) → 22 ≤ mask → mask ≤ 32 → length (block_ips base mask) ≤ 1024
unfolding raw_ips
block_ips-length base mask h k =
    let (total, low, high, size, top, _) =
      range_of-block (ip_to_long base) mask k (ip_to_int-lt base) in
    let (n, b, t) = range_of-fields (ip_to_long base) mask in
    let net = network_of (ip_to_long base) mask in
    let broad = broadcast_of (ip_to_long base) mask in
    omega (
      arith,
      length-map long_to_ip (raw_hosts mask net broad),
      length-raw_hosts mask net broad (omega (arith, size, n, b, t, small mask h k)),
    )

limit_targets-ok :
    (network mask : ℕ) (ips : List String)
    → length ips ≤ 1024
    → limit_targets network mask ips
      ≡ ok (record { network = long_to_ip network; mask = mask; ips = ips })
unfolding limit_targets
limit_targets-ok network mask ips h =
    let few : ltb 1024 (length ips) ≡ false = ground arith in rw few refl

-- A range with a mask between 22 and 32 is within the limit.
pub targets_of-returns :
    (excluded : List String) (base bits : String) (mask : ℕ)
    → mask_value 16 (parse_int bits) ≡ some mask
    → 22 ≤ mask
    → targets_of excluded (base ∷ bits ∷ [])
      ≡ ok (record {
        network = long_to_ip (network_of (ip_to_long base) mask);
        mask = mask;
        ips = without excluded (block_ips base mask);
      })
unfolding targets_of
targets_of-returns excluded base bits mask value h =
    let (_, k, _) = mask_value-bounds 16 (parse_int bits) mask value in
    ap (targets_at base excluded) value
    ∙ targets_at-block base mask excluded
    ∙ limit_targets-ok (network_of (ip_to_long base) mask) mask
        (without excluded (block_ips base mask))
        (omega
          (arith, length-without excluded (block_ips base mask), block_ips-length base mask h k))
