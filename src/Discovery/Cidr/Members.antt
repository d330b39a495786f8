-- ===== src/Discovery/Cidr/Members.antt =====
-- The hosts of a block, and that the list of a block has them.
use infra_inventory.Prelude.{
  ℕ, zero, suc, ◌+◌, ◌-◌, ◌≤◌, ◌<◌, ◌^◌, ◌≡◌, refl, ap, subst, inl, inr, true, ◌||◌, List, [], ◌∷◌,
  ◌++◌, map, String, arith, eq_iff, ◌==◌, ==_iff, Bool-cases,
}
use infra_inventory.Ipv4.Address.Dotted.{ip_to_int-lt}
use infra_inventory.Ipv4.Subnet.{network_of, broadcast_of}
use infra_inventory.Ipv4.Subnet.Blocks.{range_of-block, range_of-fields}
use infra_inventory.Store.Queries.{IsRow}
use infra_inventory.Discovery.Cidr.Hosts.{block_ips}
use infra_inventory.Discovery.Cidr.{ip_to_long, long_to_ip, count_from, has, raw_hosts, raw_ips}

-- A host of the block of a base and a mask: not its first and its last address, unless the mask is 31
-- or 32.
abbrev pub IsHost : String → ℕ → ℕ → Type 0
IsHost base mask n =
    let first : ℕ = network_of (ip_to_long base) mask in
    let last : ℕ = broadcast_of (ip_to_long base) mask in
    (first ≤ n) × (n ≤ last) × (mask ≤ 30 → (first < n) × (n < last))

pub has-append : (xs ys : List String) (s : String) → has (xs ++ ys) s ≡ has xs s || has ys s
unfolding has
has-append [] ys s = refl
has-append (x ∷ xs) ys s = ground (arith, has-append xs ys s)

pub count_from-row :
    (start count n : ℕ) → start ≤ n → n < start + count → IsRow n (count_from start count)
unfolding count_from
count_from-row start zero n low high = absurd (omega arith)
count_from-row start (suc count) n low high = elim (Bool-cases (start == n)) [
  | inl e ↦ inl ((==_iff start n).0 e)
  | inr e ↦ inr (count_from-row (suc start) count n (ground (arith, ==_iff start n)) (omega arith))
]

pub has-map : (n : ℕ) (xs : List ℕ) → IsRow n xs → has (map long_to_ip xs) (long_to_ip n) ≡ true
unfolding has
has-map n [] row = absurd row
has-map n (x ∷ xs) (inl e) = rw ((eq_iff (long_to_ip x) (long_to_ip n)).1 (ap long_to_ip e)) refl
has-map n (x ∷ xs) (inr row) = ground (arith, has-map n xs row)

raw_hosts-row :
    (mask first last n : ℕ)
    → mask ≤ 32
    → first + 2 ^ (32 - mask) ≡ last + 1
    → first ≤ n
    → n ≤ last
    → (mask ≤ 30 → (first < n) × (n < last))
    → IsRow n (raw_hosts mask first last)
unfolding raw_hosts
raw_hosts-row mask first last n le size low high inner = elim (Bool-cases (mask == 32)) [
  | inl single ↦ rw single (inl (omega (arith, one_address ((==_iff mask 32).0 single))))
  | inr other ↦ elim (Bool-cases (mask == 31)) [
    | inl pair ↦ rw other (rw pair (ends ((==_iff mask 31).0 pair)))
    | inr wide ↦
        let k : mask ≤ 30 = ground (arith, ==_iff mask 32, ==_iff mask 31) in
        let (above, below_) = inner k in
        rw other
          (rw wide (count_from-row (first + 1) (last - (first + 1)) n (omega arith) (omega arith)))
  ]
]
  where
    one_address : mask ≡ 32 → first + 1 ≡ last + 1
    one_address e = subst (λ m. first + 2 ^ (32 - m) ≡ last + 1) e size

    two_addresses : mask ≡ 31 → first + 2 ≡ last + 1
    two_addresses e = subst (λ m. first + 2 ^ (32 - m) ≡ last + 1) e size

    ends : mask ≡ 31 → IsRow n (first ∷ last ∷ [])
    ends e = elim (Bool-cases (first == n)) [
      | inl here ↦ inl ((==_iff first n).0 here)
      | inr other ↦ inr (inl (ground (arith, ==_iff first n, two_addresses e)))
    ]

pub block_ips-has :
    (base : String) (mask n : ℕ)
    → mask ≤ 32
    → IsHost base mask n
    → has (block_ips base mask) (long_to_ip n) ≡ true
unfolding raw_ips
block_ips-has base mask n le (low, high, inner) =
    let (total, _, _, size, _, _) = range_of-block (ip_to_long base) mask le (ip_to_int-lt base) in
    let (f, l, t) = range_of-fields (ip_to_long base) mask in
    has-map n
      (raw_hosts mask (network_of (ip_to_long base) mask) (broadcast_of (ip_to_long base) mask))
      (raw_hosts-row mask (network_of (ip_to_long base) mask) (broadcast_of (ip_to_long base) mask)
        n le (omega (arith, size, f, l, t, total)) low high inner)
