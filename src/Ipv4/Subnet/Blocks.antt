-- ===== src/Ipv4/Subnet/Blocks.antt =====
-- A subnet is an aligned block of 2 ^ (32 - prefix) addresses.
use Prim.Native.Nat.{bit_and, bit_or}
use infra_inventory.Prelude.{
  ℕ, ◌+◌, ◌-◌, ◌^◌, ◌≤◌, ◌<◌, ◌≡◌, refl, sym, ap, subst, ◌∙◌, ◌⊎◌, inl, inr, Bool, true, false,
  ◌&&◌, arith, ◌==◌, leb, below, below-at, Bool-cases, if◌then◌else◌,
}
use infra_inventory.Ipv4.Bits.{
  pow, ones, shl, shr, ones-pow, bit_and-shl, bit_and-ones, bit_or-ones, shl-shr, shr-lt,
  shl_block-lt,
}
use infra_inventory.Ipv4.Subnet.{
  mask_of, complement, Range, network_of, broadcast_of, next_address, previous_address, range_of,
  single_address, point_to_point, with_hosts,
}

prefix_test : ℕ → Bool
prefix_test p =
    mask_of p == shl (32 - p) (ones p)
    && complement (mask_of p) == ones (32 - p)
    && shl (32 - p) (pow p) == 2 ^ 32
    && 2 ^ (32 - p) == pow (32 - p)

prefixes_pass : below 33 prefix_test ≡ true
unfolding below prefix_test mask_of complement shl ones pow
prefixes_pass = refl

-- The mask, the wildcard and the size at a prefix, in terms of k = 32 - prefix.
abbrev Widths : ℕ → Type 0
Widths p =
    (mask_of p ≡ shl (32 - p) (ones p))
    × (complement (mask_of p) ≡ ones (32 - p))
    × (shl (32 - p) (pow p) ≡ 2 ^ 32)
    × (2 ^ (32 - p) ≡ pow (32 - p))

prefix-Widths : (p : ℕ) → p ≤ 32 → Widths p
unfolding prefix_test
prefix-Widths p h =
    let t : prefix_test p ≡ true = below-at 33 prefix_test p prefixes_pass (omega arith) in
    (ground arith, ground arith, ground arith, ground arith)

pub network_of-shl :
    (ip p : ℕ) → p ≤ 32 → ip < 2 ^ 32 → network_of ip p ≡ shl (32 - p) (shr (32 - p) ip)
unfolding network_of
network_of-shl ip p h lt =
    let (m, c, t, s) = prefix-Widths p h in
    ap (bit_and ip) m
    ∙ bit_and-shl (32 - p) ip (ones p)
    ∙ ap (shl (32 - p)) (bit_and-ones p (shr (32 - p) ip) (shr-lt (32 - p) p ip (omega arith)))

pub broadcast_of-shl :
    (ip p : ℕ)
    → p ≤ 32
    → ip < 2 ^ 32
    → broadcast_of ip p ≡ shl (32 - p) (shr (32 - p) ip) + ones (32 - p)
unfolding broadcast_of
broadcast_of-shl ip p h lt =
    let (m, c, t, s) = prefix-Widths p h in
    ap (λ n. bit_or n (complement (mask_of p))) (network_of-shl ip p h lt)
    ∙ ap (bit_or (shl (32 - p) (shr (32 - p) ip))) c
    ∙ bit_or-ones (32 - p) (shr (32 - p) ip)

pub range_of-fields :
    (ip p : ℕ)
    → ((range_of ip p).network ≡ network_of ip p)
      × ((range_of ip p).broadcast ≡ broadcast_of ip p)
      × ((range_of ip p).total ≡ 2 ^ (32 - p))
unfolding range_of
range_of-fields ip p = (ground arith, ground arith, ground arith)

-- The network address and the broadcast address bound a block of 2 ^ (32 - prefix) addresses
-- with the address in it; the block starts at a multiple of its size.
pub range_of-block :
    (ip p : ℕ)
    → p ≤ 32
    → ip < 2 ^ 32
    → let r = range_of ip p in
      (r.total ≡ 2 ^ (32 - p))
      × (r.network ≤ ip)
      × (ip ≤ r.broadcast)
      × (r.broadcast + 1 ≡ r.network + r.total)
      × (r.broadcast < 2 ^ 32)
      × ((q : ℕ) × (r.network ≡ shl (32 - p) q))
range_of-block ip p h lt =
    let (m, c, t, s) = prefix-Widths p h in
    let (low, high) = shl-shr (32 - p) ip in
    let n = network_of-shl ip p h lt in
    let b = broadcast_of-shl ip p h lt in
    let (rn, rb, rt) = range_of-fields ip p in
    (
      rt,
      omega (arith, rn, n),
      omega (arith, rb, b),
      omega (arith, rn, rb, rt, n, b, s, ones-pow (32 - p)),
      omega (
        arith,
        rb,
        b,
        shl_block-lt (32 - p) (shr (32 - p) ip) (pow p) (shr-lt (32 - p) p ip (omega (arith, t))),
      ),
      (shr (32 - p) ip, rn ∙ n),
    )

size_test : ℕ → Bool
size_test p = if leb p 30 then leb 4 (2 ^ (32 - p)) else 2 ^ (32 - p) == 33 - p

sizes_pass : below 33 size_test ≡ true
unfolding below size_test
sizes_pass = refl

sizes : (p : ℕ) → p ≤ 32 → ((p ≤ 30) × (4 ≤ 2 ^ (32 - p))) ⊎ ((31 ≤ p) × (2 ^ (32 - p) ≡ 33 - p))
unfolding size_test
sizes p h =
    let t : size_test p ≡ true = below-at 33 size_test p sizes_pass (omega arith) in
    elim (Bool-cases (leb p 30)) [
      | inl e ↦ inl (ground arith, ground arith)
      | inr e ↦ inr (ground arith, ground arith)
    ]

-- What `range_of-usable` states of a range at a prefix.
abbrev pub Usable : ℕ → Range → Type 0
Usable p r =
    (r.first_usable + r.usable ≡ r.last_usable + 1)
    × (0 < r.usable)
    × (r.gateway ≡ r.first_usable)
    × (((p ≤ 30) × (r.first_usable ≡ r.network + 1) × (r.last_usable + 1 ≡ r.broadcast))
        ⊎ ((31 ≤ p) × (r.first_usable ≡ r.network) × (r.last_usable ≡ r.broadcast)))

with_hosts-Usable :
    (p n b total : ℕ)
    → p ≤ 30
    → 4 ≤ total
    → b + 1 ≡ n + total
    → b < 2 ^ 32
    → Usable p (with_hosts n b total)
unfolding next_address previous_address
with_hosts-Usable p n b total h k e lt =
    (omega arith, omega arith, refl, inl (h, omega arith, omega arith))

range_of-wide :
    (ip p : ℕ)
    → p ≤ 30
    → range_of ip p ≡ with_hosts (network_of ip p) (broadcast_of ip p) (2 ^ (32 - p))
unfolding range_of
range_of-wide ip p h =
    let a : (p == 32) ≡ false = ground arith in
    let b : (p == 31) ≡ false = ground arith in rw a (rw b refl)

narrow-Usable :
    (p n b : ℕ)
    → 31 ≤ p
    → p ≤ 32
    → b + 1 ≡ n + (33 - p)
    → Usable p (if p == 32 then single_address n b (33 - p) else point_to_point n b (33 - p))
narrow-Usable p n b h k e = elim (Bool-cases (p == 32)) [
  | inl last ↦ rw last (refl, omega arith, refl, inr (h, refl, ground arith))
  | inr other ↦ rw other (ground arith, omega arith, refl, inr (h, refl, refl))
]

range_of-narrow :
    (ip p : ℕ)
    → 31 ≤ p
    → p ≤ 32
    → 2 ^ (32 - p) ≡ 33 - p
    → range_of ip p ≡ (
        if p == 32
        then single_address (network_of ip p) (broadcast_of ip p) (33 - p)
        else point_to_point (network_of ip p) (broadcast_of ip p) (33 - p))
unfolding range_of
range_of-narrow ip p h k e = rw e (elim (Bool-cases (p == 32)) [
  | inl last ↦ rw last refl
  | inr other ↦ let b : (p == 31) ≡ true = ground arith in rw other (rw b refl)
])

-- The usable addresses are the block without its first and last address, or the whole block when
-- the prefix is 31 or 32; `usableAddresses` counts them, and the gateway is the first of them. No
-- address wraps around.
pub range_of-Usable : (ip p : ℕ) → p ≤ 32 → ip < 2 ^ 32 → Usable p (range_of ip p)
range_of-Usable ip p h lt =
    let (_, _, _, size, top, _) = range_of-block ip p h lt in
    let (n, b, t) = range_of-fields ip p in
    elim (sizes p h) [
      | inl (wide, s) ↦ subst (Usable p) (sym (range_of-wide ip p wide)) (
          with_hosts-Usable p (network_of ip p) (broadcast_of ip p) (2 ^ (32 - p)) wide s
            (omega (arith, size, n, b, t)) (omega (arith, top, b)))
      | inr (narrow, s) ↦ subst (Usable p) (sym (range_of-narrow ip p narrow h s)) (
          narrow-Usable p (network_of ip p) (broadcast_of ip p) narrow h
            (omega (arith, size, n, b, t, s)))
    ]
