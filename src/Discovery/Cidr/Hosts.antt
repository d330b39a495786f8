-- ===== src/Discovery/Cidr/Hosts.antt =====
-- Which addresses a scan visits, and how many.
use infra_inventory.Prelude.{
  ℕ, ◌≤◌, ◌≡◌, refl, sym, ap, subst, ◌∙◌, inl, inr, Bool, true, false, Option, none, some, List, [],
  ◌∷◌, String, arith, ltb, if◌then◌else◌, Option-cases, ◌≢◌, All, All-weaken, length,
}
use infra_inventory.Prelude.Decimal.{ℤ, pos, negsuc, parse_int}
use infra_inventory.Ipv4.Subnet.{mask_of, complement, network_of, broadcast_of}
use infra_inventory.Discovery.Cidr.KeptHosts.{Joins, Kept, targets-Kept}
use infra_inventory.Discovery.Cidr.{
  ip_to_long, long_to_ip, netmask_of, mask_value, same_network, is_in_parts, has, without, Targets,
  too_many, ok, err, raw_ips, limit_targets, targets_at, targets_of,
}

targets_at-none :
    (base : String) (excluded : List String) (t : Targets) → targets_at base excluded none ≢ ok t
unfolding targets_at
targets_at-none base excluded t h = cc

-- A result with these targets.
abbrev Good : String → ℕ → List String → Targets → Type 0
Good base mask excluded t = Kept base mask excluded t.ips × (length t.ips ≤ 1024) × (t.mask ≡ mask)

ok_injective : (s t : Targets) → ok s ≡ ok t → s ≡ t
ok_injective s t h = cc

limited :
    (over : Bool) (base : String) (network mask : ℕ) (excluded ips : List String) (t : Targets)
    → ltb 1024 (length ips) ≡ over
    → Kept base mask excluded ips
    → (if over
        then err (too_many (length ips))
        else ok (record { network = long_to_ip network; mask = mask; ips = ips }))
      ≡ ok t
    → Good base mask excluded t
limited true base network mask excluded ips t e k h = absurd cc
limited false base network mask excluded ips t e k h =
    subst (Good base mask excluded)
      (ok_injective (record { network = long_to_ip network; mask = mask; ips = ips }) t h)
      (k, ground arith, refl)

pub mask_value-bounds :
    (least : ℕ) (o : Option ℤ) (mask : ℕ)
    → mask_value least o ≡ some mask
    → (least ≤ mask) × (mask ≤ 32) × (mask_value 0 o ≡ some mask)
unfolding mask_value
mask_value-bounds least none mask h = absurd cc
mask_value-bounds least (some (negsuc n)) mask h = absurd cc
mask_value-bounds least (some (pos n)) mask h = (ground arith, ground arith, ground arith)

abbrev pub block_ips : String → ℕ → List String
block_ips base mask =
    raw_ips mask (network_of (ip_to_long base) mask) (broadcast_of (ip_to_long base) mask)

pub targets_at-block :
    (base : String) (mask : ℕ) (excluded : List String)
    → targets_at base excluded (some mask)
      ≡ limit_targets
          (network_of (ip_to_long base) mask)
          mask
          (without excluded (block_ips base mask))
unfolding targets_at netmask_of network_of broadcast_of mask_of complement
targets_at-block base mask excluded = refl

limit_targets-Good :
    (base : String) (network mask : ℕ) (excluded ips : List String) (t : Targets)
    → Kept base mask excluded ips
    → limit_targets network mask ips ≡ ok t
    → Good base mask excluded t
unfolding limit_targets
limit_targets-Good base network mask excluded ips t k h =
    limited (ltb 1024 (length ips)) base network mask excluded ips t refl k h

targets_at-Good :
    (base : String) (mask : ℕ) (excluded : List String) (t : Targets)
    → mask ≤ 32
    → targets_at base excluded (some mask) ≡ ok t
    → Good base mask excluded t
targets_at-Good base mask excluded t le h =
    limit_targets-Good base (network_of (ip_to_long base) mask) mask excluded
      (without excluded (block_ips base mask)) t (targets-Kept base mask excluded le)
      (sym (targets_at-block base mask excluded) ∙ h)

-- What is kept, in terms of the text of the range.
abbrev pub Visits : List String → List String → Targets → Type 0
Visits excluded parts t =
    All
      (λ ip.
        (is_in_parts ip parts ≡ true)
        × (has excluded ip ≡ false)
        × (long_to_ip (ip_to_long ip) ≡ ip))
      t.ips
    × (length t.ips ≤ 1024)
    × (16 ≤ t.mask)
    × (t.mask ≤ 32)

pub targets_of-Visits :
    (excluded parts : List String) (t : Targets)
    → targets_of excluded parts ≡ ok t
    → Visits excluded parts t
unfolding targets_of is_in_parts
targets_of-Visits excluded [] t h = absurd cc
targets_of-Visits excluded (_ ∷ []) t h = absurd cc
targets_of-Visits excluded (_ ∷ _ ∷ _ ∷ _) t h = absurd cc
targets_of-Visits excluded (base ∷ bits ∷ []) t h =
    elim (Option-cases (mask_value 16 (parse_int bits))) [
      | inl e ↦ absurd (targets_at-none base excluded t (ap (targets_at base excluded) (sym e) ∙ h))
      | inr (mask, e) ↦
          let (low, high, same) = mask_value-bounds 16 (parse_int bits) mask e in
          let (kept, few, is) =
            targets_at-Good base mask excluded t high (ap (targets_at base excluded) (sym e) ∙ h) in
          (
            All-weaken (λ ip. Joins base mask ip × (has excluded ip ≡ false)) _
                (λ ip k. (ap (same_network ip base) same ∙ k.0.0, k.1, k.0.1)) t.ips kept,
            few,
            omega (arith, is, low),
            omega (arith, is, high),
          )
    ]
