-- ===== src/Discovery/Cidr/Complete.antt =====
-- A scan of a range of at most 1024 addresses visits every host that the exclusions leave.
use infra_inventory.Prelude.{
  ℕ, zero, suc, ◌+◌, ◌-◌, ◌≤◌, ◌<◌, ◌^◌, ◌≡◌, ◌≢◌, ◌∙◌, refl, sym, ap, subst, inl, inr, Bool, true,
  false, not, ◌&&◌, some, List, [], ◌∷◌, map, String, arith, eq_iff, str_eq, str_eq_ne, leb,
  Bool-cases, if◌then◌else◌, includes_text, All,
}
use infra_inventory.Prelude.Decimal.{parse_int, split, trim}
use infra_inventory.Ipv4.Address.Dotted.{ip_to_int-lt, ip_to_int-int_to_ip}
use infra_inventory.Ipv4.Subnet.{network_of}
use infra_inventory.Ipv4.Subnet.Blocks.{range_of-block, range_of-fields}
use infra_inventory.Store.Queries.{IsRow}
use infra_inventory.Discovery.Cidr.Hosts.{block_ips, mask_value-bounds, targets_of-Visits}
use infra_inventory.Discovery.Cidr.Limit.{targets_of-returns}
use infra_inventory.Discovery.Cidr.Members.{IsHost, has-append, block_ips-has}
use infra_inventory.Discovery.Cidr.{
  ip_to_long, long_to_ip, mask_value, count_from, has, without, Targets, ok, err, Result,
  is_in_parts, is_ip_in_cidr, ips_of, range_ips, excluded_by, targets_of, parse_cidr_without,
  parse_excluded_ips, parse_cidr,
}

-- An entry of the exclusions does not concern the address: it is not that address, nor two ends with
-- the address between them, nor a range with the address in it.
abbrev pub Leaves : String → String → Type 0
Leaves item ip =
    (trim item ≢ ip)
    × ((first last : String) (rest : List String)
        → split 45 (trim item) ≡ first ∷ last ∷ rest
        → ip_to_long (trim first) ≤ ip_to_long ip
        → ip_to_long (trim last) < ip_to_long ip)
    × (is_ip_in_cidr ip (trim item) ≡ false)

has-count_from :
    (start count n : ℕ)
    → n < 2 ^ 32
    → start + count ≤ 2 ^ 32
    → (start ≤ n → start + count ≤ n)
    → has (map long_to_ip (count_from start count)) (long_to_ip n) ≡ false
unfolding has count_from
has-count_from start zero n lt top out = refl
has-count_from start (suc count) n lt top out =
    rw
      (
        str_eq_ne (long_to_ip start) (long_to_ip n) apart,
        has-count_from (suc start) count n lt (omega arith) (λ h. omega (arith, out (omega arith))),
      )
      refl
  where
    apart : long_to_ip start ≢ long_to_ip n
    apart e =
        let same : start ≡ n =
          sym (ip_to_int-int_to_ip start (omega arith))
          ∙ ap ip_to_long e
          ∙ ip_to_int-int_to_ip n lt in
        absurd (omega (arith, same, out (omega (arith, same))))

has-All :
    (parts ips : List String) (ip : String)
    → is_in_parts ip parts ≡ false
    → All
        (λ x. (is_in_parts x parts ≡ true) × (has [] x ≡ false) × (long_to_ip (ip_to_long x) ≡ x))
        ips
    → has ips ip ≡ false
unfolding has
has-All parts [] ip out all = refl
has-All parts (x ∷ xs) ip out (here, rest) =
    rw
      (
        str_eq_ne x ip (λ e. clash (here.0) (ap (λ y. is_in_parts y parts) e ∙ out)),
        has-All parts xs ip out rest,
      )
      refl
  where
    clash : {b : Bool} → b ≡ true → b ≡ false → ⊥
    clash h k = cc

has-ips_of :
    (parts : List String) (ip : String) (r : Result)
    → targets_of [] parts ≡ r
    → is_in_parts ip parts ≡ false
    → has (ips_of r) ip ≡ false
unfolding ips_of has
has-ips_of parts ip (err e) h out = refl
has-ips_of parts ip (ok t) h out = has-All parts t.ips ip out (targets_of-Visits [] parts t h).0

has-range_ips :
    (parts : List String) (n : ℕ)
    → n < 2 ^ 32
    → ((first last : String) (rest : List String)
        → parts ≡ first ∷ last ∷ rest
        → ip_to_long (trim first) ≤ ip_to_long (long_to_ip n)
        → ip_to_long (trim last) < ip_to_long (long_to_ip n))
    → has (range_ips parts) (long_to_ip n) ≡ false
unfolding range_ips has
has-range_ips [] n lt out = refl
has-range_ips (x ∷ []) n lt out = refl
has-range_ips (first ∷ last ∷ rest) n lt out =
    by_test
      (not (str_eq (trim first) "")
        && not (str_eq (trim last) "")
        && leb (ip_to_long (trim first)) (ip_to_long (trim last))
        && leb (ip_to_long (trim last) - ip_to_long (trim first)) 256)
      (λ e.
        fourth (not (str_eq (trim first) "")) (not (str_eq (trim last) ""))
          (ip_to_long (trim first)) (ip_to_long (trim last))
          (leb (ip_to_long (trim last) - ip_to_long (trim first)) 256) e)
  where
    fourth : (a b : Bool) (f l : ℕ) (c : Bool) → a && b && leb f l && c ≡ true → f ≤ l
    fourth a b f l c e = ground arith

    by_test :
        (b : Bool)
        → (b ≡ true → ip_to_long (trim first) ≤ ip_to_long (trim last))
        → has
            (if b
              then map long_to_ip (
                  count_from
                    (ip_to_long (trim first))
                    (suc (ip_to_long (trim last) - ip_to_long (trim first))))
              else [])
            (long_to_ip n)
          ≡ false
    by_test false order = refl
    by_test true order =
        let le = order refl in
        let high = ip_to_int-lt (trim last) in
        has-count_from (ip_to_long (trim first))
          (suc (ip_to_long (trim last) - ip_to_long (trim first))) n lt (omega arith)
          (λ low. omega (
            arith,
            ip_to_int-int_to_ip n lt,
            out first last rest refl (omega (arith, ip_to_int-int_to_ip n lt, low)),
          ))

excluded_by-Leaves :
    (item : String) (n : ℕ)
    → n < 2 ^ 32
    → Leaves item (long_to_ip n)
    → has (excluded_by item) (long_to_ip n) ≡ false
unfolding excluded_by has parse_cidr_without is_ip_in_cidr
excluded_by-Leaves item n lt (other, beyond, outside) =
    by_tests (str_eq (trim item) "") (includes_text (trim item) "-") (includes_text (trim item) "/")
      (range_ips (split 45 (trim item))) (ips_of (targets_of [] (split 47 (trim (trim item)))))
      (has-range_ips (split 45 (trim item)) n lt beyond)
      (has-ips_of (split 47 (trim (trim item))) (long_to_ip n) _ refl outside)
  where
    by_tests :
        (a b c : Bool) (xs ys : List String)
        → has xs (long_to_ip n) ≡ false
        → has ys (long_to_ip n) ≡ false
        → has (if a then [] else if b then xs else if c then ys else trim item ∷ []) (long_to_ip n)
          ≡ false
    by_tests true b c xs ys hx hy = refl
    by_tests false true c xs ys hx hy = hx
    by_tests false false true xs ys hx hy = hy
    by_tests false false false xs ys hx hy = rw (str_eq_ne (trim item) (long_to_ip n) other) refl

parse_excluded_ips-Leaves :
    (items : List String) (n : ℕ)
    → n < 2 ^ 32
    → All (λ item. Leaves item (long_to_ip n)) items
    → has (parse_excluded_ips items) (long_to_ip n) ≡ false
unfolding parse_excluded_ips has
parse_excluded_ips-Leaves [] n lt all = refl
parse_excluded_ips-Leaves (item ∷ items) n lt (here, rest) =
    has-append (excluded_by item) (parse_excluded_ips items) (long_to_ip n)
    ∙ rw (excluded_by-Leaves item n lt here, parse_excluded_ips-Leaves items n lt rest) refl

without-row :
    (excluded ips : List String) (ip : String)
    → has ips ip ≡ true
    → has excluded ip ≡ false
    → IsRow ip (without excluded ips)
unfolding without has
without-row excluded [] ip h out = absurd cc
without-row excluded (x ∷ xs) ip h out = elim (Bool-cases (str_eq x ip)) [
  | inl same ↦
      let kept : has excluded x ≡ false =
        subst (λ y. has excluded y ≡ false) (sym ((eq_iff x ip).0 same)) out in
      rw kept (inl ((eq_iff x ip).0 same))
  | inr differs ↦
      let row = without-row excluded xs ip (rw differs at h) out in
      elim (Bool-cases (has excluded x)) [ inl gone ↦ rw gone row | inr kept ↦ rw kept (inr row) ]
]

-- `parseCidr` returns for every range of a base and a mask between 22 and 32, whatever the exclusions
-- are, with that mask; and it visits every host of the block, its first and its last address left
-- out unless the mask is 31 or 32, that no entry of the exclusions concerns.
pub parse_cidr-returns :
    (cidr base bits : String) (mask : ℕ) (exclusions : List String)
    → split 47 (trim cidr) ≡ base ∷ bits ∷ []
    → mask_value 16 (parse_int bits) ≡ some mask
    → 22 ≤ mask
    → (t : Targets) × (parse_cidr cidr exclusions ≡ ok t)
      × (t.mask ≡ mask)
      × ((n : ℕ)
          → IsHost base mask n
          → All (λ item. Leaves item (long_to_ip n)) exclusions
          → IsRow (long_to_ip n) t.ips)
unfolding parse_cidr parse_cidr_without
parse_cidr-returns cidr base bits mask exclusions parts value h =
    let excluded = parse_excluded_ips exclusions in
    let (_, le, _) = mask_value-bounds 16 (parse_int bits) mask value in
    (
      record {
        network = long_to_ip (network_of (ip_to_long base) mask);
        mask = mask;
        ips = without excluded (block_ips base mask);
      },
      ap (targets_of excluded) parts ∙ targets_of-returns excluded base bits mask value h,
      refl,
      λ n host left.
          without-row excluded (block_ips base mask) (long_to_ip n)
            (block_ips-has base mask n le host)
            (parse_excluded_ips-Leaves exclusions n (host_lt le n host) left),
    )
  where
    host_lt : mask ≤ 32 → (n : ℕ) → IsHost base mask n → n < 2 ^ 32
    host_lt le n (_, high, _) =
        let (_, _, _, _, top, _) = range_of-block (ip_to_long base) mask le (ip_to_int-lt base) in
        let (_, l, _) = range_of-fields (ip_to_long base) mask in omega (arith, high, top, l)
