-- ===== src/Discovery/Cidr/Tests.antt =====
-- A scan of a /29 with one address excluded.
use infra_inventory.Prelude.{
  ℕ, some, arith, ◌≡◌, refl, List, [], ◌∷◌, String, All, append, starts_with, includes_text,
}
use infra_inventory.Prelude.Decimal.{
  trim, parse_int, split, join, trim_start, trim_end, is_space, read_signed, read_digits, is_digit,
  decimal, digit,
}
use infra_inventory.Ipv4.Address.{int_to_ip, push_octet, push_octets, ip_to_int}
use infra_inventory.Discovery.Cidr.{
  long_to_ip, netmask_of, mask_value, same_network, is_in_parts, is_ip_in_cidr, count_from, has,
  without, Targets, ok, err, Error, raw_hosts, raw_ips, limit_targets, targets_at, targets_of,
  parse_cidr_without, ips_of, range_ips, excluded_by, parse_excluded_ips, parse_cidr,
}
use infra_inventory.Store.Queries.{IsRow}
use infra_inventory.Discovery.Cidr.Complete.{Leaves, parse_cidr-returns}
use infra_inventory.Discovery.Cidr.Members.{IsHost}

unfolds : Unit {0}
unfolding split join trim_start trim_end is_space read_signed read_digits is_digit decimal digit
    append starts_with includes_text int_to_ip push_octet push_octets ip_to_int netmask_of
    mask_value same_network is_in_parts is_ip_in_cidr count_from has without raw_hosts raw_ips
    limit_targets targets_at targets_of parse_cidr_without ips_of range_ips excluded_by
    parse_excluded_ips parse_cidr
unfolds = tt

abbrev targets : Targets
targets = record {
  network = "10.0.0.8";
  mask = 29;
  ips = "10.0.0.9" ∷ "10.0.0.10" ∷ "10.0.0.14" ∷ [];
}

abbrev exclusions : List String
exclusions = "10.0.0.11-10.0.0.12" ∷ "10.0.0.13" ∷ []

too_wide : parse_cidr "10.0.0.0/15" [] ≡ err Error.invalid_mask
unfolding unfolds
too_wide = refl

parts : split 47 (trim "10.0.0.10/29") ≡ "10.0.0.10" ∷ "29" ∷ []
unfolding unfolds
parts = refl

mask_read : mask_value 16 (parse_int "29") ≡ some 29
unfolding unfolds
mask_read = refl

parse_cidr-returns_example :
    (t : Targets) × (parse_cidr "10.0.0.10/29" exclusions ≡ ok t)
    × (t.mask ≡ 29)
    × ((n : ℕ)
        → IsHost "10.0.0.10" 29 n
        → All (λ item. Leaves item (long_to_ip n)) exclusions
        → IsRow (long_to_ip n) t.ips)
parse_cidr-returns_example =
    parse_cidr-returns "10.0.0.10/29" "10.0.0.10" "29" 29 exclusions parts mask_read (omega arith)
