-- ===== src/Ipam/Tests.antt =====
-- The addresses at concrete tables.
use infra_inventory.Prelude.{
  ◌≡◌, refl, true, Option, none, some, List, [], ◌∷◌, String, append, ap, ◌↔◌,
}
use infra_inventory.Prelude.Dict
use infra_inventory.Prelude.Decimal.{
  split, join, trim_start, trim_end, is_space, read_signed, read_digits, is_digit, decimal, digit,
}
use infra_inventory.Ipv4.Address.{int_to_ip, push_octet, push_octets, ip_to_int}
use infra_inventory.Ipv4.Subnet.{
  mask_of, complement, network_of, broadcast_of, next_address, previous_address, range_of,
  is_private, ip_class, octet_value, is_octet, all_octets, prefix_value, describe, check_address,
  check_parts, calculate_ipv4_subnet, is_within, is_ip_in_subnet,
}
use infra_inventory.Store.{Table, dict_table}
use infra_inventory.Store.InMemory.{list_queries, search, others, added}
use infra_inventory.Store.Queries.{Queries, countp}
use infra_inventory.Validators.{
  is_valid_ipv4, all_digits, value_of, char_count, is_octet_text, are_octets,
}
use infra_inventory.Ipam.{
  IpStatus, IpAddress, Network, CreateInput, UpdateInput, refused, fails, returns, ip_id,
  new_address, Desk, create_ip, update_ip, delete_ip, prepared, is_taken, or_text, match_network,
  network_for, new_status, status_after, raw_ip, updated, same_text, stored, set_primary_ip,
  set_or_stop, promoted, created, after_update, update_found, delete_found,
}
use infra_inventory.Ipam.Primaries.{primaries, records_of, create_ip-primaries, create_ip-torn}
use infra_inventory.Ipam.Conflicts.{
  group, machine_ids, includes, distinct, mark, report_marked, report_entries, detect_conflicts,
}
use infra_inventory.Ipam.Conflicts.Rows.{Clash}
use infra_inventory.Ipam.Conflicts.Clashes.{Tells, detect_conflicts_iff}

unfolds : Unit {0}
unfolding group machine_ids includes distinct report_marked report_entries detect_conflicts split
    join trim_start trim_end is_space read_signed read_digits is_digit decimal digit append
    int_to_ip push_octet push_octets ip_to_int mask_of complement network_of broadcast_of
    next_address previous_address range_of is_private ip_class octet_value is_octet all_octets
    prefix_value describe check_address check_parts calculate_ipv4_subnet is_within is_ip_in_subnet
    or_text all_digits value_of char_count is_octet_text are_octets is_valid_ipv4 match_network
    network_for new_status new_address status_after raw_ip updated same_text stored set_primary_ip
    set_or_stop promoted created prepared is_taken create_ip after_update update_found update_ip
    delete_found delete_ip countp search others added Dict.get Dict.set
unfolds = tt

abbrev db : Queries IpAddress ip_id
db = list_queries IpAddress ip_id

abbrev machines : Table (Option String)
machines = dict_table (Option String)

abbrev old_address : IpAddress
old_address = record {
  id = "a1";
  address = "10.0.0.1";
  status = IpStatus.assigned;
  is_primary = true;
  machine_id = some "m1";
  interface_id = none;
  network_id = some "n1";
}

abbrev nets : List Network
nets =
    record { id = "n0"; cidr = "192.168.0.0/16" } ∷ record { id = "n1"; cidr = "10.0.0.0/8" } ∷ []

abbrev desk : Desk db machines
desk = record { addresses = old_address ∷ []; primary_ips = ("m1", some "10.0.0.1") ∷ [] }

abbrev asked : CreateInput
asked = record {
  address = some " 10.0.0.2 ";
  ip = "10.0.0.2";
  status = none;
  is_primary = true;
  machine_id = some "m1";
  interface_id = none;
  network_id = none;
}

abbrev second : IpAddress
second = record {
  id = "a2";
  address = "10.0.0.2";
  status = IpStatus.assigned;
  is_primary = true;
  machine_id = some "m1";
  interface_id = none;
  network_id = some "n1";
}

abbrev moving : UpdateInput
moving = record {
  address = none;
  ip = none;
  status = none;
  is_primary = none;
  machine_id = some (some "m2");
  interface_id = none;
  network_id = none;
}

creates : (create_ip db machines "a2" asked nets desk).0 ≡ returns second
unfolding unfolds
creates = refl

-- A primary address that moves to another machine stays marked.
moves :
    (update_ip db machines "a1" moving desk).0
    ≡ returns (record old_address { machine_id = some "m2" })
unfolding unfolds
moves = refl

deletes : (delete_ip db machines "a1" desk).1 ≡ record desk { addresses = [] }
unfolding unfolds
deletes = refl

create_ip-primaries_example :
    (primaries db machines (some "m1") (create_ip db machines "a2" asked nets desk).1 ≡ 1)
    × (machines.find "m1" (create_ip db machines "a2" asked nets desk).1.primary_ips
        ≡ some (some "10.0.0.2"))
create_ip-primaries_example =
    create_ip-primaries db machines "a2" asked nets desk second refl creates

-- The id is that of a row already.
create_ip-torn_example :
    ((create_ip db machines "a1" asked nets desk).0 ≡ fails refused)
    × (primaries db machines (some "m1") (create_ip db machines "a1" asked nets desk).1 ≡ 0)
    × (machines.find "m1" (create_ip db machines "a1" asked nets desk).1.primary_ips
        ≡ some (some "10.0.0.2"))
    × (records_of db machines "10.0.0.2" (create_ip db machines "a1" asked nets desk).1
        ≡ records_of db machines "10.0.0.2" desk)
unfolding unfolds
create_ip-torn_example = create_ip-torn db machines "a1" asked nets desk refl refl refl refl refl

abbrev stray : IpAddress
stray = record old_address { id = "a3"; machine_id = some "m2" }

-- Both records are marked.
detects : detect_conflicts db (old_address ∷ stray ∷ []) (old_address ∷ stray ∷ []) ≡ (
  some (record { ip = "10.0.0.1"; count = 2; machines = "m1" ∷ "m2" ∷ [] } ∷ []),
  mark old_address ∷ mark stray ∷ [],
)
unfolding unfolds
detects = refl

detect_conflicts_iff_example :
    Tells (record { ip = "10.0.0.1"; count = 2; machines = "m1" ∷ "m2" ∷ [] } ∷ []) "10.0.0.1"
    ↔ Clash (old_address ∷ stray ∷ []) "10.0.0.1"
detect_conflicts_iff_example =
    detect_conflicts_iff db (old_address ∷ stray ∷ []) (old_address ∷ stray ∷ [])
      (record { ip = "10.0.0.1"; count = 2; machines = "m1" ∷ "m2" ∷ [] } ∷ [])
      (ap (λ r. r.0) detects) "10.0.0.1"
