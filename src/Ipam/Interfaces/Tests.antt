-- ===== src/Ipam/Interfaces/Tests.antt =====
-- Interfaces at concrete tables.
use infra_inventory.Prelude.{◌≤◌, ◌≡◌, refl, Option, none, some, [], ◌∷◌, String, append}
use infra_inventory.Prelude.Dict
use infra_inventory.Prelude.Decimal.{
  split, join, trim_start, trim_end, is_space, read_signed, read_digits, is_digit, decimal, digit,
}
use infra_inventory.Ipv4.Address.{int_to_ip, push_octet, push_octets, ip_to_int}
use infra_inventory.Ipv4.Subnet.{
  mask_of, complement, network_of, broadcast_of, next_address, previous_address, range_of,
  is_private, ip_class, octet_value, is_octet, all_octets, prefix_value, describe, check_address,
  check_parts, calculate_ipv4_subnet, is_within, is_ip_in_subnet,
}
use infra_inventory.Store.{Table, dict_table}
use infra_inventory.Store.InMemory.{list_queries, search, others, added}
use infra_inventory.Store.Queries.{Queries, countp}
use infra_inventory.Validators.{
  is_valid_ipv4, all_digits, value_of, char_count, is_octet_text, are_octets,
}
use infra_inventory.Ipam.{
  IpAddress, ip_id, new_address, create_ip, update_ip, delete_ip, prepared, is_taken, or_text,
  match_network, network_for, new_status, status_after, raw_ip, updated, same_text, stored,
  set_primary_ip, set_or_stop, promoted, created, after_update,
}
use infra_inventory.Ipam.Conflicts.{
  group, machine_ids, includes, distinct, report_marked, report_entries, detect_conflicts,
}
use infra_inventory.Validators.{is_hex, are_hex_pairs, is_valid_mac}
use infra_inventory.Ipam.Interfaces.{
  Interface, InterfaceInput, FaceUpdate, invalid_mac, invalid_ip, stopped, attached, interface_id,
  new_interface, address_input, Site, addressed, with_address, created_interface, create_interface,
  stored_interface, delete_found, delete_interface, updated_interface, update_found,
  update_interface,
}
use infra_inventory.Ipam.Interfaces.Recorded.{is_on, create_interface-is_on}

unfolds : Unit {0}
unfolding is_hex are_hex_pairs is_valid_mac new_interface address_input addressed with_address
    created_interface create_interface stored_interface updated_interface update_interface
    delete_interface group machine_ids includes distinct report_marked report_entries
    detect_conflicts split join trim_start trim_end is_space read_signed read_digits is_digit
    decimal digit append int_to_ip push_octet push_octets ip_to_int mask_of complement network_of
    broadcast_of next_address previous_address range_of is_private ip_class octet_value is_octet
    all_octets prefix_value describe check_address check_parts calculate_ipv4_subnet is_within
    is_ip_in_subnet or_text all_digits value_of char_count is_octet_text are_octets is_valid_ipv4
    match_network network_for new_status new_address status_after raw_ip updated same_text stored
    set_primary_ip set_or_stop promoted created prepared is_taken create_ip after_update update_ip
    delete_ip countp search others added Dict.get Dict.set
unfolds = tt

abbrev faces : Queries Interface interface_id
faces = list_queries Interface interface_id

abbrev db : Queries IpAddress ip_id
db = list_queries IpAddress ip_id

abbrev machines : Table (Option String)
machines = dict_table (Option String)

abbrev site : Site faces db machines
site = record { interfaces = []; desk = record { addresses = []; primary_ips = ("m1", none) ∷ [] } }

abbrev asked : InterfaceInput
asked = record {
  machine_id = "m1";
  name = "eth0";
  mac_address = some "00:1A-2b:3c:4d:5e";
  ip_address = some " 10.0.0.1";
}

abbrev eth : Interface
eth = record { id = "i1"; machine_id = "m1"; name = "eth0"; mac_address = some "00:1A-2b:3c:4d:5e" }

creates : (create_interface faces db machines "i1" "a1" asked [] site).0 ≡ attached eth
unfolding unfolds
creates = refl

-- The interface stays when its address is refused.
leaves_interface :
    create_interface faces db machines "i1" "a1"
      (record asked { ip_address = some "10.0.0" })
      []
      site
    ≡ (stopped invalid_ip, record site { interfaces = eth ∷ [] })
unfolding unfolds
leaves_interface = refl

short_mac :
    (create_interface faces db machines "i1" "a1"
      (record asked { mac_address = some "00:1A:2b:3c:4d" })
      []
      site).0
    ≡ stopped invalid_mac
unfolding unfolds
short_mac = refl

abbrev renaming : FaceUpdate
renaming = record { name = some "eth1"; mac_address = none }

renames :
    (update_interface faces db machines "i1" renaming
      (record site { interfaces = eth ∷ [] })).1.interfaces
    ≡ record eth { name = "eth1" } ∷ []
unfolding unfolds updated_interface update_interface update_found stored_interface
renames = refl

deletes :
    (delete_interface faces db machines "i1" (record site { interfaces = eth ∷ [] })).1.interfaces
    ≡ []
unfolding unfolds delete_interface delete_found stored_interface
deletes = refl

create_interface-is_on_example :
    1
    ≤ countp
        (is_on "10.0.0.1" "i1")
        (create_interface faces db machines "i1" "a1" asked [] site).1.desk.addresses
unfolding unfolds
create_interface-is_on_example =
    create_interface-is_on faces db machines "i1" "a1" asked [] site eth refl creates
