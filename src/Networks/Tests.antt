-- ===== src/Networks/Tests.antt =====
-- Networks at a concrete table.
use infra_inventory.Prelude.{◌≡◌, refl, none, some, List, [], ◌∷◌, append}
use infra_inventory.Prelude.Decimal.{
  split, join, trim_start, trim_end, is_space, read_signed, read_digits, is_digit, decimal, digit,
}
use infra_inventory.Ipv4.Address.{int_to_ip, push_octet, push_octets, ip_to_int}
use infra_inventory.Ipv4.Subnet.{
  mask_of, complement, network_of, broadcast_of, next_address, previous_address, range_of,
  is_private, ip_class, octet_value, is_octet, all_octets, prefix_value, describe, check_address,
  check_parts, calculate_ipv4_subnet,
}
use infra_inventory.Validators.{
  all_digits, value_of, char_count, is_octet_text, are_octets, is_prefix_text,
  is_address_and_prefix, is_valid_cidr,
}
use infra_inventory.Store.InMemory.{list_queries, search, others, added}
use infra_inventory.Store.Queries.{Queries, countp}
use infra_inventory.Store.Always.{Holds}
use infra_inventory.Networks.{
  Network, CreateInput, UpdateInput, Error, fails, returns, network_id, new_network, updated, moved,
  stored, create_with, create_network, write, update_with, update_network, delete_found,
  delete_network,
}
use infra_inventory.Networks.Blocks.{
  Call, creates, updates, deletes, is_block, step, run, run-is_block,
}

unfolds : Unit {0}
unfolding split join trim_start trim_end is_space read_signed read_digits is_digit decimal digit
    append int_to_ip push_octet push_octets ip_to_int mask_of complement network_of broadcast_of
    next_address previous_address range_of is_private ip_class octet_value is_octet all_octets
    prefix_value describe check_address check_parts calculate_ipv4_subnet all_digits value_of
    char_count is_octet_text are_octets is_prefix_text is_address_and_prefix is_valid_cidr search
    others added countp new_network updated moved stored create_with create_network write
    update_with update_network delete_found delete_network step run
unfolds = tt

abbrev db : Queries Network network_id
db = list_queries Network network_id

abbrev asked : CreateInput
asked = record { name = "LAN"; cidr = "192.168.10.5/24"; gateway = none }

abbrev lan : Network
lan = record {
  id = "n1";
  name = "LAN";
  cidr = "192.168.10.0/24";
  network_address = "192.168.10.0";
  broadcast_address = "192.168.10.255";
  gateway = some "192.168.10.1";
}

creates_lan : create_network db "n1" asked [] ≡ (returns lan, lan ∷ [])
unfolding unfolds
creates_lan = refl

-- The test allows a zero in front that the calculator does not.
leading_zero :
    create_network db "n1" (record asked { cidr = "192.168.010.5/24" }) []
    ≡ (fails Error.not_calculated, [])
unfolding unfolds
leading_zero = refl

no_prefix :
    create_network db "n1" (record asked { cidr = "192.168.10.5" }) []
    ≡ (fails Error.invalid_cidr, [])
unfolding unfolds
no_prefix = refl

abbrev emptied : UpdateInput
emptied = record { name = none; cidr = some ""; gateway = none }

-- A text of spaces passes the schema and is trimmed to nothing: it is not tested, but stored.
stores_nothing :
    update_network db "n1" emptied (lan ∷ [])
    ≡ (returns (record lan { cidr = "" }), record lan { cidr = "" } ∷ [])
unfolding unfolds
stores_nothing = refl

abbrev history : List Call
history =
    creates "n1" asked
    ∷ updates "n1" (record { name = none; cidr = some "10.0.0.0/30"; gateway = some none })
    ∷ creates "n2" (record asked { cidr = "172.16.0.0/12" })
    ∷ deletes "n1"
    ∷ []

nothing_wrong : Holds is_block []
unfolding countp
nothing_wrong = refl

run-is_block_example : Holds is_block (run db history [])
run-is_block_example = run-is_block db history [] nothing_wrong
