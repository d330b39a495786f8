-- ===== src/Discovery/Classifier/Tests.antt =====
-- The classifier at concrete evidence.
use infra_inventory.Prelude.{
  ◌≡◌, refl, none, some, List, [], ◌∷◌, includes_text, starts_with, substring, append,
}
use infra_inventory.Prelude.Decimal.{join}
use infra_inventory.Discovery.Classifier.{
  DeviceType, Port, ClassificationEvidence, has_port, port_banners, to_lower_case, signs_of,
  is_proxmox, is_esxi, is_docker, is_printer, is_firewall, is_switch, is_router, is_access_point,
  is_nas, is_camera, is_iot, is_server, is_workstation, is_windows, classify_signs, classify_device,
}
use infra_inventory.Discovery.Classifier.Evidence.{with_ports}

unfolds : Unit {0}
unfolding has_port port_banners to_lower_case signs_of is_proxmox is_esxi is_docker is_printer
    is_firewall is_switch is_router is_access_point is_nas is_camera is_iot is_server is_workstation
    is_windows classify_signs classify_device includes_text starts_with substring append join
unfolds = tt

abbrev nothing : ClassificationEvidence
nothing = record {
  ports = [];
  vendor = none;
  hostname = some "HOST7";
  sys_descr = none;
  banners = [];
}

abbrev web : List Port
web =
    record { port_number = 22; banner = none }
    ∷ record { port_number = 443; banner = some "Welcome to NGINX" }
    ∷ []

abbrev odd_port : List Port
odd_port = record { port_number = 7777; banner = none } ∷ []

web_is_server : (classify_device (with_ports nothing web)).device_type ≡ DeviceType.server
unfolding unfolds
web_is_server = refl

odd_is_unknown : (classify_device (with_ports nothing odd_port)).device_type ≡ DeviceType.unknown
unfolding unfolds
odd_is_unknown = refl
