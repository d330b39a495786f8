-- ===== src/Discovery/Classifier.antt =====
-- The classifier of devices, discovery/src/scanner/classifier.ts. `toLowerCase` is that of ASCII; the
-- signatures are ASCII.
pub mod Case
mod Signatures
pub mod Evidence
mod Tests
use Prim.Native.Char.{Char, code}
use infra_inventory.Prelude.{
  ℕ, ◌-◌, Bool, true, false, not, ◌&&◌, ◌||◌, Option, none, some, List, [], ◌∷◌, ◌++◌, map, String,
  ◌==◌, leb, if◌then◌else◌, includes_text, substring, or_empty, is_truthy,
}
use infra_inventory.Prelude.Decimal.{join}

pub data DeviceType : Type 0 where
  server workstation laptop router firewall switch access_point printer : DeviceType
  nas storage virtualization_host hypervisor docker_host iot camera unknown : DeviceType

-- The fields of DiscoveredPortInfo that count.
pub record Port : Type 0 where
  pub port_number : ℕ
  pub banner : Option String

pub record ClassificationEvidence : Type 0 where
  pub ports : List Port
  pub vendor : Option String
  pub hostname : Option String
  pub sys_descr : Option String
  pub banners : List String

pub record ClassificationResult : Type 0 where
  pub device_type : DeviceType
  pub reason : String
  pub os_guess : Option String

abbrev first_or : Char → String → Char
first_or c String.[] = c
first_or c (String.◌∷◌ d s) = d

-- The lower-case letter of an upper-case one.
lower_char : Char → Char
lower_char c =
    if leb 65 (code c) && leb (code c) 90
    then first_or c (substring (code c - 65) "abcdefghijklmnopqrstuvwxyz")
    else c

unfoldable pub to_lower_case : String → String
unfolding lower_char
to_lower_case String.[] = ""
to_lower_case (String.◌∷◌ c s) = String.◌∷◌ (lower_char c) (to_lower_case s)

-- The banners of the ports that have one.
unfoldable pub port_banners : List Port → List String
port_banners [] = []
port_banners (p ∷ ps) =
    let rest = port_banners ps in if is_truthy p.banner then or_empty p.banner ∷ rest else rest

unfoldable pub has_port : List Port → ℕ → Bool
has_port [] n = false
has_port (p ∷ ps) n = p.port_number == n || has_port ps n

-- What the tests look at.
pub record Signs : Type 0 where
  pub ports : List Port
  pub banners : String
  pub vendor : String
  pub hostname : String
  pub sys_descr : String

unfoldable pub signs_of : ClassificationEvidence → Signs
signs_of e = record {
  ports = e.ports;
  banners = to_lower_case (join " " (e.banners ++ port_banners e.ports));
  vendor = to_lower_case (or_empty e.vendor);
  hostname = to_lower_case (or_empty e.hostname);
  sys_descr = to_lower_case (or_empty e.sys_descr);
}

unfoldable pub is_proxmox : Signs → Bool
is_proxmox s =
    has_port s.ports 8006
    || includes_text s.banners "proxmox"
    || includes_text s.sys_descr "proxmox"
    || includes_text s.hostname "pve"
    || includes_text s.hostname "proxmox"

unfoldable pub is_esxi : Signs → Bool
is_esxi s =
    (has_port s.ports 902 && has_port s.ports 443)
    || includes_text s.banners "esxi"
    || includes_text s.sys_descr "vmware esxi"

unfoldable pub is_docker : Signs → Bool
is_docker s =
    (has_port s.ports 9000 || has_port s.ports 9443)
    && (includes_text s.banners "portainer"
        || includes_text s.hostname "docker"
        || includes_text s.hostname "portainer")

unfoldable pub is_printer : Signs → Bool
is_printer s =
    has_port s.ports 9100
    || has_port s.ports 631
    || includes_text s.vendor "brother"
    || includes_text s.vendor "canon"
    || includes_text s.vendor "epson"
    || includes_text s.vendor "xerox"
    || includes_text s.banners "jetdirect"
    || includes_text s.banners "printer"
    || includes_text s.sys_descr "printer"

unfoldable pub is_firewall : Signs → Bool
is_firewall s =
    includes_text s.vendor "fortinet"
    || includes_text s.banners "fortigate"
    || includes_text s.banners "pfsense"
    || includes_text s.banners "opnsense"
    || includes_text s.banners "sonicwall"
    || includes_text s.sys_descr "fortigate"
    || includes_text s.sys_descr "pfsense"
    || includes_text s.hostname "fw-"
    || includes_text s.hostname "firewall"

unfoldable pub is_switch : Signs → Bool
is_switch s =
    includes_text s.sys_descr "catalyst"
    || includes_text s.sys_descr "procurve"
    || includes_text s.sys_descr "switch"
    || includes_text s.banners "switch"
    || includes_text s.hostname "sw-"
    || includes_text s.hostname "switch"

unfoldable pub is_router : Signs → Bool
is_router s =
    includes_text s.vendor "mikrotik"
    || includes_text s.sys_descr "routeros"
    || includes_text s.banners "routeros"
    || includes_text s.banners "openwrt"
    || includes_text s.sys_descr "cisco ios"
    || includes_text s.hostname "router"
    || includes_text s.hostname "rtr-"
    || (has_port s.ports 53 && (has_port s.ports 80 || has_port s.ports 443) && has_port s.ports 22)

unfoldable pub is_access_point : Signs → Bool
is_access_point s =
    includes_text s.vendor "ubiquiti"
    && (includes_text s.hostname "uap"
        || includes_text s.hostname "ap"
        || includes_text s.banners "unifi")

unfoldable pub is_nas : Signs → Bool
is_nas s =
    has_port s.ports 5000
    || includes_text s.vendor "synology"
    || includes_text s.vendor "qnap"
    || includes_text s.banners "synology"
    || includes_text s.banners "qnap"
    || includes_text s.banners "truenas"
    || includes_text s.sys_descr "dsm"
    || includes_text s.hostname "nas"

unfoldable pub is_camera : Signs → Bool
is_camera s =
    has_port s.ports 554
    || includes_text s.vendor "hikvision"
    || includes_text s.vendor "dahua"
    || includes_text s.vendor "axis"
    || includes_text s.banners "rtsp"
    || includes_text s.hostname "cam"

unfoldable pub is_iot : Signs → Bool
is_iot s =
    has_port s.ports 1883
    || has_port s.ports 8123
    || has_port s.ports 8008
    || has_port s.ports 8009
    || includes_text s.vendor "raspberry pi"

unfoldable pub is_server : Signs → Bool
is_server s =
    (has_port s.ports 22
      && (has_port s.ports 80
          || has_port s.ports 443
          || has_port s.ports 3306
          || has_port s.ports 5432))
    || (has_port s.ports 135
        && has_port s.ports 445
        && (has_port s.ports 3389 || has_port s.ports 1433))
    || includes_text s.vendor "dell"
    || includes_text s.vendor "hewlett packard enterprise"
    || includes_text s.banners "apache"
    || includes_text s.banners "nginx"
    || includes_text s.banners "microsoft-iis"
    || includes_text s.hostname "srv-"
    || includes_text s.hostname "server"

unfoldable pub is_workstation : Signs → Bool
is_workstation s =
    has_port s.ports 3389
    || has_port s.ports 135
    || has_port s.ports 139
    || has_port s.ports 445
    || includes_text s.vendor "apple"

unfoldable pub is_windows : Signs → Bool
is_windows s = has_port s.ports 135 || has_port s.ports 445 || includes_text s.banners "microsoft"

unfoldable pub classify_signs : Signs → ClassificationResult
classify_signs s =
    if is_proxmox s
    then record {
      device_type = DeviceType.virtualization_host;
      reason = "Proxmox VE web console (port 8006) or Proxmox signature detected";
      os_guess = some "Debian / Proxmox VE";
    }
    else if is_esxi s
    then record {
      device_type = DeviceType.virtualization_host;
      reason = "VMware ESXi host ports (902/443) or banner detected";
      os_guess = some "VMware ESXi";
    }
    else if is_docker s
    then record {
      device_type = DeviceType.docker_host;
      reason = "Portainer container management interface (port 9000/9443) detected";
      os_guess = some "Linux (Docker Engine)";
    }
    else if is_printer s
    then record {
      device_type = DeviceType.printer;
      reason = "JetDirect/IPP printing port (9100/631) or printer vendor/banner detected";
      os_guess = some "Embedded Print Server OS";
    }
    else if is_firewall s
    then record {
      device_type = DeviceType.firewall;
      reason = "Dedicated firewall vendor (Fortinet/pfSense/OPNsense) or banner signature";
      os_guess = some "Firewall OS (FortiOS/FreeBSD)";
    }
    else if is_switch s
    then record {
      device_type = DeviceType.switch;
      reason = "Network switch signature in SNMP/sysDescr or switch naming scheme";
      os_guess = some "Switch Operating System";
    }
    else if is_router s
    then record {
      device_type = DeviceType.router;
      reason = "RouterOS/Cisco IOS/OpenWrt signature or gateway services identified";
      os_guess = some "Router OS / Firmware";
    }
    else if is_access_point s
    then record {
      device_type = DeviceType.access_point;
      reason = "Ubiquiti UniFi Access Point signature";
      os_guess = some "UniFi OS / Embedded Linux";
    }
    else if is_nas s
    then record {
      device_type = DeviceType.nas;
      reason = "Synology DSM (port 5000) / QNAP QTS / TrueNAS storage interface detected";
      os_guess =
          some
            (if includes_text s.vendor "synology" then "Synology DSM" else "Embedded Storage OS");
    }
    else if is_camera s
    then record {
      device_type = DeviceType.camera;
      reason = "RTSP streaming port (554) or camera manufacturer signature detected";
      os_guess = some "Camera Firmware";
    }
    else if is_iot s
    then record {
      device_type = DeviceType.iot;
      reason = "MQTT (1883), Home Assistant (8123), Google Cast, or IoT controller detected";
      os_guess = some "IoT / Embedded Linux";
    }
    else if is_server s
    then record {
      device_type = DeviceType.server;
      reason = "Server services (SSH/Web/Database/RPC/IIS) or enterprise server hardware detected";
      os_guess = some (if is_windows s then "Windows Server" else "Linux Server");
    }
    else if is_workstation s
    then record {
      device_type = DeviceType.workstation;
      reason = "Workstation networking protocols (RDP, SMB, NetBIOS, Apple)";
      os_guess = some (if includes_text s.vendor "apple" then "macOS" else "Windows 10/11 Desktop");
    }
    else record {
      device_type = DeviceType.unknown;
      reason = "Insufficient network signatures to determine device type reliably";
      os_guess = none;
    }

unfoldable pub classify_device : ClassificationEvidence → ClassificationResult
classify_device e = classify_signs (signs_of e)
