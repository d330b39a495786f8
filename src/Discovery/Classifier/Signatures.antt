-- ===== src/Discovery/Classifier/Signatures.antt =====
-- Every signature stays when ports and banners are added.
use infra_inventory.Prelude.{ℕ, ◌≡◌, ap, Bool, true, not, ◌||◌, String, arith, includes_text}
use infra_inventory.Discovery.Classifier.{
  has_port, Signs, is_proxmox, is_esxi, is_docker, is_printer, is_firewall, is_switch, is_router,
  is_access_point, is_nas, is_camera, is_iot, is_server, is_workstation,
}

-- No signature of any device.
unfoldable pub shows_nothing : Signs → Bool
shows_nothing s = not (
    is_proxmox s
    || is_esxi s
    || is_docker s
    || is_printer s
    || is_firewall s
    || is_switch s
    || is_router s
    || is_access_point s
    || is_nas s
    || is_camera s
    || is_iot s
    || is_server s
    || is_workstation s)

-- The signs s show no more ports and no more in the banners than t, and the same otherwise.
pub record Below (s t : Signs) : Type 0 where
  pub port : (n : ℕ) → has_port s.ports n ≡ true → has_port t.ports n ≡ true
  pub banner :
      (text : String) → includes_text s.banners text ≡ true → includes_text t.banners text ≡ true
  pub vendor : s.vendor ≡ t.vendor
  pub hostname : s.hostname ≡ t.hostname
  pub sys_descr : s.sys_descr ≡ t.sys_descr

module _ (s t : Signs) (below : Below s t) where
  is_proxmox-below : is_proxmox s ≡ true → is_proxmox t ≡ true
  unfolding is_proxmox
  is_proxmox-below h = ground (
    arith,
    below.port 8006,
    below.banner "proxmox",
    ap (λ x. includes_text x "proxmox") below.hostname,
    ap (λ x. includes_text x "pve") below.hostname,
    ap (λ x. includes_text x "proxmox") below.sys_descr,
  )

  is_esxi-below : is_esxi s ≡ true → is_esxi t ≡ true
  unfolding is_esxi
  is_esxi-below h = ground (
    arith,
    below.port 443,
    below.port 902,
    below.banner "esxi",
    ap (λ x. includes_text x "vmware esxi") below.sys_descr,
  )

  is_docker-below : is_docker s ≡ true → is_docker t ≡ true
  unfolding is_docker
  is_docker-below h = ground (
    arith,
    below.port 9000,
    below.port 9443,
    below.banner "portainer",
    ap (λ x. includes_text x "docker") below.hostname,
    ap (λ x. includes_text x "portainer") below.hostname,
  )

  is_printer-below : is_printer s ≡ true → is_printer t ≡ true
  unfolding is_printer
  is_printer-below h = ground (
    arith,
    below.port 631,
    below.port 9100,
    below.banner "jetdirect",
    below.banner "printer",
    ap (λ x. includes_text x "printer") below.sys_descr,
    ap (λ x. includes_text x "brother") below.vendor,
    ap (λ x. includes_text x "canon") below.vendor,
    ap (λ x. includes_text x "epson") below.vendor,
    ap (λ x. includes_text x "xerox") below.vendor,
  )

  is_firewall-below : is_firewall s ≡ true → is_firewall t ≡ true
  unfolding is_firewall
  is_firewall-below h = ground (
    arith,
    below.banner "fortigate",
    below.banner "opnsense",
    below.banner "pfsense",
    below.banner "sonicwall",
    ap (λ x. includes_text x "firewall") below.hostname,
    ap (λ x. includes_text x "fw-") below.hostname,
    ap (λ x. includes_text x "fortigate") below.sys_descr,
    ap (λ x. includes_text x "pfsense") below.sys_descr,
    ap (λ x. includes_text x "fortinet") below.vendor,
  )

  is_switch-below : is_switch s ≡ true → is_switch t ≡ true
  unfolding is_switch
  is_switch-below h = ground (
    arith,
    below.banner "switch",
    ap (λ x. includes_text x "sw-") below.hostname,
    ap (λ x. includes_text x "switch") below.hostname,
    ap (λ x. includes_text x "catalyst") below.sys_descr,
    ap (λ x. includes_text x "procurve") below.sys_descr,
    ap (λ x. includes_text x "switch") below.sys_descr,
  )

  is_router-below : is_router s ≡ true → is_router t ≡ true
  unfolding is_router
  is_router-below h = ground (
    arith,
    below.port 22,
    below.port 53,
    below.port 80,
    below.port 443,
    below.banner "openwrt",
    below.banner "routeros",
    ap (λ x. includes_text x "router") below.hostname,
    ap (λ x. includes_text x "rtr-") below.hostname,
    ap (λ x. includes_text x "cisco ios") below.sys_descr,
    ap (λ x. includes_text x "routeros") below.sys_descr,
    ap (λ x. includes_text x "mikrotik") below.vendor,
  )

  is_access_point-below : is_access_point s ≡ true → is_access_point t ≡ true
  unfolding is_access_point
  is_access_point-below h = ground (
    arith,
    below.banner "unifi",
    ap (λ x. includes_text x "ap") below.hostname,
    ap (λ x. includes_text x "uap") below.hostname,
    ap (λ x. includes_text x "ubiquiti") below.vendor,
  )

  is_nas-below : is_nas s ≡ true → is_nas t ≡ true
  unfolding is_nas
  is_nas-below h = ground (
    arith,
    below.port 5000,
    below.banner "qnap",
    below.banner "synology",
    below.banner "truenas",
    ap (λ x. includes_text x "nas") below.hostname,
    ap (λ x. includes_text x "dsm") below.sys_descr,
    ap (λ x. includes_text x "qnap") below.vendor,
    ap (λ x. includes_text x "synology") below.vendor,
  )

  is_camera-below : is_camera s ≡ true → is_camera t ≡ true
  unfolding is_camera
  is_camera-below h = ground (
    arith,
    below.port 554,
    below.banner "rtsp",
    ap (λ x. includes_text x "cam") below.hostname,
    ap (λ x. includes_text x "axis") below.vendor,
    ap (λ x. includes_text x "dahua") below.vendor,
    ap (λ x. includes_text x "hikvision") below.vendor,
  )

  is_iot-below : is_iot s ≡ true → is_iot t ≡ true
  unfolding is_iot
  is_iot-below h = ground (
    arith,
    below.port 1883,
    below.port 8008,
    below.port 8009,
    below.port 8123,
    ap (λ x. includes_text x "raspberry pi") below.vendor,
  )

  is_server-below : is_server s ≡ true → is_server t ≡ true
  unfolding is_server
  is_server-below h = ground (
    arith,
    below.port 22,
    below.port 80,
    below.port 135,
    below.port 443,
    below.port 445,
    below.port 1433,
    below.port 3306,
    below.port 3389,
    below.port 5432,
    below.banner "apache",
    below.banner "microsoft-iis",
    below.banner "nginx",
    ap (λ x. includes_text x "server") below.hostname,
    ap (λ x. includes_text x "srv-") below.hostname,
    ap (λ x. includes_text x "dell") below.vendor,
    ap (λ x. includes_text x "hewlett packard enterprise") below.vendor,
  )

  is_workstation-below : is_workstation s ≡ true → is_workstation t ≡ true
  unfolding is_workstation
  is_workstation-below h = ground (
    arith,
    below.port 135,
    below.port 139,
    below.port 445,
    below.port 3389,
    ap (λ x. includes_text x "apple") below.vendor,
  )

  pub shows_nothing-below : shows_nothing t ≡ true → shows_nothing s ≡ true
  unfolding shows_nothing
  shows_nothing-below h = ground (
    arith, is_proxmox-below, is_esxi-below, is_docker-below, is_printer-below, is_firewall-below,
    is_switch-below, is_router-below, is_access_point-below, is_nas-below, is_camera-below,
    is_iot-below, is_server-below, is_workstation-below,
  )
