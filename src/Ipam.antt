-- ===== src/Ipam.antt =====
-- The addresses of the IPAM: createIP, updateIP and deleteIP of
-- backend/src/modules/networks/networks.service.ts. Columns that no code looks at, and the change
-- log, are left out.
pub mod Creation
pub mod Primaries
pub mod Conflicts
pub mod Interfaces
mod Tests
use Prim.Native.Char.{code}
use infra_inventory.Prelude.{
  ℕ, ◌+◌, ◌*◌, ◌-◌, Bool, true, false, not, ◌&&◌, ◌||◌, Option, none, some, List, [], ◌∷◌, String,
  ◌==◌, leb, ltb, str_eq, if◌then◌else◌, is_truthy, or_empty, length,
}
use infra_inventory.Prelude.Decimal.{split, trim, is_digit}
use infra_inventory.Validators.{is_valid_ipv4}
use infra_inventory.Ipv4.Subnet.{is_ip_in_subnet}
use infra_inventory.Store.{Table}
use infra_inventory.Store.Queries.{Queries, find, both, other_than}

pub data IpStatus : Type 0 where
  free assigned reserved dhcp conflict unknown : IpStatus

pub record IpAddress : Type 0 where
  pub id : String
  pub address : String
  pub status : IpStatus
  pub is_primary : Bool
  pub machine_id : Option String
  pub interface_id : Option String
  pub network_id : Option String

pub record Network : Type 0 where
  pub id : String
  pub cidr : String

pub record CreateInput : Type 0 where
  pub address : Option String
  pub ip : String
  pub status : Option IpStatus
  pub is_primary : Bool
  pub machine_id : Option String
  pub interface_id : Option String
  pub network_id : Option String

-- `none` is an absent field, `some none` is `null`.
pub record UpdateInput : Type 0 where
  pub address : Option String
  pub ip : Option String
  pub status : Option IpStatus
  pub is_primary : Option Bool
  pub machine_id : Option (Option String)
  pub interface_id : Option (Option String)
  pub network_id : Option (Option String)

pub data Error : Type 0 where
  invalid_address taken not_found refused : Error

pub data Result : Type 0 where
  fails : Error → Result
  returns : IpAddress → Result

abbrev pub ip_id : IpAddress → String
ip_id a = a.id

abbrev pub or_else {ℓ} : {A : Type ℓ} → Option A → A → A
or_else none b = b
or_else (some a) b = a

-- `a || b` on texts.
unfoldable pub or_text : Option String → String → String
or_text o s = if is_truthy o then or_empty o else s

abbrev pub or_null : Option (Option String) → Option String
or_null none = none
or_null (some o) = o

-- The first network that the address lies in; what was given stays, if there is none.
unfoldable pub match_network : Option String → String → List Network → Option String
match_network given raw [] = given
match_network given raw (n ∷ ns) =
    if is_ip_in_subnet raw n.cidr then some n.id else match_network given raw ns

unfoldable pub network_for : CreateInput → String → List Network → Option String
network_for input raw nets =
    if is_truthy input.network_id then input.network_id else match_network input.network_id raw nets

unfoldable pub new_status : CreateInput → IpStatus
new_status input =
    if is_truthy input.machine_id || is_truthy input.interface_id
    then IpStatus.assigned
    else or_else input.status IpStatus.free

unfoldable pub new_address : String → String → Option String → CreateInput → IpAddress
new_address id raw network input = record {
  id = id;
  address = raw;
  status = new_status input;
  is_primary = input.is_primary;
  machine_id = input.machine_id;
  interface_id = input.interface_id;
  network_id = network;
}

-- `data.machineId ? 'ASSIGNED' : 'FREE'`, if the field is there.
unfoldable pub status_after : Option (Option String) → IpStatus → IpStatus
status_after none status = status
status_after (some machine) status = if is_truthy machine then IpStatus.assigned else IpStatus.free

-- `data.address || data.ip`
unfoldable pub raw_ip : UpdateInput → Option String
raw_ip input = if is_truthy input.address then input.address else input.ip

unfoldable pub updated : UpdateInput → IpAddress → IpAddress
updated input a = record {
  id = a.id;
  address = or_text (raw_ip input) a.address;
  status = status_after input.machine_id (or_else input.status a.status);
  is_primary = or_else input.is_primary a.is_primary;
  machine_id = or_else input.machine_id a.machine_id;
  interface_id = or_else input.interface_id a.interface_id;
  network_id = or_else input.network_id a.network_id;
}

unfoldable pub same_text : Option String → Option String → Bool
same_text none none = true
same_text (some a) (some b) = str_eq a b
same_text _ _ = false

abbrev pub is_at : String → Option String → IpAddress → Bool
is_at raw network a = str_eq a.address raw && same_text a.network_id network

abbrev pub is_of_machine : Option String → IpAddress → Bool
is_of_machine machine a = same_text a.machine_id machine

abbrev pub demote : IpAddress → IpAddress
demote a = record a { is_primary = false }

abbrev pub is_some {ℓ} : {A : Type ℓ} → Option A → Bool
is_some none = false
is_some (some a) = true

-- The tables of addresses and of the machines' primary addresses.
module _ (db : Queries IpAddress ip_id) (machines : Table (Option String)) where
  pub record Desk : Type 0 where
    pub addresses : db.Rows
    pub primary_ips : machines.Rows

  -- The answer of a write of an address.
  unfoldable pub stored : Option db.Rows → IpAddress → Desk → Result × Desk
  stored none a d = (fails refused, d)
  stored (some rows) a d = (returns a, record d { addresses = rows })

  -- `machine.update`, which throws when the machine is not there.
  unfoldable pub set_primary_ip : Option (Option String) → String → String → Desk → Option Desk
  set_primary_ip none machine raw d = none
  set_primary_ip (some old) machine raw d =
      some (record d { primary_ips = machines.put machine (some raw) d.primary_ips })

  unfoldable pub set_or_stop : Option Desk → Desk → Desk × Bool
  set_or_stop none d = (d, false)
  set_or_stop (some done) d = (done, true)

  -- The rows of the machine lose their mark first, then the machine gets the address.
  unfoldable pub promoted : Option db.Rows → String → String → Desk → Desk × Bool
  promoted none machine raw d = (d, false)
  promoted (some rows) machine raw d =
      let d' : Desk = record d { addresses = rows } in
      set_or_stop (set_primary_ip (machines.find machine d.primary_ips) machine raw d') d'

  unfoldable pub created : Desk × Bool → IpAddress → Result × Desk
  created (d, false) a = (fails refused, d)
  created (d, true) a = stored (db.create a d.addresses) a d

  unfoldable pub prepared : CreateInput → String → Desk → Desk × Bool
  prepared input raw d =
      if is_truthy input.machine_id && input.is_primary
      then promoted (db.update_many (is_of_machine input.machine_id) demote d.addresses)
          (or_empty input.machine_id) raw d
      else (d, true)

  unfoldable pub is_taken : String → Option String → db.Rows → Bool
  is_taken raw network rows = is_truthy network && is_some (db.find_first (is_at raw network) rows)

  -- `nets` are the networks as the database lists them.
  unfoldable pub create_ip : String → CreateInput → List Network → Desk → Result × Desk
  create_ip id input nets d =
      let raw = trim (or_text input.address input.ip) in
      let network = network_for input raw nets in
      if not (is_valid_ipv4 raw)
      then (fails invalid_address, d)
      else if is_taken raw network d.addresses
      then (fails taken, d)
      else created (prepared input raw d) (new_address id raw network input)

  -- After the write of an update: the others of the machine lose their mark.
  unfoldable pub after_update : Bool → IpAddress → Result × Desk → Result × Desk
  after_update false a r = r
  after_update true a (fails e, d) = (fails e, d)
  after_update true a (returns b, d) =
      let (done, ok) =
        promoted
          (db.update_many (both (is_of_machine a.machine_id) (other_than ip_id a.id)) demote
            d.addresses)
          (or_empty a.machine_id) a.address d in
      (if ok then returns b else fails refused, done)

  unfoldable pub update_found : UpdateInput → Option IpAddress → Desk → Result × Desk
  update_found input none d = (fails not_found, d)
  update_found input (some a) d =
      let new = updated input a in
      after_update (or_else input.is_primary false && is_truthy new.machine_id) new
        (stored (db.update new d.addresses) new d)

  unfoldable pub update_ip : String → UpdateInput → Desk → Result × Desk
  update_ip id input d =
      if is_truthy (raw_ip input) && not (is_valid_ipv4 (or_empty (raw_ip input)))
      then (fails invalid_address, d)
      else update_found input (find db id d.addresses) d

  unfoldable pub delete_found : String → Option IpAddress → Desk → Result × Desk
  delete_found id none d = (fails not_found, d)
  delete_found id (some a) d = stored (db.remove id d.addresses) a d

  unfoldable pub delete_ip : String → Desk → Result × Desk
  delete_ip id d = delete_found id (find db id d.addresses) d
