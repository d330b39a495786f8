-- ===== src/Ipam/Interfaces.antt =====
-- The interfaces of machines: createInterface, which calls createIP, updateInterface and
-- deleteInterface of backend/src/modules/networks/networks.service.ts. Columns that no code looks at,
-- and the change log, are left out.
pub mod Recorded
mod Tests
use infra_inventory.Prelude.{
  ◌+◌, ◌≤◌, ◌≡◌, ◌∙◌, refl, sym, ap, subst, Bool, true, false, not, ◌&&◌, Option, none, some, List,
  String, arith, str_eq, str_eq_self, if◌then◌else◌, is_truthy, or_empty,
}
use infra_inventory.Prelude.Decimal.{trim}
use infra_inventory.Validators.{is_valid_ipv4, is_valid_mac}
use infra_inventory.Store.{Table}
use infra_inventory.Store.Queries.{Queries, countp, bit, find}
use infra_inventory.Ipam.{
  or_else, or_null, IpStatus, IpAddress, Network, CreateInput, Error, Result, fails, returns, ip_id,
  Desk, create_ip, same_text, or_text, new_address, network_for, prepared,
}
use infra_inventory.Ipam.Creation.{Passed, create_ip-Passed}

pub record Interface : Type 0 where
  pub id : String
  pub machine_id : String
  pub name : String
  pub mac_address : Option String

pub record InterfaceInput : Type 0 where
  pub machine_id : String
  pub name : String
  pub mac_address : Option String
  pub ip_address : Option String

-- The fields that updateInterface looks at; `none` is an absent field, `some none` is `null`.
pub record FaceUpdate : Type 0 where
  pub name : Option String
  pub mac_address : Option (Option String)

pub data Failure : Type 0 where
  invalid_mac invalid_ip not_created not_found : Failure
  no_address : Error → Failure

pub data Outcome : Type 0 where
  stopped : Failure → Outcome
  attached : Interface → Outcome

abbrev pub interface_id : Interface → String
interface_id i = i.id

unfoldable pub new_interface : String → InterfaceInput → Interface
new_interface id input = record {
  id = id;
  machine_id = input.machine_id;
  name = input.name;
  mac_address = input.mac_address;
}

-- The arguments of the call of createIP.
unfoldable pub address_input : String → String → InterfaceInput → CreateInput
address_input id ip input = record {
  address = some ip;
  ip = ip;
  status = some IpStatus.assigned;
  is_primary = false;
  machine_id = some input.machine_id;
  interface_id = some id;
  network_id = none;
}

unfoldable pub updated_interface : FaceUpdate → Interface → Interface
updated_interface input i = record i {
  name = or_else input.name i.name;
  mac_address = or_else input.mac_address i.mac_address;
}

module _ (faces : Queries Interface interface_id) (db : Queries IpAddress ip_id)
    (machines : Table (Option String)) where
  pub record Site : Type 0 where
    pub interfaces : faces.Rows
    pub desk : Desk db machines

  unfoldable pub addressed : Interface → Site → Result × Desk db machines → Outcome × Site
  addressed i s (fails e, d) = (stopped (no_address e), record s { desk = d })
  addressed i s (returns a, d) = (attached i, record s { desk = d })

  -- After the interface is created: its address, if one is asked for.
  unfoldable pub with_address :
      String → Interface → InterfaceInput → List Network → Site → Outcome × Site
  with_address new_id i input nets s =
      if is_truthy input.ip_address
      then (if not (is_valid_ipv4 (or_empty input.ip_address))
          then (stopped invalid_ip, s)
          else addressed i s (
              create_ip db machines new_id (address_input i.id (or_empty input.ip_address) input)
                nets s.desk))
      else (attached i, s)

  unfoldable pub created_interface :
      String → Option faces.Rows → Interface → InterfaceInput → List Network → Site → Outcome × Site
  created_interface new_id none i input nets s = (stopped not_created, s)
  created_interface new_id (some rows) i input nets s =
      with_address new_id i input nets (record s { interfaces = rows })

  unfoldable pub create_interface :
      String → String → InterfaceInput → List Network → Site → Outcome × Site
  create_interface id new_id input nets s =
      if is_truthy input.mac_address && not (is_valid_mac (or_empty input.mac_address))
      then (stopped invalid_mac, s)
      else created_interface new_id (faces.create (new_interface id input) s.interfaces)
          (new_interface id input) input nets s

  unfoldable pub stored_interface : Option faces.Rows → Interface → Site → Outcome × Site
  stored_interface none i s = (stopped not_created, s)
  stored_interface (some rows) i s = (attached i, record s { interfaces = rows })

  unfoldable pub delete_found : String → Option Interface → Site → Outcome × Site
  delete_found id none s = (stopped not_found, s)
  delete_found id (some i) s = stored_interface (faces.remove id s.interfaces) i s

  unfoldable pub delete_interface : String → Site → Outcome × Site
  delete_interface id s = delete_found id (find faces id s.interfaces) s

  unfoldable pub update_found : FaceUpdate → Option Interface → Site → Outcome × Site
  update_found input none s = (stopped not_created, s)
  update_found input (some i) s =
      let new = updated_interface input i in stored_interface (faces.update new s.interfaces) new s

  unfoldable pub update_interface : String → FaceUpdate → Site → Outcome × Site
  update_interface id input s =
      if is_truthy (or_null input.mac_address)
        && not (is_valid_mac (or_empty (or_null input.mac_address)))
      then (stopped invalid_mac, s)
      else update_found input (find faces id s.interfaces) s
