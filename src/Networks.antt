-- ===== src/Networks.antt =====
-- The networks of backend/src/modules/networks/networks.service.ts: createNetwork, updateNetwork and
-- deleteNetwork. Columns that no code looks at, and the change log, are left out.
pub mod Blocks
mod Tests
use infra_inventory.Prelude.{
  Bool, true, false, not, ◌&&◌, Option, none, some, List, [], ◌∷◌, String, if◌then◌else◌, is_truthy,
  or_empty,
}
use infra_inventory.Validators.{is_valid_cidr}
use infra_inventory.Ipv4.Subnet.{Subnet, Result, ok, err, calculate_ipv4_subnet}
use infra_inventory.Store.Queries.{Queries, find}

pub record Network : Type 0 where
  pub id : String
  pub name : String
  pub cidr : String
  pub network_address : String
  pub broadcast_address : String
  pub gateway : Option String

pub record CreateInput : Type 0 where
  pub name : String
  pub cidr : String
  pub gateway : Option String

-- `none` is an absent field, `some none` is `null`.
pub record UpdateInput : Type 0 where
  pub name : Option String
  pub cidr : Option String
  pub gateway : Option (Option String)

pub data Error : Type 0 where
  invalid_cidr not_calculated not_found refused : Error

pub data Answer : Type 0 where
  fails : Error → Answer
  returns : Network → Answer

abbrev pub network_id : Network → String
network_id n = n.id

abbrev pub or_else {ℓ} : {A : Type ℓ} → Option A → A → A
or_else none b = b
or_else (some a) b = a

unfoldable pub new_network : String → CreateInput → Subnet → Network
new_network id input calc = record {
  id = id;
  name = input.name;
  cidr = calc.cidr;
  network_address = calc.network_address;
  broadcast_address = calc.broadcast_address;
  gateway = if is_truthy input.gateway then input.gateway else some calc.gateway;
}

-- `{ ...data, ...extraFields }`
unfoldable pub updated : UpdateInput → Network → Network
updated input n = record {
  id = n.id;
  name = or_else input.name n.name;
  cidr = or_else input.cidr n.cidr;
  network_address = n.network_address;
  broadcast_address = n.broadcast_address;
  gateway = or_else input.gateway n.gateway;
}

unfoldable pub moved : Subnet → Network → Network
moved calc n = record n {
  cidr = calc.cidr;
  network_address = calc.network_address;
  broadcast_address = calc.broadcast_address;
}

module _ (db : Queries Network network_id) where
  unfoldable pub stored : Option db.Rows → Network → db.Rows → Answer × db.Rows
  stored none n t = (fails refused, t)
  stored (some t') n t = (returns n, t')

  -- A calculation that fails throws.
  unfoldable pub create_with : String → CreateInput → Result → db.Rows → Answer × db.Rows
  create_with id input (err e) t = (fails not_calculated, t)
  create_with id input (ok calc) t =
      stored (db.create (new_network id input calc) t) (new_network id input calc) t

  unfoldable pub create_network : String → CreateInput → db.Rows → Answer × db.Rows
  create_network id input t =
      if not (is_valid_cidr input.cidr)
      then (fails invalid_cidr, t)
      else create_with id input (calculate_ipv4_subnet input.cidr) t

  -- `network.update`, which throws when the row is not there.
  unfoldable pub write : (Network → Network) → Option Network → db.Rows → Answer × db.Rows
  write f none t = (fails refused, t)
  write f (some n) t = stored (db.update (f n) t) (f n) t

  unfoldable pub update_with : String → UpdateInput → Result → db.Rows → Answer × db.Rows
  update_with id input (err e) t = (fails not_calculated, t)
  update_with id input (ok calc) t = write (λ n. moved calc (updated input n)) (find db id t) t

  unfoldable pub update_network : String → UpdateInput → db.Rows → Answer × db.Rows
  update_network id input t =
      if is_truthy input.cidr
      then (if not (is_valid_cidr (or_empty input.cidr))
          then (fails invalid_cidr, t)
          else update_with id input (calculate_ipv4_subnet (or_empty input.cidr)) t)
      else write (updated input) (find db id t) t

  unfoldable pub delete_found : String → Option Network → db.Rows → Answer × db.Rows
  delete_found id none t = (fails not_found, t)
  delete_found id (some n) t = stored (db.remove id t) n t

  unfoldable pub delete_network : String → db.Rows → Answer × db.Rows
  delete_network id t = delete_found id (find db id t) t
