-- ===== src/Ipam/Interfaces/Recorded.antt =====
-- The address that comes with an interface.
use infra_inventory.Prelude.{
  ◌≤◌, ◌≡◌, refl, ap, subst, Bool, true, false, not, ◌&&◌, Option, none, some, List, String, arith,
  str_eq, str_eq_self, if◌then◌else◌, is_truthy, or_empty,
}
use infra_inventory.Prelude.Decimal.{trim}
use infra_inventory.Validators.{is_valid_ipv4, is_valid_mac}
use infra_inventory.Store.{Table}
use infra_inventory.Store.Queries.{Queries, countp, bit}
use infra_inventory.Ipam.{
  IpAddress, Network, Result, fails, returns, ip_id, Desk, create_ip, same_text, or_text,
  new_address, network_for, prepared,
}
use infra_inventory.Ipam.Creation.{Passed, create_ip-Passed}
use infra_inventory.Ipam.Interfaces.{
  Interface, InterfaceInput, Failure, invalid_mac, invalid_ip, not_created, Outcome, stopped,
  attached, interface_id, new_interface, address_input, Site, addressed, with_address,
  created_interface, create_interface,
}

-- The record of an address on an interface.
abbrev pub is_on : String → String → IpAddress → Bool
is_on raw id a = str_eq a.address raw && same_text a.interface_id (some id)

or_text_same : (s : String) → or_text (some s) s ≡ s
unfolding or_text
or_text_same s = same (is_truthy (some s))
  where
    same : (b : Bool) → (if b then s else s) ≡ s
    same true = refl
    same false = refl

module _ (faces : Queries Interface interface_id) (db : Queries IpAddress ip_id)
    (machines : Table (Option String)) where
  create_ip-is_on :
      (new_id id ip : String) (input : InterfaceInput) (nets : List Network) (d : Desk db machines)
      (b : IpAddress)
      → (create_ip db machines new_id (address_input id ip input) nets d).0 ≡ returns b
      → 1
        ≤ countp
            (is_on (trim ip) id)
            (db.rows (create_ip db machines new_id (address_input id ip input) nets d).1.addresses)
  unfolding Passed new_address address_input same_text
  create_ip-is_on new_id id ip input nets d b e =
      let call = address_input id ip input in
      let raw = trim (or_text call.address call.ip) in
      let a = new_address new_id raw (network_for call raw nets) call in
      let (valid, same, ok, rows, ips) = create_ip-Passed db machines new_id call nets d b e in
      let hit : is_on (trim ip) id a ≡ true =
        rw (or_text_same ip, str_eq_self (trim ip), str_eq_self id) refl in
      omega (
        arith,
        ap bit hit,
        db.create-rows a (prepared db machines call raw d).0.addresses
            (create_ip db machines new_id call nets d).1.addresses rows (is_on (trim ip) id),
      )

  Recorded : String → Outcome × Site faces db machines → Type 0
  Recorded ip r =
      (i : Interface)
      → r.0 ≡ attached i
      → 1 ≤ countp (is_on (trim ip) i.id) (db.rows r.1.desk.addresses)

  addressed-Recorded :
      (ip : String) (i : Interface) (s : Site faces db machines) (p : Result × Desk db machines)
      → ((b : IpAddress)
          → p.0 ≡ returns b
          → 1 ≤ countp (is_on (trim ip) i.id) (db.rows p.1.addresses))
      → Recorded ip (addressed faces db machines i s p)
  unfolding addressed Recorded
  addressed-Recorded ip i s (fails x, d) h j e = absurd cc
  addressed-Recorded ip i s (returns a, d) h j e =
      subst (λ k. 1 ≤ countp (is_on (trim ip) k.id) (db.rows d.addresses)) (same_face i j e)
        (h a refl)
    where
      same_face : (x y : Interface) → attached x ≡ attached y → x ≡ y
      same_face x y k = cc

  stopped-Recorded :
      (ip : String) (f : Failure) (s : Site faces db machines) → Recorded ip (stopped f, s)
  unfolding Recorded
  stopped-Recorded ip f s i e = absurd cc

  if-Recorded :
      (ip : String) (b : Bool) (f : Failure) (s : Site faces db machines)
      (r : Outcome × Site faces db machines)
      → Recorded ip r
      → Recorded ip (if b then (stopped f, s) else r)
  unfolding Recorded
  if-Recorded ip true f s r h = stopped-Recorded ip f s
  if-Recorded ip false f s r h = h

  created_interface-Recorded :
      (new_id : String) (o : Option faces.Rows) (i : Interface) (input : InterfaceInput)
      (nets : List Network) (s : Site faces db machines)
      → is_truthy input.ip_address ≡ true
      → Recorded
          (or_empty input.ip_address)
          (created_interface faces db machines new_id o i input nets s)
  unfolding created_interface with_address
  created_interface-Recorded new_id none i input nets s given =
      stopped-Recorded (or_empty input.ip_address) not_created s
  created_interface-Recorded new_id (some rows) i input nets s given =
      let ip = or_empty input.ip_address in
      let s' : Site faces db machines = record s { interfaces = rows } in
      rw given (
        if-Recorded ip (not (is_valid_ipv4 ip)) invalid_ip s' _ (
          addressed-Recorded ip i s'
            (create_ip db machines new_id (address_input i.id ip input) nets s.desk)
            (create_ip-is_on new_id i.id ip input nets s.desk)))

  -- An interface that is created with an address has a record of it: one that is on the interface
  -- and has the address as its text, without the spaces around.
  pub create_interface-is_on :
      (id new_id : String) (input : InterfaceInput) (nets : List Network)
      (s : Site faces db machines) (i : Interface)
      → is_truthy input.ip_address ≡ true
      → (create_interface faces db machines id new_id input nets s).0 ≡ attached i
      → 1
        ≤ countp
            (is_on (trim (or_empty input.ip_address)) i.id)
            (db.rows (create_interface faces db machines id new_id input nets s).1.desk.addresses)
  unfolding create_interface Recorded
  create_interface-is_on id new_id input nets s i given e =
      if-Recorded (or_empty input.ip_address)
        (is_truthy input.mac_address && not (is_valid_mac (or_empty input.mac_address))) invalid_mac
        s _
        (created_interface-Recorded new_id (faces.create (new_interface id input) s.interfaces)
          (new_interface id input) input nets s given)
        i e
