-- ===== src/Ipam/Creation.antt =====
-- What createIP makes of its input.
use infra_inventory.Prelude.{
  ◌≡◌, refl, Bool, true, false, not, Option, none, some, List, String, if◌then◌else◌,
}
use infra_inventory.Prelude.Decimal.{trim}
use infra_inventory.Store.{Table}
use infra_inventory.Store.Queries.{Queries}
use infra_inventory.Validators.{is_valid_ipv4}
use infra_inventory.Ipam.{
  IpAddress, Network, CreateInput, invalid_address, taken, fails, returns, ip_id, or_text,
  network_for, new_address, Desk, stored, created, prepared, is_taken, create_ip,
}

module _ (db : Queries IpAddress ip_id) (machines : Table (Option String)) where
  stored-returns :
      (o : Option db.Rows) (a b : IpAddress) (d : Desk db machines)
      → (stored db machines o a d).0 ≡ returns b
      → (b ≡ a)
        × (o ≡ some (stored db machines o a d).1.addresses)
        × ((stored db machines o a d).1.primary_ips ≡ d.primary_ips)
  unfolding stored
  stored-returns none a b d e = absurd cc
  stored-returns (some rows) a b d e = (cc, refl, refl)

  created-returns :
      (p : Desk db machines × Bool) (a b : IpAddress)
      → (created db machines p a).0 ≡ returns b
      → (b ≡ a)
        × (p.1 ≡ true)
        × (db.create a p.0.addresses ≡ some (created db machines p a).1.addresses)
        × ((created db machines p a).1.primary_ips ≡ p.0.primary_ips)
  unfolding created
  created-returns (d, false) a b e = absurd cc
  created-returns (d, true) a b e =
      let (same, rows, ips) = stored-returns (db.create a d.addresses) a b d e in
      (same, refl, rows, ips)

  -- What a creation that succeeds has gone through.
  unfoldable pub Passed :
      String → CreateInput → List Network → Desk db machines → IpAddress → Desk db machines → Type 0
  Passed id input nets d b d' =
      let raw = trim (or_text input.address input.ip) in
      let a = new_address id raw (network_for input raw nets) input in
      let p = prepared db machines input raw d in
      (is_valid_ipv4 raw ≡ true)
      × (b ≡ a)
      × (p.1 ≡ true)
      × (db.create a p.0.addresses ≡ some d'.addresses)
      × (d'.primary_ips ≡ p.0.primary_ips)

  pub create_ip-Passed :
      (id : String) (input : CreateInput) (nets : List Network) (d : Desk db machines)
      (b : IpAddress)
      → (create_ip db machines id input nets d).0 ≡ returns b
      → Passed id input nets d b (create_ip db machines id input nets d).1
  unfolding create_ip Passed
  create_ip-Passed id input nets d b =
      let raw = trim (or_text input.address input.ip) in
      let network = network_for input raw nets in
      by_tests (is_valid_ipv4 raw) (is_taken db machines raw network d.addresses)
        (prepared db machines input raw d) (new_address id raw network input) b d
    where
      by_tests :
          (valid held : Bool) (p : Desk db machines × Bool) (a b : IpAddress) (d : Desk db machines)
          → (if not valid
              then (fails invalid_address, d)
              else if held
              then (fails taken, d)
              else created db machines p a).0
            ≡ returns b
          → let d' =
              (if not valid
                then (fails invalid_address, d)
                else if held
                then (fails taken, d)
                else created db machines p a).1 in
            (valid ≡ true)
            × (b ≡ a)
            × (p.1 ≡ true)
            × (db.create a p.0.addresses ≡ some d'.addresses)
            × (d'.primary_ips ≡ p.0.primary_ips)
      by_tests false held p a b d e = absurd cc
      by_tests true true p a b d e = absurd cc
      by_tests true false p a b d e =
          let (same, ok, rows, ips) = created-returns p a b e in (refl, same, ok, rows, ips)
