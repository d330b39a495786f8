-- ===== src/Ipam/Primaries.antt =====
-- The primary address of a machine, through createIP.
use infra_inventory.Prelude.{
  ℕ, ◌≡◌, ◌∙◌, refl, Bool, true, false, ◌&&◌, Option, none, some, List, [], ◌∷◌, map, String, arith,
  str_eq, str_eq_self, is_truthy, or_empty,
}
use infra_inventory.Prelude.Decimal.{trim}
use infra_inventory.Store.{Table}
use infra_inventory.Store.Queries.{Queries, countp, rewrite}
use infra_inventory.Validators.{is_valid_ipv4}
use infra_inventory.Ipam.{
  IpAddress, Network, CreateInput, refused, fails, returns, ip_id, or_text, network_for,
  new_address, same_text, is_of_machine, demote, Desk, stored, set_primary_ip, set_or_stop,
  promoted, created, prepared, is_taken, create_ip,
}
use infra_inventory.Ipam.Creation.{Passed, create_ip-Passed}

same_text_refl : (o : Option String) → same_text o o ≡ true
unfolding same_text
same_text_refl none = refl
same_text_refl (some s) = str_eq_self s

-- Rows that lose their mark.
demoted-none :
    (machine : Option String) (rows : List IpAddress)
    → countp
        (λ a. is_of_machine machine a && a.is_primary)
        (map (rewrite (is_of_machine machine) demote) rows)
      ≡ 0
unfolding countp
demoted-none machine [] = refl
demoted-none machine (a ∷ rest) = ground (arith, demoted-none machine rest)

demoted-records :
    (raw : String) (machine : Option String) (rows : List IpAddress)
    → countp (λ a. str_eq a.address raw) (map (rewrite (is_of_machine machine) demote) rows)
      ≡ countp (λ a. str_eq a.address raw) rows
unfolding countp
demoted-records raw machine [] = refl
demoted-records raw machine (a ∷ rest) = ground (arith, demoted-records raw machine rest)

module _ (db : Queries IpAddress ip_id) (machines : Table (Option String)) where
  -- The primary addresses of a machine.
  abbrev pub primaries : Option String → Desk db machines → ℕ
  primaries machine d = countp (λ a. is_of_machine machine a && a.is_primary) (db.rows d.addresses)

  promoted-primaries :
      (rows : db.Rows) (machine : Option String) (raw : String) (d : Desk db machines)
      → db.update_many (is_of_machine machine) demote d.addresses ≡ some rows
      → let p = promoted db machines (some rows) (or_empty machine) raw d in
        (primaries machine p.0 ≡ 0)
        × (p.1 ≡ true → machines.find (or_empty machine) p.0.primary_ips ≡ some (some raw))
  unfolding promoted set_or_stop set_primary_ip
  promoted-primaries rows machine raw d e =
      by_machine (machines.find (or_empty machine) d.primary_ips)
    where
      none_left : countp (λ a. is_of_machine machine a && a.is_primary) (db.rows rows) ≡ 0
      none_left =
          db.update_many-rows (is_of_machine machine) demote d.addresses rows e
            (λ a. is_of_machine machine a && a.is_primary)
          ∙ demoted-none machine (db.rows d.addresses)

      by_machine :
          (o : Option (Option String))
          → let p =
              set_or_stop db machines
                (set_primary_ip db machines o
                  (or_empty machine)
                  raw
                  (record d { addresses = rows }))
                (record d { addresses = rows }) in
            (primaries machine p.0 ≡ 0)
            × (p.1 ≡ true → machines.find (or_empty machine) p.0.primary_ips ≡ some (some raw))
      by_machine none = (none_left, λ h. absurd cc)
      by_machine (some old) = (
        none_left,
        λ h.
            machines.find-put (or_empty machine) (or_empty machine) (some raw) d.primary_ips
            ∙ rw (str_eq_self (or_empty machine)) refl,
      )

  prepared-primaries :
      (input : CreateInput) (raw : String) (d : Desk db machines)
      → is_truthy input.machine_id && input.is_primary ≡ true
      → (prepared db machines input raw d).1 ≡ true
      → (primaries input.machine_id (prepared db machines input raw d).0 ≡ 0)
        × (machines.find
              (or_empty input.machine_id)
              (prepared db machines input raw d).0.primary_ips
            ≡ some (some raw))
  unfolding prepared promoted
  prepared-primaries input raw d marks ok =
      by_rows (db.update_many (is_of_machine input.machine_id) demote d.addresses) refl
        (rw marks at ok)
    where
      by_rows :
          (o : Option db.Rows)
          → db.update_many (is_of_machine input.machine_id) demote d.addresses ≡ o
          → (promoted db machines o (or_empty input.machine_id) raw d).1 ≡ true
          → (primaries input.machine_id (prepared db machines input raw d).0 ≡ 0)
            × (machines.find
                  (or_empty input.machine_id)
                  (prepared db machines input raw d).0.primary_ips
                ≡ some (some raw))
      by_rows none e h = absurd cc
      by_rows (some rows) e h =
          let (none_left, set) = promoted-primaries rows input.machine_id raw d e in
          rw (marks, e) (none_left, set h)

  -- An address that is created as the primary one of a machine is its only primary address, and the
  -- machine's own `primaryIp` is that address.
  pub create_ip-primaries :
      (id : String) (input : CreateInput) (nets : List Network) (d : Desk db machines)
      (b : IpAddress)
      → is_truthy input.machine_id && input.is_primary ≡ true
      → (create_ip db machines id input nets d).0 ≡ returns b
      → let d' = (create_ip db machines id input nets d).1 in
        (primaries input.machine_id d' ≡ 1)
        × (machines.find (or_empty input.machine_id) d'.primary_ips ≡ some (some b.address))
  unfolding Passed new_address
  create_ip-primaries id input nets d b marks e =
      let raw = trim (or_text input.address input.ip) in
      let (valid, same, ok, rows, ips) = create_ip-Passed db machines id input nets d b e in
      let (none_left, set) = prepared-primaries input raw d marks ok in
      let a = new_address id raw (network_for input raw nets) input in
      let p = prepared db machines input raw d in
      (
        db.create-rows a p.0.addresses (create_ip db machines id input nets d).1.addresses rows
              (λ x. is_of_machine input.machine_id x && x.is_primary)
            ∙ ground (arith, none_left, marks, same_text_refl input.machine_id),
        rw (ips, same) set,
      )

  -- The records of an address, whatever their marks.
  abbrev pub records_of : String → Desk db machines → ℕ
  records_of raw d = countp (λ a. str_eq a.address raw) (db.rows d.addresses)

  promoted-rows :
      (rows : db.Rows) (machine raw : String) (d : Desk db machines)
      → (promoted db machines (some rows) machine raw d).0.addresses ≡ rows
  unfolding promoted set_or_stop set_primary_ip
  promoted-rows rows machine raw d = by_machine (machines.find machine d.primary_ips)
    where
      by_machine :
          (o : Option (Option String))
          → let d' : Desk db machines = record d { addresses = rows } in
            (set_or_stop db machines (set_primary_ip db machines o machine raw d') d').0.addresses
            ≡ rows
      by_machine none = refl
      by_machine (some old) = refl

  nothing_promoted :
      (machine raw : String) (d : Desk db machines)
      → (promoted db machines none machine raw d).1 ≡ true
      → ⊥
  unfolding promoted
  nothing_promoted machine raw d h = absurd cc

  prepared-records_of :
      (input : CreateInput) (raw : String) (d : Desk db machines)
      → is_truthy input.machine_id && input.is_primary ≡ true
      → (prepared db machines input raw d).1 ≡ true
      → records_of raw (prepared db machines input raw d).0 ≡ records_of raw d
  unfolding prepared
  prepared-records_of input raw d marks ok =
      by_rows (db.update_many (is_of_machine input.machine_id) demote d.addresses) refl
        (rw marks at ok)
    where
      by_rows :
          (o : Option db.Rows)
          → db.update_many (is_of_machine input.machine_id) demote d.addresses ≡ o
          → (promoted db machines o (or_empty input.machine_id) raw d).1 ≡ true
          → records_of raw (prepared db machines input raw d).0 ≡ records_of raw d
      by_rows none e h = absurd (nothing_promoted (or_empty input.machine_id) raw d h)
      by_rows (some rows) e h =
          rw (marks, e, promoted-rows rows (or_empty input.machine_id) raw d)
            (db.update_many-rows (is_of_machine input.machine_id) demote d.addresses rows e
                (λ a. str_eq a.address raw)
              ∙ demoted-records raw input.machine_id (db.rows d.addresses))

  -- A creation that passes its tests and that the database refuses.
  created-refused :
      (p : Desk db machines × Bool) (a : IpAddress)
      → p.1 ≡ true
      → db.create a p.0.addresses ≡ none
      → created db machines p a ≡ (fails refused, p.0)
  unfolding created stored
  created-refused (d, false) a h e = absurd cc
  created-refused (d, true) a h e = rw e refl

  -- A creation of a valid primary address that the search for duplicates does not find, whose writes
  -- before the last one succeed and whose last one the database refuses, throws, but leaves the
  -- machine without any primary address among the records and with the address as its own
  -- `primaryIp`; there are as many records of the address as before.
  pub create_ip-torn :
      (id : String) (input : CreateInput) (nets : List Network) (d : Desk db machines)
      → let raw = trim (or_text input.address input.ip) in
        let p = prepared db machines input raw d in
        is_valid_ipv4 raw ≡ true
        → is_taken db machines raw (network_for input raw nets) d.addresses ≡ false
        → is_truthy input.machine_id && input.is_primary ≡ true
        → p.1 ≡ true
        → db.create (new_address id raw (network_for input raw nets) input) p.0.addresses ≡ none
        → ((create_ip db machines id input nets d).0 ≡ fails refused)
          × (primaries input.machine_id (create_ip db machines id input nets d).1 ≡ 0)
          × (machines.find
                (or_empty input.machine_id)
                (create_ip db machines id input nets d).1.primary_ips
              ≡ some (some raw))
          × (records_of raw (create_ip db machines id input nets d).1 ≡ records_of raw d)
  unfolding create_ip
  create_ip-torn id input nets d valid untaken marks ok none_created =
      let raw = trim (or_text input.address input.ip) in
      let a = new_address id raw (network_for input raw nets) input in
      let (none_left, set) = prepared-primaries input raw d marks ok in
      rw (valid, untaken, created-refused (prepared db machines input raw d) a ok none_created)
        (refl, none_left, set, prepared-records_of input raw d marks ok)
