-- ===== src/Ipam/Conflicts/Clashes.antt =====
-- What detectConflicts reports.
use infra_inventory.Prelude.{
  ◌≡◌, ◌∙◌, ◌↔◌, refl, ap, subst, inl, inr, Bool, true, false, Option, none, some, List, [], ◌∷◌,
  map, String, if◌then◌else◌,
}
use infra_inventory.Prelude.Dict.{Dict}
use infra_inventory.Store.Queries.{Queries, IsRow}
use infra_inventory.Ipam.{IpAddress, ip_id}
use infra_inventory.Ipam.Conflicts.{
  Conflict, group, is_conflict, conflict_of, mark, has_address, Report, add, report_entries,
  report_marked, detect_conflicts,
}
use infra_inventory.Ipam.Conflicts.Rows.{Clash, rows_at, is_conflict-Clash, Clash-is_conflict}
use infra_inventory.Ipam.Conflicts.Groups.{entry-rows_at, rows_at-entry}

pair_eq :
    (j k : String) (w v : List IpAddress)
    → j ≡ k
    → w ≡ v
    → ◌≡◌ {A = String × List IpAddress} (j, w) (k, v)
pair_eq j k w v h e = cc

-- The addresses of a report.
abbrev pub Tells : List Conflict → String → Type 0
Tells cs ip = IsRow ip (map (λ c. c.ip) cs)

abbrev HasEntry : Dict (List IpAddress) → String → Type 0
HasEntry entries ip = (v : List IpAddress) × IsRow (ip, v) entries × (is_conflict v ≡ true)

cons-HasEntry :
    (k : String) (v : List IpAddress) (entries : Dict (List IpAddress)) (cs : List Conflict)
    (ip : String)
    → is_conflict v ≡ true
    → Tells cs ip ↔ HasEntry entries ip
    → Tells (conflict_of k v ∷ cs) ip ↔ HasEntry ((k, v) ∷ entries) ip
cons-HasEntry k v entries cs ip conflicts ih = (there, back)
  where
    there : Tells (conflict_of k v ∷ cs) ip → HasEntry ((k, v) ∷ entries) ip
    there (inl e) = (v, inl (pair_eq k ip v v e refl), conflicts)
    there (inr row) = let (w, r, h) = ih.0 row in (w, inr r, h)

    back : HasEntry ((k, v) ∷ entries) ip → Tells (conflict_of k v ∷ cs) ip
    back (w, inl e, h) = inl (ap (λ p. p.0) e)
    back (w, inr r, h) = inr (ih.1 (w, r, h))

skip-HasEntry :
    (k : String) (v : List IpAddress) (entries : Dict (List IpAddress)) (cs : List Conflict)
    (ip : String)
    → is_conflict v ≡ false
    → Tells cs ip ↔ HasEntry entries ip
    → Tells cs ip ↔ HasEntry ((k, v) ∷ entries) ip
skip-HasEntry k v entries cs ip harmless ih = (there, back)
  where
    there : Tells cs ip → HasEntry ((k, v) ∷ entries) ip
    there row = let (w, r, h) = ih.0 row in (w, inr r, h)

    clash : {b : Bool} → b ≡ false → b ≡ true → ⊥
    clash h k = cc

    back : HasEntry ((k, v) ∷ entries) ip → Tells cs ip
    back (w, inl e, h) = absurd (clash harmless (ap (λ p. is_conflict p.1) e ∙ h))
    back (w, inr r, h) = ih.1 (w, r, h)

module _ (db : Queries IpAddress ip_id) where
  add-some :
      (c : Conflict) (r : Report db) (cs : List Conflict)
      → (add db c r).0 ≡ some cs
      → (rest : List Conflict) × (r.0 ≡ some rest) × (c ∷ rest ≡ cs)
  add-some c (none, t) cs e = absurd cc
  add-some c (some rest, t) cs e = (rest, refl, cc)

  report_entries-HasEntry :
      (entries : Dict (List IpAddress)) (t : db.Rows) (cs : List Conflict)
      → (report_entries db entries t).0 ≡ some cs
      → (ip : String) → Tells cs ip ↔ HasEntry entries ip
  unfolding report_entries report_marked
  report_entries-HasEntry [] t cs e ip =
      (λ row. absurd (subst (λ xs. Tells xs ip) (nothing cs e) row), no_entry)
    where
      no_entry : HasEntry [] ip → Tells cs ip
      no_entry (v, row, h) = absurd row

      nothing : (xs : List Conflict) → some [] ≡ some xs → xs ≡ []
      nothing xs h = cc
  report_entries-HasEntry ((k, v) ∷ entries) t cs e ip =
      by_test (is_conflict v) refl (db.update_many (has_address k) mark t)
        (report_entries-HasEntry entries) e
    where
      by_test :
          (b : Bool)
          → is_conflict v ≡ b
          → (o : Option db.Rows)
          → ((t : db.Rows) (cs : List Conflict)
              → (report_entries db entries t).0 ≡ some cs
              → (ip : String) → Tells cs ip ↔ HasEntry entries ip)
          → (if b
              then report_marked db o (conflict_of k v) (λ t'. report_entries db entries t') t
              else report_entries db entries t).0
            ≡ some cs
          → Tells cs ip ↔ HasEntry ((k, v) ∷ entries) ip
      by_test false h o ih e = skip-HasEntry k v entries cs ip h (ih t cs e ip)
      by_test true h none ih e = absurd cc
      by_test true h (some t') ih e =
          let (rest, reported, same) =
            add-some (conflict_of k v) (report_entries db entries t') cs e in
          subst (λ xs. Tells xs ip ↔ HasEntry ((k, v) ∷ entries) ip) same
            (cons-HasEntry k v entries rest ip h (ih t' rest reported ip))

  -- A search for conflicts that is not stopped by a failing write reports an address exactly when
  -- two different machines have a record of it.
  pub detect_conflicts_iff :
      (ips : List IpAddress) (t : db.Rows) (cs : List Conflict)
      → (detect_conflicts db ips t).0 ≡ some cs
      → (ip : String) → Tells cs ip ↔ Clash ips ip
  unfolding detect_conflicts
  detect_conflicts_iff ips t cs e ip =
      let entries = report_entries-HasEntry (group ips []) t cs e ip in
      (
        λ row.
            let (v, there, h) = entries.0 row in
            is_conflict-Clash ip ips
              (subst (λ w. is_conflict w ≡ true) (entry-rows_at ip v ips there) h),
        λ clash.
            let h = Clash-is_conflict ip ips clash in
            entries.1 (rows_at ip ips, rows_at-entry ip ips h, h),
      )
