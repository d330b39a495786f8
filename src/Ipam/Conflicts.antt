-- ===== src/Ipam/Conflicts.antt =====
-- detectConflicts of backend/src/modules/networks/networks.service.ts: addresses that several
-- machines have. The interfaces and the text of a conflict are left out.
pub mod Distinct
pub mod Rows
pub mod Groups
pub mod Clashes
use infra_inventory.Prelude.{
  ℕ, Bool, true, false, Option, none, some, List, [], ◌∷◌, ◌++◌, String, str_eq, if◌then◌else◌,
  is_truthy, or_empty, length, ltb,
}
use infra_inventory.Prelude.Dict
use infra_inventory.Prelude.Dict.{Dict}
use infra_inventory.Store.Queries.{Queries}
use infra_inventory.Ipam.{IpAddress, IpStatus, ip_id}

pub record Conflict : Type 0 where
  pub ip : String
  pub count : ℕ
  pub machines : List String

abbrev pub or_nil : Option (List IpAddress) → List IpAddress
or_nil none = []
or_nil (some xs) = xs

-- `ipMap.get(addr)!.push(item)`, after an empty list is set under a new address.
unfoldable pub group : List IpAddress → Dict (List IpAddress) → Dict (List IpAddress)
group [] m = m
group (a ∷ rest) m = group rest (Dict.set a.address (or_nil (Dict.get a.address m) ++ a ∷ []) m)

-- `.map((o) => o.machineId).filter(Boolean)`
unfoldable pub machine_ids : List IpAddress → List String
machine_ids [] = []
machine_ids (a ∷ rest) =
    if is_truthy a.machine_id then or_empty a.machine_id ∷ machine_ids rest else machine_ids rest

unfoldable pub includes : String → List String → Bool
includes x [] = false
includes x (y ∷ ys) = if str_eq y x then true else includes x ys

-- `new Set(…)`, of which the size is read only: each value once.
unfoldable pub distinct : List String → List String
distinct [] = []
distinct (x ∷ xs) = if includes x xs then distinct xs else x ∷ distinct xs

abbrev pub is_conflict : List IpAddress → Bool
is_conflict occurrences = ltb 1 (length (distinct (machine_ids occurrences)))

abbrev pub conflict_of : String → List IpAddress → Conflict
conflict_of ip occurrences = record {
  ip = ip;
  count = length (distinct (machine_ids occurrences));
  machines = machine_ids occurrences;
}

abbrev pub mark : IpAddress → IpAddress
mark a = record a { status = IpStatus.conflict }

abbrev pub has_address : String → IpAddress → Bool
has_address ip a = str_eq a.address ip

module _ (db : Queries IpAddress ip_id) where
  -- A list of conflicts, or `none` when a write threw; the rows as they are then.
  abbrev pub Report : Type 0
  Report = Option (List Conflict) × db.Rows

  abbrev pub add : Conflict → Report → Report
  add c (none, t) = (none, t)
  add c (some cs, t) = (some (c ∷ cs), t)

  -- One write of the loop; a write that is refused ends it.
  unfoldable pub report_marked : Option db.Rows → Conflict → (db.Rows → Report) → db.Rows → Report
  report_marked none c rest t = (none, t)
  report_marked (some t') c rest t = add c (rest t')

  -- The loop over the entries of the map.
  unfoldable pub report_entries : Dict (List IpAddress) → db.Rows → Report
  report_entries [] t = (some [], t)
  report_entries ((ip, occurrences) ∷ entries) t =
      let rest : db.Rows → Report = λ t'. report_entries entries t' in
      if is_conflict occurrences
      then report_marked (db.update_many (has_address ip) mark t) (conflict_of ip occurrences) rest
          t
      else rest t

  -- `ips` are the addresses that have a machine, as the database lists them.
  unfoldable pub detect_conflicts : List IpAddress → db.Rows → Report
  detect_conflicts ips t = report_entries (group ips []) t
