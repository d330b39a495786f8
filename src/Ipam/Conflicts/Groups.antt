-- ===== src/Ipam/Conflicts/Groups.antt =====
-- The groups of detectConflicts: the entry of an address has the rows of that address.
use mathlib.Core.List.{append-nil, append_assoc}
use infra_inventory.Prelude.{
  ◌≡◌, ◌∙◌, refl, sym, ap, subst, inl, inr, true, Option, none, some, List, [], ◌∷◌, ◌++◌, String,
  arith, eq_iff, str_eq, if◌then◌else◌, Bool-cases,
}
use infra_inventory.Prelude.Dict
use infra_inventory.Prelude.Dict.{Dict, get-set}
use infra_inventory.Store.Queries.{IsRow}
use infra_inventory.Ipam.{IpAddress}
use infra_inventory.Ipam.Conflicts.{or_nil, group, machine_ids, distinct, is_conflict}
use infra_inventory.Ipam.Conflicts.Rows.{rows_at}

-- No key twice.
abbrev Unique : Dict (List IpAddress) → Type 0
Unique [] = Unit
Unique ((k, v) ∷ m) = (Dict.get k m ≡ none) × Unique m

Unique-set :
    (k : String) (v : List IpAddress) (m : Dict (List IpAddress))
    → Unique m
    → Unique (Dict.set k v m)
unfolding Dict.set Dict.get
Unique-set k v [] u = (refl, tt)
Unique-set k v ((j, w) ∷ m) u = elim (Bool-cases (str_eq j k)) [
  | inl e ↦ rw e (subst (λ i. Dict.get i m ≡ none) ((eq_iff j k).0 e) u.0, u.1)
  | inr e ↦
      rw e (get-set k j v m ∙ ground (arith, eq_iff j k, eq_iff k j, u.0), Unique-set k v m u.1)
]

Unique-group : (ips : List IpAddress) (m : Dict (List IpAddress)) → Unique m → Unique (group ips m)
unfolding group
Unique-group [] m u = u
Unique-group (a ∷ rest) m u =
    Unique-group rest _ (Unique-set a.address (or_nil (Dict.get a.address m) ++ a ∷ []) m u)

Unique-get :
    (k : String) (v : List IpAddress) (m : Dict (List IpAddress))
    → Unique m
    → IsRow (k, v) m
    → Dict.get k m ≡ some v
unfolding Dict.get
Unique-get k v [] u row = absurd row
Unique-get k v ((j, w) ∷ m) u (inl e) = rw ((eq_iff j k).1 (ap (λ p. p.0) e)) (ap (λ p. some p.1) e)
Unique-get k v ((j, w) ∷ m) u (inr row) =
    let found = Unique-get k v m u.1 row in
    elim (Bool-cases (str_eq j k)) [
      | inl same ↦
          absurd (missing (subst (λ i. Dict.get i m ≡ none) ((eq_iff j k).0 same) u.0) found)
      | inr differs ↦ rw differs found
    ]
  where
    missing : {o : Option (List IpAddress)} → o ≡ none → o ≡ some v → ⊥
    missing h e = cc

get-IsRow :
    (k : String) (v : List IpAddress) (m : Dict (List IpAddress))
    → Dict.get k m ≡ some v
    → IsRow (k, v) m
unfolding Dict.get
get-IsRow k v [] e = absurd cc
get-IsRow k v ((j, w) ∷ m) e = elim (Bool-cases (str_eq j k)) [
  | inl same ↦ inl (entry ((eq_iff j k).0 same) (rw same at e))
  | inr differs ↦ inr (get-IsRow k v m (rw differs at e))
]
  where
    entry : j ≡ k → some w ≡ some v → ◌≡◌ {A = String × List IpAddress} (j, w) (k, v)
    entry h e = cc

get-group :
    (ip : String) (ips : List IpAddress) (m : Dict (List IpAddress))
    → or_nil (Dict.get ip (group ips m)) ≡ or_nil (Dict.get ip m) ++ rows_at ip ips
unfolding group rows_at
get-group ip [] m = sym (append-nil (or_nil (Dict.get ip m)))
get-group ip (a ∷ rest) m =
    let new = or_nil (Dict.get a.address m) ++ a ∷ [] in
    get-group ip rest (Dict.set a.address new m)
    ∙ ap (λ o. or_nil o ++ rows_at ip rest) (get-set a.address ip new m)
    ∙ placed
  where
    placed :
        or_nil (
            if str_eq a.address ip
            then some (or_nil (Dict.get a.address m) ++ a ∷ [])
            else Dict.get ip m)
          ++ rows_at ip rest
        ≡ or_nil (Dict.get ip m)
          ++ (if str_eq a.address ip then a ∷ rows_at ip rest else rows_at ip rest)
    placed = elim (Bool-cases (str_eq a.address ip)) [
      | inl same ↦ rw same (
          ap (λ k. (or_nil (Dict.get k m) ++ a ∷ []) ++ rows_at ip rest)
            ((eq_iff a.address ip).0 same)
          ∙ append_assoc (or_nil (Dict.get ip m)) (a ∷ []) (rows_at ip rest))
      | inr differs ↦ rw differs refl
    ]

-- The grouped rows of an address are its entry of the map.
pub entry-rows_at :
    (ip : String) (v ips : List IpAddress) → IsRow (ip, v) (group ips []) → v ≡ rows_at ip ips
unfolding Dict.get
entry-rows_at ip v ips row =
    sym (ap or_nil (Unique-get ip v (group ips []) (Unique-group ips [] tt) row))
    ∙ get-group ip ips []

pub rows_at-entry :
    (ip : String) (ips : List IpAddress)
    → is_conflict (rows_at ip ips) ≡ true
    → IsRow (ip, rows_at ip ips) (group ips [])
unfolding Dict.get machine_ids distinct
rows_at-entry ip ips h = by_node (Dict.get ip (group ips [])) refl (get-group ip ips [])
  where
    by_node :
        (o : Option (List IpAddress))
        → Dict.get ip (group ips []) ≡ o
        → or_nil o ≡ rows_at ip ips
        → IsRow (ip, rows_at ip ips) (group ips [])
    by_node none e g =
        let none_there : is_conflict [] ≡ true = subst (λ v. is_conflict v ≡ true) (sym g) h in
        absurd cc
    by_node (some v) e g = get-IsRow ip (rows_at ip ips) (group ips []) (e ∙ ap some g)
