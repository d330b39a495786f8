-- ===== src/Locations/Tests.antt =====
-- The locations at a concrete table that checks parents.
use infra_inventory.Prelude.{
  ℕ, ◌≤◌, ◌<◌, ◌≡◌, refl, inl, inr, Bool, true, false, not, ◌&&◌, ◌||◌, Option, none, some, List,
  [], ◌∷◌, String, arith, eq_iff, str_eq, if◌then◌else◌, is_truthy, or_empty, ltb, ltb→lt, subst,
  ap, sym,
}
use infra_inventory.Prelude.Dict
use infra_inventory.Store.InMemory.{list_queries, search, others, added}
use infra_inventory.Store.Queries.{Queries, countp, IsRow, has_key}
use infra_inventory.Locations.{
  Location, UpdateInput, Error, fails, returns, location_id, location_map, push_child, place,
  place_all, get_tree, is_child, updated, is_own_parent, stored, create_location, update_found,
  update_location, delete_found, delete_location,
}
use infra_inventory.Locations.Tree.{is_listed, ids_where, get_tree_lem}
use infra_inventory.Locations.Shown.{Shown, get_tree_shows, get_tree_hides}
use infra_inventory.Locations.References.{
  Call, creates, updates, deletes, step, run, ChecksParents, HasParents, run-HasParents,
}

unfolds : Unit {0}
unfolding location_map push_child place place_all get_tree updated is_own_parent stored
    create_location update_found update_location delete_found delete_location is_listed ids_where
    step run countp search others added Dict.get Dict.set
unfolds = tt

abbrev parent_stands : Location → List Location → Bool
parent_stands r t =
    not (is_truthy r.parent_id) || ltb 0 (countp (has_key location_id (or_empty r.parent_id)) t)

abbrev checked : Location → Option (List Location) → Option (List Location)
checked r none = none
checked r (some t) = if parent_stands r t then some t else none

checked-some :
    (r : Location) (o : Option (List Location)) (t : List Location)
    → checked r o ≡ some t
    → (o ≡ some t) × (parent_stands r t ≡ true)
checked-some r none t e = absurd cc
checked-some r (some u) t e = by_test (parent_stands r u) refl e
  where
    same_rows : (x : List Location) → some u ≡ some x → u ≡ x
    same_rows x k = cc

    by_test :
        (b : Bool)
        → parent_stands r u ≡ b
        → (if b then some u else none) ≡ some t
        → (some u ≡ some t) × (parent_stands r t ≡ true)
    by_test true h k = (k, subst (λ x. parent_stands r x ≡ true) (same_rows t k) h)
    by_test false h k = absurd cc

abbrev base : Queries Location location_id
base = list_queries Location location_id

abbrev db : Queries Location location_id
db = record base {
  create = λ r t. checked r (base.create r t);
  update = λ r t. checked r (base.update r t);
  create-unique = λ r t t' e. base.create-unique r t t' (checked-some r (base.create r t) t' e).0;
  create-rows = λ r t t' e. base.create-rows r t t' (checked-some r (base.create r t) t' e).0;
  update-rows = λ r t t' e. base.update-rows r t t' (checked-some r (base.update r t) t' e).0;
}

parent_counts :
    (r : Location) (t : List Location) (id : String)
    → parent_stands r t ≡ true
    → is_child id r ≡ true
    → 1 ≤ countp (has_key location_id id) t
parent_counts r t id h child = by_parent (is_truthy r.parent_id) (or_empty r.parent_id) h child
  where
    by_parent :
        (given : Bool) (parent : String)
        → not given || ltb 0 (countp (has_key location_id parent) t) ≡ true
        → given && str_eq parent id ≡ true
        → 1 ≤ countp (has_key location_id id) t
    by_parent true parent h child = omega (
      arith,
      ltb→lt 0 (countp (has_key location_id parent) t) h,
      ap (λ k. countp (has_key location_id k) t) ((eq_iff parent id).0 child),
    )
    by_parent false parent h child = absurd cc

checks : ChecksParents db
checks r t t' id (inl e) = parent_counts r t' id (checked-some r (base.create r t) t' e).1
checks r t t' id (inr e) = parent_counts r t' id (checked-some r (base.update r t) t' e).1

abbrev site : Location
site = record { id = "l1"; name = "Site"; parent_id = none }

abbrev hall : Location
hall = record { id = "l2"; name = "Hall"; parent_id = some "l1" }

abbrev rack : Location
rack = record { id = "l3"; name = "Rack"; parent_id = some "l2" }

-- The database lists them by name.
abbrev places : List Location
places = hall ∷ rack ∷ site ∷ []

built : get_tree places ≡ record {
  children = ("l2", "l3" ∷ []) ∷ ("l3", []) ∷ ("l1", "l2" ∷ []) ∷ [];
  roots = "l1" ∷ [];
}
unfolding unfolds
built = refl

abbrev under : String → UpdateInput
under parent = record { name = none; parent_id = some (some parent) }

abbrev site_below_rack : Location
site_below_rack = record site { parent_id = some "l3" }

-- A location can be moved below its own descendant.
cycle_made :
    update_location db "l1" (under "l3") places
    ≡ (returns site_below_rack, hall ∷ rack ∷ site_below_rack ∷ [])
unfolding unfolds
cycle_made = refl

own_parent_refused : update_location db "l1" (under "l1") places ≡ (fails Error.own_parent, places)
unfolding unfolds
own_parent_refused = refl

parent_missing : update_location db "l1" (under "l9") places ≡ (fails Error.refused, places)
unfolding unfolds
parent_missing = refl

deletion_refused : delete_location db "l2" places ≡ (fails Error.has_children, places)
unfolding unfolds
deletion_refused = refl

abbrev history : List Call
history =
    creates "l1" (record { name = "Site"; parent_id = none })
    ∷ creates "l2" (record { name = "Hall"; parent_id = some "l1" })
    ∷ deletes "l1"
    ∷ updates "l2" (record { name = none; parent_id = some none })
    ∷ deletes "l1"
    ∷ []

left_over : run db history [] ≡ record hall { parent_id = none } ∷ []
unfolding unfolds
left_over = refl

nothing-HasParents : HasParents db []
unfolding countp
nothing-HasParents id free = refl

run-HasParents_example : HasParents db (run db history [])
run-HasParents_example = run-HasParents db checks history [] nothing-HasParents

get_tree_lem_example :
    (Dict.get "l1" (get_tree places).children ≡ some ("l2" ∷ []))
    × ((get_tree places).roots ≡ "l1" ∷ [])
unfolding unfolds
get_tree_lem_example = get_tree_lem places "l1"

abbrev depth : String → ℕ
depth id = if str_eq id "l1" then 0 else if str_eq id "l2" then 1 else 2

falls :
    (l : Location)
    → IsRow l places
    → is_truthy l.parent_id && is_listed (or_empty l.parent_id) places ≡ true
    → depth (or_empty l.parent_id) < depth l.id
unfolding unfolds
falls l (inl e) has = subst (λ x. depth (or_empty x.parent_id) < depth x.id) e (omega arith)
falls l (inr (inl e)) has = subst (λ x. depth (or_empty x.parent_id) < depth x.id) e (omega arith)
falls l (inr (inr (inl e))) has =
    let k : false ≡ true =
      subst (λ x. is_truthy x.parent_id && is_listed (or_empty x.parent_id) places ≡ true) (sym e)
        has in
    absurd cc
falls l (inr (inr (inr none_left))) has = absurd none_left

get_tree_shows_example : Shown (get_tree places) "l3"
get_tree_shows_example = get_tree_shows places depth falls rack (inr (inl refl))

abbrev cycle : List Location
cycle = hall ∷ rack ∷ site_below_rack ∷ []

abbrev on_cycle : String → Bool
on_cycle id = str_eq id "l1" || (str_eq id "l2" || str_eq id "l3")

abbrev IsClosed : Location → Type 0
IsClosed x =
    (is_truthy x.parent_id && is_listed (or_empty x.parent_id) cycle ≡ true)
    × (on_cycle (or_empty x.parent_id) ≡ true)

closes : (l : Location) → IsRow l cycle → on_cycle l.id ≡ true → IsClosed l
unfolding unfolds
closes l (inl e) h = subst IsClosed e (refl, refl)
closes l (inr (inl e)) h = subst IsClosed e (refl, refl)
closes l (inr (inr (inl e))) h = subst IsClosed e (refl, refl)
closes l (inr (inr (inr none_left))) h = absurd none_left

get_tree_hides_example : ¬ Shown (get_tree cycle) "l1"
get_tree_hides_example = get_tree_hides cycle on_cycle closes "l1" refl
