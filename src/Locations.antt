-- ===== src/Locations.antt =====
-- The locations of backend/src/modules/locations/locations.service.ts: their tree and the operations
-- on the table. Columns that no code looks at, and the change log, are left out.
pub mod Tree
pub mod Shown
pub mod References
mod Tests
use infra_inventory.Prelude.{
  Bool, true, false, ◌&&◌, Option, none, some, List, [], ◌∷◌, ◌++◌, String, str_eq, if◌then◌else◌,
  is_truthy, or_empty, ltb,
}
use infra_inventory.Prelude.Dict
use infra_inventory.Prelude.Dict.{Dict}
use infra_inventory.Store.Queries.{Queries, find}

pub record Location : Type 0 where
  pub id : String
  pub name : String
  pub parent_id : Option String

pub record CreateInput : Type 0 where
  pub name : String
  pub parent_id : Option String

-- `none` is an absent field, `some none` is `null`.
pub record UpdateInput : Type 0 where
  pub name : Option String
  pub parent_id : Option (Option String)

pub data Error : Type 0 where
  name_taken not_found own_parent has_children refused : Error

pub data Result : Type 0 where
  fails : Error → Result
  returns : Location → Result

abbrev pub location_id : Location → String
location_id l = l.id

abbrev pub or_else {ℓ} : {A : Type ℓ} → Option A → A → A
or_else none b = b
or_else (some a) b = a

abbrev pub is_some {ℓ} : {A : Type ℓ} → Option A → Bool
is_some none = false
is_some (some a) = true

-- The nodes of the tree are shared objects: an id stands for the node that the map has under it,
-- and a node is known by the list of its children.
pub record Forest : Type 0 where
  pub children : Dict (List String)
  pub roots : List String

-- `locationMap.set(loc.id, { ...loc, children: [] })` for every location
unfoldable pub location_map : List Location → Dict (List String) → Dict (List String)
location_map [] m = m
location_map (l ∷ ls) m = location_map ls (Dict.set l.id [] m)

-- `locationMap.get(parent).children.push(node)`
unfoldable pub push_child :
    Option (List String) → String → String → Dict (List String) → Dict (List String)
push_child none parent child m = m
push_child (some cs) parent child m = Dict.set parent (cs ++ child ∷ []) m

abbrev pub has_node : String → Dict (List String) → Bool
has_node id m = is_some (Dict.get id m)

abbrev pub is_placed_under : Option String → Dict (List String) → Bool
is_placed_under parent m = is_truthy parent && has_node (or_empty parent) m

unfoldable pub place : Location → Forest → Forest
place l f =
    if is_placed_under l.parent_id f.children
    then record f {
      children =
          push_child (Dict.get (or_empty l.parent_id) f.children) (or_empty l.parent_id) l.id
            f.children;
    }
    else record f { roots = f.roots ++ l.id ∷ [] }

unfoldable pub place_all : List Location → Forest → Forest
place_all [] f = f
place_all (l ∷ ls) f = place_all ls (place l f)

-- `locs` are the locations as the database lists them.
unfoldable pub get_tree : List Location → Forest
get_tree locs = place_all locs (record { children = location_map locs []; roots = [] })

abbrev pub has_name : String → Location → Bool
has_name name l = str_eq l.name name

abbrev pub is_child : String → Location → Bool
is_child id l = is_truthy l.parent_id && str_eq (or_empty l.parent_id) id

unfoldable pub updated : UpdateInput → Location → Location
updated input l = record {
  id = l.id;
  name = or_else input.name l.name;
  parent_id = or_else input.parent_id l.parent_id;
}

-- `data.parentId && data.parentId === id`
unfoldable pub is_own_parent : String → Option (Option String) → Bool
is_own_parent id none = false
is_own_parent id (some parent) = is_truthy parent && str_eq (or_empty parent) id

module _ (db : Queries Location location_id) where
  unfoldable pub stored : Option db.Rows → Location → db.Rows → Result × db.Rows
  stored none l t = (fails refused, t)
  stored (some t') l t = (returns l, t')

  unfoldable pub create_location : String → CreateInput → db.Rows → Result × db.Rows
  create_location id input t =
      let l : Location = record { id = id; name = input.name; parent_id = input.parent_id } in
      if is_some (db.find_first (has_name input.name) t)
      then (fails name_taken, t)
      else stored (db.create l t) l t

  unfoldable pub update_found : String → UpdateInput → Option Location → db.Rows → Result × db.Rows
  update_found id input none t = (fails not_found, t)
  update_found id input (some l) t =
      if is_own_parent id input.parent_id
      then (fails own_parent, t)
      else stored (db.update (updated input l) t) (updated input l) t

  unfoldable pub update_location : String → UpdateInput → db.Rows → Result × db.Rows
  update_location id input t = update_found id input (find db id t) t

  unfoldable pub delete_found : String → Option Location → db.Rows → Result × db.Rows
  delete_found id none t = (fails not_found, t)
  delete_found id (some l) t =
      if ltb 0 (db.count (is_child id) t)
      then (fails has_children, t)
      else stored (db.remove id t) l t

  unfoldable pub delete_location : String → db.Rows → Result × db.Rows
  delete_location id t = delete_found id (find db id t) t
