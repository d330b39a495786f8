-- ===== src/Locations/Tree.antt =====
-- What getTree builds from the locations, against the list itself.
use mathlib.Core.List.{append-nil, append_assoc}
use infra_inventory.Prelude.{
  ◌≡◌, ◌∙◌, refl, sym, ap, inl, inr, Bool, true, false, not, ◌&&◌, Option, none, some, List, [],
  ◌∷◌, ◌++◌, String, arith, eq_iff, str_eq, if◌then◌else◌, is_truthy, or_empty, Bool-cases,
}
use infra_inventory.Prelude.Dict
use infra_inventory.Prelude.Dict.{Dict, get-set}
use infra_inventory.Locations.{
  Location, Forest, is_some, location_map, push_child, has_node, is_placed_under, place, place_all,
  get_tree, is_child,
}

-- Is there a location with this id?
unfoldable pub is_listed : String → List Location → Bool
is_listed id [] = false
is_listed id (l ∷ ls) = if str_eq l.id id then true else is_listed id ls

-- The ids of the locations that meet a condition, in their order.
unfoldable pub ids_where : (Location → Bool) → List Location → List String
ids_where p [] = []
ids_where p (l ∷ ls) = if p l then l.id ∷ ids_where p ls else ids_where p ls

-- A location with no parent, or with one that is not listed.
abbrev pub is_top : List Location → Location → Bool
is_top all l = not (is_truthy l.parent_id && is_listed (or_empty l.parent_id) all)

abbrev after : Option (List String) → List String → Option (List String)
after none ds = none
after (some cs) ds = some (cs ++ ds)

get-location_map :
    (id : String) (ls : List Location) (m : Dict (List String))
    → Dict.get id (location_map ls m) ≡ (if is_listed id ls then some [] else Dict.get id m)
unfolding location_map is_listed
get-location_map id [] m = refl
get-location_map id (l ∷ ls) m =
    ground (arith, get-location_map id ls (Dict.set l.id [] m), get-set l.id id [] m)

get-push_child :
    (id parent child : String) (m : Dict (List String)) (o : Option (List String))
    → Dict.get parent m ≡ o
    → Dict.get id (push_child o parent child m)
      ≡ (if str_eq parent id then after (Dict.get id m) (child ∷ []) else Dict.get id m)
unfolding push_child
get-push_child id parent child m none e = elim (Bool-cases (str_eq parent id)) [
  | inl same ↦ rw (same, sym (ap (λ k. Dict.get k m) ((eq_iff parent id).0 same)) ∙ e) refl
  | inr differs ↦ rw differs refl
]
get-push_child id parent child m (some cs) e = elim (Bool-cases (str_eq parent id)) [
  | inl same ↦
      get-set parent id (cs ++ child ∷ []) m
      ∙ rw (same, sym (ap (λ k. Dict.get k m) ((eq_iff parent id).0 same)) ∙ e) refl
  | inr differs ↦ get-set parent id (cs ++ child ∷ []) m ∙ rw differs refl
]

-- The key of a missing node.
missing :
    (parent id : String) (m : Dict (List String))
    → Dict.get parent m ≡ none
    → str_eq parent id ≡ true
    → Dict.get id m ≡ none
missing parent id m e same = sym (ap (λ k. Dict.get k m) ((eq_iff parent id).0 same)) ∙ e

get-place :
    (id : String) (l : Location) (f : Forest)
    → Dict.get id (place l f).children ≡ (
        if is_child id l
        then after (Dict.get id f.children) (l.id ∷ [])
        else Dict.get id f.children)
unfolding place
get-place id l f =
    by_parent (is_truthy l.parent_id) (or_empty l.parent_id)
      (Dict.get (or_empty l.parent_id) f.children) refl
  where
    by_parent :
        (given : Bool) (parent : String) (o : Option (List String))
        → Dict.get parent f.children ≡ o
        → Dict.get id
            (if given && is_some o
              then record f { children = push_child o parent l.id f.children }
              else record f { roots = f.roots ++ l.id ∷ [] }).children
          ≡ (if given && str_eq parent id
              then after (Dict.get id f.children) (l.id ∷ [])
              else Dict.get id f.children)
    by_parent false parent o e = refl
    by_parent true parent none e = elim (Bool-cases (str_eq parent id)) [
      | inl same ↦ rw (same, missing parent id f.children e same) refl
      | inr differs ↦ rw differs refl
    ]
    by_parent true parent (some cs) e = get-push_child id parent l.id f.children (some cs) e

after-cons :
    (o : Option (List String)) (d : String) (ds : List String)
    → after (after o (d ∷ [])) ds ≡ after o (d ∷ ds)
after-cons none d ds = refl
after-cons (some cs) d ds = ap some (append_assoc cs (d ∷ []) ds)

after-nil : (o : Option (List String)) → after o [] ≡ o
after-nil none = refl
after-nil (some cs) = ap some (append-nil cs)

get-place_all :
    (id : String) (ls : List Location) (f : Forest)
    → Dict.get id (place_all ls f).children
      ≡ after (Dict.get id f.children) (ids_where (is_child id) ls)
unfolding place_all ids_where
get-place_all id [] f = sym (after-nil (Dict.get id f.children))
get-place_all id (l ∷ ls) f = elim (Bool-cases (is_child id l)) [
  | inl child ↦
      get-place_all id ls (place l f)
      ∙ ap (λ o. after o (ids_where (is_child id) ls)) (get-place id l f)
      ∙ rw child (after-cons (Dict.get id f.children) l.id (ids_where (is_child id) ls))
  | inr other ↦
      get-place_all id ls (place l f)
      ∙ ap (λ o. after o (ids_where (is_child id) ls)) (get-place id l f)
      ∙ rw other refl
]

-- Placing a location neither adds a node nor takes one away.
has_node-place :
    (id : String) (l : Location) (f : Forest)
    → has_node id (place l f).children ≡ has_node id f.children
has_node-place id l f =
    ap is_some (get-place id l f) ∙ same_node (is_child id l) (Dict.get id f.children)
  where
    same_node :
        (b : Bool) (o : Option (List String))
        → is_some (if b then after o (l.id ∷ []) else o) ≡ is_some o
    same_node true none = refl
    same_node true (some cs) = refl
    same_node false o = refl

roots-place :
    (l : Location) (f : Forest)
    → (place l f).roots
      ≡ (if is_placed_under l.parent_id f.children then f.roots else f.roots ++ l.id ∷ [])
unfolding place
roots-place l f =
    by_test (is_placed_under l.parent_id f.children) (
      push_child (Dict.get (or_empty l.parent_id) f.children) (or_empty l.parent_id) l.id
        f.children)
  where
    by_test :
        (b : Bool) (m : Dict (List String))
        → (if b then record f { children = m } else record f { roots = f.roots ++ l.id ∷ [] }).roots
          ≡ (if b then f.roots else f.roots ++ l.id ∷ [])
    by_test true m = refl
    by_test false m = refl

roots-place_all :
    (all ls : List Location) (f : Forest)
    → ((id : String) → has_node id f.children ≡ is_listed id all)
    → (place_all ls f).roots ≡ f.roots ++ ids_where (is_top all) ls
unfolding place_all ids_where
roots-place_all all [] f h = sym (append-nil f.roots)
roots-place_all all (l ∷ ls) f h =
    roots-place_all all ls (place l f) (λ id. has_node-place id l f ∙ h id)
    ∙ ap (λ rs. rs ++ ids_where (is_top all) ls)
        (roots-place l f
          ∙ ap (λ b. if is_truthy l.parent_id && b then f.roots else f.roots ++ l.id ∷ [])
              (h (or_empty l.parent_id)))
    ∙ regroup (is_truthy l.parent_id && is_listed (or_empty l.parent_id) all) f.roots
        (ids_where (is_top all) ls)
  where
    regroup :
        (b : Bool) (rs ds : List String)
        → (if b then rs else rs ++ l.id ∷ []) ++ ds ≡ rs ++ (if not b then l.id ∷ ds else ds)
    regroup true rs ds = refl
    regroup false rs ds = append_assoc rs (l.id ∷ []) ds

-- In the forest that `getTree` builds by changing shared nodes, there is a node for every location
-- that is listed and no other; its children are the locations that name it as their parent, in the
-- order of the list; and the roots are the locations without a parent, or with one that is not
-- listed, in that order.
pub get_tree_lem :
    (locs : List Location) (id : String)
    → (Dict.get id (get_tree locs).children
        ≡ (if is_listed id locs then some (ids_where (is_child id) locs) else none))
      × ((get_tree locs).roots ≡ ids_where (is_top locs) locs)
unfolding get_tree Dict.get
get_tree_lem locs id =
    let start : Forest = record { children = location_map locs []; roots = [] } in
    (
      get-place_all id locs start
          ∙ ap (λ o. after o (ids_where (is_child id) locs)) (get-location_map id locs [])
          ∙ none_yet (is_listed id locs) (ids_where (is_child id) locs),
      roots-place_all locs locs start
          (λ j. ap is_some (get-location_map j locs []) ∙ is_node (is_listed j locs)),
    )
  where
    none_yet :
        (b : Bool) (ds : List String)
        → after (if b then some [] else none) ds ≡ (if b then some ds else none)
    none_yet true ds = refl
    none_yet false ds = refl

    is_node : (b : Bool) → is_some {A = List String} (if b then some [] else none) ≡ b
    is_node true = refl
    is_node false = refl
