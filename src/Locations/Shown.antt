-- ===== src/Locations/Shown.antt =====
-- Which locations can be reached from the roots of the tree.
use infra_inventory.Prelude.{
  ℕ, zero, suc, ◌<◌, ◌≡◌, ◌∙◌, refl, sym, ap, subst, inl, inr, Bool, true, false, not, ◌&&◌, none,
  some, List, [], ◌∷◌, String, arith, eq_iff, str_eq, str_eq_self, if◌then◌else◌, is_truthy,
  or_empty, Bool-cases,
}
use infra_inventory.Prelude.Dict
use infra_inventory.Store.Queries.{IsRow}
use infra_inventory.Locations.{Location, Forest, get_tree, is_child}
use infra_inventory.Locations.Tree.{is_listed, ids_where, is_top, get_tree_lem}

-- A client that walks from the roots to the children comes by this id.
pub data Shown (f : Forest) : String → Type 0 where
  at_root : (id : String) → IsRow id f.roots → Shown f id
  below :
      (parent id : String) (cs : List String)
      → Shown f parent
      → Dict.get parent f.children ≡ some cs
      → IsRow id cs
      → Shown f id

-- A location's parent, if there is one in the list.
abbrev pub HasParent : List Location → Location → Type 0
HasParent locs l = is_truthy l.parent_id && is_listed (or_empty l.parent_id) locs ≡ true

ids_where-row :
    (p : Location → Bool) (l : Location) (ls : List Location)
    → IsRow l ls
    → p l ≡ true
    → IsRow l.id (ids_where p ls)
unfolding ids_where
ids_where-row p l [] row h = absurd row
ids_where-row p l (x ∷ xs) (inl e) h = rw (ap p e ∙ h) (inl (ap (λ y. y.id) e))
ids_where-row p l (x ∷ xs) (inr row) h = elim (Bool-cases (p x)) [
  | inl e ↦ rw e (inr (ids_where-row p l xs row h))
  | inr e ↦ rw e (ids_where-row p l xs row h)
]

row-ids_where :
    (p : Location → Bool) (id : String) (ls : List Location)
    → IsRow id (ids_where p ls)
    → (l : Location) × IsRow l ls × (l.id ≡ id) × (p l ≡ true)
unfolding ids_where
row-ids_where p id [] row = absurd row
row-ids_where p id (x ∷ xs) row = by_test (p x) refl row (row-ids_where p id xs)
  where
    Origin : List Location → Type 0
    Origin ls = (l : Location) × IsRow l ls × (l.id ≡ id) × (p l ≡ true)

    later : Origin xs → Origin (x ∷ xs)
    later (l, r, same, h) = (l, inr r, same, h)

    by_test :
        (b : Bool)
        → p x ≡ b
        → IsRow id (if b then x.id ∷ ids_where p xs else ids_where p xs)
        → (IsRow id (ids_where p xs) → Origin xs)
        → Origin (x ∷ xs)
    by_test true e (inl same) rest = (x, inl refl, same, e)
    by_test true e (inr row') rest = later (rest row')
    by_test false e row' rest = later (rest row')

listed-row :
    (id : String) (ls : List Location)
    → is_listed id ls ≡ true
    → (l : Location) × IsRow l ls × (l.id ≡ id)
unfolding is_listed
listed-row id [] h = absurd cc
listed-row id (x ∷ xs) h = elim (Bool-cases (str_eq x.id id)) [
  | inl e ↦ (x, inl refl, (eq_iff x.id id).0 e)
  | inr e ↦ let (l, r, same) = listed-row id xs (rw e at h) in (l, inr r, same)
]

and_both : (a b : Bool) → a && b ≡ true → (a ≡ true) × (b ≡ true)
and_both true true h = (refl, refl)
and_both true false h = absurd cc
and_both false b h = absurd cc

both_ways : (b : Bool) → b ≡ true → not b ≡ true → ⊥
both_ways b h k = ground arith

children_row :
    (id : String) (b : Bool) (ds cs : List String)
    → (if b then some ds else none) ≡ some cs
    → IsRow id cs
    → IsRow id ds
children_row id true ds cs e row = subst (λ xs. IsRow id xs) (sym (same_list ds cs e)) row
  where
    same_list : (xs ys : List String) → some xs ≡ some ys → xs ≡ ys
    same_list xs ys h = cc
children_row id false ds cs e row = absurd cc

-- If the parents of locations form no cycle (a rank falls from each location to its parent), every
-- location is shown in the tree.
pub get_tree_shows :
    (locs : List Location) (rank : String → ℕ)
    → ((l : Location) → IsRow l locs → HasParent locs l → rank (or_empty l.parent_id) < rank l.id)
    → (l : Location) → IsRow l locs
    → Shown (get_tree locs) l.id
get_tree_shows locs rank falls l row = by_rank (suc (rank l.id)) l row (omega arith)
  where
    by_rank : (n : ℕ) (l : Location) → IsRow l locs → rank l.id < n → Shown (get_tree locs) l.id
    by_rank zero l row h = absurd (omega arith)
    by_rank (suc n) l row h =
        elim (Bool-cases (is_truthy l.parent_id && is_listed (or_empty l.parent_id) locs)) [
          | inl has ↦
              (let parent = or_empty l.parent_id in
                let (given, listed) =
                  and_both (is_truthy l.parent_id) (is_listed parent locs) has in
                let (q, r, same) = listed-row parent locs listed in
                below parent l.id (ids_where (is_child parent) locs)
                  (subst (Shown (get_tree locs)) same
                    (by_rank n q r (omega (arith, falls l row has, h, ap rank same))))
                  ((get_tree_lem locs parent).0 ∙ rw listed refl)
                  (ids_where-row (is_child parent) l locs row
                    (rw (given, str_eq_self parent) refl)))
          | inr top ↦ at_root l.id (
              subst (λ rs. IsRow l.id rs) (sym (get_tree_lem locs l.id).1)
                (ids_where-row (is_top locs) l locs row (rw top refl)))
        ]

-- Locations whose parents are among themselves, as those on a cycle, are not shown, nor is anything
-- below them.
pub get_tree_hides :
    (locs : List Location) (closed : String → Bool)
    → ((l : Location)
        → IsRow l locs
        → closed l.id ≡ true
        → HasParent locs l × (closed (or_empty l.parent_id) ≡ true))
    → (id : String) → closed id ≡ true
    → ¬ Shown (get_tree locs) id
get_tree_hides locs closed h id inside (at_root i row) =
    let (l, r, same, top) =
      row-ids_where (is_top locs) id locs
        (subst (λ rs. IsRow id rs) (get_tree_lem locs id).1 row) in
    absurd (
      both_ways (is_truthy l.parent_id && is_listed (or_empty l.parent_id) locs)
        ((h l r (ap closed same ∙ inside)).0) top)
get_tree_hides locs closed h id inside (below parent i cs shown e row) =
    let (l, r, same, child) = row-ids_where (is_child parent) id locs (
      children_row id (is_listed parent locs) (ids_where (is_child parent) locs) cs
        (sym (get_tree_lem locs parent).0 ∙ e) row) in
    let kept = (h l r (ap closed same ∙ inside)).1 in
    get_tree_hides locs closed h parent
      (sym (
          ap closed (
            (eq_iff (or_empty l.parent_id) parent).0
              (and_both (is_truthy l.parent_id) (str_eq (or_empty l.parent_id) parent) child).1))
        ∙ kept)
      shown
