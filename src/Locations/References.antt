-- ===== src/Locations/References.antt =====
-- Histories of calls of the locations' service, and the parents that the rows name.
use infra_inventory.Prelude.{
  ◌≤◌, ◌≡◌, refl, ap, ◌⊎◌, inl, inr, Bool, true, false, Option, none, some, List, [], ◌∷◌, String,
  arith, eq_iff, str_eq, if◌then◌else◌, ltb, Bool-cases,
}
use infra_inventory.Store.Queries.{
  Queries, countp, both, has_key, other_than, find, countp-both, countp-le_left, countp-replace,
}
use infra_inventory.Store.Writes.{countp-replace_key, countp-none}
use infra_inventory.Locations.{
  Location, CreateInput, UpdateInput, Result, location_id, is_child, is_own_parent, updated, stored,
  create_location, update_found, update_location, delete_found, delete_location, is_some, has_name,
}

pub data Call : Type 0 where
  creates : String → CreateInput → Call
  updates : String → UpdateInput → Call
  deletes : String → Call

module _ (db : Queries Location location_id) where
  unfoldable pub step : Call → db.Rows → db.Rows
  step (creates id input) t = (create_location db id input t).1
  step (updates id input) t = (update_location db id input t).1
  step (deletes id) t = (delete_location db id t).1

  unfoldable pub run : List Call → db.Rows → db.Rows
  run [] t = t
  run (c ∷ cs) t = run cs (step c t)

  -- The foreign key of `parentId`: the database writes a row only if its parent, if it names one,
  -- is there then.
  abbrev pub ChecksParents : Type 0
  ChecksParents =
      (r : Location) (t t' : db.Rows) (id : String)
      → (db.create r t ≡ some t') ⊎ (db.update r t ≡ some t')
      → is_child id r ≡ true
      → 1 ≤ countp (has_key location_id id) (db.rows t')

  -- An id that no row has is the parent of no row.
  abbrev pub HasParents : db.Rows → Type 0
  HasParents t =
      (id : String)
      → countp (has_key location_id id) (db.rows t) ≡ 0
      → countp (is_child id) (db.rows t) ≡ 0

  create-HasParents :
      ChecksParents
      → (r : Location) (t t' : db.Rows) → db.create r t ≡ some t'
      → HasParents t
      → HasParents t'
  create-HasParents checks r t t' e h id free = ground (
    arith,
    db.create-rows r t t' e (has_key location_id id),
    db.create-rows r t t' e (is_child id),
    checks r t t' id (inl e),
    h id,
  )

  update-HasParents :
      ChecksParents
      → (r : Location) (t t' : db.Rows) → db.update r t ≡ some t'
      → HasParents t
      → HasParents t'
  update-HasParents checks r t t' e h id free = ground (
    arith,
    db.update-rows r t t' e (has_key location_id id),
    db.update-rows r t t' e (is_child id),
    countp-replace_key location_id id r (db.rows t),
    countp-replace location_id (is_child id) r (db.rows t),
    countp-le_left (is_child id) (other_than location_id r.id) (db.rows t),
    checks r t t' id (inr e),
    h id,
  )

  remove-HasParents :
      (d : String) (t t' : db.Rows)
      → db.remove d t ≡ some t'
      → countp (is_child d) (db.rows t) ≡ 0
      → HasParents t
      → HasParents t'
  remove-HasParents d t t' e none_below h id free = elim (Bool-cases (str_eq id d)) [
    | inl same ↦
        omega (
          arith,
          fewer,
          ap (λ k. countp (is_child k) (db.rows t)) ((eq_iff id d).0 same),
          none_below,
        )
    | inr differs ↦ omega (
      arith,
      fewer,
      h id (
          omega (
            arith,
            free,
            db.remove-rows d t t' e (has_key location_id id),
            countp-both (has_key location_id id) (has_key location_id d) (db.rows t),
            apart differs,
          )),
    )
  ]
    where
      fewer : countp (is_child id) (db.rows t') ≤ countp (is_child id) (db.rows t)
      fewer = omega (
        arith,
        db.remove-rows d t t' e (is_child id),
        countp-le_left (is_child id) (other_than location_id d) (db.rows t),
      )

      apart :
          str_eq id d ≡ false
          → countp (both (has_key location_id id) (has_key location_id d)) (db.rows t) ≡ 0
      apart differs =
          countp-none (both (has_key location_id id) (has_key location_id d))
            (λ r. ground (arith, eq_iff r.id id, eq_iff r.id d, eq_iff id d, differs)) (db.rows t)

  stored-HasParents :
      (o : Option db.Rows) (l : Location) (t : db.Rows)
      → ((t' : db.Rows) → o ≡ some t' → HasParents t')
      → HasParents t
      → HasParents (stored db o l t).1
  unfolding stored
  stored-HasParents none l t keep h = h
  stored-HasParents (some t') l t keep h = keep t' refl

  if-HasParents :
      (b : Bool) (r : Result) (t : db.Rows) (p : Result × db.Rows)
      → (b ≡ false → HasParents p.1)
      → HasParents t
      → HasParents (if b then (r, t) else p).1
  if-HasParents true r t p keep h = h
  if-HasParents false r t p keep h = keep refl

  step-HasParents : ChecksParents → (c : Call) (t : db.Rows) → HasParents t → HasParents (step c t)
  unfolding step create_location update_location delete_location update_found delete_found
  step-HasParents checks (creates id input) t h =
      let l : Location = record { id = id; name = input.name; parent_id = input.parent_id } in
      if-HasParents (is_some (db.find_first (has_name input.name) t)) _ t _
        (λ free.
          stored-HasParents (db.create l t) l t (λ t' e. create-HasParents checks l t t' e h) h)
        h
  step-HasParents checks (updates id input) t h = by_row (find db id t)
    where
      by_row : (o : Option Location) → HasParents (update_found db id input o t).1
      by_row none = h
      by_row (some l) =
          if-HasParents (is_own_parent id input.parent_id) _ t _
            (λ other.
              stored-HasParents (db.update (updated input l) t) (updated input l) t
                (λ t' e. update-HasParents checks (updated input l) t t' e h) h)
            h
  step-HasParents checks (deletes id) t h = by_row (find db id t)
    where
      by_row : (o : Option Location) → HasParents (delete_found db id o t).1
      by_row none = h
      by_row (some l) =
          if-HasParents (ltb 0 (db.count (is_child id) t)) _ t _
            (λ none_below.
              stored-HasParents (db.remove id t) l t
                (λ t' e.
                  remove-HasParents id t t' e
                    (ground (arith, none_below, db.count_lem (is_child id) t)) h)
                h)
            h

  -- If the database checks the parent of every row that it writes, then through any history of
  -- creations, updates and deletions that starts where the parent that a row names has a row, it has
  -- one: no deletion leaves a location below one that is gone.
  pub run-HasParents :
      ChecksParents → (cs : List Call) (t : db.Rows) → HasParents t → HasParents (run cs t)
  unfolding run
  run-HasParents checks [] t h = h
  run-HasParents checks (c ∷ cs) t h =
      run-HasParents checks cs (step c t) (step-HasParents checks c t h)
