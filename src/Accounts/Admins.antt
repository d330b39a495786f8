-- ===== src/Accounts/Admins.antt =====
-- The last active administrator, and the names, over histories of calls.
use infra_inventory.Prelude.{
  ◌≤◌, ◌≡◌, refl, sym, ap, subst, Bool, List, [], ◌∷◌, String, arith, eq_iff, str_eq,
}
use infra_inventory.Discovery.Classifier.{to_lower_case}
use infra_inventory.Store.{Table}
use infra_inventory.Store.Queries.{Queries, countp, IsKeyed, other_than, countp-le_left}
use infra_inventory.Store.Writes.{
  IsKeyed-create, IsKeyed-update, IsKeyed-remove, update-keeps, remove-keeps, update-adds_none,
}
use infra_inventory.Accounts.{User, active_admin, user_id, has_username, State}
use infra_inventory.Accounts.Moves.{Move, stays, adds, installs, changes, removes}
use infra_inventory.Accounts.Moves.Steps.{step-Move}
use infra_inventory.Accounts.Calls.{Call, step, run}

module _ (db : Queries User user_id) (fold : String → String) where
  pub Move-IsKeyed :
      (t t' : db.Rows)
      → Move db fold t t'
      → IsKeyed user_id (db.rows t)
      → IsKeyed user_id (db.rows t')
  Move-IsKeyed t t' (stays e) h = subst (λ r. IsKeyed user_id (db.rows r)) (sym e) h
  Move-IsKeyed t t' (adds u free e) h = IsKeyed-create db u t t' e h
  Move-IsKeyed t t' (installs u name first a b free e) h = IsKeyed-create db u t t' e h
  Move-IsKeyed t t' (changes old new row same named may e) h = IsKeyed-update db new t t' e h
  Move-IsKeyed t t' (removes u id row same may e) h = IsKeyed-remove db id t t' e h

  Move-manned :
      (t t' : db.Rows)
      → Move db fold t t'
      → IsKeyed user_id (db.rows t)
      → 1 ≤ countp active_admin (db.rows t)
      → 1 ≤ countp active_admin (db.rows t')
  Move-manned t t' (stays e) keyed h = subst (λ r. 1 ≤ countp active_admin (db.rows r)) (sym e) h
  Move-manned t t' (adds u free e) keyed h = omega (arith, db.create-rows u t t' e active_admin, h)
  Move-manned t t' (installs u name first a b free e) keyed h =
      omega (arith, db.create-rows u t t' e active_admin, h)
  Move-manned t t' (changes old new row same named may e) keyed h =
      update-keeps db active_admin old new t t' keyed row same may e h
  Move-manned t t' (removes u id row same may e) keyed h =
      remove-keeps db active_admin u id t t' keyed row same may e h

  -- No two users share a name, upper and lower case taken for the same.
  abbrev pub HasUniqueNames : List User → Type 0
  HasUniqueNames us = (name : String) → countp (has_username fold name) us ≤ 1

  same_count :
      (t : db.Rows) (name other : String)
      → fold name ≡ fold other
      → countp (has_username fold name) (db.rows t) ≡ countp (has_username fold other) (db.rows t)
  same_count t name other e = ap (λ text. countp (λ u. str_eq text (fold u.username)) (db.rows t)) e

  Move-HasUniqueNames :
      ((s : String) → fold (to_lower_case s) ≡ fold s)
      → (t t' : db.Rows) → Move db fold t t'
      → IsKeyed user_id (db.rows t)
      → HasUniqueNames (db.rows t)
      → HasUniqueNames (db.rows t')
  Move-HasUniqueNames lower t t' (stays e) keyed h =
      subst (λ r. HasUniqueNames (db.rows r)) (sym e) h
  Move-HasUniqueNames lower t t' (adds u free e) keyed h = λ name. ground (
    arith,
    db.create-rows u t t' e (has_username fold name),
    eq_iff (fold name) (fold u.username),
    free,
    h name,
    same_count t name u.username,
  )
  Move-HasUniqueNames lower t t' (installs u given first a b free e) keyed h = λ name. ground (
    arith,
    db.create-rows u t t' e (has_username fold name),
    b,
    lower given,
    eq_iff (fold name) (fold u.username),
    free,
    h name,
    same_count t name given,
  )
  Move-HasUniqueNames lower t t' (changes old new row same named may e) keyed h = λ name. omega (
    arith,
    update-adds_none db (has_username fold name) old new t t' keyed row same (rw named refl) e,
    h name,
  )
  Move-HasUniqueNames lower t t' (removes u id row same may e) keyed h = λ name. omega (
    arith,
    db.remove-rows id t t' e (has_username fold name),
    countp-le_left (has_username fold name) (other_than user_id id) (db.rows t),
    h name,
  )

module _ (db : Queries User user_id) (settings : Table String) (fold : String → String)
    (hash : String → String → String) (compare : String → String → Bool) where
  run-IsKeyed :
      (s : State db settings) (cs : List Call)
      → IsKeyed user_id (db.rows s.users)
      → IsKeyed user_id (db.rows (run db settings fold hash compare s cs).users)
  unfolding run
  run-IsKeyed s [] keyed = keyed
  run-IsKeyed s (c ∷ cs) keyed =
      run-IsKeyed (step db settings fold hash compare s c) cs
        (Move-IsKeyed db fold _ _ (step-Move db settings fold hash compare s c keyed) keyed)

  -- Where an active administrator is, there is one after any sequence of creations, updates,
  -- password changes, removals, logins, profile edits and installations, by whomever and with
  -- whatever input. The table has primary keys.
  pub run-manned :
      (s : State db settings) (cs : List Call)
      → IsKeyed user_id (db.rows s.users)
      → 1 ≤ countp active_admin (db.rows s.users)
      → 1 ≤ countp active_admin (db.rows (run db settings fold hash compare s cs).users)
  unfolding run
  run-manned s [] keyed h = h
  run-manned s (c ∷ cs) keyed h =
      let move = step-Move db settings fold hash compare s c keyed in
      run-manned (step db settings fold hash compare s c) cs (Move-IsKeyed db fold _ _ move keyed)
        (Move-manned db fold _ _ move keyed h)

  -- No two users ever share a name, upper and lower case taken for the same, if none do at first
  -- and the database's case folding takes a text and its lower-case form for the same. The table
  -- has primary keys.
  pub run-HasUniqueNames :
      ((text : String) → fold (to_lower_case text) ≡ fold text)
      → (s : State db settings) (cs : List Call) → IsKeyed user_id (db.rows s.users)
      → HasUniqueNames db fold (db.rows s.users)
      → HasUniqueNames db fold (db.rows (run db settings fold hash compare s cs).users)
  unfolding run
  run-HasUniqueNames lower s [] keyed h = h
  run-HasUniqueNames lower s (c ∷ cs) keyed h =
      let move = step-Move db settings fold hash compare s c keyed in
      run-HasUniqueNames lower (step db settings fold hash compare s c) cs
        (Move-IsKeyed db fold _ _ move keyed) (Move-HasUniqueNames db fold lower _ _ move keyed h)
