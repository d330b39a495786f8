-- ===== src/Accounts/Moves/Administration.antt =====
-- The moves of the administration of users.
use infra_inventory.Prelude.{
  ◌≡◌, refl, Bool, true, false, ◌&&◌, Option, none, some, String, arith, str_eq, Option-cases,
  Bool-cases, is_truthy, inl, inr, or_empty,
}
use infra_inventory.Store.{Table}
use infra_inventory.Store.Queries.{
  Queries, find, both, has_key, other_than, IsKeyed, countp-both, countp-le_right,
}
use infra_inventory.Store.Writes.{found-none}
use infra_inventory.Accounts.{
  User, Entry, Failure, is_some, active_admin, user_id, has_username, has_email, State,
}
use infra_inventory.Accounts.Users.{
  CreateInput, UpdateInput, updated, takes_role, deactivates, stored, new_user, create_user,
  role_check, email_check, update_checked, update_found, update_user, with_password, password_found,
  set_password, delete_check, delete_checked, delete_found, delete_user,
}
use infra_inventory.Accounts.Moves.{
  MayBecome, Move, stays, adds, removes, found_by_id, changed, unchanged,
}

module _ (db : Queries User user_id) (settings : Table String) (fold : String → String)
    (hash : String → String → String) where
  pub stored-Move :
      (o : Option db.Rows) (u : User) (e : Entry) (s : State db settings)
      → ((t : db.Rows) → o ≡ some t → Move db fold s.users t)
      → Move db fold s.users (stored db settings fold hash o u e s).1.users
  unfolding stored
  stored-Move none u e s h = stays refl
  stored-Move (some t) u e s h = h t refl

  pub create_user-Move :
      (id salt : String) (input : CreateInput) (by : String) (s : State db settings)
      → Move db fold s.users (create_user db settings fold hash id salt input by s).1.users
  unfolding create_user new_user
  create_user-Move id salt input by s =
      elim (Option-cases (db.find_first (has_username fold input.username) s.users)) [
        | inr (u, e) ↦ rw e (stays refl)
        | inl e ↦
            elim (Bool-cases (
              is_truthy input.email
              && is_some (db.find_first (has_email fold (or_empty input.email)) s.users))) [
                | inl taken ↦ rw (e, taken) (stays refl)
                | inr free ↦
                    rw (e, free)
                      (stored-Move _ _ _ s (λ t eq.
                        adds (new_user db settings fold hash id salt input)
                          (found-none db _ s.users e) eq))
              ]
      ]

  pub role_check-MayBecome :
      (id : String) (input : UpdateInput) (u : User) (t : db.Rows)
      → IsKeyed user_id (db.rows t)
      → u.id ≡ id
      → role_check db settings fold hash id input u t ≡ none
      → MayBecome db fold u (updated input u) t
  unfolding role_check updated takes_role deactivates
  role_check-MayBecome id input u t keyed same e was lost = ground (
    arith,
    same,
    db.count_lem active_admin t,
    db.count_lem (both active_admin (other_than user_id id)) t,
    countp-both active_admin (has_key user_id id) (db.rows t),
    countp-le_right active_admin (has_key user_id id) (db.rows t),
    keyed id,
  )

  pub set_password-Move :
      (id salt password : String) (must : Bool) (by : String) (s : State db settings)
      → Move db fold s.users (set_password db settings fold hash id salt password must by s).1.users
  unfolding set_password password_found with_password
  set_password-Move id salt password must by s = elim (Option-cases (find db id s.users)) [
    | inl e ↦ rw e (stays refl)
    | inr (u, e) ↦ rw e (
        stored-Move _ _ _ s (λ t eq.
          changed db fold id u (with_password (hash salt password) must u) s.users t e refl refl
            (unchanged db fold u (with_password (hash salt password) must u) s.users refl) eq))
  ]

  pub delete_user-Move :
      (id by current : String) (s : State db settings)
      → Move db fold s.users (delete_user db settings fold hash id by current s).1.users
  unfolding delete_user delete_found delete_checked delete_check
  delete_user-Move id by current s = elim (Bool-cases (str_eq id current)) [
    | inl own ↦ rw own (stays refl)
    | inr other ↦ elim (Option-cases (find db id s.users)) [
      | inl e ↦ rw (other, e) (stays refl)
      | inr (u, e) ↦
          rw (other, e) (checked u e (delete_check db settings fold hash id u s.users) refl)
    ]
  ]
    where
      checked :
          (u : User)
          → find db id s.users ≡ some u
          → (b : Bool) → delete_check db settings fold hash id u s.users ≡ b
          → Move db fold s.users (delete_checked db settings fold hash b id u by s).1.users
      checked u e true c = stays refl
      checked u e false c = stored-Move _ _ _ s (λ t eq.
          removes u id (found_by_id db fold id s.users u e).0 (found_by_id db fold id s.users u e).1
            (λ was.
              ground (arith, db.count_lem (both active_admin (other_than user_id id)) s.users))
            eq)

  pub update_user-Move :
      (id : String) (input : UpdateInput) (by : String) (s : State db settings)
      → IsKeyed user_id (db.rows s.users)
      → Move db fold s.users (update_user db settings fold hash id input by s).1.users
  unfolding update_user update_found update_checked updated
  update_user-Move id input by s keyed = elim (Option-cases (find db id s.users)) [
    | inl e ↦ rw e (stays refl)
    | inr (u, e) ↦ rw e (
        checked u e (role_check db settings fold hash id input u s.users) refl
          (email_check db settings fold hash id input u s.users))
  ]
    where
      checked :
          (u : User)
          → find db id s.users ≡ some u
          → (r : Option Failure) → role_check db settings fold hash id input u s.users ≡ r
          → (m : Option Failure)
          → Move db fold s.users (update_checked db settings fold hash r m input u by s).1.users
      checked u e (some f) c m = stays refl
      checked u e none c (some f) = stays refl
      checked u e none c none = stored-Move _ _ _ s (λ t eq.
          changed db fold id u (updated input u) s.users t e refl refl
            (role_check-MayBecome id input u s.users keyed (found_by_id db fold id s.users u e).1 c)
            eq)
