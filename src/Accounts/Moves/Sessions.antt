-- ===== src/Accounts/Moves/Sessions.antt =====
-- The moves of the login and of the own profile.
use infra_inventory.Prelude.{
  ℕ, ◌≡◌, refl, Bool, true, false, not, Option, none, some, String, ltb, if◌then◌else◌,
  Option-cases, Bool-cases, utf16_length, inl, inr,
}
use infra_inventory.Store.{Table}
use infra_inventory.Store.Queries.{Queries, find}
use infra_inventory.Store.Writes.{found-IsRow}
use infra_inventory.Accounts.{User, Result, user_id, State}
use infra_inventory.Accounts.Users.{with_password}
use infra_inventory.Accounts.Session.{
  LoginInput, ProfileInput, PasswordInput, Session, answers_to, logged_in, with_profile, renewed,
  noted, login_found, login, profile_taken, profile_checked, profile_found, update_profile,
  change_found, change_password,
}
use infra_inventory.Accounts.Moves.{Move, stays, changes, changed, unchanged}

module _ (db : Queries User user_id) (settings : Table String) (fold : String → String)
    (hash : String → String → String) where
  pub renewed-Move :
      (compare : String → String → Bool) (o : Option db.Rows) (u : User) (s : State db settings)
      → ((t : db.Rows) → o ≡ some t → Move db fold s.users t)
      → Move db fold s.users (renewed db settings fold hash compare o u s).1.users
  unfolding renewed noted
  renewed-Move compare none u s h = stays refl
  renewed-Move compare (some t) u s h = h t refl

  pub if-Move :
      (b : Bool) (x y : Result Session × State db settings) (s : State db settings)
      → Move db fold s.users x.1.users
      → Move db fold s.users y.1.users
      → Move db fold s.users (if b then x else y).1.users
  if-Move true x y s p q = p
  if-Move false x y s p q = q

  pub login-Move :
      (compare : String → String → Bool) (input : LoginInput) (now : ℕ) (s : State db settings)
      → Move db fold s.users (login db settings fold hash compare input now s).1.users
  unfolding login login_found noted logged_in
  login-Move compare input now s =
      elim (Option-cases (db.find_first (answers_to fold input.username) s.users)) [
        | inl e ↦ rw e (stays refl)
        | inr (u, e) ↦ rw e (
            if-Move (not u.is_active) _ _ s (stays refl) (
              if-Move (not (compare input.password u.password_hash)) _ _ s (stays refl) (
                renewed-Move compare (db.update (logged_in now u) s.users) (logged_in now u) s
                  (λ t eq.
                    changes u (logged_in now u)
                      (found-IsRow db (answers_to fold input.username) s.users u e).0 refl refl
                      (unchanged db fold u (logged_in now u) s.users refl) eq))))
      ]

  pub update_profile-Move :
      (compare : String → String → Bool) (id : String) (input : ProfileInput)
      (s : State db settings)
      → Move db fold s.users (update_profile db settings fold hash compare id input s).1.users
  unfolding update_profile profile_found profile_checked with_profile
  update_profile-Move compare id input s = elim (Option-cases (find db id s.users)) [
    | inl e ↦ rw e (stays refl)
    | inr (u, e) ↦
        rw e (checked u e (profile_taken db settings fold hash compare id input u s.users))
  ]
    where
      checked :
          (u : User)
          → find db id s.users ≡ some u
          → (b : Bool)
          → Move db fold s.users (profile_checked db settings fold hash compare b input u s).1.users
      checked u e true = stays refl
      checked u e false = renewed-Move compare _ _ s (λ t eq.
          changed db fold id u (with_profile input u) s.users t e refl refl
            (unchanged db fold u (with_profile input u) s.users refl) eq)

  pub change_password-Move :
      (compare : String → String → Bool) (id salt : String) (input : PasswordInput)
      (s : State db settings)
      → Move db fold s.users (change_password db settings fold hash compare id salt input s).1.users
  unfolding change_password change_found with_password
  change_password-Move compare id salt input s = elim (Option-cases (find db id s.users)) [
    | inl e ↦ rw e (stays refl)
    | inr (u, e) ↦ rw e (elim (Bool-cases (compare input.current_password u.password_hash)) [
      | inr bad ↦ rw bad (stays refl)
      | inl good ↦ elim (Bool-cases (ltb (utf16_length input.new_password) 6)) [
        | inl short ↦ rw (good, short) (stays refl)
        | inr fine ↦
            rw (good, fine)
              (renewed-Move compare _ _ s (λ t eq.
                changed db fold id u (with_password (hash salt input.new_password) false u) s.users
                  t e refl refl
                  (unchanged db fold u (with_password (hash salt input.new_password) false u)
                    s.users refl)
                  eq))
      ]
    ])
  ]
