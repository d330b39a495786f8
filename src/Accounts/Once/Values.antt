-- ===== src/Accounts/Once/Values.antt =====
-- The calls that leave the settings alone.
use infra_inventory.Prelude.{ℕ, ◌≡◌, Bool, String, arith}
use infra_inventory.Store.{Table}
use infra_inventory.Store.Queries.{Queries}
use infra_inventory.Accounts.{User, user_id, State}
use infra_inventory.Accounts.Users.{
  CreateInput, UpdateInput, stored, create_user, update_checked, update_found, update_user,
  password_found, set_password, delete_checked, delete_found, delete_user,
}
use infra_inventory.Accounts.Session.{
  LoginInput, ProfileInput, PasswordInput, renewed, noted, login_found, login, profile_checked,
  profile_found, update_profile, change_found, change_password,
}

module _ (db : Queries User user_id) (settings : Table String) (fold : String → String)
    (hash : String → String → String) (compare : String → String → Bool) where
  pub values-create_user :
      (id salt : String) (input : CreateInput) (by : String) (s : State db settings)
      → (create_user db settings fold hash id salt input by s).1.values ≡ s.values
  unfolding create_user stored
  values-create_user id salt input by s = ground arith

  pub values-update_user :
      (id : String) (input : UpdateInput) (by : String) (s : State db settings)
      → (update_user db settings fold hash id input by s).1.values ≡ s.values
  unfolding update_user update_found update_checked stored
  values-update_user id input by s = ground arith

  pub values-set_password :
      (id salt password : String) (must : Bool) (by : String) (s : State db settings)
      → (set_password db settings fold hash id salt password must by s).1.values ≡ s.values
  unfolding set_password password_found stored
  values-set_password id salt password must by s = ground arith

  pub values-delete_user :
      (id by current : String) (s : State db settings)
      → (delete_user db settings fold hash id by current s).1.values ≡ s.values
  unfolding delete_user delete_found delete_checked stored
  values-delete_user id by current s = ground arith

  pub values-login :
      (input : LoginInput) (now : ℕ) (s : State db settings)
      → (login db settings fold hash compare input now s).1.values ≡ s.values
  unfolding login login_found renewed noted
  values-login input now s = ground arith

  pub values-update_profile :
      (id : String) (input : ProfileInput) (s : State db settings)
      → (update_profile db settings fold hash compare id input s).1.values ≡ s.values
  unfolding update_profile profile_found profile_checked renewed noted
  values-update_profile id input s = ground arith

  pub values-change_password :
      (id salt : String) (input : PasswordInput) (s : State db settings)
      → (change_password db settings fold hash compare id salt input s).1.values ≡ s.values
  unfolding change_password change_found renewed noted
  values-change_password id salt input s = ground arith
