-- ===== src/Accounts/Calls.antt =====
-- Histories of the accounts: the calls of the three services that change them, in any order.
use infra_inventory.Prelude.{ℕ, Bool, List, [], ◌∷◌, String}
use infra_inventory.Store.{Table}
use infra_inventory.Store.Queries.{Queries}
use infra_inventory.Accounts.{User, user_id, State}
use infra_inventory.Accounts.Users.{
  CreateInput, UpdateInput, create_user, update_user, set_password, delete_user,
}
use infra_inventory.Accounts.Session.{
  LoginInput, ProfileInput, PasswordInput, login, update_profile, change_password,
}
use infra_inventory.Accounts.Setup.{SetupInput, Outage, get_setup_status, initialize}

pub data Call : Type 0 where
  creates : (id salt : String) (input : CreateInput) (by : String) → Call
  updates : (id : String) (input : UpdateInput) (by : String) → Call
  resets_password : (id salt password : String) (must_change : Bool) (by : String) → Call
  deletes : (id by current : String) → Call
  logs_in : (input : LoginInput) (now : ℕ) → Call
  edits_profile : (id : String) (input : ProfileInput) → Call
  changes_password : (id salt : String) (input : PasswordInput) → Call
  asks_status : (o : Outage) → Call
  initializes : (id salt now : String) (input : SetupInput) → Call

module _ (db : Queries User user_id) (settings : Table String) (fold : String → String)
    (hash : String → String → String) (compare : String → String → Bool) where
  unfoldable pub step : State db settings → Call → State db settings
  step s (creates id salt input by) = (create_user db settings fold hash id salt input by s).1
  step s (updates id input by) = (update_user db settings fold hash id input by s).1
  step s (resets_password id salt password must_change by) =
      (set_password db settings fold hash id salt password must_change by s).1
  step s (deletes id by current) = (delete_user db settings fold hash id by current s).1
  step s (logs_in input now) = (login db settings fold hash compare input now s).1
  step s (edits_profile id input) = (update_profile db settings fold hash compare id input s).1
  step s (changes_password id salt input) =
      (change_password db settings fold hash compare id salt input s).1
  step s (asks_status o) = (get_setup_status db settings fold hash o s).1
  step s (initializes id salt now input) = (initialize db settings fold hash id salt now input s).1

  unfoldable pub run : State db settings → List Call → State db settings
  run s [] = s
  run s (c ∷ cs) = run (step s c) cs
