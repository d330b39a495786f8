-- ===== src/Accounts/Moves/Steps.antt =====
-- Every call makes a move.
use infra_inventory.Prelude.{Bool, String}
use infra_inventory.Store.{Table}
use infra_inventory.Store.Queries.{Queries, IsKeyed}
use infra_inventory.Accounts.{User, user_id, State}
use infra_inventory.Accounts.Calls.{
  Call, creates, updates, resets_password, deletes, logs_in, edits_profile, changes_password,
  asks_status, initializes, step,
}
use infra_inventory.Accounts.Moves.{Move}
use infra_inventory.Accounts.Moves.Administration.{
  create_user-Move, update_user-Move, set_password-Move, delete_user-Move,
}
use infra_inventory.Accounts.Moves.Sessions.{login-Move, update_profile-Move, change_password-Move}
use infra_inventory.Accounts.Moves.Installation.{get_setup_status-Move, initialize-Move}

module _ (db : Queries User user_id) (settings : Table String) (fold : String → String)
    (hash : String → String → String) where
  -- Every call of the three services makes one move of the table: none; a new user under a name that
  -- no user has; an active administrator under a name that no user has, where no user is an
  -- administrator; a user changed in place under the same id and name; or a user removed. An active
  -- administrator is changed into a user who is none, or removed, only while another active
  -- administrator is there. The table has primary keys.
  pub step-Move :
      (compare : String → String → Bool) (s : State db settings) (c : Call)
      → IsKeyed user_id (db.rows s.users)
      → Move db fold s.users (step db settings fold hash compare s c).users
  unfolding step
  step-Move compare s (creates id salt input by) keyed =
      create_user-Move db settings fold hash id salt input by s
  step-Move compare s (updates id input by) keyed =
      update_user-Move db settings fold hash id input by s keyed
  step-Move compare s (resets_password id salt password must by) keyed =
      set_password-Move db settings fold hash id salt password must by s
  step-Move compare s (deletes id by current) keyed =
      delete_user-Move db settings fold hash id by current s
  step-Move compare s (logs_in input now) keyed =
      login-Move db settings fold hash compare input now s
  step-Move compare s (edits_profile id input) keyed =
      update_profile-Move db settings fold hash compare id input s
  step-Move compare s (changes_password id salt input) keyed =
      change_password-Move db settings fold hash compare id salt input s
  step-Move compare s (asks_status o) keyed = get_setup_status-Move db settings fold hash o s
  step-Move compare s (initializes id salt now input) keyed =
      initialize-Move db settings fold hash id salt now input s
