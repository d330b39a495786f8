-- ===== src/Accounts/Users.antt =====
-- The administration of users, backend/src/modules/users/users.service.ts.
use infra_inventory.Prelude.{
  Bool, true, false, not, ◌&&◌, Option, none, some, ◌∷◌, String, leb, ◌==◌, str_eq, if◌then◌else◌,
  is_truthy, or_empty,
}
use infra_inventory.Access.Permissions.{Role}
use infra_inventory.Store.{Table}
use infra_inventory.Store.Queries.{Queries, find, both, other_than}
use infra_inventory.Accounts.{
  User, Account, selected, ChangeAction, Entry, entry, Failure, Result, fails, returns, is_admin,
  is_some, or_else, active_admin, user_id, has_username, has_email, State,
}

pub record CreateInput : Type 0 where
  pub username : String
  pub name : String
  pub email : Option String
  pub password : String
  pub role : Role
  pub is_active : Bool
  pub must_change_password : Bool

-- `none` is an absent field; an email may also be `null`.
pub record UpdateInput : Type 0 where
  pub name : Option String
  pub email : Option (Option String)
  pub role : Option Role
  pub is_active : Option Bool
  pub must_change_password : Option Bool

abbrev pub or_null : Option (Option String) → Option String
or_null none = none
or_null (some o) = o

-- `input.email || null`
unfoldable pub email_or_null : Option String → Option String
email_or_null o = if is_truthy o then o else none

-- `a === b` on texts or null.
unfoldable pub same_text : Option String → Option String → Bool
same_text none none = true
same_text (some a) (some b) = str_eq a b
same_text _ _ = false

-- `input.role && input.role !== Role.ADMIN`
unfoldable pub takes_role : Option Role → Bool
takes_role none = false
takes_role (some r) = not (is_admin r)

-- `input.isActive === false`
unfoldable pub deactivates : Option Bool → Bool
deactivates none = false
deactivates (some b) = not b

unfoldable pub updated : UpdateInput → User → User
updated input u = record u {
  name = or_else input.name u.name;
  email = or_else input.email u.email;
  role = or_else input.role u.role;
  is_active = or_else input.is_active u.is_active;
  must_change_password = or_else input.must_change_password u.must_change_password;
}

unfoldable pub with_password : String → Bool → User → User
with_password hashed must_change u = record u {
  password_hash = hashed;
  must_change_password = must_change;
}

module _ (db : Queries User user_id) (settings : Table String) (fold : String → String)
    (hash : String → String → String) where
  -- The end of an operation: what it writes, the user that it returns and its entry in the log.
  unfoldable pub stored :
      Option db.Rows → User → Entry → State db settings → Result Account × State db settings
  stored none u e s = (fails Failure.refused, s)
  stored (some t) u e s = (returns (selected u), record s { users = t; log = e ∷ s.log })

  unfoldable pub new_user : String → String → CreateInput → User
  new_user id salt input = record {
    id = id;
    username = input.username;
    name = input.name;
    email = email_or_null input.email;
    password_hash = hash salt input.password;
    role = input.role;
    is_active = input.is_active;
    must_change_password = input.must_change_password;
    last_login = none;
  }

  -- `id` is the one that the database gives to the row.
  unfoldable pub create_user :
      String
      → String
      → CreateInput
      → String
      → State db settings
      → Result Account × State db settings
  create_user id salt input by s =
      if is_some (db.find_first (has_username fold input.username) s.users)
      then (fails Failure.username_taken, s)
      else if is_truthy input.email
          && is_some (db.find_first (has_email fold (or_empty input.email)) s.users)
      then (fails Failure.email_taken, s)
      else stored (db.create (new_user id salt input) s.users) (new_user id salt input)
          (entry id ChangeAction.create by) s

  -- The checks of an update of the user found.
  unfoldable pub role_check : String → UpdateInput → User → db.Rows → Option Failure
  role_check id input u t =
      if is_admin u.role
      then if takes_role input.role && leb (db.count active_admin t) 1
        then some Failure.sole_admin_role
        else if deactivates input.is_active
            && (db.count (both active_admin (other_than user_id id)) t == 0)
        then some Failure.sole_admin_active
        else none
      else none

  unfoldable pub email_check : String → UpdateInput → User → db.Rows → Option Failure
  email_check id input u t =
      if is_truthy (or_null input.email)
        && not (same_text (or_null input.email) u.email)
        && is_some (
            db.find_first
              (both (has_email fold (or_empty (or_null input.email))) (other_than user_id id)) t)
      then some Failure.email_taken
      else none

  unfoldable pub update_checked :
      Option Failure
      → Option Failure
      → UpdateInput
      → User
      → String
      → State db settings
      → Result Account × State db settings
  update_checked (some f) mail input u by s = (fails f, s)
  update_checked none (some f) input u by s = (fails f, s)
  update_checked none none input u by s =
      stored (db.update (updated input u) s.users) (updated input u)
        (entry u.id ChangeAction.update by) s

  unfoldable pub update_found :
      String
      → Option User
      → UpdateInput
      → String
      → State db settings
      → Result Account × State db settings
  update_found id none input by s = (fails Failure.user_not_found, s)
  update_found id (some u) input by s =
      update_checked (role_check id input u s.users) (email_check id input u s.users) input u by s

  unfoldable pub update_user :
      String → UpdateInput → String → State db settings → Result Account × State db settings
  update_user id input by s = update_found id (find db id s.users) input by s

  unfoldable pub password_found :
      Option User → String → Bool → String → State db settings → Result Account × State db settings
  password_found none hashed must_change by s = (fails Failure.user_not_found, s)
  password_found (some u) hashed must_change by s =
      let new = with_password hashed must_change u in
      stored (db.update new s.users) new (entry u.id ChangeAction.update by) s

  unfoldable pub set_password :
      String
      → String
      → String
      → Bool
      → String
      → State db settings
      → Result Account × State db settings
  set_password id salt password must_change by s =
      password_found (find db id s.users) (hash salt password) must_change by s

  unfoldable pub delete_check : String → User → db.Rows → Bool
  delete_check id u t =
      is_admin u.role && (db.count (both active_admin (other_than user_id id)) t == 0)

  -- The user returned is the one deleted, whom the message names.
  unfoldable pub delete_checked :
      Bool → String → User → String → State db settings → Result Account × State db settings
  delete_checked true id u by s = (fails Failure.sole_admin_deleted, s)
  delete_checked false id u by s =
      stored (db.remove id s.users) u (entry id ChangeAction.delete by) s

  unfoldable pub delete_found :
      String → Option User → String → State db settings → Result Account × State db settings
  delete_found id none by s = (fails Failure.user_not_found, s)
  delete_found id (some u) by s = delete_checked (delete_check id u s.users) id u by s

  unfoldable pub delete_user :
      String → String → String → State db settings → Result Account × State db settings
  delete_user id by current s =
      if str_eq id current
      then (fails Failure.own_account, s)
      else delete_found id (find db id s.users) by s

  unfoldable pub get_user : String → State db settings → Result Account
  get_user id s = elim (find db id s.users) [
    | none ↦ fails Failure.user_not_found
    | some u ↦ returns (selected u)
  ]
