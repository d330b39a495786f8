-- ===== src/Accounts/Session.antt =====
-- Login and the own profile, backend/src/modules/auth/auth.service.ts. bcrypt's `hash` and
-- `compare` are parameters.
use infra_inventory.Prelude.{
  ℕ, Bool, true, false, not, ◌&&◌, ◌||◌, Option, none, some, List, ◌∷◌, String, ltb, if◌then◌else◌,
  is_truthy, or_empty, utf16_length,
}
use infra_inventory.Access.Permissions.{Permission, get_role_permissions}
use infra_inventory.Store.{Table}
use infra_inventory.Store.Queries.{Queries, find, both, other_than}
use infra_inventory.Accounts.{
  User, Account, selected, ChangeAction, Entry, entry, Failure, Result, fails, returns, is_some,
  or_else, user_id, has_username, has_email, State,
}
use infra_inventory.Accounts.Users.{or_null, same_text, with_password}

pub record LoginInput : Type 0 where
  pub username : String
  pub password : String

pub record ProfileInput : Type 0 where
  pub name : Option String
  pub email : Option (Option String)

pub record PasswordInput : Type 0 where
  pub current_password : String
  pub new_password : String

-- The user and what the role allows.
pub record Session : Type 0 where
  pub user : Account
  pub permissions : List Permission

unfoldable pub session : User → Session
session u = record { user = selected u; permissions = get_role_permissions u.role }

unfoldable pub logged_in : ℕ → User → User
logged_in now u = record u { last_login = some now }

unfoldable pub with_profile : ProfileInput → User → User
with_profile input u = record u {
  name = or_else input.name u.name;
  email = or_else input.email u.email;
}

-- `{ OR: [username, email] }`, each by `mode: 'insensitive'`.
abbrev pub answers_to : (String → String) → String → User → Bool
answers_to fold name u = has_username fold name u || has_email fold name u

-- `{ email: text }`, case and all.
abbrev pub has_exact_email : String → User → Bool
has_exact_email mail u = same_text (some mail) u.email

module _ (db : Queries User user_id) (settings : Table String) (fold : String → String)
    (hash : String → String → String) (compare : String → String → Bool) where
  unfoldable pub noted : Entry → State db settings → State db settings
  noted e s = record s { log = e ∷ s.log }

  unfoldable pub renewed :
      Option db.Rows → User → State db settings → Result Session × State db settings
  renewed none u s = (fails Failure.refused, s)
  renewed (some t) u s = (
    returns (session u),
    noted (entry u.id ChangeAction.update u.username) (record s { users = t }),
  )

  unfoldable pub login_found :
      Option User → LoginInput → ℕ → State db settings → Result Session × State db settings
  login_found none input now s =
      (fails Failure.bad_credentials, noted (entry "system" ChangeAction.update input.username) s)
  login_found (some u) input now s =
      if not u.is_active
      then (fails Failure.deactivated, noted (entry u.id ChangeAction.update u.username) s)
      else if not (compare input.password u.password_hash)
      then (fails Failure.bad_credentials, noted (entry u.id ChangeAction.update u.username) s)
      else renewed (db.update (logged_in now u) s.users) (logged_in now u) s

  unfoldable pub login : LoginInput → ℕ → State db settings → Result Session × State db settings
  login input now s =
      login_found (db.find_first (answers_to fold input.username) s.users) input now s

  unfoldable pub get_profile : String → State db settings → Result Session
  get_profile id s = elim (find db id s.users) [
    | none ↦ fails Failure.user_not_found
    | some u ↦ returns (session u)
  ]

  unfoldable pub profile_taken : String → ProfileInput → User → db.Rows → Bool
  profile_taken id input u t =
      is_truthy (or_null input.email)
      && not (same_text (or_null input.email) u.email)
      && is_some (
          db.find_first
            (both (has_exact_email (or_empty (or_null input.email))) (other_than user_id id)) t)

  unfoldable pub profile_checked :
      Bool → ProfileInput → User → State db settings → Result Session × State db settings
  profile_checked true input u s = (fails Failure.email_taken, s)
  profile_checked false input u s =
      renewed (db.update (with_profile input u) s.users) (with_profile input u) s

  unfoldable pub profile_found :
      String → Option User → ProfileInput → State db settings → Result Session × State db settings
  profile_found id none input s = (fails Failure.user_not_found, s)
  profile_found id (some u) input s = profile_checked (profile_taken id input u s.users) input u s

  unfoldable pub update_profile :
      String → ProfileInput → State db settings → Result Session × State db settings
  update_profile id input s = profile_found id (find db id s.users) input s

  unfoldable pub change_found :
      Option User → String → PasswordInput → State db settings → Result Session × State db settings
  change_found none salt input s = (fails Failure.user_not_found, s)
  change_found (some u) salt input s =
      let new = with_password (hash salt input.new_password) false u in
      if not (compare input.current_password u.password_hash)
      then (fails Failure.wrong_password, s)
      else if ltb (utf16_length input.new_password) 6
      then (fails Failure.short_password, s)
      else renewed (db.update new s.users) new s

  unfoldable pub change_password :
      String → String → PasswordInput → State db settings → Result Session × State db settings
  change_password id salt input s = change_found (find db id s.users) salt input s
