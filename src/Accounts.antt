-- ===== src/Accounts.antt =====
-- The accounts of the users: their state, shared by the services of
-- backend/src/modules/users/users.service.ts, auth/auth.service.ts and setup/setup.service.ts. The
-- columns `createdAt` and `updatedAt`, which the database writes, and the texts of the change log
-- are left out.
pub mod Users
pub mod Session
pub mod Setup
pub mod Calls
pub mod Moves
pub mod Admins
pub mod Once
pub mod Login
mod Tests
use infra_inventory.Prelude.{
  ℕ, Bool, true, false, not, ◌&&◌, Option, none, some, List, [], ◌∷◌, String, str_eq, if◌then◌else◌,
}
use infra_inventory.Access.Permissions.{Role}
use infra_inventory.Store.{Table}
use infra_inventory.Store.Queries.{Queries, both}

pub record User : Type 0 where
  pub id : String
  pub username : String
  pub name : String
  pub email : Option String
  pub password_hash : String
  pub role : Role
  pub is_active : Bool
  pub must_change_password : Bool
  pub last_login : Option ℕ

-- What a `select` returns of a user: all but the hash of the password.
pub record Account : Type 0 where
  pub id : String
  pub username : String
  pub name : String
  pub email : Option String
  pub role : Role
  pub is_active : Bool
  pub must_change_password : Bool
  pub last_login : Option ℕ

unfoldable pub selected : User → Account
selected u = record {
  id = u.id;
  username = u.username;
  name = u.name;
  email = u.email;
  role = u.role;
  is_active = u.is_active;
  must_change_password = u.must_change_password;
  last_login = u.last_login;
}

pub data ChangeAction : Type 0 where
  create update delete : ChangeAction

-- An entry of the change log, without its text.
pub record Entry : Type 0 where
  pub entity_id : String
  pub action : ChangeAction
  pub user : String

-- `logChange` names an anonymous actor "system".
unfoldable pub entry : String → ChangeAction → String → Entry
entry id action user = record {
  entity_id = id;
  action = action;
  user = if str_eq user "" then "system" else user;
}

-- The errors thrown; `refused` is that of a write which the database does not accept.
pub data Failure : Type 0 where
  user_not_found username_taken email_taken own_account refused : Failure
  sole_admin_role sole_admin_active sole_admin_deleted : Failure
  bad_credentials deactivated wrong_password short_password : Failure
  already_configured admin_exists name_taken : Failure

pub data Result (A : Type 0) : Type 0 where
  fails : Failure → Result A
  returns : A → Result A

unfoldable pub is_admin : Role → Bool
is_admin Role.admin = true
is_admin _ = false

abbrev pub is_some {ℓ} : {A : Type ℓ} → Option A → Bool
is_some none = false
is_some (some a) = true

-- `a ?? b`.
abbrev pub or_else {ℓ} : {A : Type ℓ} → Option A → A → A
or_else none b = b
or_else (some a) b = a

-- `{ role: Role.ADMIN, isActive: true }`
abbrev pub active_admin : User → Bool
active_admin = both (λ u. is_admin u.role) (λ u. u.is_active)

abbrev pub user_id : User → String
user_id u = u.id

-- `{ equals: text, mode: 'insensitive' }`, by the case folding of the database.
abbrev pub same_folded : (String → String) → String → String → Bool
same_folded fold a b = str_eq (fold a) (fold b)

abbrev pub has_username : (String → String) → String → User → Bool
has_username fold name u = same_folded fold name u.username

abbrev pub matches_email : (String → String) → String → Option String → Bool
matches_email fold mail none = false
matches_email fold mail (some own) = same_folded fold mail own

abbrev pub has_email : (String → String) → String → User → Bool
has_email fold mail u = matches_email fold mail u.email

-- The tables `User` and `SystemSetting`, and the change log, newest first.
pub record State (db : Queries User user_id) (settings : Table String) : Type 0 where
  pub users : db.Rows
  pub values : settings.Rows
  pub log : List Entry
