-- ===== src/Access/Auth.antt =====
-- Who a request speaks for, and the guard of the routes: backend/src/middleware/auth.ts. The JWT
-- library and the table of users are parameters.
pub mod Guard
mod Tests
use infra_inventory.Prelude.{
  ℕ, Bool, true, false, not, ◌&&◌, ◌||◌, Option, none, some, String, str_eq, if◌then◌else◌,
  starts_with, includes_text, substring, is_truthy, or_empty,
}
use infra_inventory.Access.Permissions.{Role, Permission, has_permission}

pub record AuthUser : Type 0 where
  pub id : String
  pub username : String
  pub name : String
  pub email : Option String
  pub role : Role
  pub must_change_password : Bool

-- The columns of a user that `authenticate` selects.
pub record DbUser : Type 0 where
  pub account : AuthUser
  pub is_active : Bool

pub record Cookies : Type 0 where
  pub token : Option String
  pub auth_token : Option String

pub record Request : Type 0 where
  pub authorization : Option String
  pub cookies : Option Cookies
  pub host : Option String
  pub user_agent : Option String
  pub ip : String
  pub user : Option AuthUser

-- What the library and the database answer: a value, or an exception.
pub data Answer (A : Type 0) : Type 0 where
  throws : Answer A
  answers : Option A → Answer A

-- A reply that was sent, by its status, or the user that the request now carries.
pub data Outcome : Type 0 where
  sent : (status : ℕ) → Outcome
  carries : AuthUser → Outcome

pub has_bearer : Option String → Bool
has_bearer none = false
has_bearer (some header) = starts_with header "Bearer "

pub cookie_token : Option Cookies → Option String
cookie_token none = none
cookie_token (some c) = if is_truthy c.token then c.token else c.auth_token

-- The token of a request; an empty one counts as none afterwards.
pub token_of : Request → Option String
token_of r =
    if has_bearer r.authorization
    then some (substring 7 (or_empty r.authorization))
    else cookie_token r.cookies

pub is_internal : Request → Bool
is_internal r =
    str_eq r.ip "127.0.0.1"
    || str_eq r.ip "::1"
    || starts_with (or_empty r.host) "backend:"
    || includes_text (or_empty r.user_agent) "node-fetch"
    || includes_text (or_empty r.user_agent) "undici"

pub system_user : AuthUser
system_user = record {
  id = "system";
  username = "system";
  name = "Palma System Worker";
  email = some "system@palmainventory.local";
  role = Role.admin;
  must_change_password = false;
}

-- Step 3, on the row found.
pub check_account : Answer DbUser → Outcome
check_account throws = sent 401
check_account (answers none) = sent 401
check_account (answers (some u)) = if u.is_active then carries u.account else sent 401

-- The check of the role, on an identified request.
pub authorise : Permission → Outcome → Outcome
authorise p (sent status) = sent status
authorise p (carries u) = if has_permission u.role p then carries u else sent 403

module _ (verify : String → Answer AuthUser) (find_unique : String → Answer DbUser) where
  -- Step 2, on what the library made of the token.
  pub check_payload : Answer AuthUser → Outcome
  check_payload throws = sent 401
  check_payload (answers none) = sent 401
  check_payload (answers (some decoded)) =
      if str_eq decoded.id "" then sent 401 else check_account (find_unique decoded.id)

  pub authenticate : Request → Outcome
  authenticate r =
      if is_truthy (token_of r)
      then check_payload (verify (or_empty (token_of r)))
      else if is_internal r
      then carries system_user
      else sent 401

  abbrev pub identify : Request → Option AuthUser → Outcome
  identify r none = authenticate r
  identify r (some u) = carries u

  -- The user for whom the handler of a route runs, or the reply sent instead.
  pub require_permission : Permission → Request → Outcome
  require_permission p r = authorise p (identify r r.user)
