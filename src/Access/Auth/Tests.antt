-- ===== src/Access/Auth/Tests.antt =====
-- The guard at concrete requests, with a library that accepts one token and one active account.
use infra_inventory.Prelude.{
  ◌≡◌, refl, ◌⊎◌, inl, ◌↔◌, true, false, none, some, String, str_eq, if◌then◌else◌, is_truthy,
  or_empty, starts_with, includes_text, substring,
}
use infra_inventory.Access.Permissions.{
  Role, Permission, literal, includes, viewer_permissions, get_role_permissions, has_permission,
}
use infra_inventory.Access.Permissions.Hierarchy.{reserved, has_permission-reserved}
use infra_inventory.Access.Auth.{
  AuthUser, DbUser, Request, Answer, throws, answers, sent, carries, has_bearer, cookie_token,
  token_of, is_internal, system_user, check_account, check_payload, authenticate, authorise,
  require_permission,
}
use infra_inventory.Access.Auth.Guard.{SpeaksFor, authenticate_sound, require_permission-spoofed}

abbrev ana : AuthUser
ana = record {
  id = "u1";
  username = "ana";
  name = "Ana";
  email = none;
  role = Role.viewer;
  must_change_password = false;
}

abbrev verify : String → Answer AuthUser
verify token = if str_eq token "good" then answers (some ana) else throws

abbrev find_unique : String → Answer DbUser
find_unique id =
    if str_eq id "u1"
    then answers (some (record { account = ana; is_active = true }))
    else answers none

abbrev bearer : Request
bearer = record {
  authorization = some "Bearer good";
  cookies = none;
  host = none;
  user_agent = some "curl";
  ip = "10.0.0.9";
  user = none;
}

abbrev spoofed : Request
spoofed = record bearer { authorization = none; user_agent = some "undici" }

unfolds : Unit {0}
unfolding has_bearer cookie_token token_of is_internal system_user check_account check_payload
    authenticate authorise require_permission starts_with includes_text substring
unfolds = tt

bearer-carries : authenticate verify find_unique bearer ≡ carries ana
unfolding unfolds
bearer-carries = refl

stranger_refused :
    authenticate verify find_unique (record spoofed { user_agent = some "curl" }) ≡ sent 401
unfolding unfolds
stranger_refused = refl

no_token : is_truthy (token_of spoofed) ≡ false
unfolding unfolds
no_token = refl

says_undici : includes_text "undici" "undici" ≡ true
unfolding unfolds
says_undici = refl

authenticate_sound_example :
    ((is_truthy (token_of bearer) ≡ true)
      × SpeaksFor verify find_unique (or_empty (token_of bearer)) ana)
    ⊎ ((is_truthy (token_of bearer) ≡ false) × (is_internal bearer ≡ true) × (ana ≡ system_user))
authenticate_sound_example = authenticate_sound verify find_unique bearer ana bearer-carries

require_permission-spoofed_example :
    (require_permission verify find_unique Permission.user_delete spoofed ≡ carries system_user)
    × (system_user.role ≡ Role.admin)
require_permission-spoofed_example =
    require_permission-spoofed verify find_unique Permission.user_delete spoofed refl no_token
      (inl says_undici)

reading_tickets : has_permission Role.viewer Permission.ticket_read ≡ true
unfolding has_permission get_role_permissions viewer_permissions includes literal
reading_tickets = refl

approving_reserved : includes reserved Permission.automation_approve ≡ true
unfolding includes literal
approving_reserved = refl

has_permission-reserved_example :
    (has_permission Role.technician Permission.automation_approve ≡ true)
    ↔ (Role.technician ≡ Role.admin)
has_permission-reserved_example =
    has_permission-reserved Role.technician Permission.automation_approve approving_reserved
