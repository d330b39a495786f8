-- ===== src/Accounts/Setup.antt =====
-- The installation, backend/src/modules/setup/setup.service.ts. Lower case is that of the Latin
-- letters, the only ones that the route's schema lets through in names and emails.
use infra_inventory.Prelude.{
  Bool, true, false, not, ◌||◌, Option, none, some, List, [], ◌∷◌, ◌++◌, String, ltb, str_eq,
  if◌then◌else◌, is_truthy, or_empty,
}
use infra_inventory.Prelude.Decimal.{trim}
use infra_inventory.Access.Permissions.{Role}
use infra_inventory.Discovery.Classifier.{to_lower_case}
use infra_inventory.Store.{Table}
use infra_inventory.Store.Queries.{Queries}
use infra_inventory.Accounts.{
  User, ChangeAction, entry, Failure, Result, fails, returns, is_admin, is_some, user_id,
  has_username, has_email, State,
}
use infra_inventory.Accounts.Session.{Session, session}

pub record SetupInput : Type 0 where
  pub name : String
  pub username : String
  pub email : String
  pub password : String
  pub organization_name : Option String
  pub description : Option String
  pub timezone : Option String
  pub language : Option String

abbrev pub status_key : String
status_key = "INSTALLATION_STATUS"

-- `setting && setting.value === 'CONFIGURED'`
unfoldable pub says_configured : Option String → Bool
says_configured none = false
says_configured (some value) = str_eq value "CONFIGURED"

-- `text?.trim()`
unfoldable pub trimmed : Option String → Option String
trimmed none = none
trimmed (some s) = some (trim s)

-- A setting that is saved only if its trimmed text is not empty.
unfoldable pub optional_setting : String → Option String → List (String × String)
optional_setting key o = if is_truthy (trimmed o) then (key, or_empty (trimmed o)) ∷ [] else []

-- `now` is the time as an ISO text.
unfoldable pub settings_to_save : SetupInput → String → List (String × String)
settings_to_save input now =
    (status_key, "CONFIGURED")
    ∷ ("SETUP_COMPLETED_AT", now)
    ∷ (
      "organizationName",
      if is_truthy (trimmed input.organization_name)
          then or_empty (trimmed input.organization_name)
          else "IMP NOC",
    )
    ∷ (optional_setting "organizationDescription" input.description
        ++ (optional_setting "systemTimezone" input.timezone
            ++ optional_setting "systemLanguage" input.language))

-- Which calls of the database throw in getSetupStatus: the look-up of the setting, the count of the
-- administrators, the upsert.
pub record Outage : Type 0 where
  pub lookup : Bool
  pub counting : Bool
  pub upsert : Bool

abbrev pub any_admin : User → Bool
any_admin u = is_admin u.role

module _ (db : Queries User user_id) (settings : Table String) (fold : String → String)
    (hash : String → String → String) where
  open settings use {Rows, find, put}

  unfoldable pub save_all : List (String × String) → Rows → Rows
  save_all [] values = values
  save_all ((key, value) ∷ items) values = save_all items (put key value values)

  -- Whether the system is configured; administrators of an older installation count. The `catch`
  -- answers a call that fails.
  unfoldable pub get_setup_status : Outage → State db settings → Bool × State db settings
  get_setup_status o s =
      if o.lookup
      then (false, s)
      else if says_configured (find status_key s.values)
      then (true, s)
      else if o.counting
      then (false, s)
      else if not (ltb 0 (db.count any_admin s.users))
      then (false, s)
      else if o.upsert
      then (false, s)
      else (true, record s { values = put status_key "CONFIGURED" s.values })

  unfoldable pub first_admin : String → String → SetupInput → User
  first_admin id salt input = record {
    id = id;
    username = to_lower_case (trim input.username);
    name = trim input.name;
    email = some (to_lower_case (trim input.email));
    password_hash = hash salt input.password;
    role = Role.admin;
    is_active = true;
    must_change_password = false;
    last_login = none;
  }

  unfoldable pub installed :
      Option db.Rows
      → User
      → SetupInput
      → String
      → State db settings
      → Result Session × State db settings
  installed none u input now s = (fails Failure.refused, s)
  installed (some t) u input now s = (
    returns (session u),
    record s {
      users = t;
      values = save_all (settings_to_save input now) s.values;
      log = entry "setup" ChangeAction.create u.username ∷ s.log;
    },
  )

  -- A transaction: an error leaves the state as it was.
  unfoldable pub initialize :
      String → String → String → SetupInput → State db settings → Result Session × State db settings
  initialize id salt now input s =
      if says_configured (find status_key s.values)
      then (fails Failure.already_configured, s)
      else if ltb 0 (db.count any_admin s.users)
      then (fails Failure.admin_exists, s)
      else if is_some (
          db.find_first
            (λ u. has_username fold (trim input.username) u || has_email fold (trim input.email) u)
            s.users)
      then (fails Failure.name_taken, s)
      else installed (db.create (first_admin id salt input) s.users) (first_admin id salt input)
          input now s
