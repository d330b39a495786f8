-- ===== src/Accounts/Tests.antt =====
-- The accounts at concrete tables, with the case folding of the Latin letters and a salted hash
-- that keeps the password readable.
use infra_inventory.Prelude.{
  ◌≤◌, ◌≡◌, refl, inl, inr, ap, sym, Bool, true, false, not, none, some, List, [], ◌∷◌, String,
  arith, str_eq, append, utf16_length, substring,
}
use infra_inventory.Access.Permissions.{Role, get_role_permissions}
use infra_inventory.Prelude.Dict
use infra_inventory.Prelude.Decimal.{trim_start, trim_end, is_space}
use infra_inventory.Discovery.Classifier.{to_lower_case}
use infra_inventory.Discovery.Classifier.Case.{to_lower_case_idem}
use infra_inventory.Store.{Table, dict_table}
use infra_inventory.Store.InMemory.{list_queries, search, others, added}
use infra_inventory.Store.Queries.{Queries, countp, IsKeyed, IsRow}
use infra_inventory.Accounts.{
  User, active_admin, is_admin, user_id, State, fails, returns, Failure, selected, entry,
}
use infra_inventory.Accounts.Users.{
  CreateInput, UpdateInput, updated, takes_role, deactivates, stored, new_user, create_user,
  role_check, email_check, email_or_null, same_text, update_checked, update_found, update_user,
  with_password, password_found, set_password, delete_check, delete_checked, delete_found,
  delete_user,
}
use infra_inventory.Accounts.Session.{
  LoginInput, PasswordInput, Session, session, answers_to, logged_in, with_profile, renewed, noted,
  login_found, login, profile_taken, profile_checked, profile_found, update_profile, change_found,
  change_password,
}
use infra_inventory.Accounts.Setup.{
  SetupInput, Outage, status_key, says_configured, trimmed, optional_setting, settings_to_save,
  save_all, get_setup_status, first_admin, installed, initialize,
}
use infra_inventory.Accounts.Calls.{Call, creates, updates, deletes, step, run}
use infra_inventory.Accounts.Moves.{Move}
use infra_inventory.Accounts.Moves.Steps.{step-Move}
use infra_inventory.Accounts.Admins.{HasUniqueNames, run-manned, run-HasUniqueNames}
use infra_inventory.Accounts.Once.{initialize_once}
use infra_inventory.Accounts.Login.{
  login_sound, MayLogIn, IsSession, change_password-Decides, Decides,
}

abbrev db : Queries User user_id
db = list_queries User user_id

abbrev settings : Table String
settings = dict_table String

abbrev hash : String → String → String
hash salt password = append salt password

abbrev compare : String → String → Bool
compare password hashed = str_eq hashed (append "salt" password)

abbrev root : User
root = record {
  id = "u1";
  username = "root";
  name = "Root";
  email = some "root@x.org";
  password_hash = "saltsecret";
  role = Role.admin;
  is_active = true;
  must_change_password = false;
  last_login = none;
}

abbrev table : State db settings
table = record { users = root ∷ []; values = []; log = [] }

abbrev viewing : UpdateInput
viewing = record {
  name = none;
  email = none;
  role = some Role.viewer;
  is_active = none;
  must_change_password = none;
}

abbrev eve : CreateInput
eve = record {
  username = "eve";
  name = "Eve";
  email = none;
  password = "secret";
  role = Role.admin;
  is_active = true;
  must_change_password = true;
}

abbrev history : List Call
history =
    creates "u2" "salt" eve "root"
    ∷ deletes "u2" "root" "u1"
    ∷ updates "u1" viewing "root"
    ∷ deletes "u1" "eve" "u2"
    ∷ []

unfolds : Unit {0}
unfolding updated takes_role deactivates stored new_user create_user role_check email_or_null
    same_text email_check update_checked update_found update_user with_password password_found
    set_password delete_check delete_checked delete_found delete_user session logged_in with_profile
    renewed noted login_found login profile_taken profile_checked profile_found update_profile
    change_found change_password says_configured trimmed optional_setting settings_to_save save_all
    get_setup_status first_admin installed initialize step run is_admin selected entry countp search
    others added to_lower_case append utf16_length substring Dict.get Dict.set trim_start trim_end
    is_space get_role_permissions
unfolds = tt

-- The only active administrator can be neither demoted nor deleted.
demotion_refused :
    update_user db settings to_lower_case hash "u1" viewing "root" table
    ≡ (fails Failure.sole_admin_role, table)
unfolding unfolds
demotion_refused = refl

deletion_refused :
    delete_user db settings to_lower_case hash "u1" "eve" "u2" table
    ≡ (fails Failure.sole_admin_deleted, table)
unfolding unfolds
deletion_refused = refl

name_taken :
    (create_user db settings to_lower_case hash "u2" "salt"
      (record eve { username = "Root" })
      "root"
      table).0
    ≡ fails Failure.username_taken
unfolding unfolds
name_taken = refl

keyed : IsKeyed user_id (root ∷ [])
unfolding countp
keyed id = ground arith

unique : HasUniqueNames db to_lower_case (root ∷ [])
unfolding countp
unique name = ground arith

manned : 1 ≤ countp active_admin (root ∷ [])
unfolding countp is_admin
manned = omega arith

run-manned_example :
    1 ≤ countp active_admin (run db settings to_lower_case hash compare table history).users
run-manned_example = run-manned db settings to_lower_case hash compare table history keyed manned

run-HasUniqueNames_example :
    HasUniqueNames db to_lower_case (run db settings to_lower_case hash compare table history).users
run-HasUniqueNames_example =
    run-HasUniqueNames db settings to_lower_case hash compare to_lower_case_idem table history keyed
      unique

step-Move_example :
    Move db to_lower_case
      (root ∷ [])
      (step db settings to_lower_case hash compare table (updates "u1" viewing "root")).users
step-Move_example =
    step-Move db settings to_lower_case hash compare table (updates "u1" viewing "root") keyed

abbrev blank : State db settings
blank = record { users = []; values = []; log = [] }

abbrev first_input : SetupInput
first_input = record {
  name = "Root";
  username = " Root ";
  email = "Root@x.org";
  password = "secret";
  organization_name = none;
  description = some "racks";
  timezone = none;
  language = some " ";
}

abbrev root_session : Session
root_session = record {
  user = selected (record root { password_hash = "" });
  permissions = (session root).permissions;
}

blank_installed :
    (initialize db settings to_lower_case hash "u1" "salt" "2026-01-01" first_input blank).0
    ≡ returns root_session
unfolding unfolds
blank_installed = refl

none-IsKeyed : IsKeyed user_id []
unfolding countp
none-IsKeyed id = omega arith

abbrev installation : State db settings
installation =
    run db settings to_lower_case hash compare
      (initialize db settings to_lower_case hash "u1" "salt" "2026-01-01" first_input blank).1
      history

initialize_once_example :
    (1 ≤ countp active_admin installation.users)
    × ((o : Outage)
        → get_setup_status db settings to_lower_case hash o installation
          ≡ (not o.lookup, installation))
    × ((id' salt' now' : String) (input' : SetupInput)
        → initialize db settings to_lower_case hash id' salt' now' input' installation
          ≡ (fails Failure.already_configured, installation))
initialize_once_example =
    initialize_once db settings to_lower_case hash compare "u1" "salt" "2026-01-01" first_input
      root_session blank history none-IsKeyed blank_installed

-- An older installation has an administrator and no status: the status is saved, unless that fails.
status_saved :
    get_setup_status db settings to_lower_case hash
      (record { lookup = false; counting = false; upsert = false })
      table
    ≡ (true, record table { values = (status_key, "CONFIGURED") ∷ [] })
unfolding unfolds
status_saved = refl

status_unsaved :
    get_setup_status db settings to_lower_case hash
      (record { lookup = false; counting = false; upsert = true })
      table
    ≡ (false, table)
unfolding unfolds
status_unsaved = refl

abbrev typed : LoginInput
typed = record { username = "ROOT@x.org"; password = "secret" }

root_in :
    (login db settings to_lower_case hash compare typed 7 table).0
    ≡ returns (session (logged_in 7 root))
unfolding unfolds
root_in = refl

login_sound_example :
    (u : User) × MayLogIn db settings to_lower_case hash compare typed u table
    × IsSession db settings to_lower_case hash compare u 7 (session (logged_in 7 root))
login_sound_example =
    login_sound db settings to_lower_case hash compare typed 7 table (session (logged_in 7 root))
      root_in

abbrev new_password : PasswordInput
new_password = record { current_password = "secret"; new_password = "longer" }

abbrev renewed_root : User
renewed_root = record root { password_hash = "saltlonger" }

password_changed :
    (change_password db settings to_lower_case hash compare "u1" "salt" new_password table).0
    ≡ returns (session renewed_root)
unfolding unfolds
password_changed = refl

one_row :
    (r : User)
    → IsRow r
        (change_password db settings to_lower_case hash compare "u1" "salt" new_password
          table).1.users
    → answers_to to_lower_case "root" r ≡ true
    → r.id ≡ "u1"
unfolding unfolds
one_row r (inl e) h = ap user_id (sym e)
one_row r (inr none_left) h = absurd none_left

root_found : search (λ (u : User). str_eq u.id "u1") (root ∷ []) ≡ some root
unfolding search
root_found = refl

answers_root : answers_to to_lower_case "root" root ≡ true
unfolding unfolds
answers_root = refl

change_password-Decides_example :
    Decides db settings to_lower_case hash compare "u1" "longer" "saltlonger" "root" 9
      (change_password db settings to_lower_case hash compare "u1" "salt" new_password table).1
unfolding append
change_password-Decides_example =
    change_password-Decides db settings to_lower_case hash compare "u1" "salt" "root" "longer"
      new_password 9 table (session renewed_root) root root_found refl answers_root password_changed
      one_row
