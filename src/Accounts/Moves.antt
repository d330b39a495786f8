-- ===== src/Accounts/Moves.antt =====
-- What the services promise of the table of users: the abstract moves of a table, and that every
-- call makes one of them.
pub mod Administration
pub mod Sessions
pub mod Installation
pub mod Steps
use infra_inventory.Prelude.{
  ℕ, ◌+◌, ◌≤◌, ◌≡◌, refl, sym, Bool, true, false, not, ◌&&◌, ◌||◌, Option, none, some, List, [],
  ◌∷◌, String, arith, eq_iff, leb, ltb, ◌==◌, str_eq, if◌then◌else◌, Option-cases, Bool-cases,
  is_truthy, utf16_length, inl, inr, or_empty,
}
use infra_inventory.Prelude.Decimal.{trim}
use infra_inventory.Discovery.Classifier.{to_lower_case}
use infra_inventory.Store.{Table}
use infra_inventory.Store.Queries.{
  Queries, find, countp, both, has_key, other_than, IsKeyed, IsRow, countp-both, countp-le_right,
  countp_mono,
}
use infra_inventory.Store.Writes.{found-IsRow, found-none}
use infra_inventory.Accounts.{
  User, Entry, entry, ChangeAction, Failure, Result, Account, is_admin, is_some, or_else,
  active_admin, user_id, has_username, has_email, State,
}
use infra_inventory.Accounts.Users.{
  CreateInput, UpdateInput, updated, takes_role, deactivates, stored, new_user, create_user,
  role_check, email_check, update_checked, update_found, update_user, with_password, password_found,
  set_password, delete_check, delete_checked, delete_found, delete_user,
}
use infra_inventory.Accounts.Session.{
  LoginInput, ProfileInput, PasswordInput, Session, answers_to, logged_in, with_profile, renewed,
  noted, login_found, login, profile_taken, profile_checked, profile_found, update_profile,
  change_found, change_password,
}
use infra_inventory.Accounts.Setup.{
  SetupInput, any_admin, status_key, says_configured, get_setup_status, first_admin, installed,
  initialize,
}
use infra_inventory.Accounts.Calls.{
  Call, creates, updates, resets_password, deletes, logs_in, edits_profile, changes_password,
  asks_status, initializes, step,
}

module _ (db : Queries User user_id) (fold : String → String) where
  -- An active administrator may become another user only if there is a second one.
  abbrev pub MayBecome : User → User → db.Rows → Type 0
  MayBecome old new t =
      active_admin old ≡ true
      → active_admin new ≡ false
      → 1 ≤ countp (both active_admin (other_than user_id old.id)) (db.rows t)

  pub data Move (t t' : db.Rows) : Type 0 where
    stays : t' ≡ t → Move t t'
    adds :
        (u : User)
        → countp (has_username fold u.username) (db.rows t) ≡ 0
        → db.create u t ≡ some t'
        → Move t t'
    installs :
        (u : User) (name : String)
        → countp (λ v. is_admin v.role) (db.rows t) ≡ 0
        → active_admin u ≡ true
        → u.username ≡ to_lower_case name
        → countp (has_username fold name) (db.rows t) ≡ 0
        → db.create u t ≡ some t'
        → Move t t'
    changes :
        (old new : User)
        → IsRow old (db.rows t)
        → new.id ≡ old.id
        → new.username ≡ old.username
        → MayBecome old new t
        → db.update new t ≡ some t'
        → Move t t'
    removes :
        (u : User) (id : String)
        → IsRow u (db.rows t)
        → u.id ≡ id
        → (active_admin u ≡ true
            → 1 ≤ countp (both active_admin (other_than user_id id)) (db.rows t))
        → db.remove id t ≡ some t'
        → Move t t'

  pub found_by_id :
      (id : String) (t : db.Rows) (u : User)
      → find db id t ≡ some u
      → IsRow u (db.rows t) × (u.id ≡ id)
  found_by_id id t u e =
      let (row, same) = found-IsRow db (has_key user_id id) t u e in (row, (eq_iff u.id id).0 same)

  pub changed :
      (id : String) (u new : User) (t t' : db.Rows)
      → find db id t ≡ some u
      → new.id ≡ u.id
      → new.username ≡ u.username
      → MayBecome u new t
      → db.update new t ≡ some t'
      → Move t t'
  changed id u new t t' e same named may eq =
      changes u new (found_by_id id t u e).0 same named may eq

  -- A user who stays what the role and the activity were.
  pub unchanged :
      (old new : User) (t : db.Rows) → active_admin new ≡ active_admin old → MayBecome old new t
  unchanged old new t kept was lost = absurd cc
