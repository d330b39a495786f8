-- ===== src/Accounts/Moves/Installation.antt =====
-- The moves of the installation.
use infra_inventory.Prelude.{
  ◌≡◌, refl, Bool, true, false, not, if◌then◌else◌, ◌||◌, Option, none, some, String, arith, ltb,
  Option-cases, Bool-cases, inl, inr,
}
use infra_inventory.Prelude.Decimal.{trim}
use infra_inventory.Store.{Table}
use infra_inventory.Store.Queries.{Queries, countp, countp_mono}
use infra_inventory.Store.Writes.{found-none}
use infra_inventory.Accounts.{User, is_admin, user_id, has_username, has_email, State}
use infra_inventory.Accounts.Setup.{
  SetupInput, Outage, any_admin, status_key, says_configured, get_setup_status, first_admin,
  installed, initialize,
}
use infra_inventory.Accounts.Moves.{Move, stays, installs}

module _ (db : Queries User user_id) (settings : Table String) (fold : String → String)
    (hash : String → String → String) where
  pub get_setup_status-Move :
      (o : Outage) (s : State db settings)
      → Move db fold s.users (get_setup_status db settings fold hash o s).1.users
  unfolding get_setup_status
  get_setup_status-Move o s = stays (
      untouched o.lookup (says_configured (settings.find status_key s.values)) o.counting
        (ltb 0 (db.count any_admin s.users)) o.upsert)
    where
      untouched :
          (a b c d e : Bool)
          → let r : Bool × State db settings =
              if a
              then (false, s)
              else if b
              then (true, s)
              else if c
              then (false, s)
              else if not d
              then (false, s)
              else if e
              then (false, s)
              else (true, record s { values = settings.put status_key "CONFIGURED" s.values }) in
            r.1.users ≡ s.users
      untouched a b c d e = ground arith

  pub installed-Move :
      (o : Option db.Rows) (u : User) (input : SetupInput) (now : String) (s : State db settings)
      → ((t : db.Rows) → o ≡ some t → Move db fold s.users t)
      → Move db fold s.users (installed db settings fold hash o u input now s).1.users
  unfolding installed
  installed-Move none u input now s h = stays refl
  installed-Move (some t) u input now s h = h t refl

  pub initialize-Move :
      (id salt now : String) (input : SetupInput) (s : State db settings)
      → Move db fold s.users (initialize db settings fold hash id salt now input s).1.users
  unfolding initialize first_admin is_admin
  initialize-Move id salt now input s =
      elim (Bool-cases (says_configured (settings.find status_key s.values))) [
        | inl yet ↦ rw yet (stays refl)
        | inr not_yet ↦ elim (Bool-cases (ltb 0 (db.count any_admin s.users))) [
          | inl some_admin ↦ rw (not_yet, some_admin) (stays refl)
          | inr no_admin ↦ elim (Option-cases (db.find_first (named input) s.users)) [
            | inr (u, e) ↦ rw (not_yet, no_admin, e) (stays refl)
            | inl e ↦
                rw (not_yet, no_admin, e)
                  (installed-Move _ _ input now s (λ t eq.
                    installs (first_admin db settings fold hash id salt input) (trim input.username)
                      (no_one s no_admin) refl refl (no_name input s e) eq))
          ]
        ]
      ]
    where
      no_one :
          (s : State db settings)
          → ltb 0 (db.count any_admin s.users) ≡ false
          → countp any_admin (db.rows s.users) ≡ 0
      no_one s e = ground (arith, e, db.count_lem any_admin s.users)

      named : SetupInput → User → Bool
      named input u =
          has_username fold (trim input.username) u || has_email fold (trim input.email) u

      no_name :
          (input : SetupInput) (s : State db settings)
          → db.find_first (named input) s.users ≡ none
          → countp (has_username fold (trim input.username)) (db.rows s.users) ≡ 0
      no_name input s e = omega (
        arith,
        found-none db (named input) s.users e,
        countp_mono (has_username fold (trim input.username)) (named input) (λ u h. rw h refl)
            (db.rows s.users),
      )
