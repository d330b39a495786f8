-- ===== src/Accounts/Once.antt =====
-- The installation happens once.
pub mod Values
use infra_inventory.Prelude.{
  ℕ, ◌≤◌, ◌≡◌, ◌∙◌, refl, sym, ap, subst, Bool, true, false, not, ◌||◌, Option, none, some, List,
  [], ◌∷◌, ◌++◌, String, arith, str_eq, if◌then◌else◌, Bool-cases, is_truthy, or_empty, ltb, inl,
  inr, All, All-append,
}
use infra_inventory.Prelude.Decimal.{trim}
use infra_inventory.Store.{Table}
use infra_inventory.Store.Queries.{Queries, bit, countp, IsKeyed}
use infra_inventory.Accounts.{
  User, active_admin, user_id, State, Result, Failure, fails, returns, is_some, has_username,
  has_email, is_admin,
}
use infra_inventory.Accounts.Users.{
  CreateInput, UpdateInput, stored, create_user, update_checked, update_found, update_user,
  password_found, set_password, delete_checked, delete_found, delete_user,
}
use infra_inventory.Accounts.Session.{
  LoginInput, ProfileInput, PasswordInput, Session, renewed, noted, login_found, login,
  profile_checked, profile_found, update_profile, change_found, change_password,
}
use infra_inventory.Accounts.Setup.{
  SetupInput, Outage, any_admin, status_key, says_configured, settings_to_save, optional_setting,
  trimmed, save_all, get_setup_status, first_admin, installed, initialize,
}
use infra_inventory.Accounts.Calls.{
  Call, creates, updates, resets_password, deletes, logs_in, edits_profile, changes_password,
  asks_status, initializes, step, run,
}
use infra_inventory.Accounts.Once.Values
use infra_inventory.Accounts.Admins.{run-manned, Move-IsKeyed}
use infra_inventory.Accounts.Moves.Installation.{initialize-Move}

module _ (db : Queries User user_id) (settings : Table String) (fold : String → String)
    (hash : String → String → String) (compare : String → String → Bool) where
  open settings use {find-put}

  abbrev IsConfigured : State db settings → Type 0
  IsConfigured s = says_configured (settings.find status_key s.values) ≡ true

  abbrev IsOther : String × String → Type 0
  IsOther item = str_eq (item.0) status_key ≡ false

  optional_setting-IsOther :
      (key : String) (o : Option String)
      → str_eq key status_key ≡ false
      → All IsOther (optional_setting key o)
  unfolding optional_setting
  optional_setting-IsOther key o h = elim (Bool-cases (is_truthy (trimmed o))) [
    | inl e ↦ rw e (h, tt)
    | inr e ↦ rw e tt
  ]

  find-save_all :
      (items : List (String × String)) (values : settings.Rows)
      → All IsOther items
      → settings.find status_key (save_all db settings fold hash items values)
        ≡ settings.find status_key values
  unfolding save_all
  find-save_all [] values h = refl
  find-save_all ((key, value) ∷ items) values h =
      find-save_all items (settings.put key value values) h.1
      ∙ (find-put key status_key value values ∙ rw h.0 refl)

  later : SetupInput → String → List (String × String)
  later input now =
      ("SETUP_COMPLETED_AT", now)
      ∷ (
        "organizationName",
        if is_truthy (trimmed input.organization_name)
            then or_empty (trimmed input.organization_name)
            else "IMP NOC",
      )
      ∷ (optional_setting "organizationDescription" input.description
          ++ (optional_setting "systemTimezone" input.timezone
              ++ optional_setting "systemLanguage" input.language))

  save_all-configured :
      (input : SetupInput) (now : String) (values : settings.Rows)
      → settings.find status_key
          (save_all db settings fold hash (settings_to_save input now) values)
        ≡ some "CONFIGURED"
  unfolding save_all settings_to_save later
  save_all-configured input now values =
      let kept : All IsOther (later input now) = (refl, (refl, others)) in
      find-save_all (later input now) (settings.put status_key "CONFIGURED" values) kept
      ∙ find-put status_key status_key "CONFIGURED" values
    where
      others : All IsOther (
          optional_setting "organizationDescription" input.description
          ++ (optional_setting "systemTimezone" input.timezone
              ++ optional_setting "systemLanguage" input.language))
      others =
          All-append IsOther (optional_setting "organizationDescription" input.description) _
            (optional_setting-IsOther _ _ refl)
            (All-append IsOther (optional_setting "systemTimezone" input.timezone) _
              (optional_setting-IsOther _ _ refl) (optional_setting-IsOther _ _ refl))

  initialize-configured :
      (id salt now : String) (input : SetupInput) (s : State db settings)
      → IsConfigured s
      → initialize db settings fold hash id salt now input s ≡ (fails Failure.already_configured, s)
  unfolding initialize
  initialize-configured id salt now input s h = rw h refl

  get_setup_status-configured :
      (o : Outage) (s : State db settings)
      → IsConfigured s
      → get_setup_status db settings fold hash o s ≡ (not o.lookup, s)
  unfolding get_setup_status
  get_setup_status-configured o s h = rw h (answer o.lookup)
    where
      answer :
          (b : Bool)
          → ◌≡◌ {A = Bool × State db settings} (if b then (false, s) else (true, s)) (not b, s)
      answer true = refl
      answer false = refl

  keeps :
      (v v' : settings.Rows)
      → v' ≡ v
      → says_configured (settings.find status_key v) ≡ true
      → says_configured (settings.find status_key v') ≡ true
  keeps v v' e h = rw e h

  step-IsConfigured :
      (s : State db settings) (c : Call)
      → IsConfigured s
      → IsConfigured (step db settings fold hash compare s c)
  unfolding step
  step-IsConfigured s (creates id salt input by) h =
      keeps s.values _ (Values.values-create_user db settings fold hash compare id salt input by s)
        h
  step-IsConfigured s (updates id input by) h =
      keeps s.values _ (Values.values-update_user db settings fold hash compare id input by s) h
  step-IsConfigured s (resets_password id salt password must by) h =
      keeps s.values _
        (Values.values-set_password db settings fold hash compare id salt password must by s) h
  step-IsConfigured s (deletes id by current) h =
      keeps s.values _ (Values.values-delete_user db settings fold hash compare id by current s) h
  step-IsConfigured s (logs_in input now) h =
      keeps s.values _ (Values.values-login db settings fold hash compare input now s) h
  step-IsConfigured s (edits_profile id input) h =
      keeps s.values _ (Values.values-update_profile db settings fold hash compare id input s) h
  step-IsConfigured s (changes_password id salt input) h =
      keeps s.values _ (Values.values-change_password db settings fold hash compare id salt input s)
        h
  step-IsConfigured s (asks_status o) h =
      subst IsConfigured (sym (ap (λ p. p.1) (get_setup_status-configured o s h))) h
  step-IsConfigured s (initializes id salt now input) h =
      subst IsConfigured (sym (ap (λ p. p.1) (initialize-configured id salt now input s h))) h

  run-IsConfigured :
      (s : State db settings) (cs : List Call)
      → IsConfigured s
      → IsConfigured (run db settings fold hash compare s cs)
  unfolding run
  run-IsConfigured s [] h = h
  run-IsConfigured s (c ∷ cs) h =
      run-IsConfigured (step db settings fold hash compare s c) cs (step-IsConfigured s c h)

  IsInstalled : Result Session × State db settings → Type 0
  IsInstalled r = IsConfigured r.1 × (1 ≤ countp active_admin (db.rows r.1.users))

  if-IsInstalled :
      (b : Bool) (f : Failure) (s : State db settings) (r : Result Session × State db settings)
      (session : Session)
      → (r.0 ≡ returns session → IsInstalled r)
      → (if b then (fails f, s) else r).0 ≡ returns session
      → IsInstalled (if b then (fails f, s) else r)
  if-IsInstalled true f s r session h e = absurd cc
  if-IsInstalled false f s r session h e = h e

  installed-IsInstalled :
      (o : Option db.Rows) (u : User) (input : SetupInput) (now : String) (s : State db settings)
      (session : Session)
      → db.create u s.users ≡ o
      → active_admin u ≡ true
      → (installed db settings fold hash o u input now s).0 ≡ returns session
      → IsInstalled (installed db settings fold hash o u input now s)
  unfolding installed IsInstalled says_configured
  installed-IsInstalled none u input now s session c a e = absurd cc
  installed-IsInstalled (some t) u input now s session c a e = (
    rw (save_all-configured input now s.values) refl,
    omega (arith, db.create-rows u s.users t c active_admin, ap bit a),
  )

  initialize-IsInstalled :
      (id salt now : String) (input : SetupInput) (session : Session) (s : State db settings)
      → (initialize db settings fold hash id salt now input s).0 ≡ returns session
      → IsInstalled (initialize db settings fold hash id salt now input s)
  unfolding initialize first_admin is_admin
  initialize-IsInstalled id salt now input session s =
      let u = first_admin db settings fold hash id salt input in
      let o = db.create u s.users in
      let end = installed db settings fold hash o u input now s in
      let taken = is_some (
        db.find_first
          (λ v. has_username fold (trim input.username) v || has_email fold (trim input.email) v)
          s.users) in
      let third = if taken then (fails Failure.name_taken, s) else end in
      let has_admin = ltb 0 (db.count any_admin s.users) in
      let second = if has_admin then (fails Failure.admin_exists, s) else third in
      if-IsInstalled (says_configured (settings.find status_key s.values))
        Failure.already_configured s second session
        (if-IsInstalled has_admin Failure.admin_exists s third session (
          if-IsInstalled taken Failure.name_taken s end session
            (installed-IsInstalled o u input now s session refl refl)))

  -- The installation succeeds once: after it has returned a session, and whatever calls follow, an
  -- active administrator is there, the status that is answered is configured, unless the look-up of
  -- the setting fails, and every further installation is refused as already configured and changes
  -- nothing. The table has primary keys.
  pub initialize_once :
      (id salt now : String) (input : SetupInput) (session : Session) (s : State db settings)
      (cs : List Call)
      → IsKeyed user_id (db.rows s.users)
      → (initialize db settings fold hash id salt now input s).0 ≡ returns session
      → let s' =
          run db settings fold hash compare
            (initialize db settings fold hash id salt now input s).1
            cs in
        (1 ≤ countp active_admin (db.rows s'.users))
        × ((o : Outage) → get_setup_status db settings fold hash o s' ≡ (not o.lookup, s'))
        × ((id' salt' now' : String) (input' : SetupInput)
            → initialize db settings fold hash id' salt' now' input' s'
              ≡ (fails Failure.already_configured, s'))
  unfolding IsInstalled
  initialize_once id salt now input session s cs keyed done =
      let first = initialize-IsInstalled id salt now input session s done in
      let kept =
        run-IsConfigured (initialize db settings fold hash id salt now input s).1 cs first.0 in
      (
        run-manned db settings fold hash compare
            (initialize db settings fold hash id salt now input s).1 cs
            (Move-IsKeyed db fold s.users _
              (initialize-Move db settings fold hash id salt now input s) keyed)
            first.1,
        λ o. get_setup_status-configured o _ kept,
        λ id' salt' now' input'. initialize-configured id' salt' now' input' _ kept,
      )
