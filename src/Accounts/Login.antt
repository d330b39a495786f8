-- ===== src/Accounts/Login.antt =====
-- Who may log in, and with which password.
use infra_inventory.Prelude.{
  ℕ, ◌≤◌, ◌≡◌, refl, sym, ap, subst, ◌⊎◌, inl, inr, Bool, true, false, Option, none, some, String,
  arith, eq_iff, str_eq, str_eq_self, if◌then◌else◌, Bool-cases,
}
use infra_inventory.Access.Permissions.{get_role_permissions}
use infra_inventory.Store.{Table}
use infra_inventory.Store.Queries.{
  Queries, countp, find, has_key, IsRow, countp-IsRow, countp-replace,
}
use infra_inventory.Store.Writes.{found-IsRow, found-none, update-row}
use infra_inventory.Accounts.{User, selected, user_id, State, Failure, fails, returns}
use infra_inventory.Accounts.Users.{with_password}
use infra_inventory.Accounts.Session.{
  LoginInput, PasswordInput, Session, session, answers_to, logged_in, renewed, noted, login_found,
  login, change_found, change_password,
}

module _ (db : Queries User user_id) (settings : Table String) (fold : String → String)
    (hash : String → String → String) (compare : String → String → Bool) where
  -- What an answered login says of the user found.
  abbrev pub MayLogIn : LoginInput → User → State db settings → Type 0
  MayLogIn input u s =
      IsRow u (db.rows s.users)
      × (answers_to fold input.username u ≡ true)
      × (u.is_active ≡ true)
      × (compare input.password u.password_hash ≡ true)

  login_found-active :
      (u : User) (input : LoginInput) (now : ℕ) (s : State db settings) (given : Session)
      → (login_found db settings fold hash compare (some u) input now s).0 ≡ returns given
      → (u.is_active ≡ true)
        × (compare input.password u.password_hash ≡ true)
        × (given ≡ session (logged_in now u))
  unfolding login_found renewed
  login_found-active u input now s given h = ground arith

  -- The session of a user who logged in at this time.
  abbrev pub IsSession : User → ℕ → Session → Type 0
  IsSession u now given =
      (given.user.id ≡ u.id)
      × (given.user.username ≡ u.username)
      × (given.user.role ≡ u.role)
      × (given.user.is_active ≡ true)
      × (given.user.last_login ≡ some now)
      × (given.permissions ≡ get_role_permissions u.role)

  session-IsSession :
      (u : User) (now : ℕ) (given : Session)
      → u.is_active ≡ true
      → given ≡ session (logged_in now u)
      → IsSession u now given
  unfolding session selected logged_in
  session-IsSession u now given active e =
      subst (IsSession u now) (sym e) (refl, refl, refl, active, refl, refl)

  login-MayLogIn :
      (input : LoginInput) (now : ℕ) (s : State db settings) (given : Session)
      → (login db settings fold hash compare input now s).0 ≡ returns given
      → (u : User) × MayLogIn input u s × (given ≡ session (logged_in now u))
  unfolding login login_found
  login-MayLogIn input now s given h =
      by_row (db.find_first (answers_to fold input.username) s.users) refl h
    where
      by_row :
          (o : Option User)
          → db.find_first (answers_to fold input.username) s.users ≡ o
          → (login_found db settings fold hash compare o input now s).0 ≡ returns given
          → (u : User) × MayLogIn input u s × (given ≡ session (logged_in now u))
      by_row none e h = absurd cc
      by_row (some u) e h =
          let row = found-IsRow db (answers_to fold input.username) s.users u e in
          let facts = login_found-active u input now s given h in
          (u, (row.0, row.1, facts.0, facts.1), facts.2)

  -- A login gives a session only for an active user of the table whose name or email is the one
  -- typed in, by the database's case folding, and whose hash the password matches; the session has
  -- that user's id, name and role, the time as the last login, and the permissions that the table of
  -- roles has for the role stored.
  pub login_sound :
      (input : LoginInput) (now : ℕ) (s : State db settings) (given : Session)
      → (login db settings fold hash compare input now s).0 ≡ returns given
      → (u : User) × MayLogIn input u s × IsSession u now given
  login_sound input now s given h =
      let (u, may, same) = login-MayLogIn input now s given h in
      (u, may, session-IsSession u now given may.2 same)

  change_found-update :
      (u : User) (salt : String) (input : PasswordInput) (s : State db settings) (given : Session)
      → (change_found db settings fold hash compare (some u) salt input s).0 ≡ returns given
      → db.update (with_password (hash salt input.new_password) false u) s.users
        ≡ some (change_found db settings fold hash compare (some u) salt input s).1.users
  unfolding change_found renewed noted
  change_found-update u salt input s given h = ground arith

  -- What the login answers to a password, on a row whose hash is known.
  abbrev pub Decides : String → (password hashed name : String) → ℕ → State db settings → Type 0
  Decides id password hashed name now s =
      let answer =
        login db settings fold hash compare (record { username = name; password = password }) now
          s in
      ((compare password hashed ≡ true)
        × ((r : User) × (r.id ≡ id)
            × (answer
                ≡ renewed db settings fold hash compare (db.update (logged_in now r) s.users)
                    (logged_in now r) s)))
      ⊎ ((compare password hashed ≡ false) × (answer.0 ≡ fails Failure.bad_credentials))

  login_found-Decides :
      (r : User) (name password hashed : String) (now : ℕ) (s : State db settings)
      → db.find_first (answers_to fold name) s.users ≡ some r
      → r.is_active ≡ true
      → r.password_hash ≡ hashed
      → Decides r.id password hashed name now s
  unfolding login login_found noted
  login_found-Decides r name password hashed now s e active same =
      elim (Bool-cases (compare password hashed)) [
        | inl good ↦ inl (good, (r, refl, rw (e, active, same, good) refl))
        | inr bad ↦ inr (bad, rw (e, active, same, bad) refl)
      ]

  login-Decides :
      (new : User) (name password : String) (now : ℕ) (old : db.Rows) (s : State db settings)
      → db.update new old ≡ some s.users
      → 1 ≤ countp (has_key user_id new.id) (db.rows old)
      → new.is_active ≡ true
      → answers_to fold name new ≡ true
      → ((r : User) → IsRow r (db.rows s.users) → answers_to fold name r ≡ true → r.id ≡ new.id)
      → Decides new.id password new.password_hash name now s
  login-Decides new name password now old s e here active answers only =
      by_row (db.find_first (answers_to fold name) s.users) refl
    where
      by_row :
          (o : Option User)
          → db.find_first (answers_to fold name) s.users ≡ o
          → Decides new.id password new.password_hash name now s
      by_row none none_found = absurd (
          omega (
            arith,
            found-none db (answers_to fold name) s.users none_found,
            db.update-rows new old s.users e (answers_to fold name),
            countp-replace user_id (answers_to fold name) new (db.rows old),
            here,
            ap (λ b. if b then countp (has_key user_id new.id) (db.rows old) else 0) answers,
          ))
      by_row (some r) one_found =
          let (row, named) = found-IsRow db (answers_to fold name) s.users r one_found in
          let same = only r row named in
          let act = update-row db (λ x. x.is_active) new r old s.users e active row same in
          let hashes =
            update-row db (λ x. str_eq x.password_hash new.password_hash) new r old s.users e
              (str_eq_self new.password_hash) row same in
          subst (λ id. Decides id password new.password_hash name now s) same
            (login_found-Decides r name password new.password_hash now s one_found act
              ((eq_iff r.password_hash new.password_hash).0 hashes))

  -- After a change of the password that returned a session, the new hash alone decides what the
  -- login answers to any password: if the password matches it, the user's session, unless the
  -- database refuses to write the time of the login; otherwise bad credentials. The user is active,
  -- and no other user answers to the name typed in.
  pub change_password-Decides :
      (id salt name password : String) (input : PasswordInput) (now : ℕ) (s : State db settings)
      (given : Session) (u : User)
      → find db id s.users ≡ some u
      → u.is_active ≡ true
      → answers_to fold name u ≡ true
      → (change_password db settings fold hash compare id salt input s).0 ≡ returns given
      → ((r : User)
          → IsRow r
              (db.rows (change_password db settings fold hash compare id salt input s).1.users)
          → answers_to fold name r ≡ true
          → r.id ≡ u.id)
      → Decides u.id password
          (hash salt input.new_password)
          name
          now
          (change_password db settings fold hash compare id salt input s).1
  unfolding change_password with_password
  change_password-Decides id salt name password input now s given u found active answers done only =
      login-Decides (with_password (hash salt input.new_password) false u) name password now s.users
        _ (rw found (change_found-update u salt input s given (rw found at done)))
        (countp-IsRow (has_key user_id u.id) u (db.rows s.users)
          (found-IsRow db (has_key user_id id) s.users u found).0 (str_eq_self u.id))
        active answers only
