-- ===== src/Access/Auth/Guard.antt =====
-- Whom the guard of the routes lets through.
use infra_inventory.Prelude.{
  ℕ, ◌≡◌, refl, ◌≢◌, ◌⊎◌, inl, inr, true, false, Option, none, some, String, arith, str_eq,
  includes_text, is_truthy, or_empty, Bool-cases, eq_iff,
}
use infra_inventory.Access.Permissions.{Role, Permission, has_permission}
use infra_inventory.Access.Permissions.Hierarchy.{has_permission-admin}
use infra_inventory.Access.Auth.{
  AuthUser, DbUser, Request, Answer, throws, answers, Outcome, sent, carries, token_of, is_internal,
  system_user, check_account, check_payload, authenticate, authorise, identify, require_permission,
}

-- The account is the one the database has now, and it is active.
abbrev pub IsActiveAccount : (String → Answer DbUser) → String → AuthUser → Type 0
IsActiveAccount find_unique id u =
    (row : DbUser) × (find_unique id ≡ answers (some row))
    × (row.is_active ≡ true)
    × (row.account ≡ u)

check_account-carries :
    (found : Answer DbUser) (u : AuthUser)
    → check_account found ≡ carries u
    → (row : DbUser) × (found ≡ answers (some row)) × (row.is_active ≡ true) × (row.account ≡ u)
unfolding check_account
check_account-carries throws u h = absurd (ground arith)
check_account-carries (answers none) u h = absurd (ground arith)
check_account-carries (answers (some row)) u h = (row, refl, ground arith, ground arith)

Outcome-cases :
    (o : Outcome) → ((status : ℕ) × (o ≡ sent status)) ⊎ ((u : AuthUser) × (o ≡ carries u))
Outcome-cases (sent status) = inl (status, refl)
Outcome-cases (carries u) = inr (u, refl)

authorise-sent : (p : Permission) (status : ℕ) → authorise p (sent status) ≡ sent status
unfolding authorise
authorise-sent p status = refl

authorise-admin :
    (p : Permission) (u : AuthUser) → u.role ≡ Role.admin → authorise p (carries u) ≡ carries u
unfolding authorise
authorise-admin p u h = rw h (rw (has_permission-admin p) refl)

module _ (verify : String → Answer AuthUser) (find_unique : String → Answer DbUser) where
  -- The identity a token gives: the payload's id, looked up.
  abbrev pub SpeaksFor : String → AuthUser → Type 0
  SpeaksFor token u =
      (decoded : AuthUser) × (verify token ≡ answers (some decoded))
      × (decoded.id ≢ "")
      × IsActiveAccount find_unique decoded.id u

  check_payload-carries :
      (payload : Answer AuthUser) (u : AuthUser)
      → check_payload verify find_unique payload ≡ carries u
      → (decoded : AuthUser) × (payload ≡ answers (some decoded))
        × (decoded.id ≢ "")
        × IsActiveAccount find_unique decoded.id u
  unfolding check_payload
  check_payload-carries throws u h = absurd (ground arith)
  check_payload-carries (answers none) u h = absurd (ground arith)
  check_payload-carries (answers (some decoded)) u h = elim (Bool-cases (str_eq decoded.id "")) [
    | inl e ↦ absurd (ground arith)
    | inr e ↦ (
      decoded,
      refl,
      ground (arith, eq_iff decoded.id ""),
      check_account-carries (find_unique decoded.id) u (ground arith),
    )
  ]

  -- `authenticate` gives a request that has a token only the active account that the database now
  -- holds under the id of the verified payload, with the role stored there; a request without one
  -- gets nothing but the system user, and only where the internal test holds.
  pub authenticate_sound :
      (r : Request) (u : AuthUser)
      → authenticate verify find_unique r ≡ carries u
      → ((is_truthy (token_of r) ≡ true) × SpeaksFor (or_empty (token_of r)) u)
        ⊎ ((is_truthy (token_of r) ≡ false) × (is_internal r ≡ true) × (u ≡ system_user))
  unfolding authenticate
  authenticate_sound r u h = elim (Bool-cases (is_truthy (token_of r))) [
    | inl e ↦ inl (e, check_payload-carries (verify (or_empty (token_of r))) u (ground arith))
    | inr e ↦ inr (e, ground arith, ground arith)
  ]

  -- What `require_permission-outcome` states, at any user the request carries.
  abbrev Guarded : Permission → Request → Option AuthUser → Outcome → Type 0
  Guarded p r o result =
      ((u : AuthUser) × (identify verify find_unique r o ≡ carries u)
        × (((has_permission u.role p ≡ true) × (result ≡ carries u))
            ⊎ ((has_permission u.role p ≡ false) × (result ≡ sent 403))))
      ⊎ ((status : ℕ) × (o ≡ none)
          × (authenticate verify find_unique r ≡ sent status)
          × (result ≡ sent status))

  authorise-user :
      (p : Permission) (u : AuthUser)
      → ((has_permission u.role p ≡ true) × (authorise p (carries u) ≡ carries u))
        ⊎ ((has_permission u.role p ≡ false) × (authorise p (carries u) ≡ sent 403))
  unfolding authorise
  authorise-user p u = ground arith

  authorise-Guarded :
      (p : Permission) (r : Request) (o : Option AuthUser)
      → Guarded p r o (authorise p (identify verify find_unique r o))
  authorise-Guarded p r (some u) = inl (u, refl, authorise-user p u)
  authorise-Guarded p r none = elim (Outcome-cases (authenticate verify find_unique r)) [
    | inl (status, e) ↦ inr (status, refl, e, rw e (authorise-sent p status))
    | inr (u, e) ↦ inl (u, e, rw e (authorise-user p u))
  ]

  -- The guard lets a request through exactly when the request already carries a user, or
  -- `authenticate` gives one, and that user's role has the permission; an identified user without
  -- it gets 403, and a request that is not identified gets the reply of `authenticate`.
  pub require_permission-outcome :
      (p : Permission) (r : Request)
      → ((u : AuthUser) × (identify verify find_unique r r.user ≡ carries u)
          × (((has_permission u.role p ≡ true)
                × (require_permission verify find_unique p r ≡ carries u))
              ⊎ ((has_permission u.role p ≡ false)
                  × (require_permission verify find_unique p r ≡ sent 403))))
        ⊎ ((status : ℕ) × (r.user ≡ none)
            × (authenticate verify find_unique r ≡ sent status)
            × (require_permission verify find_unique p r ≡ sent status))
  unfolding require_permission
  require_permission-outcome p r = authorise-Guarded p r r.user

  identify-none :
      (r : Request) (o : Option AuthUser)
      → o ≡ none
      → identify verify find_unique r o ≡ authenticate verify find_unique r
  identify-none r none h = refl
  identify-none r (some u) h = absurd cc

  authenticate-spoofed :
      (r : Request)
      → is_truthy (token_of r) ≡ false
      → (includes_text (or_empty r.user_agent) "undici" ≡ true)
        ⊎ (includes_text (or_empty r.user_agent) "node-fetch" ≡ true)
      → authenticate verify find_unique r ≡ carries system_user
  unfolding authenticate is_internal
  authenticate-spoofed r t a = ground arith

  -- A request without a token that carries no user, and whose User-Agent contains "undici" or
  -- "node-fetch", passes the guard of every permission as the system user, an ADMIN, whatever its
  -- address, host and cookies are.
  pub require_permission-spoofed :
      (p : Permission) (r : Request)
      → r.user ≡ none
      → is_truthy (token_of r) ≡ false
      → (includes_text (or_empty r.user_agent) "undici" ≡ true)
        ⊎ (includes_text (or_empty r.user_agent) "node-fetch" ≡ true)
      → (require_permission verify find_unique p r ≡ carries system_user)
        × (system_user.role ≡ Role.admin)
  unfolding require_permission system_user
  require_permission-spoofed p r u t a = (
    rw (identify-none r r.user u)
        (rw (authenticate-spoofed r t a) (authorise-admin p system_user refl)),
    refl,
  )
