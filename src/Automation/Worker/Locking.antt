-- ===== src/Automation/Worker/Locking.antt =====
-- The worker and its target lock: held during a real run, given back after it.
use infra_inventory.Prelude.{
  ◌≡◌, refl, ap, ◌∙◌, Bool, true, false, Option, none, some, List, [], ◌∷◌, String, not, ◌&&◌,
  arith, if◌then◌else◌,
}
use infra_inventory.Automation.Locks.{Acquired, acquired, refused}
use infra_inventory.Automation.Locks.Ownership.{
  owned, owned-release_lock, owned-acquire_lock, acquire_lock-refused,
}
use infra_inventory.Automation.Worker.Effects.{
  World, Env, M, Res, ok, throw, pure, continue, ◌>>=◌, log, read_clock, persist, query, try_catch,
  settle, EarlyFailure, Step,
}
use infra_inventory.Automation.Worker.Frame.{Keeps-persist}
use infra_inventory.Automation.Worker.{
  Options, Workflow, Outcome, refuse, check_breaker, acquire_target, release_target, run_all, crash,
  run_locked, lock_target, run_answer, run_workflow, lock_and_run, pass_breaker,
  execute_workflow_run,
}

module _ (o : Options) where
  abbrev Free : World → Type 0
  Free w = owned o.target_identifier o.run_id w.locks ≡ false

  -- After a computation that did not throw, the run does not hold its target.
  abbrev Frees : {A : Type 0} → Res A × World → Type 0
  Frees (ok a, w) = Free w
  Frees (throw e, w) = Unit

  Frees-continue :
      {A B : Type 0} (f : A → M B) (r : Res A × World)
      → ((a : A) (w : World) → Frees (f a w))
      → Frees (continue f r)
  Frees-continue f (ok a, w) h = h a w
  Frees-continue f (throw e, w) h = tt

  -- The end of a block decides.
  Frees-bind :
      {A B : Type 0} (m : M A) (f : A → M B) (w : World)
      → ((a : A) (w' : World) → Frees (f a w'))
      → Frees ((m >>= f) w)
  Frees-bind m f w h = Frees-continue f (m w) h

  -- A block whose first part keeps the locks, and whose rest does with a free target.
  Frees-bind_kept :
      {A B : Type 0} (m : M A) (f : A → M B) (w : World)
      → (m w).1.locks ≡ w.locks
      → Free w
      → ((a : A) (w' : World) → Free w' → Frees (f a w'))
      → Frees ((m >>= f) w)
  Frees-bind_kept {A} m f w k h rest = go (m w).0 (m w).1 k
    where
      go : (r : Res A) (w' : World) → w'.locks ≡ w.locks → Frees (continue f (r, w'))
      go (ok a) w' s = rest a w' (rw s h)
      go (throw e) w' s = tt

  Frees-if :
      {A : Type 0} (b : Bool) (m k : M A) (w : World)
      → Frees (m w)
      → (b ≡ false → Frees (k w))
      → Frees ((if b then m else k) w)
  Frees-if true m k w h h' = h
  Frees-if false m k w h h' = h' refl

  Frees-settle :
      {A : Type 0} (r : Res A × World) → o.is_dry_run ≡ false → Frees (settle (release_target o) r)
  unfolding release_target
  Frees-settle (ok a, w) real = rw real (owned-release_lock o.target_identifier o.run_id w.locks)
  Frees-settle (throw e, w) real = tt

  -- From the write of RUNNING on, the lock is given back whatever happens in the steps.
  Frees-run_locked :
      (env : Env) (wf : Workflow) (w : World) → o.is_dry_run ≡ false → Frees (run_locked env o wf w)
  unfolding run_locked
  Frees-run_locked env wf w real = Frees-bind (persist env _) _ w λ _ w₁.
      Frees-bind (log _) _ w₁ λ _ w₂. Frees-bind (log _) _ w₂ λ _ w₃.
        Frees-bind (read_clock env) _ w₃
          λ start w₄. Frees-settle (try_catch (run_all env o wf start) (crash env) w₄) real

  Frees-refuse :
      (env : Env) (why : EarlyFailure) (error : String) (w : World)
      → Free w
      → Frees (refuse env why error w)
  unfolding refuse
  Frees-refuse env why error w h =
      Frees-bind_kept (persist env _) _ w (Keeps-persist env _ w).0 h λ _ w' h'. h'

  -- `acquireLock` itself never throws.
  acquire_target-ok :
      (env : Env) (w : World)
      → (answer : Acquired) × (acquire_target env o w ≡ (ok answer, (acquire_target env o w).1))
        × ((other : String) → answer ≡ refused other → (acquire_target env o w).1.locks ≡ w.locks)
  unfolding acquire_target read_clock
  acquire_target-ok env w =
      (_, refl, λ other e. acquire_lock-refused o.target_identifier o.run_id other _ _ w.locks e)

  Frees-locked :
      (env : Env) (wf : Workflow) (w w' : World) (answer : Acquired)
      → o.is_dry_run ≡ false
      → Free w
      → ((other : String) → answer ≡ refused other → w'.locks ≡ w.locks)
      → Frees (run_answer env o wf answer w')
  unfolding run_answer
  Frees-locked env wf w w' acquired real h same = Frees-run_locked env wf w' real
  Frees-locked env wf w w' (refused holder) real h same =
      Frees-refuse env _ _ w' (rw (same holder refl) h)

  Frees-lock_and_run :
      (env : Env) (wf : Workflow) (w : World)
      → o.is_dry_run ≡ false
      → Free w
      → Frees (lock_and_run env o wf w)
  unfolding lock_and_run lock_target
  Frees-lock_and_run env wf w real h = go o.is_dry_run real
    where
      go :
          (dry : Bool)
          → dry ≡ false
          → Frees (
              continue
                (run_answer env o wf)
                ((if dry then pure acquired else acquire_target env o) w))
      go true e = cc
      go false e =
          let (answer, e', same) = acquire_target-ok env w in
          rw e' (Frees-locked env wf w (acquire_target env o w).1 answer real h same)

  check_breaker-locks :
      (env : Env) (wf : Workflow) (w : World) → (check_breaker env o wf w).1.locks ≡ w.locks
  unfolding check_breaker read_clock
  check_breaker-locks env wf w = refl

  Frees-pass_breaker :
      (env : Env) (wf : Workflow) (w : World)
      → o.is_dry_run ≡ false
      → Free w
      → Frees (pass_breaker env o wf w)
  unfolding pass_breaker
  Frees-pass_breaker env wf w real h =
      Frees-bind_kept (check_breaker env o wf) _ w (check_breaker-locks env wf w) h λ is_open w' h'.
        Frees-if (is_open && not o.is_dry_run)
          (refuse env EarlyFailure.breaker_open "Circuit breaker is open") (lock_and_run env o wf)
          w' (Frees-refuse env EarlyFailure.breaker_open "Circuit breaker is open" w' h')
          (λ _. Frees-lock_and_run env wf w' real h')

  Frees-run_workflow :
      (env : Env) (wf : Workflow) (steps : List Step) (w : World)
      → o.is_dry_run ≡ false
      → Free w
      → Frees (run_workflow env o wf steps w)
  unfolding run_workflow
  Frees-run_workflow env wf [] w real h = Frees-refuse env _ _ w h
  Frees-run_workflow env wf (_ ∷ _) w real h = Frees-pass_breaker env wf w real h

  query-locks : (env : Env) (w : World) → (query env w).1.locks ≡ w.locks
  unfolding query
  query-locks env w = ground arith

  Frees-execute_workflow_run :
      (env : Env) (found : Option Workflow) (w : World)
      → o.is_dry_run ≡ false
      → Free w
      → Frees (execute_workflow_run env o found w)
  unfolding execute_workflow_run
  Frees-execute_workflow_run env none w real h =
      Frees-bind_kept (query env) _ w (query-locks env w) h λ _ w' h'. tt
  Frees-execute_workflow_run env (some wf) w real h =
      Frees-bind_kept (query env) _ w (query-locks env w) h
        λ _ w' h'. Frees-run_workflow env wf wf.steps w' real h'

Frees-ok :
    (o : Options) {A : Type 0} (r : Res A × World) (a : A) → Frees o r → r.0 ≡ ok a → Free o r.1
Frees-ok o (ok b, w) a h e = h
Frees-ok o (throw m, w) a h e = cc

-- When a real run returns an outcome, whichever, it no longer holds its target, provided that it did
-- not hold it before: refused, finished, timed out or crashed in a step.
pub execute_workflow_run-releases :
    (env : Env) (o : Options) (found : Option Workflow) (w : World) (out : Outcome)
    → o.is_dry_run ≡ false
    → owned o.target_identifier o.run_id w.locks ≡ false
    → (execute_workflow_run env o found w).0 ≡ ok out
    → owned o.target_identifier o.run_id (execute_workflow_run env o found w).1.locks ≡ false
execute_workflow_run-releases env o found w out real h e =
    Frees-ok o (execute_workflow_run env o found w) out
      (Frees-execute_workflow_run o env found w real h) e

ok_injective : {A : Type 0} {a b : A} → ok a ≡ ok b → a ≡ b
ok_injective h = cc

acquire_target-failing :
    (env : Env) (o : Options) (w : World) {message : String}
    → env.db_error w.db_calls ≡ some message
    → env.db_error (acquire_target env o w).1.db_calls ≡ some message
unfolding acquire_target read_clock
acquire_target-failing env o w e = e

acquire_target-owned :
    (env : Env) (o : Options) (w : World)
    → (acquire_target env o w).0 ≡ ok acquired
    → owned o.target_identifier o.run_id (acquire_target env o w).1.locks ≡ true
unfolding acquire_target read_clock
acquire_target-owned env o w h =
    owned-acquire_lock o.target_identifier o.run_id _ _ w.locks (ok_injective h)

acquire_target-acquired :
    (env : Env) (o : Options) (w : World)
    → (acquire_target env o w).0 ≡ ok acquired
    → acquire_target env o w ≡ (ok acquired, (acquire_target env o w).1)
acquire_target-acquired env o w h = λ i. (h i, (acquire_target env o w).1)

run_locked-leak :
    (env : Env) (o : Options) (wf : Workflow) (w : World) (message : String)
    → env.db_error w.db_calls ≡ some message
    → ((run_locked env o wf w).0 ≡ throw message) × ((run_locked env o wf w).1.locks ≡ w.locks)
unfolding run_locked persist
run_locked-leak env o wf w message e = ground arith

run_answer-leak :
    (env : Env) (o : Options) (wf : Workflow) (w : World) (message : String)
    → ((run_locked env o wf w).0 ≡ throw message) × ((run_locked env o wf w).1.locks ≡ w.locks)
    → owned o.target_identifier o.run_id w.locks ≡ true
    → ((run_answer env o wf acquired w).0 ≡ throw message)
      × (owned o.target_identifier o.run_id (run_answer env o wf acquired w).1.locks ≡ true)
unfolding run_answer
run_answer-leak env o wf w message h held =
    (h.0, ap (owned o.target_identifier o.run_id) (h.1) ∙ held)

-- The write of RUNNING, the first after the lock is taken, stands outside the `try`: when it fails,
-- the call throws and the run still holds its target.
pub lock_and_run-leak :
    (env : Env) (o : Options) (wf : Workflow) (w : World) (message : String)
    → o.is_dry_run ≡ false
    → (acquire_target env o w).0 ≡ ok acquired
    → env.db_error w.db_calls ≡ some message
    → ((lock_and_run env o wf w).0 ≡ throw message)
      × (owned o.target_identifier o.run_id (lock_and_run env o wf w).1.locks ≡ true)
unfolding lock_and_run lock_target
lock_and_run-leak env o wf w message real h e = go o.is_dry_run real
  where
    w' : World
    w' = (acquire_target env o w).1

    leaked :
        ((run_locked env o wf w').0 ≡ throw message) × ((run_locked env o wf w').1.locks ≡ w'.locks)
    leaked = run_locked-leak env o wf w' message (acquire_target-failing env o w e)

    go :
        (dry : Bool)
        → dry ≡ false
        → let r =
            continue
              (run_answer env o wf)
              ((if dry then pure acquired else acquire_target env o) w) in
          (r.0 ≡ throw message) × (owned o.target_identifier o.run_id r.1.locks ≡ true)
    go true d = cc
    go false d =
        rw (acquire_target-acquired env o w h)
          (run_answer-leak env o wf w' message leaked (acquire_target-owned env o w h))
