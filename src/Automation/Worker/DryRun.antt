-- ===== src/Automation/Worker/DryRun.antt =====
-- A dry run is a simulation: it takes no lock and counts nothing in the breaker.
use infra_inventory.Prelude.{
  ℕ, suc, ◌≡◌, refl, sym, subst, ◌∙◌, ◌⊎◌, inl, inr, Bool, true, false, some, List, [], ◌∷◌, String,
  arith, not, ◌&&◌, Option-cases,
}
use infra_inventory.Automation.Locks.{Acquired, acquired, refused}
use infra_inventory.Automation.Breaker.{State, get_state}
use infra_inventory.Automation.Worker.Effects.{
  RunStatus, World, Env, Res, ok, throw, ◌>>◌, log, read_clock, persist, query, try_catch, handle,
  finally, EarlyFailure, Step,
}
use infra_inventory.Automation.Worker.Steps.{run_steps}
use infra_inventory.Automation.Worker.Frame.{
  SameManagers, Keeps, Keeps-bind, Keeps-if, Keeps-log, Keeps-persist, Keeps-read_clock,
  Keeps-run_steps,
}
use infra_inventory.Automation.Worker.{
  Options, Workflow, Outcome, refuse, check_breaker, lock_target, release_target, run_all, crash,
  run_locked, run_answer, lock_and_run, pass_breaker, run_workflow, execute_workflow_run, conclude,
  maybe_metrics, save_result, total_timeout_ms,
}

Keeps-refuse : (env : Env) (why : EarlyFailure) (error : String) → Keeps (refuse env why error)
unfolding refuse
Keeps-refuse env why error = Keeps-bind (persist env _) _ (Keeps-persist env _) λ _ w. (refl, refl)

Keeps-crash : (env : Env) (message : String) → Keeps (crash env message)
unfolding crash persist log
Keeps-crash env message w = ground arith

Keeps-save_result :
    (env : Env) (status : RunStatus) (duration : ℕ) (f : Bool)
    → Keeps (save_result env status duration f)
unfolding save_result persist
Keeps-save_result env status duration f w = ground arith

module _ (env : Env) (o : Options) (dry : o.is_dry_run ≡ true) where
  Keeps-maybe_metrics : (wf : Workflow) (status : RunStatus) → Keeps (maybe_metrics env o wf status)
  unfolding maybe_metrics
  Keeps-maybe_metrics wf status w = rw dry (refl, refl)

  Keeps-conclude : (wf : Workflow) (start : ℕ) (f t : Bool) → Keeps (conclude env o wf start f t)
  unfolding conclude
  Keeps-conclude wf start f t = Keeps-bind (read_clock env) _ (Keeps-read_clock env) λ end.
      Keeps-bind (maybe_metrics env o wf _) _ (Keeps-maybe_metrics wf _)
        λ _. Keeps-bind (save_result env _ _ f) _ (Keeps-save_result env _ _ f) λ _ w. (refl, refl)

  Keeps-run_all : (wf : Workflow) (start : ℕ) → Keeps (run_all env o wf start)
  unfolding run_all
  Keeps-run_all wf start =
      Keeps-bind (run_steps env start (total_timeout_ms wf) wf.steps false) _
        (Keeps-run_steps env start (total_timeout_ms wf) wf.steps false)
        λ flags. Keeps-conclude wf start (flags.0) (flags.1)

  release_target-dry : (w : World) → release_target o w ≡ w
  unfolding release_target
  release_target-dry w = simp dry

  Keeps-guarded :
      (wf : Workflow) (start : ℕ)
      → Keeps (finally (try_catch (run_all env o wf start) (crash env)) (release_target o))
  Keeps-guarded wf start w =
      subst (SameManagers w)
        (sym (release_target-dry (try_catch (run_all env o wf start) (crash env) w).1))
        (go (run_all env o wf start w).0 (run_all env o wf start w).1 (Keeps-run_all wf start w))
    where
      go :
          (r : Res Outcome) (v : World)
          → SameManagers w v
          → SameManagers w (handle (crash env) (r, v)).1
      go (ok out) v s = s
      go (throw message) v s = let (a, b) = Keeps-crash env message v in (a ∙ s.0, b ∙ s.1)

  Keeps-run_locked : (wf : Workflow) → Keeps (run_locked env o wf)
  unfolding run_locked
  Keeps-run_locked wf = Keeps-bind (persist env _) _ (Keeps-persist env _) λ _.
      Keeps-bind (log _) _ (Keeps-log _) λ _.
        Keeps-bind (log _) _ (Keeps-log _)
          λ _. Keeps-bind (read_clock env) _ (Keeps-read_clock env) (Keeps-guarded wf)

  Keeps-run_answer : (wf : Workflow) (answer : Acquired) → Keeps (run_answer env o wf answer)
  unfolding run_answer
  Keeps-run_answer wf acquired = Keeps-run_locked wf
  Keeps-run_answer wf (refused holder) = Keeps-refuse env _ _

  Keeps-lock_target : Keeps (lock_target env o)
  unfolding lock_target
  Keeps-lock_target w = rw dry (refl, refl)

  Keeps-lock_and_run : (wf : Workflow) → Keeps (lock_and_run env o wf)
  unfolding lock_and_run
  Keeps-lock_and_run wf = Keeps-bind (lock_target env o) _ Keeps-lock_target (Keeps-run_answer wf)

  -- What the breaker check of a run leaves.
  abbrev Checked : World → World → Type 0
  Checked w w' =
      (w'.locks ≡ w.locks)
      × ((w'.breakers ≡ w.breakers)
          ⊎ (w'.breakers
              ≡ (get_state o.workflow_id (env.time w.clock_reads) (env.time (suc w.clock_reads))
                  w.breakers).0))

  abbrev check_breaker_state : World → State
  check_breaker_state w =
      (get_state o.workflow_id (env.time w.clock_reads) (env.time (suc w.clock_reads)) w.breakers).1

  Checked-pass_breaker : (wf : Workflow) (w : World) → Checked w (pass_breaker env o wf w).1
  unfolding pass_breaker check_breaker read_clock
  Checked-pass_breaker wf w =
      let w' : World = (check_breaker env o wf w).1 in
      let s =
        Keeps-if ((check_breaker_state w).is_open && not o.is_dry_run)
          (refuse env EarlyFailure.breaker_open "Circuit breaker is open") (lock_and_run env o wf)
          (Keeps-refuse env _ _) (Keeps-lock_and_run wf) w' in
      (s.0, inr (s.1))

  Checked-run_workflow :
      (wf : Workflow) (steps : List Step) (w : World) → Checked w (run_workflow env o wf steps w).1
  unfolding run_workflow
  Checked-run_workflow wf [] w = let s = Keeps-refuse env _ _ w in (s.0, inl (s.1))
  Checked-run_workflow wf (_ ∷ _) w = Checked-pass_breaker wf w

  -- A database read leaves the clock and both managers.
  Checked-query :
      (wf : Workflow) (w : World) → Checked w ((query env >> run_workflow env o wf wf.steps) w).1
  unfolding query
  Checked-query wf w = elim (Option-cases (env.db_error w.db_calls)) [
    | inl fine ↦
        rw (fine, query) (Checked-run_workflow wf wf.steps (record w { db_calls = suc w.db_calls }))
    | inr (message, e) ↦ rw (e, query) (refl, inl refl)
  ]

-- A dry run changes no lock, and no breaker beyond the look at its own state that lets it recover,
-- however it ends: with an outcome or with an exception.
pub execute_workflow_run-dry :
    (env : Env) (o : Options) (wf : Workflow) (w : World)
    → o.is_dry_run ≡ true
    → let w' = (execute_workflow_run env o (some wf) w).1 in
      (w'.locks ≡ w.locks)
      × ((w'.breakers ≡ w.breakers)
          ⊎ (w'.breakers
              ≡ (get_state o.workflow_id
                  (env.time w.clock_reads)
                  (env.time (suc w.clock_reads))
                  w.breakers).0))
unfolding execute_workflow_run
execute_workflow_run-dry env o wf w dry = Checked-query env o dry wf w
