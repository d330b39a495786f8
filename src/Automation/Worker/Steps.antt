-- ===== src/Automation/Worker/Steps.antt =====
-- The loop over a workflow's steps, with the retries of each step.
use infra_inventory.Prelude.{
  ℕ, zero, suc, ◌+◌, ◌-◌, Bool, true, false, not, Option, none, some, List, [], ◌∷◌, String, ltb,
  if◌then◌else◌,
}
use infra_inventory.Automation.Risk.{ActionDefinition, get_action}
use infra_inventory.Automation.Worker.Effects.{
  Step, StepStatus, Condition, on_success, on_failure, always, ActionResult, Env, M, pure, ◌>>=◌,
  ◌>>◌, log, read_clock, persist, execute_action, Log, Write,
}

-- The variables of the retry loop.
pub record Tries : Type 0 where
  pub attempt : ℕ
  pub step_success : Bool
  pub last_output : String
  pub last_error : Option String
  pub step_duration : ℕ

abbrev pub no_tries : Tries
no_tries = record {
  attempt = 0;
  step_success = false;
  last_output = "";
  last_error = none;
  step_duration = 0;
}

unfoldable pub note_retry : Step → ℕ → M (Unit {0})
note_retry step attempt =
    if ltb 1 attempt then log (Log.retrying step.order attempt (step.retry_count + 1)) else pure tt

unfoldable pub note_result : Step → ℕ → ActionResult → M (Unit {0})
note_result step attempt res =
    if res.success
    then log (Log.completed step.order)
    else log (Log.attempt_failed step.order attempt)

-- One round of the `while` loop.
unfoldable pub try_action : Env → Step → Tries → M Tries
try_action env step t = do
  note_retry step (suc t.attempt)
  res ← execute_action env step.order step.action_name
  note_result step (suc t.attempt) res
  pure (record {
    attempt = suc t.attempt;
    step_success = res.success;
    last_output = res.output;
    last_error = res.error;
    step_duration = t.step_duration + res.duration_ms;
  })

-- The loop, on the attempts that are left of `retryCount + 1`.
unfoldable pub tries : Env → Step → ℕ → Tries → M Tries
tries env step zero t = pure t
tries env step (suc left) t = do
  t' ← try_action env step t
  elim t'.step_success [ true ↦ pure t' | false ↦ tries env step left t' ]

-- How the loop over the steps goes on: with the next step, or not. `stop` carries `runFailed` and
-- `runTimeout`.
pub data Flow : Type 0 where
  next : (run_failed : Bool) → Flow
  stop : (run_failed run_timeout : Bool) → Flow

unfoldable pub after_failure : Step → Flow
after_failure step = if step.continue_on_error then next true else stop true false

unfoldable pub finish_step : Env → Step → Bool → Tries → M Flow
finish_step env step run_failed t = do
  persist env (
      Write.step_updated step.order
        (if t.step_success then StepStatus.success else StepStatus.failed) (t.attempt - 1)
        t.step_duration)
  if t.step_success
      then pure (next run_failed)
      else if step.continue_on_error
      then pure (next true)
      else log (Log.stopping step.order) >> pure (stop true false)

-- The rest of the round, on what `this.registry.get` finds.
unfoldable pub run_found : Env → Step → Bool → Option ActionDefinition → M Flow
run_found env step run_failed none = do
  log (Log.unregistered step.action_name)
  persist env (Write.step_unregistered step.order)
  pure (after_failure step)
run_found env step run_failed (some action) = do
  t ← tries env step (step.retry_count + 1) no_tries
  finish_step env step run_failed t

unfoldable pub run_action : Env → Step → Bool → M Flow
run_action env step run_failed = do
  log (Log.executing step.order)
  persist env (Write.step_created step.order StepStatus.running)
  run_found env step run_failed (get_action step.action_name env.registry)

unfoldable pub skip_step : Env → Step → Bool → M Flow
skip_step env step run_failed = do
  log (Log.omitted step.order step.condition)
  persist env (Write.step_created step.order StepStatus.skipped)
  pure (next run_failed)

unfoldable pub is_omitted : Condition → Bool → Bool
is_omitted on_success run_failed = run_failed
is_omitted on_failure run_failed = not run_failed
is_omitted always run_failed = false

-- One round of the `for` loop; `start` is `startTime` and `limit` is `totalTimeoutMs`.
unfoldable pub run_step : Env → (start limit : ℕ) → Step → Bool → M Flow
run_step env start limit step run_failed = do
  now ← read_clock env
  if ltb limit (now - start)
      then log Log.total_timeout >> pure (stop run_failed true)
      else if is_omitted step.condition run_failed
      then skip_step env step run_failed
      else run_action env step run_failed

-- `continue` runs the rest of the loop, `break` leaves it.
abbrev pub resume : (Bool → M (Bool × Bool)) → Flow → M (Bool × Bool)
resume rest (next run_failed) = rest run_failed
resume rest (stop run_failed run_timeout) = pure (run_failed, run_timeout)

-- The whole loop: whether a step failed, and whether the total time ran out.
unfoldable pub run_steps : Env → (start limit : ℕ) → List Step → Bool → M (Bool × Bool)
run_steps env start limit [] run_failed = pure (run_failed, false)
run_steps env start limit (step ∷ steps) run_failed =
    run_step env start limit step run_failed >>= resume (run_steps env start limit steps)
