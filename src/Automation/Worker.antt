-- ===== src/Automation/Worker.antt =====
-- The workflow worker, backend/src/modules/automation/automation.worker.ts.
pub mod Effects
pub mod Steps
mod Frame
pub mod Locking
pub mod Retries
mod Verdict
mod Settling
pub mod Outcomes
pub mod DryRun
mod Tests
use infra_inventory.Prelude.{
  ℕ, ◌+◌, ◌-◌, ◌*◌, Bool, true, false, not, ◌&&◌, Option, none, some, List, [], ◌∷◌, String, ◌==◌,
  if◌then◌else◌,
}
use infra_inventory.Automation.Locks.{Acquired, acquire_lock, release_lock}
use infra_inventory.Automation.Locks
use infra_inventory.Automation.Breaker.{get_state, record_success, record_failure}
use infra_inventory.Automation.Breaker
use Effects.{
  RunStatus, Step, EarlyFailure, Write, Log, Env, World, Res, ok, throw, M, pure, ◌>>=◌, ◌>>◌, log,
  read_clock, persist, query, try_catch, finally,
}
use Steps.{run_steps}

pub record Options : Type 0 where
  pub run_id : String
  pub workflow_id : String
  pub target_identifier : String
  pub is_dry_run : Bool

-- What the first query finds; `steps` are those of the newest version, none when there is none.
pub record Workflow : Type 0 where
  pub circuit_breaker_threshold : ℕ
  pub timeout_total_sec : ℕ
  pub steps : List Step

pub record Outcome : Type 0 where
  pub success : Bool
  pub status : RunStatus
  pub error : Option String

-- `{ success: false, status: 'FAILED', error }` after the write that says why.
pub refuse : Env → EarlyFailure → String → M Outcome
refuse env why error = do
  persist env (Write.run_refused why)
  pure (record { success = false; status = RunStatus.failed; error = some error })

pub check_breaker : Env → Options → Workflow → M Bool
check_breaker env o wf = do
  now ← read_clock env
  stamp ← read_clock env
  λ w.
      let (breakers, s) = get_state o.workflow_id now stamp w.breakers in
      (ok s.is_open, record w { breakers = breakers })

pub acquire_target : Env → Options → M Acquired
acquire_target env o = do
  now ← read_clock env
  stamp ← read_clock env
  λ w.
      let (locks, answer) = acquire_lock o.target_identifier o.run_id now stamp w.locks in
      (ok answer, record w { locks = locks })

pub release_target : Options → World → World
release_target o w =
    if o.is_dry_run
    then w
    else record w { locks = (release_lock o.target_identifier o.run_id w.locks).0 }

-- `runTimeout` comes before `runFailed`.
pub final_status : Bool → Bool → RunStatus
final_status run_failed run_timeout =
    if run_timeout
    then RunStatus.timeout
    else if run_failed
    then RunStatus.failed
    else RunStatus.success

pub count_success : Env → Options → M (Unit {0})
count_success env o = do
  now ← read_clock env
  stamp ← read_clock env
  λ w. (ok tt, record w { breakers = record_success o.workflow_id now stamp w.breakers })

pub count_failure : Env → Options → Workflow → M Bool
count_failure env o wf = do
  now ← read_clock env
  stamp ← read_clock env
  at ← read_clock env
  λ w.
      let (breakers, tripped) =
        record_failure o.workflow_id wf.circuit_breaker_threshold none now stamp at w.breakers in
      (ok tripped, record w { breakers = breakers })

pub note_failure : Env → Options → Workflow → M (Unit {0})
note_failure env o wf = do
  tripped ← count_failure env o wf
  if tripped then log Log.breaker_tripped else pure tt

pub record_metrics : Env → Options → Workflow → RunStatus → M (Unit {0})
record_metrics env o wf RunStatus.success = count_success env o
record_metrics env o wf RunStatus.failed = note_failure env o wf
record_metrics env o wf _ = pure tt

-- A dry run leaves the metrics alone.
pub maybe_metrics : Env → Options → Workflow → RunStatus → M (Unit {0})
maybe_metrics env o wf status = if o.is_dry_run then pure tt else record_metrics env o wf status

pub is_success : RunStatus → Bool
is_success RunStatus.success = true
is_success _ = false

-- The write that carries the log.
pub save_result : Env → RunStatus → ℕ → Bool → M (Unit {0})
save_result env status duration run_failed w =
    persist env (Write.run_finished status duration run_failed w.logs) w

pub conclude : Env → Options → Workflow → ℕ → Bool → Bool → M Outcome
conclude env o wf start run_failed run_timeout = do
  end ← read_clock env
  let status = final_status run_failed run_timeout
  maybe_metrics env o wf status
  save_result env status (end - start) run_failed
  pure (record { success = is_success status; status = status; error = none })

-- `(workflow.timeoutTotalSec || 600) * 1000`.
pub total_timeout_ms : Workflow → ℕ
total_timeout_ms wf = (if wf.timeout_total_sec == 0 then 600 else wf.timeout_total_sec) * 1000

-- The body of the `try`.
pub run_all : Env → Options → Workflow → ℕ → M Outcome
run_all env o wf start = do
  (run_failed, run_timeout) ← run_steps env start (total_timeout_ms wf) wf.steps false
  conclude env o wf start run_failed run_timeout

-- The body of the `catch`.
pub crash : Env → String → M Outcome
crash env message = do
  log (Log.uncaught message)
  λ w. persist env (Write.run_crashed message w.logs) w
  pure (record { success = false; status = RunStatus.failed; error = some message })

-- From the write of RUNNING on, with the target locked.
pub run_locked : Env → Options → Workflow → M Outcome
run_locked env o wf = do
  persist env Write.run_started
  log Log.started
  log (Log.mode o.is_dry_run)
  start ← read_clock env
  finally (try_catch (run_all env o wf start) (crash env)) (release_target o)

pub run_answer : Env → Options → Workflow → Acquired → M Outcome
run_answer env o wf Acquired.acquired = run_locked env o wf
run_answer env o wf (Acquired.refused holder) =
    refuse env (EarlyFailure.target_locked holder) "Target is locked"

-- A dry run takes no lock.
pub lock_target : Env → Options → M Acquired
lock_target env o = if o.is_dry_run then pure Acquired.acquired else acquire_target env o

pub lock_and_run : Env → Options → Workflow → M Outcome
lock_and_run env o wf = lock_target env o >>= run_answer env o wf

-- The checks of the breaker and of the target.
pub pass_breaker : Env → Options → Workflow → M Outcome
pass_breaker env o wf = do
  is_open ← check_breaker env o wf
  if is_open && not o.is_dry_run
      then refuse env EarlyFailure.breaker_open "Circuit breaker is open"
      else lock_and_run env o wf

-- A workflow with no version, or whose newest version has no step, is refused.
pub run_workflow : Env → Options → Workflow → List Step → M Outcome
run_workflow env o wf [] = refuse env EarlyFailure.no_steps "No steps configured"
run_workflow env o wf (_ ∷ _) = pass_breaker env o wf

-- `executeWorkflowRun`, on what the first query finds.
pub execute_workflow_run : Env → Options → Option Workflow → M Outcome
execute_workflow_run env o none = query env >> λ w. (throw "Workflow run no encontrado", w)
execute_workflow_run env o (some wf) = query env >> run_workflow env o wf wf.steps
