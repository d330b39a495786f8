-- ===== src/Automation/Worker/Tests.antt =====
-- The worker at a concrete environment.
use infra_inventory.Prelude.{
  ℕ, ◌*◌, ◌+◌, ◌≡◌, refl, ◌⊎◌, Bool, true, false, none, some, [], ◌∷◌, String,
}
use infra_inventory.Prelude.Dict
use infra_inventory.Automation.Locks.{acquire_lock, release_lock}
use infra_inventory.Automation.Locks.Ownership.{owned}
use infra_inventory.Automation.Breaker.{refresh, get_state, record_success, fail, record_failure}
use infra_inventory.Automation.Risk.{read_only, ActionDefinition, register, get_action}
use infra_inventory.Automation.Worker.Effects.{
  RunStatus, Step, Condition, Execution, Env, World, ok, log, read_clock, persist, query,
  execute_action,
}
use infra_inventory.Automation.Worker.Steps.{
  note_retry, note_result, try_action, tries, after_failure, finish_step, run_found, run_action,
  skip_step, is_omitted, run_step, run_steps,
}
use infra_inventory.Automation.Worker.{
  Options, Workflow, Outcome, refuse, check_breaker, acquire_target, lock_target, release_target,
  final_status, count_success, count_failure, note_failure, record_metrics, maybe_metrics,
  is_success, save_result, conclude, total_timeout_ms, run_all, crash, run_locked, run_answer,
  lock_and_run, pass_breaker, run_workflow, execute_workflow_run,
}
use infra_inventory.Automation.Worker.Locking.{execute_workflow_run-releases}
use infra_inventory.Automation.Worker.DryRun.{execute_workflow_run-dry}

runs : Unit {0}
unfolding Dict.get Dict.set Dict.delete acquire_lock release_lock refresh get_state record_success
    fail record_failure register get_action log read_clock persist query execute_action note_retry
    note_result try_action tries after_failure finish_step run_found run_action skip_step is_omitted
    run_step run_steps refuse check_breaker acquire_target lock_target release_target final_status
    count_success count_failure note_failure record_metrics maybe_metrics is_success save_result
    conclude total_timeout_ms run_all crash run_locked run_answer lock_and_run pass_breaker
    run_workflow execute_workflow_run
runs = tt

abbrev ping : ActionDefinition
ping = record { name = "ping_check"; risk_level = read_only }

-- Every execution succeeds; the clock ticks once for each reading.
abbrev answer_at : ℕ → String → Execution
answer_at n name =
    Execution.returned (record { success = Bool.true; output = ""; error = none; duration_ms = 7 })

abbrev env : Env
env = record {
  registry = ("ping_check", ping) ∷ [];
  time = λ n. n * 10 + 1000;
  db_error = λ n. none;
  act = answer_at;
}

abbrev ping_step : Step
ping_step = record {
  order = 1;
  action_name = "ping_check";
  condition = Condition.always;
  continue_on_error = false;
  retry_count = 2;
}

-- No such action is registered; the workflow goes on.
abbrev unknown_step : Step
unknown_step = record ping_step { order = 2; action_name = "nothing"; continue_on_error = true }

abbrev wf : Workflow
wf = record {
  circuit_breaker_threshold = 5;
  timeout_total_sec = 60;
  steps = ping_step ∷ unknown_step ∷ [];
}

abbrev real : Options
real = record { run_id = "r1"; workflow_id = "w"; target_identifier = "db1"; is_dry_run = false }

abbrev w₀ : World
w₀ = record {
  locks = [];
  breakers = [];
  writes = [];
  logs = [];
  executed = [];
  clock_reads = 0;
  db_calls = 0;
}

abbrev failed_outcome : Outcome
failed_outcome = record { success = false; status = RunStatus.failed; error = none }

run_fails : (execute_workflow_run env real (some wf) w₀).0 ≡ ok failed_outcome
unfolding runs
run_fails = refl

executes_once : (execute_workflow_run env real (some wf) w₀).1.executed ≡ (1, "ping_check") ∷ []
unfolding runs
executes_once = refl

execute_workflow_run-releases_example :
    owned "db1" "r1" (execute_workflow_run env real (some wf) w₀).1.locks ≡ false
unfolding Dict.get
execute_workflow_run-releases_example =
    execute_workflow_run-releases env real (some wf) w₀ failed_outcome refl refl run_fails

-- Its first database call fails.
abbrev broken : Env
broken = record env { db_error = λ n. some "connection lost" }

abbrev dry : Options
dry = record real { is_dry_run = true }

execute_workflow_run-dry_example :
    let w' = (execute_workflow_run env dry (some wf) w₀).1 in
    (w'.locks ≡ []) × ((w'.breakers ≡ []) ⊎ (w'.breakers ≡ (get_state "w" 1000 1010 []).0))
execute_workflow_run-dry_example = execute_workflow_run-dry env dry wf w₀ refl
