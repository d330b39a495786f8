-- ===== src/Automation/Gate/Tests.antt =====
-- The gate at a workflow with one CRITICAL action.
use infra_inventory.Prelude.{◌≤◌, ◌≡◌, refl, inl, true, false, none, some, [], ◌∷◌, arith}
use infra_inventory.Prelude.Dict
use infra_inventory.Store.{dict_table}
use infra_inventory.Automation.Risk.{RiskLevel, Registry, get_action}
use infra_inventory.Automation.Approvals.{ApprovalRequest}
use infra_inventory.Automation.Worker.Effects.{Condition, Step, Env, World, Execution}
use infra_inventory.Automation.Gate.{
  WorkflowRow, Call, waiting_approval, risk_weight, latest_steps, enforces, Desk, execute_workflow,
}
use infra_inventory.Automation.Gate.Weights.{Occurs}
use infra_inventory.Automation.Gate.FourEyes.{Held, execute_workflow-Held}

abbrev registry : Registry
registry = ("reboot", record { name = "reboot"; risk_level = RiskLevel.critical }) ∷ []

abbrev env : Env
env = record {
  registry = registry;
  time = λ n. 1000;
  db_error = λ n. none;
  act = λ n name.
      Execution.returned (record { success = true; output = ""; error = none; duration_ms = 1 });
}

abbrev reboot : Step
reboot = record {
  order = 1;
  action_name = "reboot";
  condition = Condition.always;
  continue_on_error = false;
  retry_count = 0;
}

abbrev wf : WorkflowRow
wf = record {
  name = "restart";
  enabled = true;
  circuit_breaker_threshold = 3;
  timeout_total_sec = 600;
  latest = some (record { version_number = 1; steps = reboot ∷ [] });
}

abbrev call : Call
call = record {
  workflow_id = "w1";
  workflow = some wf;
  policy = some (record { enforce_four_eyes = true });
  options = record { target_identifier = "db1"; is_dry_run = false };
  user_id = some "ana";
  run_id = "r1";
  approval_id = "a1";
  now = 1000;
}

abbrev world : World
world = record {
  locks = [];
  breakers = [];
  writes = [];
  logs = [];
  executed = [];
  clock_reads = 0;
  db_calls = 0;
}

abbrev desk : Desk (dict_table ApprovalRequest)
desk = record { approvals = []; runs = []; world = world }

unfolds : Unit {0}
unfolding get_action Dict.get risk_weight latest_steps enforces
unfolds = tt

reboot-Occurs : Occurs registry RiskLevel.critical (latest_steps wf.latest)
unfolding unfolds
reboot-Occurs = inl (record { name = "reboot"; risk_level = RiskLevel.critical }, refl, refl)

critical_weight : 4 ≤ risk_weight RiskLevel.critical
unfolding unfolds
critical_weight = omega arith

four_eyes : enforces call.policy ≡ true
unfolding unfolds
four_eyes = refl

execute_workflow-Held_example :
    let (answer, after) = execute_workflow (dict_table ApprovalRequest) env call desk in
    (answer ≡ waiting_approval "r1" "a1")
    × (after.world ≡ world)
    × Held (dict_table ApprovalRequest) call after
execute_workflow-Held_example =
    execute_workflow-Held (dict_table ApprovalRequest) env call wf RiskLevel.critical desk refl refl
      refl four_eyes reboot-Occurs critical_weight
