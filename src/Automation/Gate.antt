-- ===== src/Automation/Gate.antt =====
-- The gate before the worker, `executeWorkflow` of
-- backend/src/modules/automation/automation.service.ts: high risk waits for an approval. Its own
-- database calls are taken to succeed; those of the worker may fail.
pub mod Weights
pub mod FourEyes
mod Tests
use infra_inventory.Prelude.{
  ℕ, ◌+◌, ◌*◌, Bool, true, false, not, ◌&&◌, ◌||◌, Option, none, some, List, [], ◌∷◌, String, ltb,
  ◌==◌, if◌then◌else◌, or_empty, is_truthy, append,
}
use infra_inventory.Prelude.Dict
use infra_inventory.Prelude.Dict.{Dict}
use infra_inventory.Store.{Table}
use infra_inventory.Automation.Risk.{RiskLevel, ActionDefinition, Registry, get_action}
use infra_inventory.Automation.Approvals.{ApprovalRequest, new_request, create_approval_request}
use infra_inventory.Automation.Worker.Effects.{RunStatus, Step, Env, World, Res}
use infra_inventory.Automation.Worker.{Outcome, execute_workflow_run}
use infra_inventory.Automation.Worker

pub record Version : Type 0 where
  pub version_number : ℕ
  pub steps : List Step

-- The columns of a workflow that the service and the worker read; `latest` is `versions[0]`.
pub record WorkflowRow : Type 0 where
  pub name : String
  pub enabled : Bool
  pub circuit_breaker_threshold : ℕ
  pub timeout_total_sec : ℕ
  pub latest : Option Version

pub record Options : Type 0 where
  pub target_identifier : String
  pub is_dry_run : Bool

pub record Policy : Type 0 where
  pub enforce_four_eyes : Bool

-- The columns of WorkflowRun that the service writes.
pub record Run : Type 0 where
  pub workflow_id : String
  pub workflow_version : ℕ
  pub status : RunStatus
  pub target_identifier : String
  pub is_dry_run : Bool
  pub executed_by_id : Option String
  pub approval_request_id : Option String

pub risk_weight : RiskLevel → ℕ
risk_weight RiskLevel.read_only = 1
risk_weight RiskLevel.low = 2
risk_weight RiskLevel.medium = 3
risk_weight RiskLevel.high = 4
risk_weight RiskLevel.critical = 5

-- One turn of the loop, on what the catalogue says of the step's action.
pub raise_risk : Option ActionDefinition → RiskLevel → RiskLevel
raise_risk none max_risk = max_risk
raise_risk (some def) max_risk =
    if ltb (risk_weight max_risk) (risk_weight def.risk_level) then def.risk_level else max_risk

pub max_risk : Registry → List Step → RiskLevel → RiskLevel
max_risk registry [] risk = risk
max_risk registry (step ∷ steps) risk =
    max_risk registry steps (raise_risk (get_action step.action_name registry) risk)

pub latest_steps : Option Version → List Step
latest_steps none = []
latest_steps (some v) = v.steps

-- `latestVersion?.versionNumber || 1`.
pub version_number : Option Version → ℕ
version_number none = 1
version_number (some v) = if v.version_number == 0 then 1 else v.version_number

pub is_high : RiskLevel → Bool
is_high RiskLevel.high = true
is_high RiskLevel.critical = true
is_high _ = false

-- `activePolicy && activePolicy.enforceFourEyes`.
pub enforces : Option Policy → Bool
enforces none = false
enforces (some policy) = policy.enforce_four_eyes

pub needs_approval : Registry → WorkflowRow → Options → Option Policy → Bool
needs_approval registry wf o policy =
    not o.is_dry_run
    && is_high (max_risk registry (latest_steps wf.latest) RiskLevel.read_only)
    && enforces policy

-- What the database gives: the workflow, the first enabled policy, and the ids of new rows.
pub record Call : Type 0 where
  pub workflow_id : String
  pub workflow : Option WorkflowRow
  pub policy : Option Policy
  pub options : Options
  pub user_id : Option String
  pub run_id : String
  pub approval_id : String
  pub now : ℕ

pub data Response : Type 0 where
  not_found : Response
  disabled : Response
  waiting_approval : (run_id approval_id : String) → Response
  executed : (run_id : String) → Res Outcome → Response

pub new_run : Call → WorkflowRow → RunStatus → Option String → Run
new_run c wf status approval_id = record {
  workflow_id = c.workflow_id;
  workflow_version = version_number wf.latest;
  status = status;
  target_identifier = c.options.target_identifier;
  is_dry_run = c.options.is_dry_run;
  executed_by_id = c.user_id;
  approval_request_id = approval_id;
}

-- `userId || 'system'`.
pub requester : Option String → String
requester user = if is_truthy user then or_empty user else "system"

pub approval_of : Registry → Call → WorkflowRow → ApprovalRequest
approval_of registry c wf =
    new_request (append "Workflow: " wf.name) c.options.target_identifier
      (max_risk registry (latest_steps wf.latest) RiskLevel.read_only) (requester c.user_id)
      (c.now + 24 * 60 * 60 * 1000)

-- What the worker finds of the workflow, and the options it is given.
pub worker_workflow : WorkflowRow → Worker.Workflow
worker_workflow wf = record {
  circuit_breaker_threshold = wf.circuit_breaker_threshold;
  timeout_total_sec = wf.timeout_total_sec;
  steps = latest_steps wf.latest;
}

pub worker_options : Call → Worker.Options
worker_options c = record {
  run_id = c.run_id;
  workflow_id = c.workflow_id;
  target_identifier = c.options.target_identifier;
  is_dry_run = c.options.is_dry_run;
}

module _ (table : Table ApprovalRequest) where
  open table use {Rows}

  pub record Desk : Type 0 where
    pub approvals : Rows
    pub runs : Dict Run
    pub world : World

  -- The approval request and the run that waits for it.
  pub pause : Env → Call → WorkflowRow → Desk → Response × Desk
  pause env c wf desk = (
    waiting_approval c.run_id c.approval_id,
    record {
      approvals =
          create_approval_request table c.approval_id (approval_of env.registry c wf)
            desk.approvals;
      runs =
          Dict.set c.run_id (new_run c wf RunStatus.waiting_approval (some c.approval_id))
            desk.runs;
      world = desk.world;
    },
  )

  -- The queued run, and the worker on it.
  pub start : Env → Call → WorkflowRow → Desk → Response × Desk
  start env c wf desk =
      let (result, world) =
        execute_workflow_run env (worker_options c) (some (worker_workflow wf)) desk.world in
      (
        executed c.run_id result,
        record {
          approvals = desk.approvals;
          runs = Dict.set c.run_id (new_run c wf RunStatus.queued none) desk.runs;
          world = world;
        },
      )

  pub pause_or_start : Bool → Env → Call → WorkflowRow → Desk → Response × Desk
  pause_or_start true env c wf desk = pause env c wf desk
  pause_or_start false env c wf desk = start env c wf desk

  pub admit : Env → Call → Option WorkflowRow → Desk → Response × Desk
  admit env c none desk = (not_found, desk)
  admit env c (some wf) desk =
      if wf.enabled
      then pause_or_start (needs_approval env.registry wf c.options c.policy) env c wf desk
      else (disabled, desk)

  pub execute_workflow : Env → Call → Desk → Response × Desk
  execute_workflow env c desk = admit env c c.workflow desk
