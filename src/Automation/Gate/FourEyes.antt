-- ===== src/Automation/Gate/FourEyes.antt =====
-- What the gate lets through, and what it holds back.
use infra_inventory.Prelude.{
  ◌≤◌, ◌≡◌, refl, sym, ap, subst, ◌∙◌, ◌⊎◌, inl, inr, Bool, true, false, not, ◌&&◌, Option, none,
  some, String, arith, if◌then◌else◌, str_eq_self,
}
use infra_inventory.Prelude.Dict
use infra_inventory.Prelude.Dict.{get-set}
use infra_inventory.Store.{Table}
use infra_inventory.Automation.Risk.{RiskLevel, Registry}
use infra_inventory.Automation.Approvals.{
  ApprovalRequest, ApprovalStatus, create_approval_request, new_request,
}
use infra_inventory.Automation.Worker.Effects.{RunStatus, Env}
use infra_inventory.Automation.Gate.Weights.{Occurs, max_risk-high}
use infra_inventory.Automation.Gate.{
  WorkflowRow, Options, Policy, Run, risk_weight, max_risk, latest_steps, is_high, enforces,
  needs_approval, Call, Response, disabled, waiting_approval, new_run, requester, approval_of, Desk,
  pause, start, pause_or_start, admit, execute_workflow,
}

needs_approval-high :
    (registry : Registry) (wf : WorkflowRow) (o : Options) (policy : Option Policy)
    (risk : RiskLevel)
    → o.is_dry_run ≡ false
    → enforces policy ≡ true
    → Occurs registry risk (latest_steps wf.latest)
    → 4 ≤ risk_weight risk
    → needs_approval registry wf o policy ≡ true
unfolding needs_approval
needs_approval-high registry wf o policy risk d e h k =
    rw d (rw e (rw (max_risk-high registry (latest_steps wf.latest) risk h k) refl))

module _ (table : Table ApprovalRequest) where
  open table use {Rows, find, find-put}

  admit-held :
      (env : Env) (c : Call) (wf : WorkflowRow) (desk : Desk table)
      → wf.enabled ≡ true
      → needs_approval env.registry wf c.options c.policy ≡ true
      → admit table env c (some wf) desk ≡ pause table env c wf desk
  unfolding admit pause_or_start
  admit-held env c wf desk en n = simp (en, n)

  -- The approval request and the run that the gate leaves when it holds a call back.
  abbrev pub Held : Call → Desk table → Type 0
  Held c desk =
      ((r : ApprovalRequest) × (find c.approval_id desk.approvals ≡ some r)
        × (r.status ≡ ApprovalStatus.pending)
        × (r.requested_by_id ≡ requester c.user_id))
      × ((run : Run) × (Dict.get c.run_id desk.runs ≡ some run)
          × (run.status ≡ RunStatus.waiting_approval)
          × (run.approval_request_id ≡ some c.approval_id))

  find-put_self :
      (id : String) (r : ApprovalRequest) (rows : Rows) → find id (table.put id r rows) ≡ some r
  find-put_self id r rows = rw find-put (rw (str_eq_self id) refl)

  get-set_self :
      (id : String) (r : Run) (runs : Dict.Dict Run) → Dict.get id (Dict.set id r runs) ≡ some r
  get-set_self id r runs = rw get-set (rw (str_eq_self id) refl)

  pause-Held :
      (env : Env) (c : Call) (wf : WorkflowRow) (desk : Desk table)
      → Held c (pause table env c wf desk).1
  unfolding pause create_approval_request approval_of new_request new_run
  pause-Held env c wf desk = (
    (
      approval_of env.registry c wf,
      find-put_self c.approval_id (approval_of env.registry c wf) desk.approvals,
      refl,
      refl,
    ),
    (
      new_run c wf RunStatus.waiting_approval (some c.approval_id),
      get-set_self c.run_id _ desk.runs,
      refl,
      refl,
    ),
  )

  -- Under an enabled policy that enforces four eyes, a real run of an enabled workflow with a
  -- registered action of risk HIGH or CRITICAL among its steps is not started: no action is
  -- executed, no lock, breaker or log changes, and what is left is a pending approval request of the
  -- caller and a run that waits for it.
  pub execute_workflow-Held :
      (env : Env) (c : Call) (wf : WorkflowRow) (risk : RiskLevel) (desk : Desk table)
      → c.workflow ≡ some wf
      → wf.enabled ≡ true
      → c.options.is_dry_run ≡ false
      → enforces c.policy ≡ true
      → Occurs env.registry risk (latest_steps wf.latest)
      → 4 ≤ risk_weight risk
      → let (answer, after) = execute_workflow table env c desk in
        (answer ≡ waiting_approval c.run_id c.approval_id)
        × (after.world ≡ desk.world)
        × Held c after
  unfolding execute_workflow pause
  execute_workflow-Held env c wf risk desk f en d e h k =
      let n = needs_approval-high env.registry wf c.options c.policy risk d e h k in
      subst
        (λ (x : Response × Desk table).
          (x.0 ≡ waiting_approval c.run_id c.approval_id) × (x.1.world ≡ desk.world) × Held c x.1)
        (sym (ap (λ o. admit table env c o desk) f ∙ admit-held env c wf desk en n))
        (refl, refl, pause-Held env c wf desk)

  pause_or_start-started :
      (b : Bool) (env : Env) (c : Call) (wf : WorkflowRow) (desk : Desk table)
      → ((b ≡ false) × (pause_or_start table b env c wf desk ≡ start table env c wf desk))
        ⊎ ((pause_or_start table b env c wf desk).1.world ≡ desk.world)
  unfolding pause_or_start pause
  pause_or_start-started true env c wf desk = inr refl
  pause_or_start-started false env c wf desk = inl (refl, refl)

  low_or_free : (d h e : Bool) → not d && h && e ≡ false → (d ≡ true) ⊎ (h ≡ false) ⊎ (e ≡ false)
  low_or_free d h e q = ground arith

  -- What `execute_workflow-Started` states, at any answer of the first query.
  abbrev Started : Env → Call → Option WorkflowRow → Desk table → Response × Desk table → Type 0
  Started env c o desk result =
      ((wf : WorkflowRow) × (o ≡ some wf)
        × (wf.enabled ≡ true)
        × ((c.options.is_dry_run ≡ true)
            ⊎ (is_high (max_risk env.registry (latest_steps wf.latest) RiskLevel.read_only) ≡ false)
            ⊎ (enforces c.policy ≡ false))
        × (result ≡ start table env c wf desk))
      ⊎ (result.1.world ≡ desk.world)

  Started-if :
      (enabled : Bool) (env : Env) (c : Call) (wf : WorkflowRow) (desk : Desk table)
      → wf.enabled ≡ enabled
      → Started env c (some wf) desk (
          if enabled
          then pause_or_start table
              (needs_approval env.registry wf c.options c.policy)
              env
              c
              wf
              desk
          else (disabled, desk))
  unfolding needs_approval
  Started-if false env c wf desk en = inr refl
  Started-if true env c wf desk en =
      elim (pause_or_start-started (needs_approval env.registry wf c.options c.policy) env c wf
        desk) [ inl (n, s) ↦ inl (wf, refl, en, low_or_free _ _ _ n, s) | inr s ↦ inr s ]

  admit-Started :
      (env : Env) (c : Call) (o : Option WorkflowRow) (desk : Desk table)
      → Started env c o desk (admit table env c o desk)
  unfolding admit
  admit-Started env c none desk = inr refl
  admit-Started env c (some wf) desk = Started-if wf.enabled env c wf desk refl

  -- The other way round: a call that gets to the worker is of an enabled workflow, and is a dry run,
  -- or has no action of risk HIGH or CRITICAL, or no enabled policy enforces four eyes; a call that
  -- does not get there leaves locks, breakers, log and executed actions alone.
  pub execute_workflow-Started :
      (env : Env) (c : Call) (desk : Desk table)
      → let (answer, after) = execute_workflow table env c desk in
        ((wf : WorkflowRow) × (c.workflow ≡ some wf)
          × (wf.enabled ≡ true)
          × ((c.options.is_dry_run ≡ true)
              ⊎ (is_high (max_risk env.registry (latest_steps wf.latest) RiskLevel.read_only)
                  ≡ false)
              ⊎ (enforces c.policy ≡ false))
          × ((answer, after) ≡ start table env c wf desk))
        ⊎ (after.world ≡ desk.world)
  unfolding execute_workflow
  execute_workflow-Started env c desk = admit-Started env c c.workflow desk
