-- ===== src/Automation/Worker/Outcomes.antt =====
-- What a returned outcome says of the run.
use infra_inventory.Prelude.{◌≡◌, Bool, true, false}
use infra_inventory.Automation.Worker.Effects.{RunStatus, World}
use infra_inventory.Automation.Worker.Verdict.{any_failure, any_timeout}
use infra_inventory.Automation.Worker.{Outcome}

-- The status and the success that the records of the run call for.
abbrev pub Settled : (timed_out failed : Bool) → RunStatus → (success : Bool) → Type 0
Settled true failed status success = (status ≡ RunStatus.timeout) × (success ≡ false)
Settled false true status success = (status ≡ RunStatus.failed) × (success ≡ false)
Settled false false status success = (status ≡ RunStatus.success) × (success ≡ true)

abbrev pub Verdict : Outcome → World → Type 0
Verdict out w' = Settled (any_timeout w'.logs) (any_failure w'.writes) out.status out.success
