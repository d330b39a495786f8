-- ===== src/Automation/Worker/Verdict.antt =====
-- The status of a run that finished, read off the writes and the log that it left.
use infra_inventory.Prelude.{
  ℕ, zero, suc, ◌-◌, ◌≡◌, refl, inl, inr, Bool, true, false, ◌||◌, Option, none, some, List, [],
  ◌∷◌, arith, ltb, if◌then◌else◌, Bool-cases, ap, ◌∙◌, sym,
}
use infra_inventory.Automation.Risk.{ActionDefinition}
use infra_inventory.Automation.Worker.Effects.{
  Step, StepStatus, World, Env, M, ok, pure, ◌>>◌, log, read_clock, persist, execute_action, Write,
  Log, bind-eq-ok,
}
use infra_inventory.Automation.Worker.Steps.{
  Tries, no_tries, note_retry, note_result, try_action, tries, Flow, next, stop, after_failure,
  finish_step, run_found, run_action, skip_step, is_omitted, run_step, resume, run_steps,
}

-- A write that records a failed step.
abbrev pub is_failure : Write → Bool
is_failure (Write.step_unregistered order) = true
is_failure (Write.step_updated order StepStatus.failed retries duration) = true
is_failure _ = false

abbrev pub any_failure : List Write → Bool
any_failure [] = false
any_failure (write ∷ writes) = is_failure write || any_failure writes

abbrev pub is_timeout : Log → Bool
is_timeout Log.total_timeout = true
is_timeout _ = false

abbrev pub any_timeout : List Log → Bool
any_timeout [] = false
any_timeout (l ∷ ls) = is_timeout l || any_timeout ls

-- The loop's flag is the record of failures, and no timeout has been logged.
pub record Sync (run_failed run_timeout : Bool) (w : World) : Type 0 where
  pub failed : run_failed ≡ any_failure w.writes
  pub timeout : run_timeout ≡ any_timeout w.logs

-- What the retry loop leaves alone.
abbrev pub Quiet : World → World → Type 0
Quiet w w' = (w'.writes ≡ w.writes) × (any_timeout w'.logs ≡ any_timeout w.logs)

try_action-Quiet :
    (env : Env) (step : Step) (t : Tries) (w : World) → Quiet w (try_action env step t w).1
unfolding try_action note_retry note_result execute_action log
try_action-Quiet env step t w = ground arith

tries-Quiet :
    (env : Env) (step : Step) (left : ℕ) (t : Tries) (w : World) (t' : Tries) (w' : World)
    → tries env step left t w ≡ (ok t', w')
    → Quiet w w'
unfolding tries
tries-Quiet env step zero t w t' w' h = ground arith
tries-Quiet env step (suc left) t w t' w' h =
    let (t₁, w₁, e, k) = bind-eq-ok (try_action env step t) _ w h in
    elim (Bool-cases t₁.step_success) [
      | inl good ↦ ground (arith, try_action-Quiet env step t w)
      | inr bad ↦
          ground (arith, try_action-Quiet env step t w, tries-Quiet env step left t₁ w₁ t' w')
    ]

abbrev SyncFlow : Flow → World → Type 0
SyncFlow (next f) w = Sync f false w
SyncFlow (stop f t) w = Sync f t w

finish_step-Sync :
    (env : Env) (step : Step) (f : Bool) (t : Tries) (w : World) (flow : Flow) (w' : World)
    → Sync f false w
    → finish_step env step f t w ≡ (ok flow, w')
    → SyncFlow flow w'
unfolding finish_step persist log
finish_step-Sync env step f t w (next f') w' s h = ground arith
finish_step-Sync env step f t w (stop f' t') w' s h = ground arith

run_found-Sync :
    (env : Env) (step : Step) (f : Bool) (o : Option ActionDefinition) (w : World) (flow : Flow)
    (w' : World)
    → Sync f false w
    → run_found env step f o w ≡ (ok flow, w')
    → SyncFlow flow w'
unfolding run_found persist log after_failure
run_found-Sync env step f none w (next f') w' s h = ground arith
run_found-Sync env step f none w (stop f' t') w' s h = ground arith
run_found-Sync env step f (some action) w flow w' s h =
    let (t, w₁, e, k) = bind-eq-ok (tries env step _ no_tries) _ w h in
    let (same, still) = tries-Quiet env step _ no_tries w t w₁ e in
    finish_step-Sync env step f t w₁ flow w'
      (record { failed = s.failed ∙ ap any_failure (sym same); timeout = s.timeout ∙ sym still }) k

created-Sync :
    (env : Env) (l : Log) (order : ℕ) (status : StepStatus) (f : Bool) (w w₁ w₂ : World)
    → is_timeout l ≡ false
    → Sync f false w
    → log l w ≡ (ok tt, w₁)
    → persist env (Write.step_created order status) w₁ ≡ (ok tt, w₂)
    → Sync f false w₂
unfolding log persist
created-Sync env l order status f w w₁ w₂ quiet s e₁ e₂ = ground arith

run_action-Sync :
    (env : Env) (step : Step) (f : Bool) (w : World) (flow : Flow) (w' : World)
    → Sync f false w
    → run_action env step f w ≡ (ok flow, w')
    → SyncFlow flow w'
unfolding run_action
run_action-Sync env step f w flow w' s h =
    let (_, w₁, e₁, k₁) = bind-eq-ok (log (Log.executing step.order)) _ w h in
    let (_, w₂, e₂, k₂) =
      bind-eq-ok (persist env (Write.step_created step.order StepStatus.running)) _ w₁ k₁ in
    run_found-Sync env step f _ w₂ flow w' (created-Sync env _ _ _ f w w₁ w₂ refl s e₁ e₂) k₂

skip_step-Sync :
    (env : Env) (step : Step) (f : Bool) (w : World) (flow : Flow) (w' : World)
    → Sync f false w
    → skip_step env step f w ≡ (ok flow, w')
    → SyncFlow flow w'
unfolding skip_step log persist
skip_step-Sync env step f w (next f') w' s h = ground arith
skip_step-Sync env step f w (stop f' t') w' s h = ground arith

-- One round after the reading of the clock.
rest-Sync :
    (env : Env) (step : Step) (late omitted f : Bool) (w : World) (flow : Flow) (w' : World)
    → Sync f false w
    → (if late
          then log Log.total_timeout >> pure (stop f true)
          else if omitted
          then skip_step env step f
          else run_action env step f)
        w
      ≡ (ok flow, w')
    → SyncFlow flow w'
unfolding log
rest-Sync env step true omitted f w (next f') w' s h = ground arith
rest-Sync env step true omitted f w (stop f' t') w' s h = ground arith
rest-Sync env step false true f w flow w' s h = skip_step-Sync env step f w flow w' s h
rest-Sync env step false false f w flow w' s h = run_action-Sync env step f w flow w' s h

read_clock-Sync :
    (env : Env) (f t : Bool) (w w' : World) (now : ℕ)
    → Sync f t w
    → read_clock env w ≡ (ok now, w')
    → Sync f t w'
unfolding read_clock
read_clock-Sync env f t w w' now s h = ground arith

run_step-Sync :
    (env : Env) (start limit : ℕ) (step : Step) (f : Bool) (w : World) (flow : Flow) (w' : World)
    → Sync f false w
    → run_step env start limit step f w ≡ (ok flow, w')
    → SyncFlow flow w'
unfolding run_step
run_step-Sync env start limit step f w flow w' s h =
    let (now, w₁, e, k) = bind-eq-ok (read_clock env) _ w h in
    rest-Sync env step (ltb limit (now - start)) (is_omitted step.condition f) f w₁ flow w'
      (read_clock-Sync env f false w w₁ now s e) k

resume-Sync :
    (rest : Bool → M (Bool × Bool)) (flow : Flow) (w : World) (f' t' : Bool) (w' : World)
    → ((g : Bool) → Sync g false w → rest g w ≡ (ok (f', t'), w') → Sync f' t' w')
    → SyncFlow flow w
    → resume rest flow w ≡ (ok (f', t'), w')
    → Sync f' t' w'
resume-Sync rest (next g) w f' t' w' later s h = later g s h
resume-Sync rest (stop g u) w f' t' w' later s h = ground arith

pub run_steps-Sync :
    (env : Env) (start limit : ℕ) (steps : List Step) (f : Bool) (w : World) (f' t' : Bool)
    (w' : World)
    → Sync f false w
    → run_steps env start limit steps f w ≡ (ok (f', t'), w')
    → Sync f' t' w'
unfolding run_steps
run_steps-Sync env start limit [] f w f' t' w' s h = ground arith
run_steps-Sync env start limit (step ∷ steps) f w f' t' w' s h =
    let (flow, w₁, e, k) = bind-eq-ok (run_step env start limit step f) _ w h in
    resume-Sync (run_steps env start limit steps) flow w₁ f' t' w'
      (λ g s₁ k₁. run_steps-Sync env start limit steps g w₁ f' t' w' s₁ k₁)
      (run_step-Sync env start limit step f w flow w₁ s e) k
