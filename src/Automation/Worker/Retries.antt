-- ===== src/Automation/Worker/Retries.antt =====
-- The retry loop: a step is tried until its first success, and no more often than it may be.
use infra_inventory.Prelude.{
  ℕ, zero, suc, ◌+◌, ◌≤◌, ◌≡◌, ◌⊎◌, inl, inr, true, arith, Bool-cases, length,
}
use infra_inventory.Automation.Worker.Effects.{
  Step, World, Env, ok, log, execute_action, bind-eq-ok,
}
use infra_inventory.Automation.Worker.Steps.{
  Tries, no_tries, note_retry, note_result, try_action, tries,
}

try_action_lem :
    (env : Env) (step : Step) (t : Tries) (w : World) {t' : Tries} {w' : World}
    → try_action env step t w ≡ (ok t', w')
    → (t'.attempt ≡ suc t.attempt) × (length w'.executed ≡ suc (length w.executed))
unfolding try_action note_retry note_result execute_action log
try_action_lem env step t w h = ground arith

-- The tries made between two states of the loop, and what ended it.
abbrev Tried : ℕ → Tries → World → Tries → World → Type 0
Tried left t w t' w' =
    (t.attempt ≤ t'.attempt)
    × (t'.attempt ≤ t.attempt + left)
    × ((left ≡ 0) ⊎ (suc t.attempt ≤ t'.attempt))
    × (length w'.executed + t.attempt ≡ length w.executed + t'.attempt)
    × ((t'.step_success ≡ true) ⊎ (t'.attempt ≡ t.attempt + left))

tries_from :
    (env : Env) (step : Step) (left : ℕ) (t : Tries) (w : World) (t' : Tries) (w' : World)
    → tries env step left t w ≡ (ok t', w')
    → Tried left t w t' w'
unfolding tries
tries_from env step zero t w t' w' h = ground arith
tries_from env step (suc left) t w t' w' h =
    let (t₁, w₁, e, k) = bind-eq-ok (try_action env step t) _ w h in
    elim (Bool-cases t₁.step_success) [
      | inl good ↦ ground (arith, try_action_lem env step t w e)
      | inr bad ↦
          ground (arith, try_action_lem env step t w e, tries_from env step left t₁ w₁ t' w')
    ]

-- When the loop ends without an exception, it has executed the action once for each attempt that it
-- counts, at least once and at most `retryCount + 1` times; and it has failed only after all of
-- them.
pub tries-bound :
    (env : Env) (step : Step) (w : World) (t' : Tries) (w' : World)
    → tries env step (step.retry_count + 1) no_tries w ≡ (ok t', w')
    → (1 ≤ t'.attempt)
      × (t'.attempt ≤ step.retry_count + 1)
      × (length w'.executed ≡ length w.executed + t'.attempt)
      × ((t'.step_success ≡ true) ⊎ (t'.attempt ≡ step.retry_count + 1))
tries-bound env step w t' w' h =
    ground (arith, tries_from env step (step.retry_count + 1) no_tries w t' w' h)
