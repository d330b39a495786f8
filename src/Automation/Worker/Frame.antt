-- ===== src/Automation/Worker/Frame.antt =====
-- What the loop over the steps leaves alone: the locks and the breakers.
use infra_inventory.Prelude.{
  ℕ, zero, suc, ◌-◌, ◌≡◌, refl, ◌∙◌, Bool, true, false, Option, none, some, List, [], ◌∷◌, arith,
  ltb, if◌then◌else◌,
}
use infra_inventory.Automation.Risk.{ActionDefinition}
use infra_inventory.Automation.Worker.Effects.{
  Step, World, Env, M, Res, ok, throw, continue, ◌>>=◌, log, read_clock, persist, execute_action,
  Log, Write,
}
use infra_inventory.Automation.Worker.Steps.{
  Tries, no_tries, run_found, note_retry, note_result, try_action, tries, Flow, next, stop,
  finish_step, run_action, skip_step, is_omitted, run_step, resume, run_steps,
}

abbrev pub SameManagers : World → World → Type 0
SameManagers w w' = (w'.locks ≡ w.locks) × (w'.breakers ≡ w.breakers)

abbrev pub Keeps : {A : Type 0} → M A → Type 0
Keeps m = (w : World) → SameManagers w (m w).1

Keeps-continue :
    {A B : Type 0} (f : A → M B) (w : World) (r : Res A) (w' : World)
    → ((a : A) → Keeps (f a))
    → SameManagers w w'
    → SameManagers w (continue f (r, w')).1
Keeps-continue f w (ok a) w' hf h = ((hf a w').0 ∙ h.0, (hf a w').1 ∙ h.1)
Keeps-continue f w (throw e) w' hf h = h

pub Keeps-bind :
    {A B : Type 0} (m : M A) (f : A → M B) → Keeps m → ((a : A) → Keeps (f a)) → Keeps (m >>= f)
Keeps-bind m f hm hf w = Keeps-continue f w (m w).0 (m w).1 hf (hm w)

pub Keeps-if : {A : Type 0} (b : Bool) (m k : M A) → Keeps m → Keeps k → Keeps (if b then m else k)
Keeps-if true m k hm hk = hm
Keeps-if false m k hm hk = hk

Keeps-cases :
    {A : Type 0} (b : Bool) (m k : M A)
    → Keeps m
    → Keeps k
    → Keeps (elim b [ true ↦ m | false ↦ k ])
Keeps-cases true m k hm hk = hm
Keeps-cases false m k hm hk = hk

Keeps-resume :
    (flow : Flow) (rest : Bool → M (Bool × Bool))
    → ((f : Bool) → Keeps (rest f))
    → Keeps (resume rest flow)
Keeps-resume (next f) rest h = h f
Keeps-resume (stop f t) rest h = λ w. (refl, refl)

pub Keeps-log : (l : Log) → Keeps (log l)
unfolding log
Keeps-log l w = (refl, refl)

pub Keeps-read_clock : (env : Env) → Keeps (read_clock env)
unfolding read_clock
Keeps-read_clock env w = (refl, refl)

pub Keeps-persist : (env : Env) (write : Write) → Keeps (persist env write)
unfolding persist
Keeps-persist env write w = ground arith

Keeps-try_action : (env : Env) (step : Step) (t : Tries) → Keeps (try_action env step t)
unfolding try_action note_retry note_result execute_action log
Keeps-try_action env step t w = ground arith

Keeps-tries : (env : Env) (step : Step) (left : ℕ) (t : Tries) → Keeps (tries env step left t)
unfolding tries
Keeps-tries env step zero t = λ w. (refl, refl)
Keeps-tries env step (suc left) t =
    Keeps-bind (try_action env step t) _ (Keeps-try_action env step t)
      λ t'. Keeps-cases t'.step_success _ _ (λ w. (refl, refl)) (Keeps-tries env step left t')

Keeps-finish_step :
    (env : Env) (step : Step) (run_failed : Bool) (t : Tries)
    → Keeps (finish_step env step run_failed t)
unfolding finish_step persist log
Keeps-finish_step env step run_failed t w = ground arith

Keeps-run_found :
    (env : Env) (step : Step) (run_failed : Bool) (o : Option ActionDefinition)
    → Keeps (run_found env step run_failed o)
unfolding run_found persist log
Keeps-run_found env step run_failed none = λ w. ground arith
Keeps-run_found env step run_failed (some action) =
    Keeps-bind (tries env step _ no_tries) _ (Keeps-tries env step _ no_tries)
      (Keeps-finish_step env step run_failed)

Keeps-run_action :
    (env : Env) (step : Step) (run_failed : Bool) → Keeps (run_action env step run_failed)
unfolding run_action
Keeps-run_action env step run_failed = Keeps-bind (log _) _ (Keeps-log _) λ _.
    Keeps-bind (persist env _) _ (Keeps-persist env _) λ _. Keeps-run_found env step run_failed _

Keeps-skip_step :
    (env : Env) (step : Step) (run_failed : Bool) → Keeps (skip_step env step run_failed)
unfolding skip_step persist log
Keeps-skip_step env step run_failed w = ground arith

Keeps-run_step :
    (env : Env) (start limit : ℕ) (step : Step) (run_failed : Bool)
    → Keeps (run_step env start limit step run_failed)
unfolding run_step log
Keeps-run_step env start limit step run_failed =
    Keeps-bind (read_clock env) _ (Keeps-read_clock env) λ now.
      Keeps-if (ltb limit (now - start)) _ _ (λ w. (refl, refl))
        (Keeps-if (is_omitted step.condition run_failed) _ _ (Keeps-skip_step env step run_failed)
          (Keeps-run_action env step run_failed))

-- Whatever the steps do, the loop touches neither the locks nor the breakers.
pub Keeps-run_steps :
    (env : Env) (start limit : ℕ) (steps : List Step) (run_failed : Bool)
    → Keeps (run_steps env start limit steps run_failed)
unfolding run_steps
Keeps-run_steps env start limit [] run_failed = λ w. (refl, refl)
Keeps-run_steps env start limit (step ∷ steps) run_failed =
    Keeps-bind (run_step env start limit step run_failed) _
      (Keeps-run_step env start limit step run_failed)
      λ flow. Keeps-resume flow _ (Keeps-run_steps env start limit steps)
