-- ===== src/Automation/Worker/Effects.antt =====
-- What a run of the worker reads and changes: the shared managers, the database writes, the log, and
-- the outside world (clock, database failures, actions) as an environment that answers by number.
use infra_inventory.Prelude.{ℕ, suc, Bool, Option, none, some, List, ◌∷◌, String, length}
use mathlib.Core.Path.{◌≡◌, refl}
use infra_inventory.Automation.Locks.{Locks}
use infra_inventory.Automation.Breaker.{States}
use infra_inventory.Automation.Risk.{Registry}

pub data RunStatus : Type 0 where
  queued running waiting_approval success failed cancelled timeout partial : RunStatus

pub data StepStatus : Type 0 where
  pending running success failed skipped timeout cancelled : StepStatus

-- Any condition but 'ON_SUCCESS' and 'ON_FAILURE' is as good as 'ALWAYS'.
pub data Condition : Type 0 where
  always on_success on_failure : Condition

pub record Step : Type 0 where
  pub order : ℕ
  pub action_name : String
  pub condition : Condition
  pub continue_on_error : Bool
  pub retry_count : ℕ

pub record ActionResult : Type 0 where
  pub success : Bool
  pub output : String
  pub error : Option String
  pub duration_ms : ℕ

-- What a call of `actionDef.execute` does: it returns, or it throws.
pub data Execution : Type 0 where
  returned : ActionResult → Execution
  raised : (message : String) → Execution

-- The lines of `executionLogs`, without their texts and timestamps.
pub data Log : Type 0 where
  started : Log
  mode : (is_dry_run : Bool) → Log
  total_timeout : Log
  omitted : (order : ℕ) → Condition → Log
  executing : (order : ℕ) → Log
  unregistered : (action : String) → Log
  retrying : (order attempt max_attempts : ℕ) → Log
  completed : (order : ℕ) → Log
  attempt_failed : (order attempt : ℕ) → Log
  stopping : (order : ℕ) → Log
  breaker_tripped : Log
  uncaught : (message : String) → Log

pub data EarlyFailure : Type 0 where
  no_steps : EarlyFailure
  breaker_open : EarlyFailure
  target_locked : (holder : String) → EarlyFailure

-- The writes to `workflowRun` and `workflowRunStep`, in the fields that the engine computes.
pub data Write : Type 0 where
  run_refused : EarlyFailure → Write
  run_started : Write
  step_created : (order : ℕ) → StepStatus → Write
  step_unregistered : (order : ℕ) → Write
  step_updated : (order : ℕ) → StepStatus → (retries_used duration_ms : ℕ) → Write
  run_finished : RunStatus → (duration_ms : ℕ) → (some_failed : Bool) → List Log → Write
  run_crashed : (message : String) → List Log → Write

pub record Env : Type 0 where
  pub registry : Registry
  -- the n-th reading of the clock, in milliseconds
  pub time : ℕ → ℕ
  -- the error of the n-th database call, if it fails
  pub db_error : ℕ → Option String
  -- what the n-th execution of an action does
  pub act : ℕ → String → Execution

pub record World : Type 0 where
  pub locks : Locks
  pub breakers : States
  -- newest first, like the other lists
  pub writes : List Write
  pub logs : List Log
  -- the executed actions, with the order of their step
  pub executed : List (ℕ × String)
  pub clock_reads : ℕ
  pub db_calls : ℕ

pub data Res (A : Type 0) : Type 0 where
  ok : A → Res A
  throw : (message : String) → Res A

abbrev pub M : Type 0 → Type 0
M A = World → Res A × World

abbrev pub pure : {A : Type 0} → A → M A
pure a w = (ok a, w)

-- The rest of a block after a step's result.
abbrev pub continue : {A B : Type 0} → (A → M B) → Res A × World → Res B × World
continue f (ok a, w) = f a w
continue f (throw e, w) = (throw e, w)

infixl 5 ◌>>=◌ ◌>>◌
abbrev pub ◌>>=◌ : {A B : Type 0} → M A → (A → M B) → M B
◌>>=◌ m f w = continue f (m w)

abbrev pub ◌>>◌ : {B : Type 0} → M (Unit {0}) → M B → M B
m >> k = m >>= λ _. k

unfoldable pub log : Log → M (Unit {0})
log l w = (ok tt, record w { logs = l ∷ w.logs })

unfoldable pub read_clock : Env → M ℕ
read_clock env w = (ok (env.time w.clock_reads), record w { clock_reads = suc w.clock_reads })

-- A database call: it throws, or it is done.
unfoldable pub persist : Env → Write → M (Unit {0})
persist env write w = elim (env.db_error w.db_calls) [
  | none ↦ (ok tt, record w { writes = write ∷ w.writes; db_calls = suc w.db_calls })
  | some message ↦ (throw message, record w { db_calls = suc w.db_calls })
]

-- A database read: its result is an argument of the caller.
unfoldable pub query : Env → M (Unit {0})
query env w = elim (env.db_error w.db_calls) [
  | none ↦ (ok tt, record w { db_calls = suc w.db_calls })
  | some message ↦ (throw message, record w { db_calls = suc w.db_calls })
]

abbrev answer : Execution → World → Res ActionResult × World
answer (returned r) w = (ok r, w)
answer (raised message) w = (throw message, w)

unfoldable pub execute_action : Env → ℕ → String → M ActionResult
execute_action env order name w =
    answer (env.act (length w.executed) name) (record w { executed = (order, name) ∷ w.executed })

abbrev pub handle : {A : Type 0} → (String → M A) → Res A × World → Res A × World
handle h (ok a, w) = (ok a, w)
handle h (throw e, w) = h e w

-- `try { m } catch (err) { h(err) }`.
abbrev pub try_catch : {A : Type 0} → M A → (String → M A) → M A
try_catch m h w = handle h (m w)

abbrev pub settle : {A : Type 0} → (World → World) → Res A × World → Res A × World
settle f (r, w) = (r, f w)

-- `try { m } finally { f() }`, for an `f` that cannot throw.
abbrev pub finally : {A : Type 0} → M A → (World → World) → M A
finally m f w = settle f (m w)

continue-eq-ok :
    {A B : Type 0} (f : A → M B) (r : Res A) (w : World) {b : B} {w' : World}
    → continue f (r, w) ≡ (ok b, w')
    → (a : A) × (r ≡ ok a) × (f a w ≡ (ok b, w'))
continue-eq-ok f (ok a) w h = (a, refl, h)
continue-eq-ok f (throw e) w h = cc

-- Inversion of a block that did not throw.
pub bind-eq-ok :
    {A B : Type 0} (m : M A) (f : A → M B) (w : World) {b : B} {w' : World}
    → (m >>= f) w ≡ (ok b, w')
    → (a : A) × (w₁ : World) × (m w ≡ (ok a, w₁)) × (f a w₁ ≡ (ok b, w'))
bind-eq-ok m f w h =
    let (a, e, k) = continue-eq-ok f (m w).0 (m w).1 h in (a, (m w).1, (λ i. (e i, (m w).1)), k)
