-- ===== src/Automation/Breaker.antt =====
-- The circuit breaker, backend/src/modules/automation/automation.circuit-breaker.ts. The object that
-- the map holds is shared with the caller and mutated in place; here each method writes it back.
mod Entries
pub mod Trips
pub mod Invariant
mod Tests
use infra_inventory.Prelude.{
  ℕ, suc, ◌-◌, ◌*◌, Bool, true, false, ◌&&◌, Option, none, some, List, [], ◌∷◌, map, String, ltb,
  leb, ◌==◌, str_eq, if◌then◌else◌,
}
use infra_inventory.Prelude.Dict
use infra_inventory.Prelude.Dict.{Dict}

-- The text of `trippedReason`: the caller's, or the default one with its two numbers.
pub data Reason : Type 0 where
  given : String → Reason
  threshold_reached : (failures threshold : ℕ) → Reason

pub record State : Type 0 where
  pub workflow_id : String
  pub consecutive_failures : ℕ
  pub is_open : Bool
  pub last_failure_at : Option ℕ
  pub last_reset_at : Option ℕ
  pub tripped_reason : Option Reason

abbrev pub States : Type 0
States = Dict State

abbrev pub default_cooldown_ms : ℕ
default_cooldown_ms = 5 * 60 * 1000

abbrev pub fresh : String → ℕ → State
fresh workflow_id stamp = record {
  workflow_id = workflow_id;
  consecutive_failures = 0;
  is_open = false;
  last_failure_at = none;
  last_reset_at = some stamp;
  tripped_reason = none;
}

-- `state.lastFailureAt && Date.now() - state.lastFailureAt > this.defaultCooldownMs`: a time of 0
-- counts as absent.
abbrev pub is_cooled : ℕ → Option ℕ → Bool
is_cooled now none = false
is_cooled now (some at) = if at == 0 then false else ltb default_cooldown_ms (now - at)

abbrev pub recovered : State → ℕ → State
recovered s stamp = record s {
  is_open = false;
  consecutive_failures = 0;
  last_reset_at = some stamp;
  tripped_reason = none;
}

-- The state that `getState` returns, from the one in the map: `now` is read by the test, `stamp` is
-- written. The source's argument `threshold` has no use there.
unfoldable pub refresh : String → ℕ → ℕ → Option State → State
refresh workflow_id now stamp none = fresh workflow_id stamp
refresh workflow_id now stamp (some s) =
    if s.is_open && is_cooled now s.last_failure_at then recovered s stamp else s

unfoldable pub get_state : String → ℕ → ℕ → States → States × State
get_state workflow_id now stamp states =
    let s = refresh workflow_id now stamp (Dict.get workflow_id states) in
    (Dict.set workflow_id s states, s)

unfoldable pub record_success : String → ℕ → ℕ → States → States
unfolding get_state
record_success workflow_id now stamp states =
    let (states', s) = get_state workflow_id now stamp states in
    Dict.set workflow_id
      (record s { consecutive_failures = 0; is_open = false; tripped_reason = none }) states'

abbrev reason_or : Option String → Reason → Reason
reason_or none r = r
reason_or (some text) r = if str_eq text "" then r else given text

-- The object after one more failure at the time `at`, and whether this tripped the breaker.
unfoldable pub fail : ℕ → Option String → ℕ → State → State × Bool
fail threshold reason at s =
    let failures = suc s.consecutive_failures in
    if leb threshold failures
    then (
      record s {
        consecutive_failures = failures;
        last_failure_at = some at;
        is_open = true;
        tripped_reason = some (reason_or reason (threshold_reached failures threshold));
      },
      true,
    )
    else (record s { consecutive_failures = failures; last_failure_at = some at }, false)

unfoldable pub record_failure : String → ℕ → Option String → ℕ → ℕ → ℕ → States → States × Bool
unfolding get_state fail
record_failure workflow_id threshold reason now stamp at states =
    let (states', s) = get_state workflow_id now stamp states in
    let (s', tripped) = fail threshold reason at s in (Dict.set workflow_id s' states', tripped)

unfoldable pub reset : String → ℕ → ℕ → ℕ → States → States
unfolding get_state
reset workflow_id now stamp at states =
    let (states', s) = get_state workflow_id now stamp states in
    Dict.set workflow_id
      (record s {
        consecutive_failures = 0;
        is_open = false;
        last_reset_at = some at;
        tripped_reason = none;
      })
      states'

unfoldable pub get_all_states : States → List State
get_all_states states = map (λ e. e.1) states
