-- ===== src/Automation/Breaker/Entries.antt =====
-- What each method of the breaker leaves in the map, under its own key and under the others.
use infra_inventory.Prelude.{
  ℕ, ◌≡◌, inl, inr, false, Option, none, some, String, str_eq, if◌then◌else◌, Bool-cases,
}
use infra_inventory.Prelude.Dict
use infra_inventory.Prelude.Dict.{get-set}
use infra_inventory.Automation.Breaker.{
  State, States, refresh, get_state, record_success, fail, record_failure, reset,
}

-- Two writes to one key are the second.
get-set_twice :
    (w j : String) (s t : State) (states : States)
    → Dict.get j (Dict.set w t (Dict.set w s states))
      ≡ (if str_eq w j then some t else Dict.get j states)
get-set_twice w j s t states = elim (Bool-cases (str_eq w j)) [
  | inl same ↦ rw get-set (rw same)
  | inr other ↦ rw get-set (rw other (rw get-set (rw other)))
]

pub get-get_state :
    (w j : String) (now stamp : ℕ) (states : States)
    → Dict.get j (get_state w now stamp states).0
      ≡ (if str_eq w j then some (refresh w now stamp (Dict.get w states)) else Dict.get j states)
unfolding get_state
get-get_state w j now stamp states = get-set w j _ states

pub get-record_failure :
    (w j : String) (threshold : ℕ) (reason : Option String) (now stamp at : ℕ) (states : States)
    → Dict.get j (record_failure w threshold reason now stamp at states).0 ≡ (
        if str_eq w j
        then some (fail threshold reason at (refresh w now stamp (Dict.get w states))).0
        else Dict.get j states)
unfolding record_failure
get-record_failure w j threshold reason now stamp at states = get-set_twice w j _ _ states

abbrev pub cleared : State → State
cleared s = record s { consecutive_failures = 0; is_open = false; tripped_reason = none }

pub get-record_success :
    (w j : String) (now stamp : ℕ) (states : States)
    → Dict.get j (record_success w now stamp states) ≡ (
        if str_eq w j
        then some (cleared (refresh w now stamp (Dict.get w states)))
        else Dict.get j states)
unfolding record_success
get-record_success w j now stamp states = get-set_twice w j _ _ states

pub get-reset :
    (w j : String) (now stamp at : ℕ) (states : States)
    → Dict.get j (reset w now stamp at states) ≡ (
        if str_eq w j
        then some
            (record (cleared (refresh w now stamp (Dict.get w states))) { last_reset_at = some at })
        else Dict.get j states)
unfolding reset
get-reset w j now stamp at states = get-set_twice w j _ _ states
