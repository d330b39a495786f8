-- ===== src/Automation/Locks.antt =====
-- The target locks, backend/src/modules/automation/automation.locks.ts. Times are in milliseconds;
-- each call of `Date.now()` is an argument.
pub mod Exclusion
pub mod Ownership
mod Tests
use infra_inventory.Prelude.{
  ℕ, ◌-◌, ◌*◌, ◌/◌, Bool, true, false, none, some, List, [], ◌∷◌, String, ltb, leb, str_eq,
  if◌then◌else◌,
}
use infra_inventory.Prelude.Dict
use infra_inventory.Prelude.Dict.{Dict}

pub record Lock : Type 0 where
  pub run_id : String
  pub locked_at : ℕ
  pub target : String

abbrev pub Locks : Type 0
Locks = Dict Lock

abbrev pub default_timeout_ms : ℕ
default_timeout_ms = 10 * 60 * 1000

pub data Acquired : Type 0 where
  acquired : Acquired
  refused : (current_holder : String) → Acquired

-- `Date.now() - existing.lockedAt > this.defaultTimeoutMs`; an entry from the future is not expired.
abbrev pub is_expired : ℕ → Lock → Bool
is_expired now lock = ltb default_timeout_ms (now - lock.locked_at)

abbrev new_lock : String → String → ℕ → Lock
new_lock target run_id now = record { run_id = run_id; locked_at = now; target = target }

-- `now` is the time at the test, `stamp` the time written.
unfoldable pub acquire_lock : String → String → ℕ → ℕ → Locks → Locks × Acquired
acquire_lock target run_id now stamp locks = elim (Dict.get target locks) [
  | some existing ↦
      if is_expired now existing
      then (Dict.set target (new_lock target run_id stamp) locks, acquired)
      else (locks, refused existing.run_id)
  | none ↦ (Dict.set target (new_lock target run_id stamp) locks, acquired)
]

unfoldable pub release_lock : String → String → Locks → Locks × Bool
release_lock target run_id locks = elim (Dict.get target locks) [
  | some existing ↦
      if str_eq existing.run_id run_id then (Dict.delete target locks, true) else (locks, false)
  | none ↦ (locks, false)
]

unfoldable pub is_locked : String → ℕ → Locks → Locks × Bool
is_locked target now locks = elim (Dict.get target locks) [
  | some existing ↦
      if is_expired now existing then (Dict.delete target locks, false) else (locks, true)
  | none ↦ (locks, false)
]

pub record ActiveLock : Type 0 where
  pub target : String
  pub run_id : String
  pub age_seconds : ℕ

-- `now` is read once; a clock that was set back gives a negative age in the source, 0 here.
unfoldable pub get_active_locks : ℕ → Locks → List ActiveLock
get_active_locks now [] = []
get_active_locks now ((target, lock) ∷ rest) =
    let others = get_active_locks now rest in
    if leb (now - lock.locked_at) default_timeout_ms
    then record {
      target = target;
      run_id = lock.run_id;
      age_seconds = (now - lock.locked_at) / 1000;
    }
      ∷ others
    else others
