-- ===== src/Automation/Breaker/Trips.antt =====
-- When the breaker trips, how long it stays open, and what resets it.
use infra_inventory.Prelude.{
  ℕ, suc, ◌+◌, ◌≤◌, ◌<◌, ◌≡◌, Bool, true, false, Option, none, some, List, [], ◌∷◌, String, arith,
  leb, eq_iff, str_eq_self, if◌then◌else◌, length,
}
use infra_inventory.Prelude.Dict
use infra_inventory.Automation.Breaker.Entries.{get-record_failure, get-record_success, get-reset}
use infra_inventory.Automation.Breaker.{
  State, States, default_cooldown_ms, refresh, get_state, record_success, fail, record_failure,
  reset,
}

-- The count and the switch of an entry; none stands for a closed breaker with no failure.
abbrev pub count_of : Option State → ℕ
count_of none = 0
count_of (some s) = s.consecutive_failures

abbrev pub open_of : Option State → Bool
open_of none = false
open_of (some s) = s.is_open

-- One failure as the program sees it: the three times that the call reads.
pub record Failure : Type 0 where
  pub now : ℕ
  pub stamp : ℕ
  pub at : ℕ

unfoldable pub failures : String → ℕ → Option String → List Failure → States → States
failures w threshold reason [] states = states
failures w threshold reason (f ∷ fs) states =
    failures w threshold reason fs (record_failure w threshold reason f.now f.stamp f.at states).0

fail-refresh :
    (w : String) (threshold : ℕ) (reason : Option String) (now stamp at : ℕ) (o : Option State)
    → open_of o ≡ false
    → let s = (fail threshold reason at (refresh w now stamp o)).0 in
      (s.consecutive_failures ≡ suc (count_of o)) × (s.is_open ≡ leb threshold (suc (count_of o)))
unfolding fail refresh
fail-refresh w threshold reason now stamp at none h = ground arith
fail-refresh w threshold reason now stamp at (some s) h = ground arith

failure_step :
    (w : String) (threshold : ℕ) (reason : Option String) (f : Failure) (states : States)
    → open_of (Dict.get w states) ≡ false
    → let after = (record_failure w threshold reason f.now f.stamp f.at states).0 in
      (count_of (Dict.get w after) ≡ suc (count_of (Dict.get w states)))
      × (open_of (Dict.get w after) ≡ leb threshold (suc (count_of (Dict.get w states))))
failure_step w threshold reason f states h =
    rw (get-record_failure w w threshold reason f.now f.stamp f.at states, str_eq_self w)
      (fail-refresh w threshold reason f.now f.stamp f.at (Dict.get w states) h)

failures_from :
    (w : String) (threshold : ℕ) (reason : Option String) (fs : List Failure) (states : States)
    → open_of (Dict.get w states) ≡ leb threshold (count_of (Dict.get w states))
    → count_of (Dict.get w states) + length fs ≤ threshold
    → let after = failures w threshold reason fs states in
      (count_of (Dict.get w after) ≡ count_of (Dict.get w states) + length fs)
      × (open_of (Dict.get w after) ≡ leb threshold (count_of (Dict.get w states) + length fs))
unfolding failures
failures_from w threshold reason [] states e h = ground arith
failures_from w threshold reason (f ∷ fs) states e h = ground (
  arith,
  failure_step w threshold reason f states,
  failures_from w threshold reason fs
      (record_failure w threshold reason f.now f.stamp f.at states).0,
)

-- From a closed breaker with no failure, consecutive failures up to the threshold are counted one
-- by one, and the breaker is open exactly when the threshold is reached.
pub failures-trip :
    (w : String) (threshold : ℕ) (reason : Option String) (fs : List Failure) (states : States)
    → open_of (Dict.get w states) ≡ false
    → count_of (Dict.get w states) ≡ 0
    → 0 < threshold
    → length fs ≤ threshold
    → let after = failures w threshold reason fs states in
      (count_of (Dict.get w after) ≡ length fs)
      × (open_of (Dict.get w after) ≡ leb threshold (length fs))
failures-trip w threshold reason fs states closed zero_count pos h =
    ground (arith, failures_from w threshold reason fs states)

refresh-fail :
    (w : String) (threshold : ℕ) (reason : Option String) (at later stamp : ℕ) (s : State)
    → (fail threshold reason at s).1 ≡ true
    → 0 < at
    → let r = refresh w later stamp (some (fail threshold reason at s).0) in
      (r.is_open ≡ leb later (at + default_cooldown_ms))
      × (r.consecutive_failures
          ≡ (if leb later (at + default_cooldown_ms) then suc s.consecutive_failures else 0))
unfolding fail refresh
refresh-fail w threshold reason at later stamp s h pos = ground arith

-- After a failure that trips it, the breaker reads open for exactly five minutes: from then on
-- `getState` closes it and forgets the failures.
pub record_failure-cooldown :
    (w : String) (threshold : ℕ) (reason : Option String) (f : Failure) (later stamp : ℕ)
    (states : States)
    → (record_failure w threshold reason f.now f.stamp f.at states).1 ≡ true
    → 0 < f.at
    → let after = (record_failure w threshold reason f.now f.stamp f.at states).0 in
      let s = (get_state w later stamp after).1 in
      (s.is_open ≡ leb later (f.at + default_cooldown_ms))
      × (s.consecutive_failures ≡ (
          if leb later (f.at + default_cooldown_ms)
          then suc (refresh w f.now f.stamp (Dict.get w states)).consecutive_failures
          else 0))
unfolding get_state
record_failure-cooldown w threshold reason f later stamp states h pos =
    rw (get-record_failure w w threshold reason f.now f.stamp f.at states, str_eq_self w)
      (refresh-fail w threshold reason f.at later stamp _ (unfold record_failure in h) pos)

-- A success and a manual reset both forgive: whatever went before, the breaker stays closed through
-- the next failures as long as they are fewer than the threshold.
pub forgiven :
    (w : String) (threshold : ℕ) (reason : Option String) (fs : List Failure) (states : States)
    (now stamp at : ℕ)
    → length fs < threshold
    → (open_of (Dict.get w (failures w threshold reason fs (record_success w now stamp states)))
        ≡ false)
      × (open_of (Dict.get w (failures w threshold reason fs (reset w now stamp at states)))
          ≡ false)
forgiven w threshold reason fs states now stamp at h = (
  ground (
    arith,
    get-record_success w w now stamp states,
    eq_iff w w,
    failures-trip w threshold reason fs (record_success w now stamp states),
  ),
  ground (
    arith,
    get-reset w w now stamp at states,
    eq_iff w w,
    failures-trip w threshold reason fs (reset w now stamp at states),
  ),
)
