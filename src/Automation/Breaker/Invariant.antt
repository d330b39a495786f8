-- ===== src/Automation/Breaker/Invariant.antt =====
-- What holds of every entry of the breaker's map, whatever calls are made.
use infra_inventory.Prelude.{
  ℕ, suc, ◌<◌, leb, ◌&&◌, ◌≡◌, refl, ◌⊎◌, inl, inr, Bool, true, false, Option, none, some, List, [],
  ◌∷◌, String, arith, str_eq, if◌then◌else◌, Bool-cases,
}
use infra_inventory.Prelude.Dict
use infra_inventory.Automation.Breaker.{
  is_cooled, Reason, State, States, refresh, get_state, record_success, fail, record_failure, reset,
}
use infra_inventory.Automation.Breaker.Entries.{
  get-record_failure, get-get_state, get-record_success, get-reset,
}

pub data Call : Type 0 where
  reads succeeds : (w : String) (now stamp : ℕ) → Call
  fails : (w : String) (threshold : ℕ) (reason : Option String) (now stamp at : ℕ) → Call
  resets : (w : String) (now stamp at : ℕ) → Call

pub step : States → Call → States
step states (reads w now stamp) = (get_state w now stamp states).0
step states (succeeds w now stamp) = record_success w now stamp states
step states (fails w threshold reason now stamp at) =
    (record_failure w threshold reason now stamp at states).0
step states (resets w now stamp at) = reset w now stamp at states

pub run : States → List Call → States
run states [] = states
run states (c ∷ cs) = run (step states c) cs

-- A closed breaker gives no reason; an open one gives a reason and the time of its last failure,
-- and has counted a failure.
abbrev pub IsSound : State → Type 0
IsSound s =
    ((s.is_open ≡ false) × (s.tripped_reason ≡ none))
    ⊎ ((s.is_open ≡ true)
        × (0 < s.consecutive_failures)
        × ((t : ℕ) × (s.last_failure_at ≡ some t))
        × ((r : Reason) × (s.tripped_reason ≡ some r)))

abbrev pub EntrySound : Option State → Type 0
EntrySound none = Unit
EntrySound (some s) = IsSound s

refresh-IsSound :
    (w : String) (now stamp : ℕ) (o : Option State) → EntrySound o → IsSound (refresh w now stamp o)
unfolding refresh
refresh-IsSound w now stamp none h = inl (refl, refl)
refresh-IsSound w now stamp (some s) h =
    elim (Bool-cases (s.is_open && is_cooled now s.last_failure_at)) [
      | inl e ↦ rw e (inl (refl, refl))
      | inr e ↦ rw e h
    ]

fail-IsSound :
    (threshold : ℕ) (reason : Option String) (at : ℕ) (s : State)
    → IsSound s
    → IsSound (fail threshold reason at s).0
unfolding fail
fail-IsSound threshold reason at s h =
    elim (Bool-cases (leb threshold (suc s.consecutive_failures))) [
      | inl e ↦ rw e (inr (refl, omega arith, (at, refl), (_, refl)))
      | inr e ↦ rw e (elim h [
        | inl closed ↦ inl closed
        | inr (opened, _, _, reason) ↦ inr (opened, omega arith, (at, refl), reason)
      ])
    ]

-- An entry after an update of the key `w` to a sound state.
EntrySound-if :
    (same : Bool) (s : State) (o : Option State)
    → IsSound s
    → EntrySound o
    → EntrySound (if same then some s else o)
EntrySound-if true s o h k = h
EntrySound-if false s o h k = k

abbrev pub AllSound : States → Type 0
AllSound states = (j : String) → EntrySound (Dict.get j states)

step-AllSound : (states : States) (c : Call) → AllSound states → AllSound (step states c)
unfolding step
step-AllSound states (reads w now stamp) h j =
    rw get-get_state
      (EntrySound-if (str_eq w j) _ _ (refresh-IsSound w now stamp (Dict.get w states) (h w)) (h j))
step-AllSound states (succeeds w now stamp) h j =
    rw get-record_success (EntrySound-if (str_eq w j) _ _ (inl (refl, refl)) (h j))
step-AllSound states (fails w threshold reason now stamp at) h j = rw get-record_failure (
    EntrySound-if (str_eq w j) _ _
      (fail-IsSound threshold reason at _ (refresh-IsSound w now stamp (Dict.get w states) (h w)))
      (h j))
step-AllSound states (resets w now stamp at) h j =
    rw get-reset (EntrySound-if (str_eq w j) _ _ (inl (refl, refl)) (h j))

run-AllSound : (states : States) (cs : List Call) → AllSound states → AllSound (run states cs)
unfolding run
run-AllSound states [] h = h
run-AllSound states (c ∷ cs) h = run-AllSound (step states c) cs (step-AllSound states c h)

-- Whatever calls are made from the empty map, every entry is closed with no reason, or open with a
-- reason, a counted failure and the time of its last failure.
pub run-IsSound : (cs : List Call) → AllSound (run [] cs)
unfolding Dict.get
run-IsSound cs = run-AllSound [] cs (λ j. tt)
