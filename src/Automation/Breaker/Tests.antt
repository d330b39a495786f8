-- ===== src/Automation/Breaker/Tests.antt =====
-- The breaker's theorems at concrete histories.
use infra_inventory.Prelude.{ℕ, ◌≡◌, refl, true, none, List, [], ◌∷◌, arith, leb, length}
use infra_inventory.Prelude.Dict
use infra_inventory.Automation.Breaker.{
  fresh, refresh, get_state, record_success, fail, record_failure, reset, get_all_states,
}
use infra_inventory.Automation.Breaker.Trips.{Failure, failures, count_of, open_of, failures-trip}
use infra_inventory.Automation.Breaker.Invariant.{run, reads, fails, AllSound, run-IsSound}

unfolds : Unit {0}
unfolding refresh get_state record_success fail record_failure reset failures Dict.get Dict.set
unfolds = tt

abbrev at : ℕ → Failure
at t = record { now = t; stamp = t; at = t }

abbrev twice : List Failure
twice = at 10 ∷ at 20 ∷ []

trips_at_two : open_of (Dict.get "w" (failures "w" 2 none twice [])) ≡ true
unfolding unfolds
trips_at_two = refl

all_states : get_all_states (failures "w" 5 none [] (("v", fresh "v" 3) ∷ [])) ≡ fresh "v" 3 ∷ []
unfolding unfolds get_all_states
all_states = refl

failures-trip_example :
    let after = failures "w" 2 none twice [] in
    (count_of (Dict.get "w" after) ≡ length twice)
    × (open_of (Dict.get "w" after) ≡ leb 2 (length twice))
unfolding unfolds
failures-trip_example = failures-trip "w" 2 none twice [] refl refl (omega arith) (omega arith)

run-IsSound_example : AllSound (run [] (fails "w" 1 none 10 10 10 ∷ reads "w" 20 20 ∷ []))
run-IsSound_example = run-IsSound (fails "w" 1 none 10 10 10 ∷ reads "w" 20 20 ∷ [])
