-- ===== src/Automation/Locks/Tests.antt =====
-- The lock theorems at concrete tables.
use infra_inventory.Prelude.{◌≡◌, refl, ◌≢◌, inr, List, [], ◌∷◌, String, arith, eq_iff, All}
use infra_inventory.Prelude.Dict
use infra_inventory.Automation.Locks.{
  Locks, acquired, refused, acquire_lock, release_lock, is_locked, get_active_locks,
}
use infra_inventory.Automation.Locks.Exclusion.{
  Spares, Call, acquires, releases, queries, run, acquire_lock_exclusive,
}

unfolds : Unit {0}
unfolding acquire_lock release_lock is_locked get_active_locks Dict.get Dict.set Dict.delete
unfolds = tt

abbrev busy : Locks
busy = ("db1", record { run_id = "r0"; locked_at = 1000; target = "db1" }) ∷ []

acquire_busy : acquire_lock "db1" "r1" 5000 5000 busy ≡ (busy, refused "r0")
unfolding unfolds
acquire_busy = refl

acquire_expired : (acquire_lock "db1" "r1" 601001 601001 busy).1 ≡ acquired
unfolding unfolds
acquire_expired = refl

active_after :
    get_active_locks 61000 busy ≡ record { target = "db1"; run_id = "r0"; age_seconds = 60 } ∷ []
unfolding unfolds
active_after = refl

r1-ne-r0 : ◌≢◌ {A = String} "r1" "r0"
r1-ne-r0 = ground (arith, eq_iff "r1" "r0")

-- Another run's release, a query and a third run's attempt come between.
abbrev meddling : List Call
meddling = releases "db1" "r1" ∷ queries "db1" 2000 ∷ acquires "db1" "r2" 3000 3000 ∷ []

meddling-Spares :
    All (Spares "db1" (record { run_id = "r0"; locked_at = 1000; target = "db1" })) meddling
meddling-Spares = (inr r1-ne-r0, (omega arith, (omega arith, tt)))

acquire_lock_exclusive_example :
    let locks' = run (acquire_lock "db1" "r0" 1000 1000 []).0 meddling in
    acquire_lock "db1" "r1" 5000 5000 locks' ≡ (locks', refused "r0")
unfolding unfolds
acquire_lock_exclusive_example =
    acquire_lock_exclusive "db1" "r0" "r1" 1000 1000 5000 5000 [] meddling refl meddling-Spares
      (omega arith)
