-- ===== src/Automation/Locks/Ownership.antt =====
-- Whose entry stands in the table of locks, expired or not.
use infra_inventory.Prelude.{
  ℕ, ◌≡◌, ◌≢◌, Bool, true, false, Option, none, some, String, arith, str_eq, eq_iff,
}
use infra_inventory.Prelude.Dict
use infra_inventory.Prelude.Dict.{get-set, get-delete}
use infra_inventory.Automation.Locks.{
  Lock, Locks, new_lock, acquired, refused, acquire_lock, release_lock,
}

abbrev pub entry_owned : String → Option Lock → Bool
entry_owned run_id none = false
entry_owned run_id (some lock) = str_eq lock.run_id run_id

abbrev pub owned : String → String → Locks → Bool
owned target run_id locks = entry_owned run_id (Dict.get target locks)

pub owned-release_lock :
    (target run_id : String) (locks : Locks)
    → owned target run_id (release_lock target run_id locks).0 ≡ false
unfolding release_lock
owned-release_lock target run_id locks =
    ground (arith, get-delete target target locks, eq_iff target target)

pub get-release_lock :
    (target run_id j : String) (locks : Locks)
    → target ≢ j
    → Dict.get j (release_lock target run_id locks).0 ≡ Dict.get j locks
unfolding release_lock
get-release_lock target run_id j locks h =
    ground (arith, get-delete target j locks, eq_iff target j)

pub owned-acquire_lock :
    (target run_id : String) (now stamp : ℕ) (locks : Locks)
    → (acquire_lock target run_id now stamp locks).1 ≡ acquired
    → owned target run_id (acquire_lock target run_id now stamp locks).0 ≡ true
unfolding acquire_lock
owned-acquire_lock target run_id now stamp locks h = ground (
  arith,
  get-set target target (new_lock target run_id stamp) locks,
  eq_iff target target,
  eq_iff run_id run_id,
)

pub acquire_lock-refused :
    (target run_id holder : String) (now stamp : ℕ) (locks : Locks)
    → (acquire_lock target run_id now stamp locks).1 ≡ refused holder
    → (acquire_lock target run_id now stamp locks).0 ≡ locks
unfolding acquire_lock
acquire_lock-refused target run_id holder now stamp locks h = ground arith
