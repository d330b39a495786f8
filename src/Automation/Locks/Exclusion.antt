-- ===== src/Automation/Locks/Exclusion.antt =====
-- Mutual exclusion by the target locks, over histories of calls.
use infra_inventory.Prelude.{
  ℕ, ◌+◌, ◌≤◌, ◌<◌, ◌≡◌, ◌≢◌, ◌⊎◌, inl, inr, true, false, Option, none, some, List, [], ◌∷◌, String,
  arith, eq_iff, if◌then◌else◌, All, Option-cases, Bool-cases,
}
use infra_inventory.Prelude.Dict
use infra_inventory.Prelude.Dict.{get-set, get-delete}
use infra_inventory.Automation.Locks.{
  Lock, Locks, new_lock, default_timeout_ms, is_expired, acquired, refused, acquire_lock,
  release_lock, is_locked,
}

-- The run that holds a target at a time: the abstract view of the table.
abbrev pub live : ℕ → Option Lock → Option String
live now none = none
live now (some lock) = if is_expired now lock then none else some lock.run_id

abbrev pub holder : String → ℕ → Locks → Option String
holder target now locks = live now (Dict.get target locks)

-- `acquireLock` succeeds exactly when no run holds the target, and then makes the run the holder,
-- as of the time stamped; otherwise it names the holder and changes nothing.
pub acquire_lock-holder :
    (target run_id : String) (now stamp : ℕ) (locks : Locks)
    → let (after, answer) = acquire_lock target run_id now stamp locks in
      ((holder target now locks ≡ none)
        × (answer ≡ acquired)
        × (holder target stamp after ≡ some run_id))
      ⊎ ((other : String) × (holder target now locks ≡ some other)
          × (answer ≡ refused other)
          × (after ≡ locks))
unfolding acquire_lock
acquire_lock-holder target run_id now stamp locks = elim (Option-cases (Dict.get target locks)) [
  | inl e ↦ inl (
    ground arith,
    ground arith,
    ground
        (arith, get-set target target (new_lock target run_id stamp) locks, eq_iff target target),
  )
  | inr (lock, e) ↦ elim (Bool-cases (is_expired now lock)) [
    | inl old ↦ inl (
      ground arith,
      ground arith,
      ground
          (arith, get-set target target (new_lock target run_id stamp) locks, eq_iff target target),
    )
    | inr fresh ↦ inr (lock.run_id, ground arith, ground arith, ground arith)
  ]
]

-- The calls of the lock manager, each with its times.
pub data Call : Type 0 where
  acquires : (target run_id : String) (now stamp : ℕ) → Call
  releases : (target run_id : String) → Call
  queries : (target : String) (now : ℕ) → Call

pub step : Locks → Call → Locks
step locks (acquires target run_id now stamp) = (acquire_lock target run_id now stamp locks).0
step locks (releases target run_id) = (release_lock target run_id locks).0
step locks (queries target now) = (is_locked target now locks).0

pub run : Locks → List Call → Locks
run locks [] = locks
run locks (c ∷ cs) = run (step locks c) cs

-- A call that leaves the lock `lock` on `target` alone: it is no release by its run, and comes
-- before the lock expires.
abbrev pub Spares : String → Lock → Call → Type 0
Spares target lock (acquires t r now stamp) = now ≤ lock.locked_at + default_timeout_ms
Spares target lock (releases t r) = (t ≢ target) ⊎ (r ≢ lock.run_id)
Spares target lock (queries t now) = now ≤ lock.locked_at + default_timeout_ms

step-Spares :
    (target : String) (lock : Lock) (locks : Locks) (c : Call)
    → Dict.get target locks ≡ some lock
    → Spares target lock c
    → Dict.get target (step locks c) ≡ some lock
unfolding step acquire_lock release_lock is_locked
step-Spares target lock locks (acquires t r now stamp) e h =
    ground (arith, get-set t target (new_lock t r stamp) locks, eq_iff t target)
step-Spares target lock locks (releases t r) e h =
    ground (arith, get-delete t target locks, eq_iff t target, eq_iff lock.run_id r)
step-Spares target lock locks (queries t now) e h =
    ground (arith, get-delete t target locks, eq_iff t target)

run-Spares :
    (target : String) (lock : Lock) (locks : Locks) (cs : List Call)
    → Dict.get target locks ≡ some lock
    → All (Spares target lock) cs
    → Dict.get target (run locks cs) ≡ some lock
unfolding run
run-Spares target lock locks [] e h = e
run-Spares target lock locks (c ∷ cs) e h =
    run-Spares target lock (step locks c) cs (step-Spares target lock locks c e h.0) h.1

get-acquire_lock :
    (target a : String) (now stamp : ℕ) (locks : Locks)
    → (acquire_lock target a now stamp locks).1 ≡ acquired
    → Dict.get target (acquire_lock target a now stamp locks).0 ≡ some (new_lock target a stamp)
unfolding acquire_lock
get-acquire_lock target a now stamp locks h =
    ground (arith, get-set target target (new_lock target a stamp) locks, eq_iff target target)

acquire_lock_held :
    (target b : String) (now stamp : ℕ) (locks : Locks) (lock : Lock)
    → Dict.get target locks ≡ some lock
    → now ≤ lock.locked_at + default_timeout_ms
    → acquire_lock target b now stamp locks ≡ (locks, refused lock.run_id)
unfolding acquire_lock
acquire_lock_held target b now stamp locks lock e h = ground arith

acquire_lock_expired :
    (target b : String) (now stamp : ℕ) (locks : Locks) (lock : Lock)
    → Dict.get target locks ≡ some lock
    → lock.locked_at + default_timeout_ms < now
    → (acquire_lock target b now stamp locks).1 ≡ acquired
unfolding acquire_lock
acquire_lock_expired target b now stamp locks lock e h = ground arith

-- After a successful acquisition, and whatever calls follow but a release by the holder, every
-- acquisition of the target up to ten minutes after the stamp is refused in the holder's name and
-- changes nothing, provided that the calls between come within these ten minutes too.
pub acquire_lock_exclusive :
    (target a b : String) (now stamp later later_stamp : ℕ) (locks : Locks) (cs : List Call)
    → (acquire_lock target a now stamp locks).1 ≡ acquired
    → All (Spares target (new_lock target a stamp)) cs
    → later ≤ stamp + default_timeout_ms
    → let locks' = run (acquire_lock target a now stamp locks).0 cs in
      acquire_lock target b later later_stamp locks' ≡ (locks', refused a)
acquire_lock_exclusive target a b now stamp later later_stamp locks cs h spares soon =
    refused_while_held
  where
    locks' : Locks
    locks' = run (acquire_lock target a now stamp locks).0 cs

    kept : Dict.get target locks' ≡ some (new_lock target a stamp)
    kept = run-Spares target _ _ cs (get-acquire_lock target a now stamp locks h) spares

    refused_while_held : acquire_lock target b later later_stamp locks' ≡ (locks', refused a)
    refused_while_held = acquire_lock_held target b later later_stamp locks' _ kept soon

-- After a successful acquisition, and whatever calls follow that spare the lock, the holder's
-- release succeeds and leaves nobody holding the target, at any time.
pub release_lock_frees :
    (target a : String) (now stamp : ℕ) (locks : Locks) (cs : List Call)
    → (acquire_lock target a now stamp locks).1 ≡ acquired
    → All (Spares target (new_lock target a stamp)) cs
    → let locks' = run (acquire_lock target a now stamp locks).0 cs in
      ((release_lock target a locks').1 ≡ true)
      × ((t : ℕ) → holder target t (release_lock target a locks').0 ≡ none)
unfolding release_lock
release_lock_frees target a now stamp locks cs h spares = (
  ground (arith, kept, eq_iff a a),
  λ t. ground (arith, kept, eq_iff a a, get-delete target target locks', eq_iff target target),
)
  where
    locks' : Locks
    locks' = run (acquire_lock target a now stamp locks).0 cs

    kept : Dict.get target locks' ≡ some (new_lock target a stamp)
    kept = run-Spares target _ _ cs (get-acquire_lock target a now stamp locks h) spares

-- Once ten minutes have passed since a successful acquisition, another run takes the target over,
-- and the late release of the first run does nothing: the second run stays the holder.
pub release_lock_stale :
    (target a b : String) (now stamp later later_stamp : ℕ) (locks : Locks)
    → a ≢ b
    → (acquire_lock target a now stamp locks).1 ≡ acquired
    → stamp + default_timeout_ms < later
    → let locks' =
        acquire_lock target b later later_stamp (acquire_lock target a now stamp locks).0 in
      (locks'.1 ≡ acquired)
      × (release_lock target a locks'.0 ≡ (locks'.0, false))
      × (holder target later_stamp locks'.0 ≡ some b)
unfolding release_lock
release_lock_stale target a b now stamp later later_stamp locks ne h late =
    (taken, ground (arith, owned, eq_iff b a), ground (arith, owned))
  where
    first :
        Dict.get target (acquire_lock target a now stamp locks).0 ≡ some (new_lock target a stamp)
    first = get-acquire_lock target a now stamp locks h

    taken :
        (acquire_lock target b later later_stamp (acquire_lock target a now stamp locks).0).1
        ≡ acquired
    taken = acquire_lock_expired target b later later_stamp _ _ first late

    owned :
        Dict.get target
          (acquire_lock target b later later_stamp (acquire_lock target a now stamp locks).0).0
        ≡ some (new_lock target b later_stamp)
    owned = get-acquire_lock target b later later_stamp _ taken
