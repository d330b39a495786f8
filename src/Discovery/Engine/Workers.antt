-- ===== src/Discovery/Engine/Workers.antt =====
-- The workers of a scan: how many are busy, and why one has stopped.
use infra_inventory.Prelude.{
  ℕ, zero, suc, ◌+◌, ◌<◌, ◌≡◌, refl, ap, ◌⊎◌, inl, inr, Bool, true, false, List, [], ◌∷◌, String,
  arith, length,
}
use infra_inventory.Discovery.Engine.{
  Worker, probing, stopped, next_worker, next_rest, launch_workers, launch_rest, worker_at,
  set_worker, all_stopped,
}

pub weight : Worker → ℕ
weight (probing ip) = 1
weight stopped = 0

-- The workers that wait for a probe.
pub busy : List Worker → ℕ
busy [] = 0
busy (v ∷ vs) = weight v + busy vs

pub has_stopped : List Worker → Bool
has_stopped [] = false
has_stopped (probing ip ∷ vs) = has_stopped vs
has_stopped (stopped ∷ vs) = true

pub next-weight :
    (c : Bool) (rest : List String)
    → weight (next_worker c rest) + length (next_rest c rest) ≡ length rest
unfolding weight next_worker next_rest
next-weight c [] = refl
next-weight true (ip ∷ ips) = omega arith
next-weight false (ip ∷ ips) = omega arith

pub launch-busy :
    (n : ℕ) (c : Bool) (ips : List String)
    → busy (launch_workers n c ips) + length (launch_rest n c ips) ≡ length ips
unfolding busy launch_workers launch_rest
launch-busy zero c ips = omega arith
launch-busy (suc n) c ips = omega (arith, next-weight c ips, launch-busy n c (next_rest c ips))

pub launch-length : (n : ℕ) (c : Bool) (ips : List String) → length (launch_workers n c ips) ≡ n
unfolding launch_workers
launch-length zero c ips = refl
launch-length (suc n) c ips = omega (arith, launch-length n c (next_rest c ips))

pub set_worker-busy :
    (w : ℕ) (new : Worker) (ip : String) (vs : List Worker)
    → worker_at w vs ≡ probing ip
    → busy (set_worker w new vs) + 1 ≡ busy vs + weight new
unfolding busy set_worker worker_at weight
set_worker-busy w new ip [] h = absurd cc
set_worker-busy zero new ip (probing _ ∷ vs) h = omega arith
set_worker-busy zero new ip (stopped ∷ vs) h = absurd cc
set_worker-busy (suc w) new ip (v ∷ vs) h = omega (arith, set_worker-busy w new ip vs h)

pub worker_at-busy :
    (w : ℕ) (ip : String) (vs : List Worker) → worker_at w vs ≡ probing ip → 0 < busy vs
unfolding worker_at busy weight
worker_at-busy w ip [] h = absurd cc
worker_at-busy zero ip (probing _ ∷ vs) h = omega arith
worker_at-busy zero ip (stopped ∷ vs) h = absurd cc
worker_at-busy (suc w) ip (v ∷ vs) h = omega (arith, worker_at-busy w ip vs h)

pub set_worker-length :
    (w : ℕ) (new : Worker) (vs : List Worker) → length (set_worker w new vs) ≡ length vs
unfolding set_worker
set_worker-length w new [] = refl
set_worker-length zero new (v ∷ vs) = refl
set_worker-length (suc w) new (v ∷ vs) = omega (arith, set_worker-length w new vs)

set_worker-has_stopped :
    (w : ℕ) (ip : String) (vs : List Worker)
    → has_stopped vs ≡ false
    → has_stopped (set_worker w (probing ip) vs) ≡ false
unfolding set_worker has_stopped
set_worker-has_stopped w ip [] h = refl
set_worker-has_stopped w ip (stopped ∷ vs) h = absurd cc
set_worker-has_stopped zero ip (probing _ ∷ vs) h = h
set_worker-has_stopped (suc w) ip (probing _ ∷ vs) h = set_worker-has_stopped w ip vs h

pub all_stopped-busy : (vs : List Worker) → all_stopped vs ≡ true → busy vs ≡ 0
unfolding all_stopped busy weight
all_stopped-busy [] h = refl
all_stopped-busy (probing ip ∷ vs) h = absurd cc
all_stopped-busy (stopped ∷ vs) h = omega (arith, all_stopped-busy vs h)

pub all_stopped-has_stopped :
    (vs : List Worker) → all_stopped vs ≡ true → 0 < length vs → has_stopped vs ≡ true
unfolding all_stopped has_stopped
all_stopped-has_stopped [] h k = absurd (omega arith)
all_stopped-has_stopped (probing ip ∷ vs) h k = absurd cc
all_stopped-has_stopped (stopped ∷ vs) h k = refl

-- A worker stops by itself only when no address is left.
unfoldable pub Idle : Bool → List Worker → List String → Type 0
Idle c vs rest = (c ≡ true) ⊎ ((has_stopped vs ≡ false) ⊎ (length rest ≡ 0))

pub next-Idle :
    (w : ℕ) (c : Bool) (vs : List Worker) (rest : List String)
    → Idle c vs rest
    → Idle c (set_worker w (next_worker c rest) vs) (next_rest c rest)
unfolding Idle next_worker next_rest
next-Idle w true vs rest h = inl refl
next-Idle w false vs [] h = inr (inr refl)
next-Idle w false vs (ip ∷ ips) (inl h) = absurd cc
next-Idle w false vs (ip ∷ ips) (inr (inl h)) = inr (inl (set_worker-has_stopped w ip vs h))
next-Idle w false vs (ip ∷ ips) (inr (inr h)) = absurd (omega arith)

launch_rest-empty : (n : ℕ) (c : Bool) → launch_rest n c [] ≡ []
unfolding launch_rest next_rest
launch_rest-empty zero c = refl
launch_rest-empty (suc n) c = launch_rest-empty n c

pub launch-Idle :
    (n : ℕ) (c : Bool) (ips : List String) → Idle c (launch_workers n c ips) (launch_rest n c ips)
unfolding Idle launch_workers launch_rest next_worker next_rest has_stopped
launch-Idle n true ips = inl refl
launch-Idle zero false ips = inr (inl refl)
launch-Idle (suc n) false [] = inr (inr (ap length (launch_rest-empty n false)))
launch-Idle (suc n) false (ip ∷ ips) = launch-Idle n false ips

pub busy-all_stopped : (vs : List Worker) → busy vs ≡ 0 → all_stopped vs ≡ true
unfolding busy weight all_stopped
busy-all_stopped [] h = refl
busy-all_stopped (probing ip ∷ vs) h = absurd (omega (arith, h))
busy-all_stopped (stopped ∷ vs) h = busy-all_stopped vs (omega (arith, h))

-- A busy worker can be named.
pub busy-worker_at :
    (vs : List Worker) → 0 < busy vs → (w : ℕ) × (ip : String) × (worker_at w vs ≡ probing ip)
unfolding busy weight worker_at
busy-worker_at [] h = absurd (omega (arith, h))
busy-worker_at (probing ip ∷ vs) h = (0, ip, refl)
busy-worker_at (stopped ∷ vs) h =
    let (w, ip, e) = busy-worker_at vs (omega (arith, h)) in (suc w, ip, e)

pub has_stopped-busy : (vs : List Worker) → has_stopped vs ≡ false → 0 < length vs → 0 < busy vs
unfolding busy weight has_stopped
has_stopped-busy [] h k = absurd (omega (arith, k))
has_stopped-busy (probing ip ∷ vs) h k = omega arith
has_stopped-busy (stopped ∷ vs) h k = absurd cc
