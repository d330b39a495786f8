-- ===== src/Discovery/Engine/Completion.antt =====
-- A scan comes to its end when its probes do.
use infra_inventory.Prelude.{
  ℕ, ◌+◌, ◌≤◌, ◌<◌, ◌≡◌, refl, true, false, List, [], ◌∷◌, String, arith, length,
}
use infra_inventory.Discovery.Engine.Workers.{
  busy, next-weight, launch-busy, set_worker-busy, busy-all_stopped, busy-worker_at,
}
use infra_inventory.Discovery.Engine.Counting.{start-Sound, run-Sound, Sound-busy}
use infra_inventory.Discovery.Engine.{
  ScanStatus, Worker, probing, stopped, Probe, Scan, next_worker, actual_concurrency, start_scan,
  worker_at, resume_worker, conclude_as, end_scan, Event, answers, ends, step, run,
}

-- A probe that ends, with the worker that waits for it.
abbrev pub Ending : Type 0
Ending = ℕ × Probe

abbrev pub to_events : List Ending → List Event
to_events [] = []
to_events ((w, probe) ∷ es) = answers w probe ∷ to_events es

-- Each probe that ends is one that a worker waits for.
unfoldable pub AreAwaited : Scan → List Ending → Type 0
AreAwaited s [] = Unit
AreAwaited s ((w, probe) ∷ es) =
    ((ip : String) × (worker_at w s.workers ≡ probing ip))
    × AreAwaited (step s (answers w probe)) es

-- The addresses that are not probed yet, and those that are being probed.
abbrev left : Scan → ℕ
left s = busy s.workers + length s.rest

resume-left :
    (w : ℕ) (probe : Probe) (ip : String) (s : Scan)
    → worker_at w s.workers ≡ probing ip
    → left (resume_worker w probe (probing ip) s) + 1 ≡ left s
unfolding resume_worker
resume-left w probe ip s h = omega (
  arith,
  set_worker-busy w (next_worker s.is_cancelled s.rest) ip s.workers h,
  next-weight s.is_cancelled s.rest,
)

step-left :
    (w : ℕ) (probe : Probe) (ip : String) (s : Scan)
    → worker_at w s.workers ≡ probing ip
    → left (step s (answers w probe)) + 1 ≡ left s
unfolding step
step-left w probe ip s h = rw h (resume-left w probe ip s h)

-- What the answers leave as it is.
abbrev IsRunning : Scan → Type 0
IsRunning s = (s.is_over ≡ false) × (s.is_cancelled ≡ false)

resume-IsRunning :
    (w : ℕ) (probe : Probe) (v : Worker) (s : Scan)
    → IsRunning s
    → IsRunning (resume_worker w probe v s)
unfolding resume_worker
resume-IsRunning w probe stopped s h = h
resume-IsRunning w probe (probing ip) s h = h

step-IsRunning :
    (w : ℕ) (probe : Probe) (s : Scan) → IsRunning s → IsRunning (step s (answers w probe))
unfolding step
step-IsRunning w probe s h = resume-IsRunning w probe (worker_at w s.workers) s h

end-completes :
    (s : Scan)
    → IsRunning s
    → left s ≡ 0
    → ((end_scan s).is_over ≡ true) × ((end_scan s).record_of.status ≡ ScanStatus.completed)
unfolding end_scan conclude_as
end-completes s h none_left =
    rw (busy-all_stopped s.workers (omega (arith, none_left)), h.0, h.1) (refl, refl)

run-left :
    (s : Scan) (es : List Ending)
    → IsRunning s
    → AreAwaited s es
    → (left (run s (to_events es)) + length es ≡ left s) × IsRunning (run s (to_events es))
unfolding run AreAwaited
run-left s [] h awaited = (omega arith, h)
run-left s ((w, probe) ∷ es) h ((ip, waits), awaited) =
    let fewer = step-left w probe ip s waits in
    let rest = run-left (step s (answers w probe)) es (step-IsRunning w probe s h) awaited in
    (omega (arith, fewer, rest.0), rest.1)

start-IsRunning :
    (concurrency : ℕ) (ips : List String) → IsRunning (start_scan concurrency false ips)
unfolding start_scan
start-IsRunning concurrency ips = (refl, refl)

start-left :
    (concurrency : ℕ) (ips : List String) → left (start_scan concurrency false ips) ≡ length ips
unfolding start_scan
start-left concurrency ips = launch-busy (actual_concurrency concurrency ips) false ips

-- A scan that is not cancelled comes to its end, in whatever order the probes end and whatever they
-- find: as long as fewer probes have ended than there are hosts in the range, some worker waits for
-- the probe of an address; no more can end than there are hosts; and once as many have ended, the
-- scan ends as COMPLETED.
pub run-completes :
    (concurrency : ℕ) (ips : List String) (es : List Ending)
    → AreAwaited (start_scan concurrency false ips) es
    → let s = run (start_scan concurrency false ips) (to_events es) in
      (length es ≤ length ips)
      × (length es < length ips → (w : ℕ) × (ip : String) × (worker_at w s.workers ≡ probing ip))
      × (length es ≡ length ips
          → ((step s ends).is_over ≡ true)
            × ((step s ends).record_of.status ≡ ScanStatus.completed))
unfolding step
run-completes concurrency ips es awaited =
    let start = start_scan concurrency false ips in
    let s = run start (to_events es) in
    let (count, running) = run-left start es (start-IsRunning concurrency ips) awaited in
    let all = start-left concurrency ips in
    (
      omega (arith, count, all),
      λ fewer. busy-worker_at s.workers (
          Sound-busy s (run-Sound start (to_events es) (start-Sound concurrency false ips))
            running.0 running.1 (omega (arith, count, all, fewer))),
      λ none_left. end-completes s running (omega (arith, count, all, none_left)),
    )
