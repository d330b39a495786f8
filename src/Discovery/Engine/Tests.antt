-- ===== src/Discovery/Engine/Tests.antt =====
-- A scan of three hosts by two workers.
use infra_inventory.Prelude.{
  ℕ, ◌<◌, ◌≤◌, ◌≡◌, refl, ◌≢◌, ◌⊎◌, true, false, List, [], ◌∷◌, String, length,
}
use infra_inventory.Prelude.Double.{half_even, scale_of, quotient, multiple, round}
use infra_inventory.Discovery.Engine.{
  ScanStatus, probing, Probe, Event, answers, cancels, ends, next_worker, next_rest, launch_workers,
  launch_rest, actual_concurrency, start_scan, progress_of, note_probe, worker_at, set_worker,
  resume_worker, all_stopped, conclude_as, end_scan, is_final, cancel_as, cancel_scan, step, run,
}
use infra_inventory.Discovery.Engine.Counting.{run-counts}
use infra_inventory.Discovery.Engine.Completion.{Ending, to_events, AreAwaited, run-completes}

unfolds : Unit {0}
unfolding next_worker next_rest launch_workers launch_rest actual_concurrency start_scan progress_of
    note_probe worker_at set_worker resume_worker all_stopped conclude_as end_scan is_final
    cancel_as cancel_scan step run half_even scale_of quotient multiple round
unfolds = tt

-- 29 / 200 * 100 is a double below 14.5.
below_half : progress_of 29 200 ≡ 14
unfolding unfolds
below_half = refl

abbrev hosts : List String
hosts = "10.0.0.1" ∷ "10.0.0.2" ∷ "10.0.0.3" ∷ []

abbrev events : List Event
events =
    answers 1 Probe.online ∷ answers 0 Probe.raised ∷ answers 1 Probe.offline ∷ ends ∷ cancels ∷ []

completes : (run (start_scan 2 false hosts) events).record_of ≡ record {
  status = ScanStatus.completed;
  progress = 100;
  total_hosts = 3;
  scanned_hosts = 3;
  active_hosts = 1;
  discovered_hosts = "10.0.0.2" ∷ [];
}
unfolding unfolds
completes = refl

-- An id that is still among the cancelled ones ends its next scan before the first probe.
stale_cancellation :
    (run (start_scan 2 true hosts) (ends ∷ [])).record_of.status ≡ ScanStatus.cancelled
unfolding unfolds
stale_cancellation = refl

run-counts_example :
    let r = (run (start_scan 2 false hosts) events).record_of in
    (r.total_hosts ≡ length hosts)
    × (r.scanned_hosts ≤ length hosts)
    × (r.active_hosts ≤ r.scanned_hosts)
    × (r.active_hosts ≡ length r.discovered_hosts)
    × ((r.status ≢ ScanStatus.completed) ⊎ ((r.scanned_hosts ≡ length hosts) × (r.progress ≡ 100)))
run-counts_example = run-counts 2 false hosts events

abbrev endings : List Ending
endings = (1, Probe.online) ∷ (0, Probe.raised) ∷ (1, Probe.offline) ∷ []

endings_awaited : AreAwaited (start_scan 2 false hosts) endings
unfolding unfolds AreAwaited
endings_awaited = (("10.0.0.2", refl), (("10.0.0.1", refl), (("10.0.0.3", refl), tt)))

run-completes_example :
    let s = run (start_scan 2 false hosts) (to_events endings) in
    (length endings ≤ length hosts)
    × (length endings < length hosts
        → (w : ℕ) × (ip : String) × (worker_at w s.workers ≡ probing ip))
    × (length endings ≡ length hosts
        → ((step s ends).is_over ≡ true) × ((step s ends).record_of.status ≡ ScanStatus.completed))
run-completes_example = run-completes 2 hosts endings endings_awaited
