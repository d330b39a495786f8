-- ===== src/Discovery/Engine.antt =====
-- One scan of the discovery engine, discovery/src/scanner/engine.ts: the workers that share the list
-- of addresses, interleaved at their `await`, and the cancellation that may come between. A host is
-- known by its address; dates, durations and the ports to probe are left out.
mod Workers
pub mod Counting
pub mod Completion
mod Tests
use infra_inventory.Prelude.{
  ℕ, zero, suc, ◌+◌, ◌*◌, ◌/◌, min, max, Bool, true, false, not, ◌&&◌, ◌||◌, List, [], ◌∷◌, ◌++◌,
  String, if◌then◌else◌, length,
}
use infra_inventory.Prelude.Double.{quotient, multiple, round}

pub data ScanStatus : Type 0 where
  pending running completed cancelled failed : ScanStatus

-- The fields of ScanProgress that the engine computes.
pub record ScanProgress : Type 0 where
  pub status : ScanStatus
  pub progress : ℕ
  pub total_hosts : ℕ
  pub scanned_hosts : ℕ
  pub active_hosts : ℕ
  pub discovered_hosts : List String

-- A worker waits for the probe of an address, or its loop has ended.
pub data Worker : Type 0 where
  probing : String → Worker
  stopped : Worker

-- How a probe ends.
pub data Probe : Type 0 where
  online offline raised : Probe

-- A scan with its workers: `rest` are the addresses from `currentIndex` on, `is_cancelled` says that
-- the id is in `cancelledScans`, and `is_over` that `runScanWorker` has returned.
pub record Scan : Type 0 where
  pub record_of : ScanProgress
  pub rest : List String
  pub workers : List Worker
  pub is_cancelled : Bool
  pub is_over : Bool

-- The head of the loop: the next address to probe, unless there is none or the scan is cancelled.
pub next_worker : Bool → List String → Worker
next_worker is_cancelled [] = stopped
next_worker is_cancelled (ip ∷ ips) = if is_cancelled then stopped else probing ip

pub next_rest : Bool → List String → List String
next_rest is_cancelled [] = []
next_rest is_cancelled (ip ∷ ips) = if is_cancelled then ip ∷ ips else ips

-- The workers start one after the other, each up to its first probe.
pub launch_workers : ℕ → Bool → List String → List Worker
launch_workers zero is_cancelled ips = []
launch_workers (suc n) is_cancelled ips =
    next_worker is_cancelled ips ∷ launch_workers n is_cancelled (next_rest is_cancelled ips)

pub launch_rest : ℕ → Bool → List String → List String
launch_rest zero is_cancelled ips = ips
launch_rest (suc n) is_cancelled ips = launch_rest n is_cancelled (next_rest is_cancelled ips)

pub actual_concurrency : ℕ → List String → ℕ
actual_concurrency concurrency ips = max 1 (min concurrency (length ips))

-- `startScan` after the parsing of the range; the id may be in `cancelledScans` already.
pub start_scan : ℕ → Bool → List String → Scan
start_scan concurrency is_cancelled ips =
    let n = actual_concurrency concurrency ips in
    record {
      record_of = record {
        status = ScanStatus.running;
        progress = 0;
        total_hosts = length ips;
        scanned_hosts = 0;
        active_hosts = 0;
        discovered_hosts = [];
      };
      rest = launch_rest n is_cancelled ips;
      workers = launch_workers n is_cancelled ips;
      is_cancelled = is_cancelled;
      is_over = false;
    }

-- `Math.min(99, Math.round((scannedHosts / Math.max(1, totalHosts)) * 100))`, with doubles.
pub progress_of : ℕ → ℕ → ℕ
progress_of scanned total = min 99 (round (multiple (quotient scanned (max 1 total)) 100))

-- The bookkeeping after a probe; a probe that raises moves the count only.
pub note_probe : String → Probe → ScanProgress → ScanProgress
note_probe ip Probe.online s = record s {
  scanned_hosts = suc s.scanned_hosts;
  progress = progress_of (suc s.scanned_hosts) s.total_hosts;
  active_hosts = suc s.active_hosts;
  discovered_hosts = s.discovered_hosts ++ (ip ∷ []);
}
note_probe ip Probe.offline s = record s {
  scanned_hosts = suc s.scanned_hosts;
  progress = progress_of (suc s.scanned_hosts) s.total_hosts;
}
note_probe ip Probe.raised s = record s { scanned_hosts = suc s.scanned_hosts }

pub worker_at : ℕ → List Worker → Worker
worker_at w [] = stopped
worker_at zero (v ∷ vs) = v
worker_at (suc w) (v ∷ vs) = worker_at w vs

pub set_worker : ℕ → Worker → List Worker → List Worker
set_worker w new [] = []
set_worker zero new (v ∷ vs) = new ∷ vs
set_worker (suc w) new (v ∷ vs) = v ∷ set_worker w new vs

-- A probe ends: the worker notes it and goes on to its next probe or its end, without a pause.
pub resume_worker : ℕ → Probe → Worker → Scan → Scan
resume_worker w probe stopped s = s
resume_worker w probe (probing ip) s = record s {
  record_of = note_probe ip probe s.record_of;
  rest = next_rest s.is_cancelled s.rest;
  workers = set_worker w (next_worker s.is_cancelled s.rest) s.workers;
}

pub all_stopped : List Worker → Bool
all_stopped [] = true
all_stopped (probing ip ∷ ws) = false
all_stopped (stopped ∷ ws) = all_stopped ws

-- The end of `runScanWorker`, by the test whether the scan is cancelled.
pub conclude_as : Bool → Scan → Scan
conclude_as true s = record s {
  record_of = record s.record_of { status = ScanStatus.cancelled };
  is_cancelled = false;
  is_over = true;
}
conclude_as false s = record s {
  record_of = record s.record_of { status = ScanStatus.completed; progress = 100 };
  is_over = true;
}

-- `Promise.all` resolves when every worker has stopped.
pub end_scan : Scan → Scan
end_scan s = if all_stopped s.workers && not s.is_over then conclude_as s.is_cancelled s else s

pub is_final : ScanStatus → Bool
is_final ScanStatus.completed = true
is_final ScanStatus.failed = true
is_final _ = false

-- The rest of `cancelScan`, by the test whether the scan has completed or failed.
pub cancel_as : Bool → Scan → Scan × Bool
cancel_as true s = (s, false)
cancel_as false s = (
  record s {
    record_of = record s.record_of { status = ScanStatus.cancelled };
    is_cancelled = true;
  },
  true,
)

pub cancel_scan : Scan → Scan × Bool
cancel_scan s = cancel_as (is_final s.record_of.status) s

pub data Event : Type 0 where
  answers : (w : ℕ) → Probe → Event
  cancels : Event
  ends : Event

pub step : Scan → Event → Scan
step s (answers w probe) = resume_worker w probe (worker_at w s.workers) s
step s cancels = (cancel_scan s).0
step s ends = end_scan s

pub run : Scan → List Event → Scan
run s [] = s
run s (e ∷ es) = run (step s e) es
