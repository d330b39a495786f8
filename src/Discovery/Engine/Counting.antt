-- ===== src/Discovery/Engine/Counting.antt =====
-- What the counters of a scan say, whatever the order in which the probes end.
use infra_inventory.Prelude.{
  ℕ, suc, ◌+◌, ◌≤◌, ◌<◌, min, max, ◌≡◌, refl, sym, ◌∙◌, ◌≢◌, ◌⊎◌, inl, inr, Bool, true, false, not,
  ◌&&◌, List, [], ◌∷◌, String, arith, if◌then◌else◌, length, length-append, and_both,
}
use infra_inventory.Discovery.Engine.Workers.{
  busy, next-weight, launch-busy, launch-length, set_worker-busy, worker_at-busy, set_worker-length,
  all_stopped-busy, all_stopped-has_stopped, has_stopped-busy, Idle, next-Idle, launch-Idle,
}
use infra_inventory.Discovery.Engine.{
  ScanStatus, ScanProgress, Worker, probing, stopped, Probe, Scan, next_worker, actual_concurrency,
  start_scan, note_probe, worker_at, resume_worker, all_stopped, conclude_as, end_scan, is_final,
  cancel_as, cancel_scan, Event, answers, cancels, ends, step, run,
}

-- What the bookkeeping of a probe changes.
note-counts :
    (ip : String) (probe : Probe) (s : ScanProgress)
    → ((note_probe ip probe s).scanned_hosts ≡ suc s.scanned_hosts)
      × ((note_probe ip probe s).total_hosts ≡ s.total_hosts)
      × (s.active_hosts ≡ length s.discovered_hosts
          → (note_probe ip probe s).active_hosts ≡ length (note_probe ip probe s).discovered_hosts)
      × ((note_probe ip probe s).active_hosts ≤ suc s.active_hosts)
      × ((note_probe ip probe s).status ≡ s.status)
unfolding note_probe
note-counts ip Probe.online s =
    (refl, refl, λ e. omega (arith, length-append s.discovered_hosts (ip ∷ [])), omega arith, refl)
note-counts ip Probe.offline s = (refl, refl, λ e. e, omega arith, refl)
note-counts ip Probe.raised s = (refl, refl, λ e. e, omega arith, refl)

cancelled-Idle : (vs : List Worker) (rest : List String) → Idle true vs rest
unfolding Idle
cancelled-Idle vs rest = inl refl

-- What holds of a scan at every moment.
pub record Sound (s : Scan) : Type 0 where
  pub count : s.record_of.scanned_hosts + busy s.workers + length s.rest ≡ s.record_of.total_hosts
  pub found : s.record_of.active_hosts ≡ length s.record_of.discovered_hosts
  pub active : s.record_of.active_hosts ≤ s.record_of.scanned_hosts
  pub some_worker : 0 < length s.workers
  pub idle : (s.is_over ≡ true) ⊎ Idle s.is_cancelled s.workers s.rest
  pub over : (s.is_over ≡ false) ⊎ (busy s.workers ≡ 0)
  pub done :
      (s.record_of.status ≢ ScanStatus.completed)
      ⊎ ((s.is_over ≡ true)
          × (s.record_of.scanned_hosts ≡ s.record_of.total_hosts)
          × (s.record_of.progress ≡ 100))

pub start-Sound : (n : ℕ) (c : Bool) (ips : List String) → Sound (start_scan n c ips)
unfolding start_scan actual_concurrency
start-Sound n c ips = record {
  count = omega (arith, launch-busy (max 1 (min n (length ips))) c ips);
  found = refl;
  active = omega arith;
  some_worker = omega (arith, launch-length (max 1 (min n (length ips))) c ips);
  idle = inr (launch-Idle (max 1 (min n (length ips))) c ips);
  over = inl refl;
  done = inl (λ e. cc);
}

running :
    (w : ℕ) (ip : String) (s : Scan)
    → Sound s
    → worker_at w s.workers ≡ probing ip
    → s.is_over ≡ false
running w ip s k h = elim k.over [
  | inl e ↦ e
  | inr z ↦ absurd (omega (arith, z, worker_at-busy w ip s.workers h))
]

resume-Sound :
    (w : ℕ) (probe : Probe) (v : Worker) (s : Scan)
    → worker_at w s.workers ≡ v
    → Sound s
    → Sound (resume_worker w probe v s)
unfolding resume_worker
resume-Sound w probe stopped s h k = k
resume-Sound w probe (probing ip) s h k =
    let b = set_worker-busy w (next_worker s.is_cancelled s.rest) ip s.workers h in
    let l = set_worker-length w (next_worker s.is_cancelled s.rest) s.workers in
    let m = next-weight s.is_cancelled s.rest in
    let (n, t, f, a, st) = note-counts ip probe s.record_of in
    record {
      count = omega (arith, b, m, n, t, k.count);
      found = f k.found;
      active = omega (arith, a, n, k.active);
      some_worker = omega (arith, l, k.some_worker);
      idle = elim k.idle [
        | inl e ↦ inl e
        | inr i ↦ inr (next-Idle w s.is_cancelled s.workers s.rest i)
      ];
      over = inl (running w ip s k h);
      done = elim k.done [
        | inl ne ↦ inl (λ e. ne (sym st ∙ e))
        | inr (o, _, _) ↦ absurd (cc (o, running w ip s k h))
      ];
    }

-- While addresses are left in a scan that is not cancelled, some worker is busy.
pub Sound-busy :
    (s : Scan)
    → Sound s
    → s.is_over ≡ false
    → s.is_cancelled ≡ false
    → 0 < busy s.workers + length s.rest
    → 0 < busy s.workers
unfolding Idle
Sound-busy s k o c some_left = elim k.idle [
  | inl e ↦ absurd cc
  | inr (inl e) ↦ absurd cc
  | inr (inr (inl e)) ↦ has_stopped-busy s.workers e k.some_worker
  | inr (inr (inr e)) ↦ omega (arith, e, some_left)
]

-- A scan whose workers have all stopped without a cancellation has scanned everything.
all_scanned :
    (s : Scan)
    → Sound s
    → all_stopped s.workers ≡ true
    → s.is_over ≡ false
    → s.is_cancelled ≡ false
    → s.record_of.scanned_hosts ≡ s.record_of.total_hosts
unfolding Idle
all_scanned s k a o c = elim k.idle [
  | inl e ↦ absurd cc
  | inr (inl e) ↦ absurd cc
  | inr (inr (inl e)) ↦ absurd (cc (e, all_stopped-has_stopped s.workers a k.some_worker))
  | inr (inr (inr e)) ↦ omega (arith, e, k.count, all_stopped-busy s.workers a)
]

conclude-Sound :
    (b : Bool) (s : Scan)
    → s.is_cancelled ≡ b
    → Sound s
    → all_stopped s.workers ≡ true
    → s.is_over ≡ false
    → Sound (conclude_as b s)
unfolding conclude_as
conclude-Sound true s c k a o = record {
  count = k.count;
  found = k.found;
  active = k.active;
  some_worker = k.some_worker;
  idle = inl refl;
  over = inr (all_stopped-busy s.workers a);
  done = inl (λ e. cc);
}
conclude-Sound false s c k a o = record {
  count = k.count;
  found = k.found;
  active = k.active;
  some_worker = k.some_worker;
  idle = inl refl;
  over = inr (all_stopped-busy s.workers a);
  done = inr (refl, all_scanned s k a o c, refl);
}

-- Whether the workers have stopped, and then the end.
end-Sound :
    (s : Scan) (b : Bool)
    → all_stopped s.workers && not s.is_over ≡ b
    → Sound s
    → Sound (if b then conclude_as s.is_cancelled s else s)
end-Sound s true e k =
    let (a, o) = and_both _ _ e in conclude-Sound s.is_cancelled s refl k a (ground arith)
end-Sound s false e k = k

cancel-Sound : (b : Bool) (s : Scan) → Sound s → Sound (cancel_as b s).0
unfolding cancel_as
cancel-Sound true s k = k
cancel-Sound false s k = record {
  count = k.count;
  found = k.found;
  active = k.active;
  some_worker = k.some_worker;
  idle = inr (cancelled-Idle s.workers s.rest);
  over = k.over;
  done = inl (λ e. cc);
}

step-Sound : (s : Scan) (e : Event) → Sound s → Sound (step s e)
unfolding step end_scan cancel_scan
step-Sound s (answers w probe) k = resume-Sound w probe (worker_at w s.workers) s refl k
step-Sound s cancels k = cancel-Sound (is_final s.record_of.status) s k
step-Sound s ends k = end-Sound s (all_stopped s.workers && not s.is_over) refl k

pub run-Sound : (s : Scan) (es : List Event) → Sound s → Sound (run s es)
unfolding run
run-Sound s [] k = k
run-Sound s (e ∷ es) k = run-Sound (step s e) es (step-Sound s e k)

-- The number of hosts in the range does not change.
Keeps : Scan → Scan → Type 0
Keeps s t = t.record_of.total_hosts ≡ s.record_of.total_hosts

resume-Keeps : (w : ℕ) (probe : Probe) (v : Worker) (s : Scan) → Keeps s (resume_worker w probe v s)
unfolding Keeps resume_worker
resume-Keeps w probe stopped s = refl
resume-Keeps w probe (probing ip) s = (note-counts ip probe s.record_of).1

conclude-total :
    (b : Bool) (s : Scan) → (conclude_as b s).record_of.total_hosts ≡ s.record_of.total_hosts
unfolding conclude_as
conclude-total true s = refl
conclude-total false s = refl

cancel-Keeps : (b : Bool) (s : Scan) → Keeps s (cancel_as b s).0
unfolding Keeps cancel_as
cancel-Keeps true s = refl
cancel-Keeps false s = refl

end-Keeps : (b : Bool) (s : Scan) → Keeps s (if b then conclude_as s.is_cancelled s else s)
unfolding Keeps
end-Keeps true s = conclude-total s.is_cancelled s
end-Keeps false s = refl

step-Keeps : (s : Scan) (e : Event) → Keeps s (step s e)
unfolding step end_scan cancel_scan
step-Keeps s (answers w probe) = resume-Keeps w probe (worker_at w s.workers) s
step-Keeps s cancels = cancel-Keeps (is_final s.record_of.status) s
step-Keeps s ends = end-Keeps (all_stopped s.workers && not s.is_over) s

run-total :
    (s : Scan) (es : List Event) → (run s es).record_of.total_hosts ≡ s.record_of.total_hosts
unfolding run Keeps
run-total s [] = refl
run-total s (e ∷ es) = run-total (step s e) es ∙ step-Keeps s e

start-total :
    (n : ℕ) (c : Bool) (ips : List String) → (start_scan n c ips).record_of.total_hosts ≡ length ips
unfolding start_scan
start-total n c ips = refl

-- In whatever order the probes of the workers end, and whenever the scan is cancelled or ends: the
-- hosts scanned are at most those of the range, the active ones at most those scanned, and as many as
-- are listed; and a scan that is reported COMPLETED has scanned every host of the range, with
-- progress 100.
pub run-counts :
    (concurrency : ℕ) (is_cancelled : Bool) (ips : List String) (es : List Event)
    → let r = (run (start_scan concurrency is_cancelled ips) es).record_of in
      (r.total_hosts ≡ length ips)
      × (r.scanned_hosts ≤ length ips)
      × (r.active_hosts ≤ r.scanned_hosts)
      × (r.active_hosts ≡ length r.discovered_hosts)
      × ((r.status ≢ ScanStatus.completed) ⊎ ((r.scanned_hosts ≡ length ips) × (r.progress ≡ 100)))
run-counts concurrency is_cancelled ips es =
    let k =
      run-Sound (start_scan concurrency is_cancelled ips) es
        (start-Sound concurrency is_cancelled ips) in
    let t =
      run-total (start_scan concurrency is_cancelled ips) es
      ∙ start-total concurrency is_cancelled ips in
    (
      t,
      omega (arith, t, k.count),
      k.active,
      k.found,
      elim k.done [ inl ne ↦ inl ne | inr (_, all, full) ↦ inr (all ∙ t, full) ],
    )
