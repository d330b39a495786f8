-- ===== src/Monitoring/Samples.antt =====
-- The services of a sample, and what the probes have answered.
use mathlib.Core.List.{append_assoc, append-nil}
use infra_inventory.Prelude.{
  ℕ, suc, ◌+◌, ◌≤◌, ◌<◌, ◌≢◌, ◌⊎◌, inl, inr, not, ==_iff, ◌≡◌, ◌∙◌, refl, sym, Bool, true, false,
  Option, none, some, List, [], ◌∷◌, ◌++◌, String, arith, ◌==◌, if◌then◌else◌, is_truthy, or_empty,
  subst,
}
use infra_inventory.Prelude.Dict.{Dict}
use infra_inventory.Monitoring.{
  HostHistory, Port, MonitoredMachine, Health, Ping, Answer, Probes, ProbedService, Sample, exceeds,
  service_status, probe, probed, Round, note_port, probe_ports, sample_of, latency_of, round_of,
  collect_at, collect_machine_metrics,
}

-- The probe that a port gets: a request for a page on the ports of the web, in the clear or not, and
-- a connection on any other port.
abbrev pub AnswersAs : Probes → String → ℕ → Answer → Type 0
AnswersAs w ip n a =
    ((n ≡ 80) ⊎ (n ≡ 8080) → a ≡ w.probe_http_service ip n false)
    × ((n ≡ 443) ⊎ (n ≡ 8443) → a ≡ w.probe_http_service ip n true)
    × (n ≢ 80 → n ≢ 8080 → n ≢ 443 → n ≢ 8443 → a ≡ w.probe_port ip n)

-- The health of a service, by whether its port is open, whether the host answers the ping, and the
-- response time.
abbrev pub Rates : (open_ alive : Bool) → Option ℕ → Health → Type 0
Rates false true time h = h ≡ Health.degraded
Rates false false time h = h ≡ Health.critical
Rates true alive none h = h ≡ Health.healthy
Rates true alive (some t) h =
    (t ≤ 150 → h ≡ Health.healthy)
    × (150 < t → t ≤ 400 → h ≡ Health.warning)
    × (400 < t → h ≡ Health.degraded)

-- The service that tells of a port's answer.
abbrev pub Serves : (alive : Bool) → Option ℕ → Port → Answer → ProbedService → Type 0
Serves alive latency p a s =
    (s.port_number ≡ p.port_number)
    × (s.latency ≡ latency)
    × (s.response_time ≡ a.response_time)
    × (s.error_rate ≡ (if a.is_open then 0 else 100))
    × Rates a.is_open alive a.response_time s.status

abbrev pub one_if_closed : Bool → ℕ
one_if_closed true = 0
one_if_closed false = 1

-- The services tell of the ports one by one, and so many of the ports are closed.
abbrev pub Reports : Probes → String → Bool → Option ℕ → List Port → List ProbedService → ℕ → Type 0
Reports w ip alive latency [] [] errors = errors ≡ 0
Reports w ip alive latency [] (s ∷ ss) errors = ⊥
Reports w ip alive latency (p ∷ ps) [] errors = ⊥
Reports w ip alive latency (p ∷ ps) (s ∷ ss) errors =
    (a : Answer) × (rest : ℕ) × AnswersAs w ip p.port_number a
    × Serves alive latency p a s
    × (errors ≡ one_if_closed a.is_open + rest)
    × Reports w ip alive latency ps ss rest

differs : (n k : ℕ) → n ≢ k → (n == k) ≡ false
differs n k h = ground (arith, ==_iff n k)

probe-AnswersAs : (w : Probes) (ip : String) (n : ℕ) → AnswersAs w ip n (probe w ip n)
unfolding probe
probe-AnswersAs w ip n = (
  λ h. elim h [
    | inl e ↦ subst (λ k. probe w ip k ≡ w.probe_http_service ip k false) (sym e) refl
    | inr e ↦ subst (λ k. probe w ip k ≡ w.probe_http_service ip k false) (sym e) refl
  ],
  λ h. elim h [
    | inl e ↦ subst (λ k. probe w ip k ≡ w.probe_http_service ip k true) (sym e) refl
    | inr e ↦ subst (λ k. probe w ip k ≡ w.probe_http_service ip k true) (sym e) refl
  ],
  λ a b c d. rw (differs n 80 a, differs n 8080 b, differs n 443 c, differs n 8443 d) refl,
)

service_status-Rates :
    (alive : Bool) (a : Answer) → Rates a.is_open alive a.response_time (service_status alive a)
unfolding service_status exceeds
service_status-Rates alive a = by_answer a.is_open alive a.response_time
  where
    by_answer :
        (open_ alive : Bool) (time : Option ℕ)
        → Rates open_ alive time (
            if not open_
            then if alive then Health.degraded else Health.critical
            else if exceeds time 400
            then Health.degraded
            else if exceeds time 150
            then Health.warning
            else Health.healthy)
    by_answer false true time = refl
    by_answer false false time = refl
    by_answer true alive none = refl
    by_answer true alive (some t) = (λ h. ground arith, λ h k. ground arith, λ h. ground arith)

-- What the loop adds to a round.
abbrev Adds : Probes → String → Bool → Option ℕ → List Port → Round → Round → Type 0
Adds w ip alive latency ps r r' =
    (ss : List ProbedService) × (errors : ℕ) × (r'.services ≡ r.services ++ ss)
    × (r'.errors ≡ r.errors + errors)
    × Reports w ip alive latency ps ss errors

probe_ports-Adds :
    (w : Probes) (ip : String) (ping : Ping) (latency : Option ℕ) (ps : List Port) (r : Round)
    → Adds w ip ping.is_alive latency ps r (probe_ports w ip ping latency ps r)
unfolding probe_ports note_port probed
probe_ports-Adds w ip ping latency [] r = ([], 0, sym (append-nil r.services), omega arith, refl)
probe_ports-Adds w ip ping latency (p ∷ ps) r =
    let a = probe w ip p.port_number in
    let s = probed ping latency p a in
    let (ss, errors, told, counted, reports) =
      probe_ports-Adds w ip ping latency ps (note_port ping latency p a r) in
    (
      s ∷ ss,
      one_if_closed a.is_open + errors,
      told ∙ append_assoc r.services (s ∷ []) ss,
      counted ∙ one_more a.is_open r.errors errors,
      (a, errors, probe-AnswersAs w ip p.port_number, serves ping latency p a, refl, reports),
    )
  where
    one_more : (b : Bool) (n k : ℕ) → (if b then n else suc n) + k ≡ n + (one_if_closed b + k)
    one_more true n k = omega arith
    one_more false n k = omega arith

    serves :
        (ping : Ping) (latency : Option ℕ) (p : Port) (a : Answer)
        → Serves ping.is_alive latency p a (probed ping latency p a)
    serves ping latency p a = (refl, refl, refl, refl, service_status-Rates ping.is_alive a)

-- What a sample says of the machine at this address.
abbrev pub TellsAt : Probes → String → MonitoredMachine → Sample → Type 0
TellsAt w ip m s =
    (s.machine_id ≡ m.id)
    × ((w.ping_host ip).is_alive ≡ true → s.latency ≡ (w.ping_host ip).latency)
    × ((w.ping_host ip).is_alive ≡ false → s.latency ≡ none)
    × (s.error_rate ≡ (w.ping_host ip).packet_loss)
    × Reports w ip (w.ping_host ip).is_alive s.latency m.ports s.services s.network_errors

abbrev pub Tells : Probes → MonitoredMachine → Sample → Type 0
Tells w m s = TellsAt w (or_empty m.primary_ip) m s

some_inj : (a b : Sample) → some a ≡ some b → a ≡ b
some_inj a b e = cc

sample_of-Tells :
    (w : Probes) (ip : String) (m : MonitoredMachine)
    → TellsAt w ip m (sample_of m (w.ping_host ip) (latency_of (w.ping_host ip)) (round_of w ip m))
unfolding sample_of round_of latency_of
sample_of-Tells w ip m =
    let ping = w.ping_host ip in
    let (ss, errors, told, counted, reports) =
      probe_ports-Adds w ip ping (latency_of ping) m.ports
        (record { services = []; response_times = []; errors = 0 }) in
    (
      refl,
      λ h. rw h refl,
      λ h. rw h refl,
      refl,
      subst (Reports w ip ping.is_alive (latency_of ping) m.ports (round_of w ip m).services)
          (sym (counted ∙ zero_plus errors))
          (subst (λ xs. Reports w ip ping.is_alive (latency_of ping) m.ports xs errors) (sym told)
            reports),
    )
  where
    zero_plus : (n : ℕ) → 0 + n ≡ n
    zero_plus n = omega arith

if-Tells :
    (b : Bool) (w : Probes) (m : MonitoredMachine) (sample s : Sample)
    → Tells w m sample
    → (if b then some sample else none) ≡ some s
    → Tells w m s
if-Tells true w m sample s h e = subst (Tells w m) (some_inj sample s e) h
if-Tells false w m sample s h e = absurd cc

choice_sample :
    (b : Bool) (o : Option Sample × Dict HostHistory) (histories : Dict HostHistory)
    → (if b then o else (none, histories)).0 ≡ (if b then o.0 else none)
choice_sample true o histories = refl
choice_sample false o histories = refl

-- A sample has the id of its machine, the latency and the loss of packets of the ping, without a
-- latency if the host does not answer it, and one service for each port, in order, that tells what
-- the probe for that port has answered: the response time, an error rate of 0 or 100, and the health
-- by the host and the response time. Its network errors are the number of closed ports.
pub collect_machine_metrics-Tells :
    (w : Probes) (m : MonitoredMachine) (histories : Dict HostHistory) (s : Sample)
    → (collect_machine_metrics w m histories).0 ≡ some s
    → Tells w m s
unfolding collect_machine_metrics collect_at
collect_machine_metrics-Tells w m histories s e =
    let ip = or_empty m.primary_ip in
    if-Tells (is_truthy m.primary_ip) w m
      (sample_of m (w.ping_host ip) (latency_of (w.ping_host ip)) (round_of w ip m)) s
      (sample_of-Tells w ip m)
      (sym (choice_sample (is_truthy m.primary_ip) (collect_at w ip m histories) histories) ∙ e)
