-- ===== src/Monitoring.antt =====
-- The engine of the monitoring worker, monitoring-worker/src/collector/engine.ts. The probes of
-- collector/prober.ts are a parameter of each sample. A latency is a whole number of half
-- milliseconds, as the prober computes it, a response time one of milliseconds, and the average
-- response time one of tenths of a millisecond. The estimates of the network load, which are
-- random, and the texts of a sample are left out.
pub mod Windows
pub mod HealthState
pub mod Samples
mod Tests
use infra_inventory.Prelude.{
  ℕ, suc, ◌+◌, ◌*◌, ◌/◌, Bool, true, false, not, ◌&&◌, ◌||◌, Option, none, some, List, [], ◌∷◌,
  ◌++◌, String, ltb, ◌==◌, str_eq, if◌then◌else◌, length, is_truthy, or_empty,
}
use infra_inventory.Prelude.Dict
use infra_inventory.Prelude.Double.{quotient, to_fixed_tenths}
use infra_inventory.Prelude.Dict.{Dict}

pub record HostHistory : Type 0 where
  pub latencies : List ℕ
  pub response_times : List ℕ
  pub error_counts : List ℕ

pub record Port : Type 0 where
  pub port_number : ℕ
  pub service_name : Option String

pub record MonitoredMachine : Type 0 where
  pub id : String
  pub primary_ip : Option String
  pub ports : List Port

pub data Health : Type 0 where
  healthy warning degraded critical : Health

pub record Ping : Type 0 where
  pub is_alive : Bool
  pub latency : Option ℕ
  pub packet_loss : ℕ

pub record Answer : Type 0 where
  pub is_open : Bool
  pub response_time : Option ℕ

-- What the probes find, by address.
pub record Probes : Type 0 where
  pub ping_host : String → Ping
  pub probe_port : String → ℕ → Answer
  pub probe_http_service : String → ℕ → (is_ssl : Bool) → Answer

pub record ProbedService : Type 0 where
  pub port_number : ℕ
  pub status : Health
  pub latency : Option ℕ
  pub response_time : Option ℕ
  pub error_rate : ℕ

pub record Sample : Type 0 where
  pub machine_id : String
  pub network_errors : ℕ
  pub latency : Option ℕ
  pub response_time : Option ℕ
  pub error_rate : ℕ
  pub active_connections : ℕ
  pub health_state : Health
  pub services : List ProbedService

-- `a && a > bound`
unfoldable pub exceeds : Option ℕ → ℕ → Bool
exceeds none bound = false
exceeds (some a) bound = ltb bound a

-- The three kinds of probes, by the port's number.
unfoldable pub probe : Probes → String → ℕ → Answer
probe w ip n =
    if (n == 80) || (n == 8080)
    then w.probe_http_service ip n false
    else if (n == 443) || (n == 8443)
    then w.probe_http_service ip n true
    else w.probe_port ip n

unfoldable pub service_status : Bool → Answer → Health
service_status is_host_alive a =
    if not a.is_open
    then if is_host_alive then Health.degraded else Health.critical
    else if exceeds a.response_time 400
    then Health.degraded
    else if exceeds a.response_time 150
    then Health.warning
    else Health.healthy

unfoldable pub probed : Ping → Option ℕ → Port → Answer → ProbedService
probed ping latency p a = record {
  port_number = p.port_number;
  status = service_status ping.is_alive a;
  latency = latency;
  response_time = a.response_time;
  error_rate = if a.is_open then 0 else 100;
}

-- The loop over the ports: the services, the response times and the number of errors.
pub record Round : Type 0 where
  pub services : List ProbedService
  pub response_times : List ℕ
  pub errors : ℕ

unfoldable pub push_time : Option ℕ → List ℕ → List ℕ
push_time none times = times
push_time (some t) times = times ++ (t ∷ [])

unfoldable pub note_port : Ping → Option ℕ → Port → Answer → Round → Round
note_port ping latency p a r = record {
  services = r.services ++ (probed ping latency p a ∷ []);
  response_times = push_time a.response_time r.response_times;
  errors = if a.is_open then r.errors else suc r.errors;
}

unfoldable pub probe_ports : Probes → String → Ping → Option ℕ → List Port → Round → Round
probe_ports w ip ping latency [] r = r
probe_ports w ip ping latency (p ∷ ps) r =
    probe_ports w ip ping latency ps (note_port ping latency p (probe w ip p.port_number) r)

unfoldable pub sum : List ℕ → ℕ
sum [] = 0
sum (t ∷ ts) = t + sum ts

-- `Number((sum / n).toFixed(1))`, in tenths, with the quotient of doubles.
unfoldable pub average : List ℕ → Option ℕ
average [] = none
average (t ∷ ts) = some (to_fixed_tenths (quotient (sum (t ∷ ts)) (length (t ∷ ts))))

-- `push`, and `shift` when there are more than ten.
unfoldable pub shift_over : List ℕ → List ℕ
shift_over [] = []
shift_over (x ∷ xs) = if ltb 10 (length (x ∷ xs)) then xs else x ∷ xs

unfoldable pub push_window : List ℕ → ℕ → List ℕ
push_window xs x = shift_over (xs ++ (x ∷ []))

unfoldable pub push_known : List ℕ → Option ℕ → List ℕ
push_known xs none = xs
push_known xs (some x) = push_window xs x

unfoldable pub no_history : HostHistory
no_history = record { latencies = []; response_times = []; error_counts = [] }

unfoldable pub history_of : Option HostHistory → HostHistory
history_of none = no_history
history_of (some h) = h

unfoldable pub note_sample : Option ℕ → Option ℕ → ℕ → HostHistory → HostHistory
note_sample latency avg errors h = record {
  latencies = push_known h.latencies latency;
  response_times = push_known h.response_times avg;
  error_counts = push_window h.error_counts errors;
}

unfoldable pub health_state : Bool → Option ℕ → Option ℕ → ℕ → Health
health_state is_host_alive latency avg errors =
    if not is_host_alive && ltb 0 errors
    then Health.critical
    else if exceeds latency 600
    then Health.degraded
    else if exceeds avg 5000
    then Health.degraded
    else if exceeds latency 200 || exceeds avg 2000 || ltb 0 errors
    then Health.warning
    else Health.healthy

unfoldable pub is_healthy : Health → Bool
is_healthy Health.healthy = true
is_healthy _ = false

unfoldable pub healthy_services : List ProbedService → ℕ
healthy_services [] = 0
healthy_services (s ∷ ss) = (if is_healthy s.status then 1 else 0) + healthy_services ss

unfoldable pub sample_of : MonitoredMachine → Ping → Option ℕ → Round → Sample
sample_of m ping latency r = record {
  machine_id = m.id;
  network_errors = r.errors;
  latency = latency;
  response_time = average r.response_times;
  error_rate = ping.packet_loss;
  active_connections = if ping.is_alive then healthy_services r.services * 4 + 2 else 0;
  health_state = health_state ping.is_alive latency (average r.response_times) r.errors;
  services = r.services;
}

unfoldable pub latency_of : Ping → Option ℕ
latency_of ping = if ping.is_alive then ping.latency else none

unfoldable pub round_of : Probes → String → MonitoredMachine → Round
round_of w ip m =
    probe_ports w ip (w.ping_host ip) (latency_of (w.ping_host ip)) m.ports
      (record { services = []; response_times = []; errors = 0 })

unfoldable pub collect_at :
    Probes → String → MonitoredMachine → Dict HostHistory → Option Sample × Dict HostHistory
collect_at w ip m histories =
    let latency = latency_of (w.ping_host ip) in
    let r = round_of w ip m in
    let h =
      note_sample latency (average r.response_times) r.errors
        (history_of (Dict.get m.id histories)) in
    (some (sample_of m (w.ping_host ip) latency r), Dict.set m.id h histories)

unfoldable pub collect_machine_metrics :
    Probes → MonitoredMachine → Dict HostHistory → Option Sample × Dict HostHistory
collect_machine_metrics w m histories =
    if is_truthy m.primary_ip
    then collect_at w (or_empty m.primary_ip) m histories
    else (none, histories)

unfoldable pub some_or_skip : Option Sample → List Sample → List Sample
some_or_skip none ss = ss
some_or_skip (some s) ss = s ∷ ss

-- The samples of the machines; each touches the history of its own machine only.
unfoldable pub collect_all :
    Probes → List MonitoredMachine → Dict HostHistory → List Sample × Dict HostHistory
collect_all w [] histories = ([], histories)
collect_all w (m ∷ ms) histories =
    let (sample, after) = collect_machine_metrics w m histories in
    let (samples, last) = collect_all w ms after in (some_or_skip sample samples, last)

-- A cycle: the number of samples that the backend took, and those posted; `post` tells whether it
-- took them.
unfoldable pub run_monitoring_cycle :
    Probes
    → List MonitoredMachine
    → (post : List Sample → Bool) → Dict HostHistory
    → ℕ × Dict HostHistory
run_monitoring_cycle w machines post histories =
    let (samples, after) = collect_all w machines histories in
    (if length samples == 0 then 0 else if post samples then length samples else 0, after)
