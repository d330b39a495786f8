-- ===== src/Monitoring/HealthState.antt =====
-- The health of a machine.
use infra_inventory.Prelude.{
  ℕ, ◌≤◌, ◌≡◌, refl, Bool, true, false, Option, none, some, [], arith, is_truthy, or_empty,
}
use infra_inventory.Prelude.Dict.{Dict}
use infra_inventory.Monitoring.{
  HostHistory, MonitoredMachine, Health, Probes, Sample, exceeds, probe_ports, average,
  health_state, sample_of, latency_of, round_of, collect_at, collect_machine_metrics,
}

abbrev pub rank : Health → ℕ
rank Health.healthy = 0
rank Health.warning = 1
rank Health.degraded = 2
rank Health.critical = 3

-- No measurement is below any other.
abbrev pub AtMost : Option ℕ → Option ℕ → Type 0
AtMost none b = Unit
AtMost (some x) none = ⊥
AtMost (some x) (some y) = x ≤ y

exceeds-AtMost :
    (a b : Option ℕ) (bound : ℕ) → AtMost a b → exceeds a bound ≡ true → exceeds b bound ≡ true
unfolding exceeds
exceeds-AtMost none b bound h e = absurd cc
exceeds-AtMost (some x) none bound h e = absurd h
exceeds-AtMost (some x) (some y) bound h e = ground arith

-- With a host as alive as before, no greater latency, no greater average response time and no more
-- errors ever make the health worse.
pub health_state_mono :
    (alive : Bool) (l l' a a' : Option ℕ) (e e' : ℕ)
    → AtMost l l'
    → AtMost a a'
    → e ≤ e'
    → rank (health_state alive l a e) ≤ rank (health_state alive l' a' e')
unfolding health_state
health_state_mono alive l l' a a' e e' hl ha he = ground (
  arith,
  exceeds-AtMost l l' 600 hl,
  exceeds-AtMost a a' 5000 ha,
  exceeds-AtMost l l' 200 hl,
  exceeds-AtMost a a' 2000 ha,
)

-- A machine that does not answer the ping and has no ports to probe is sampled as healthy, without
-- a latency, with the ping's loss of packets as its error rate.
pub collect_machine_metrics-silent :
    (w : Probes) (m : MonitoredMachine) (histories : Dict HostHistory)
    → is_truthy m.primary_ip ≡ true
    → (w.ping_host (or_empty m.primary_ip)).is_alive ≡ false
    → m.ports ≡ []
    → (s : Sample) × ((collect_machine_metrics w m histories).0 ≡ some s)
      × (s.health_state ≡ Health.healthy)
      × (s.latency ≡ none)
      × (s.error_rate ≡ (w.ping_host (or_empty m.primary_ip)).packet_loss)
unfolding collect_machine_metrics collect_at sample_of round_of latency_of probe_ports average
    health_state exceeds
collect_machine_metrics-silent w m histories address dead no_ports = (
  sample_of m (w.ping_host (or_empty m.primary_ip))
      (latency_of (w.ping_host (or_empty m.primary_ip))) (round_of w (or_empty m.primary_ip) m),
  rw address refl,
  rw (dead, no_ports) refl,
  rw dead refl,
  refl,
)
