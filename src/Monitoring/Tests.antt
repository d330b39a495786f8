-- ===== src/Monitoring/Tests.antt =====
-- The monitoring engine with a host that answers and one that does not.
use infra_inventory.Prelude.{
  ◌≡◌, refl, true, false, none, some, List, [], ◌∷◌, ◌==◌, str_eq, is_truthy, if◌then◌else◌,
}
use infra_inventory.Prelude.Dict
use infra_inventory.Prelude.Double.{half_even, scale_of, quotient, to_fixed_tenths}
use infra_inventory.Prelude.Dict.{Dict}
use infra_inventory.Monitoring.{
  MonitoredMachine, Health, Probes, Sample, exceeds, probe, probed, service_status, push_time,
  note_port, probe_ports, sum, average, shift_over, push_window, push_known, no_history, history_of,
  note_sample, health_state, is_healthy, healthy_services, sample_of, latency_of, round_of,
  collect_at, collect_machine_metrics, some_or_skip, collect_all, run_monitoring_cycle,
}
use infra_inventory.Monitoring.Windows.{
  Visit, Windows, nothing_measured, measured, run, run-last_ten,
}
use infra_inventory.Monitoring.Samples.{Tells, collect_machine_metrics-Tells}

abbrev answers : Probes
answers = record {
  ping_host = λ ip.
      if str_eq ip "10.0.0.1"
      then record { is_alive = true; latency = some 21; packet_loss = 0 }
      else record { is_alive = false; latency = none; packet_loss = 100 };
  probe_port = λ ip n. record { is_open = n == 22; response_time = some 30 };
  probe_http_service = λ ip n is_ssl. record { is_open = true; response_time = some 161 };
}

abbrev web : MonitoredMachine
web = record {
  id = "m1";
  primary_ip = some "10.0.0.1";
  ports =
      record { port_number = 22; service_name = some "ssh" }
      ∷ record { port_number = 443; service_name = none }
      ∷ [];
}

abbrev dark : MonitoredMachine
dark = record { id = "m2"; primary_ip = some "10.0.0.2"; ports = [] }

unfolds : Unit {0}
unfolding exceeds probe probed service_status push_time note_port probe_ports sum average shift_over
    push_window push_known no_history history_of note_sample health_state is_healthy
    healthy_services sample_of latency_of round_of collect_at collect_machine_metrics some_or_skip
    collect_all run_monitoring_cycle run measured Dict.get Dict.set half_even scale_of quotient
    to_fixed_tenths
unfolds = tt

abbrev web_sample : Sample
web_sample =
    sample_of web (answers.ping_host "10.0.0.1") (some 21) (round_of answers "10.0.0.1" web)

-- 167 / 20 is a double below 8.35.
below_half : to_fixed_tenths (quotient 167 20) ≡ 83
unfolding unfolds
below_half = refl

-- The average of 30 and 161 is 95.5.
web_sampled : (collect_machine_metrics answers web []).0 ≡ some web_sample
unfolding unfolds
web_sampled = refl

web_measured :
    (web_sample.response_time ≡ some 955)
    × (web_sample.active_connections ≡ 6)
    × (web_sample.health_state ≡ Health.healthy)
unfolding unfolds
web_measured = (refl, refl, refl)

cycle_posts :
    (run_monitoring_cycle answers
      (web ∷ dark ∷ record dark { primary_ip = none } ∷ [])
      (λ ss. true)
      []).0
    ≡ 2
unfolding unfolds
cycle_posts = refl

address : is_truthy dark.primary_ip ≡ true
address = refl

collect_machine_metrics-Tells_example : Tells answers web web_sample
collect_machine_metrics-Tells_example =
    collect_machine_metrics-Tells answers web [] web_sample web_sampled

abbrev visits : List Visit
visits = (answers, web) ∷ (answers, dark) ∷ (answers, web) ∷ []

run-last_ten_example :
    Windows (measured "m1" visits nothing_measured) (history_of (Dict.get "m1" (run visits [])))
run-last_ten_example = run-last_ten "m1" visits
