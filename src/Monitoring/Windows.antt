-- ===== src/Monitoring/Windows.antt =====
-- The sliding windows keep the last ten of all that was measured.
use mathlib.Core.List.{append-nil}
use infra_inventory.Prelude.{
  ℕ, zero, suc, ◌+◌, ◌-◌, ◌≤◌, ◌<◌, ◌≡◌, ◌∙◌, refl, sym, ap, Bool, false, Option, none, some, List,
  [], ◌∷◌, ◌++◌, String, arith, ltb, ltb→lt, ◌&&◌, str_eq, str_eq_self, eq_iff, subst,
  if◌then◌else◌, length, length-append, drop, is_truthy, or_empty, Bool-cases, inl, inr,
}
use infra_inventory.Prelude.Dict
use infra_inventory.Prelude.Dict.{Dict, get-empty, get-set}
use infra_inventory.Monitoring.{
  HostHistory, MonitoredMachine, Probes, average, shift_over, push_window, push_known, no_history,
  history_of, note_sample, latency_of, round_of, collect_at, collect_machine_metrics,
}

drop-append :
    {A : Type 0} (k : ℕ) (xs ys : List A) → k ≤ length xs → drop k (xs ++ ys) ≡ drop k xs ++ ys
drop-append zero xs ys h = refl
drop-append (suc k) [] ys h = absurd (omega (arith, h))
drop-append (suc k) (x ∷ xs) ys h = drop-append k xs ys (omega (arith, h))

drop-suc : {A : Type 0} (k : ℕ) (xs : List A) → drop (suc k) xs ≡ drop 1 (drop k xs)
drop-suc zero xs = refl
drop-suc (suc k) [] = refl
drop-suc (suc k) (x ∷ xs) = drop-suc k xs

length-drop : {A : Type 0} (k : ℕ) (xs : List A) → length (drop k xs) ≡ length xs - k
length-drop zero xs = omega arith
length-drop (suc k) [] = omega arith
length-drop (suc k) (x ∷ xs) = omega (arith, length-drop k xs)

abbrev pub last_ten : List ℕ → List ℕ
last_ten xs = drop (length xs - 10) xs

shift_over_long : (xs : List ℕ) → 10 < length xs → shift_over xs ≡ drop 1 xs
unfolding shift_over
shift_over_long [] h = refl
shift_over_long (x ∷ xs) h = ground arith

shift_over_short : (xs : List ℕ) → length xs ≤ 10 → shift_over xs ≡ xs
unfolding shift_over
shift_over_short [] h = refl
shift_over_short (x ∷ xs) h = ground arith

push_window-last_ten :
    (xs : List ℕ) (x : ℕ) → push_window (last_ten xs) x ≡ last_ten (xs ++ (x ∷ []))
unfolding push_window
push_window-last_ten xs x = elim (Bool-cases (ltb (length xs) 10)) [
  | inl few ↦
      let none_before : length xs - 10 ≡ 0 = omega (arith, ltb→lt (length xs) 10 few) in
      let none_after : length (xs ++ (x ∷ [])) - 10 ≡ 0 =
        omega (arith, ltb→lt (length xs) 10 few, longer) in
      ap (λ k. shift_over (drop k xs ++ (x ∷ []))) none_before
      ∙ (shift_over_short (xs ++ (x ∷ [])) (omega (arith, ltb→lt (length xs) 10 few, longer))
          ∙ sym (ap (λ k. drop k (xs ++ (x ∷ []))) none_after))
  | inr many ↦
      let full : 10 ≤ length xs = ground (arith, many) in
      let one_more : length (xs ++ (x ∷ [])) - 10 ≡ suc (length xs - 10) =
        omega (arith, full, longer) in
      shift_over_long (last_ten xs ++ (x ∷ []))
        (omega (arith, full, length-append (last_ten xs) (x ∷ []), length-drop (length xs - 10) xs))
      ∙ (ap (drop 1) (sym (drop-append (length xs - 10) xs (x ∷ []) (omega arith)))
          ∙ (sym (drop-suc (length xs - 10) (xs ++ (x ∷ [])))
              ∙ sym (ap (λ k. drop k (xs ++ (x ∷ []))) one_more)))
]
  where
    longer : length (xs ++ (x ∷ [])) ≡ length xs + 1
    longer = length-append xs (x ∷ [])

-- A sample of a machine, with what the probes find then.
abbrev pub Visit : Type 0
Visit = Probes × MonitoredMachine

unfoldable pub run : List Visit → Dict HostHistory → Dict HostHistory
run [] histories = histories
run ((w, m) ∷ vs) histories = run vs (collect_machine_metrics w m histories).1

-- All that was measured of a machine.
pub record Measured : Type 0 where
  pub latencies : List ℕ
  pub response_times : List ℕ
  pub error_counts : List ℕ

abbrev or_none : Option ℕ → List ℕ
or_none none = []
or_none (some x) = x ∷ []

abbrev measure_at : Probes → String → MonitoredMachine → Measured → Measured
measure_at w ip m d = record {
  latencies = d.latencies ++ or_none (latency_of (w.ping_host ip));
  response_times = d.response_times ++ or_none (average (round_of w ip m).response_times);
  error_counts = d.error_counts ++ ((round_of w ip m).errors ∷ []);
}

-- A visit is of a machine with an address, under the id.
abbrev is_of : String → MonitoredMachine → Bool
is_of id m = is_truthy m.primary_ip && str_eq m.id id

unfoldable pub measured : String → List Visit → Measured → Measured
measured id [] d = d
measured id ((w, m) ∷ vs) d =
    measured id vs (if is_of id m then measure_at w (or_empty m.primary_ip) m d else d)

abbrev pub Windows : Measured → HostHistory → Type 0
Windows d h =
    (h.latencies ≡ last_ten d.latencies)
    × (h.response_times ≡ last_ten d.response_times)
    × (h.error_counts ≡ last_ten d.error_counts)

push_known-last_ten :
    (xs : List ℕ) (o : Option ℕ) → push_known (last_ten xs) o ≡ last_ten (xs ++ or_none o)
unfolding push_known
push_known-last_ten xs none = ap last_ten (sym (append-nil xs))
push_known-last_ten xs (some x) = push_window-last_ten xs x

note_sample-Windows :
    (w : Probes) (ip : String) (m : MonitoredMachine) (d : Measured) (h : HostHistory)
    → Windows d h
    → Windows (measure_at w ip m d) (
        note_sample
          (latency_of (w.ping_host ip))
          (average (round_of w ip m).response_times)
          (round_of w ip m).errors
          h)
unfolding note_sample
note_sample-Windows w ip m d h t = (
  rw t.0 (push_known-last_ten d.latencies (latency_of (w.ping_host ip))),
  rw t.1 (push_known-last_ten d.response_times (average (round_of w ip m).response_times)),
  rw t.2 (push_window-last_ten d.error_counts (round_of w ip m).errors),
)

-- After the sample, on the history of the machine itself and on the others.
collect_at-own :
    (w : Probes) (ip : String) (m : MonitoredMachine) (histories : Dict HostHistory) (d : Measured)
    → Windows d (history_of (Dict.get m.id histories))
    → Windows (measure_at w ip m d) (history_of (Dict.get m.id (collect_at w ip m histories).1))
unfolding collect_at history_of
collect_at-own w ip m histories d t =
    rw
      (
        get-set m.id m.id
            (note_sample (latency_of (w.ping_host ip)) (average (round_of w ip m).response_times)
              (round_of w ip m).errors (history_of (Dict.get m.id histories)))
            histories,
        str_eq_self m.id,
      )
      (note_sample-Windows w ip m d (history_of (Dict.get m.id histories)) t)

collect_at-other :
    (id : String) (w : Probes) (ip : String) (m : MonitoredMachine) (histories : Dict HostHistory)
    → str_eq m.id id ≡ false
    → Dict.get id (collect_at w ip m histories).1 ≡ Dict.get id histories
unfolding collect_at
collect_at-other id w ip m histories other =
    rw
      (
        get-set m.id id
            (note_sample (latency_of (w.ping_host ip)) (average (round_of w ip m).response_times)
              (round_of w ip m).errors (history_of (Dict.get m.id histories)))
            histories,
        other,
      )
      refl

collect-Windows :
    (id : String) (w : Probes) (m : MonitoredMachine) (histories : Dict HostHistory) (d : Measured)
    → Windows d (history_of (Dict.get id histories))
    → Windows
        (if is_of id m then measure_at w (or_empty m.primary_ip) m d else d)
        (history_of (Dict.get id (collect_machine_metrics w m histories).1))
unfolding collect_machine_metrics
collect-Windows id w m histories d t = elim (Bool-cases (is_truthy m.primary_ip)) [
  | inr no_address ↦ rw no_address t
  | inl address ↦ elim (Bool-cases (str_eq m.id id)) [
    | inl same ↦
        let own : Windows d (history_of (Dict.get id histories))
            → Windows (measure_at w (or_empty m.primary_ip) m d)
                (history_of (Dict.get id (collect_at w (or_empty m.primary_ip) m histories).1)) =
          subst
            (λ i.
              Windows d (history_of (Dict.get i histories))
              → Windows (measure_at w (or_empty m.primary_ip) m d)
                  (history_of (Dict.get i (collect_at w (or_empty m.primary_ip) m histories).1)))
            ((eq_iff m.id id).0 same) (collect_at-own w (or_empty m.primary_ip) m histories d) in
        rw (address, same) (own t)
    | inr other ↦
        rw (address, other, collect_at-other id w (or_empty m.primary_ip) m histories other) t
  ]
]

run-Windows :
    (id : String) (vs : List Visit) (histories : Dict HostHistory) (d : Measured)
    → Windows d (history_of (Dict.get id histories))
    → Windows (measured id vs d) (history_of (Dict.get id (run vs histories)))
unfolding run measured
run-Windows id [] histories d t = t
run-Windows id ((w, m) ∷ vs) histories d t =
    run-Windows id vs _ _ (collect-Windows id w m histories d t)

abbrev pub nothing_measured : Measured
nothing_measured = record { latencies = []; response_times = []; error_counts = [] }

-- Whatever machines are sampled, in any order, and whatever the probes find: from the empty map on,
-- the windows of a machine are the last ten of the latencies that its pings gave, of the average
-- response times that there were, and of the numbers of errors of its samples.
pub run-last_ten :
    (id : String) (vs : List Visit)
    → Windows (measured id vs nothing_measured) (history_of (Dict.get id (run vs [])))
unfolding history_of no_history
run-last_ten id vs = run-Windows id vs [] nothing_measured (nothing_yet id)
  where
    nothing_yet : (i : String) → Windows nothing_measured (history_of (Dict.get i []))
    nothing_yet i = rw (get-empty {V = HostHistory} i) (refl, refl, refl)
