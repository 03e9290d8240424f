-- ===== src/Observability.antt =====
-- mini_os_simulator/os_core/observability.py and the recording methods of
-- mini_os_simulator/os_core/simulation.py: the timeline, the counters and their summary.
-- The text of an event, which only reports print, is left out; so are the reports. An average is the
-- pair of a sum and a count, as the float division is done for printing only.
pub mod Timeline
use smart_device_io_t_operat.Prelude.{
  nat_key, path_key, ℕ, suc, ◌+◌, ◌-◌, ℤ, pos, ◌+ℤ◌, Dict, String, Bool, true, not, ◌&&◌, Option,
  none, some, List, [], ◌∷◌, ◌++◌, drop, length, ltb, if◌then◌else◌,
}
use smart_device_io_t_operat.Prelude.Table
use smart_device_io_t_operat.Process.Pcb.{ProcessState, ready, blocked, terminated, same_state, Pcb}
use smart_device_io_t_operat.FileSystem.Paths.{FilePath}

pub data EventCategory : Type 0 where
  scheduler memory filesystem concurrency priority process : EventCategory

pub record SystemEvent : Type 0 where
  pub tick : ℕ
  pub category : EventCategory
  pub event_type : String
  pub related_pids : List ℕ

pub record SystemMetricsDashboard : Type 0 where
  pub total_context_switches : ℕ
  pub total_page_faults : ℕ
  pub total_page_replacements : ℕ
  pub total_file_io_completed : ℕ
  pub total_blocked_transitions : ℕ
  pub total_semaphore_waits : ℕ
  pub total_lock_contentions : ℕ
  pub total_priority_inheritance_activations : ℕ
  pub total_aging_events : ℕ
  pub total_scheduler_dispatches : ℕ
  pub page_faults_by_pid : Dict ℕ ℕ
  pub blocked_by_pid : Dict ℕ ℕ
  pub file_lock_contention_by_path : Dict FilePath ℕ

-- A new dashboard, and what `reset` makes of any.
abbrev pub reset_metrics : SystemMetricsDashboard
reset_metrics = record {
  total_context_switches = 0;
  total_page_faults = 0;
  total_page_replacements = 0;
  total_file_io_completed = 0;
  total_blocked_transitions = 0;
  total_semaphore_waits = 0;
  total_lock_contentions = 0;
  total_priority_inheritance_activations = 0;
  total_aging_events = 0;
  total_scheduler_dispatches = 0;
  page_faults_by_pid = [];
  blocked_by_pid = [];
  file_lock_contention_by_path = [];
}

-- The fields of `Simulation` for observability.
pub record Observer : Type 0 where
  pub record_system_events : Bool
  pub timeline_max_events : ℕ
  pub system_events : List SystemEvent
  pub metrics : SystemMetricsDashboard

abbrev pub new_observer : Observer
new_observer = record {
  record_system_events = true;
  timeline_max_events = 2000;
  system_events = [];
  metrics = reset_metrics;
}

-- `_obs_reset`
abbrev pub obs_reset : Observer → Observer
obs_reset o = record o { system_events = []; metrics = reset_metrics }

-- The oldest events go when there are too many.
unfoldable pub trim : ℕ → List SystemEvent → List SystemEvent
trim limit events =
    if ltb 0 limit && ltb limit (length events) then drop (length events - limit) events else events

-- `_obs_record`, at the given tick.
unfoldable pub obs_record : ℕ → EventCategory → String → List ℕ → Observer → Observer
unfolding trim
obs_record tick category event_type pids o =
    let event : SystemEvent = record {
      tick = tick;
      category = category;
      event_type = event_type;
      related_pids = pids;
    } in
    if not o.record_system_events
    then o
    else record o { system_events = trim o.timeline_max_events (o.system_events ++ event ∷ []) }

-- `d[k] += 1` on a `defaultdict(int)`
abbrev pub count_of : Option ℕ → ℕ
count_of none = 0
count_of (some n) = n

abbrev pub increment : ℕ → Dict ℕ ℕ → Dict ℕ ℕ
increment k d = Table.put k (count_of (Table.get k d) + 1) d

abbrev pub increment_path : FilePath → Dict FilePath ℕ → Dict FilePath ℕ
increment_path k d = Table.put k (count_of (Table.get k d) + 1) d

abbrev pub count_metric : (SystemMetricsDashboard → SystemMetricsDashboard) → Observer → Observer
count_metric f o = record o { metrics = f o.metrics }

-- `_obs_on_process_state_change`
unfoldable pub on_process_state_change : ℕ → ℕ → ProcessState → ProcessState → Observer → Observer
on_process_state_change tick pid old now o =
    if same_state old now
    then o
    else if same_state now blocked
    then obs_record tick process "BLOCKED" (pid ∷ []) (
        count_metric
          (λ m. record m {
            total_blocked_transitions = m.total_blocked_transitions + 1;
            blocked_by_pid = increment pid m.blocked_by_pid;
          })
          o)
    else if same_state now ready && same_state old blocked
    then obs_record tick process "READY" (pid ∷ []) o
    else o

-- The loops of `analyze_system`: the first key with the largest count, if any.
unfoldable pub max_from {ℓ} : {K : Type ℓ} → Option (K × ℕ) → List (K × ℕ) → Option (K × ℕ)
max_from best [] = best
max_from none (e ∷ d) = max_from (some e) d
max_from (some (k, n)) ((j, c) ∷ d) = max_from (if ltb n c then some (j, c) else some (k, n)) d

pub record SystemAnalysis : Type 0 where
  pub policy : String
  pub most_page_faults : Option (ℕ × ℕ)
  pub most_blocked : Option (ℕ × ℕ)
  pub most_file_lock_contention : Option (FilePath × ℕ)
  pub timeline_length : ℕ

unfoldable pub analyze_system : List SystemEvent → SystemMetricsDashboard → String → SystemAnalysis
unfolding max_from
analyze_system events metrics policy_label = record {
  policy = policy_label;
  most_page_faults = max_from {K = ℕ} none metrics.page_faults_by_pid;
  most_blocked = max_from {K = ℕ} none metrics.blocked_by_pid;
  most_file_lock_contention = max_from {K = FilePath} none metrics.file_lock_contention_by_path;
  timeline_length = length events;
}

-- The three metrics of a process that counts in the averages.
abbrev pub counted : Pcb → Option (ℤ × ℤ × ℤ)
counted p = elim p.waiting_time [
  | none ↦ none
  | some w ↦ elim p.turnaround_time [
    | none ↦ none
    | some t ↦ elim p.response_time [
      | none ↦ none
      | some r ↦ if same_state p.state terminated then some (w, t, r) else none
    ]
  ]
]

-- The sums of waiting, turnaround and response times, and the number of processes.
unfoldable pub sum_metrics : List Pcb → ℤ × ℤ × ℤ × ℕ
sum_metrics [] = (pos 0, pos 0, pos 0, 0)
sum_metrics (p ∷ ps) =
    let (w, t, r, n) = sum_metrics ps in
    elim (counted p) [
      | none ↦ (w, t, r, n)
      | some (w', t', r') ↦ (w' +ℤ w, t' +ℤ t, r' +ℤ r, suc n)
    ]
