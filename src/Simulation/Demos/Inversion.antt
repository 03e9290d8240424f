-- ===== src/Simulation/Demos/Inversion.antt =====
-- mini_os_simulator/os_core/simulation.py: the demo of phase 5, priority inversion, and its stress
-- scenario.
use smart_device_io_t_operat.Prelude.{
  nat_key, ℕ, ℤ, pos, String, Bool, true, false, not, Option, none, some, List, [], ◌∷◌, str_eq,
  if◌then◌else◌,
}
use smart_device_io_t_operat.Process.Pcb.{Pcb}
use smart_device_io_t_operat.Process.Manager.{list_processes}
use smart_device_io_t_operat.Process.Scheduler.{create_scheduler}
use smart_device_io_t_operat.Concurrency.SyncPorts.{Lock}
use smart_device_io_t_operat.Concurrency.Locks.{new_lock}
use smart_device_io_t_operat.Simulation.State.{Simulation, pcb_of}
use smart_device_io_t_operat.Simulation.Demos.{
  Action, ◌>>=◌, ◌>>◌, pure, gets, modify, expect, spawn, reserve_all, admit, cpu_ticks, reset,
  use_scheduler, make_simulation, without_paging, ports_of, acquire_lock, release_lock,
}
use smart_device_io_t_operat.Simulation.Demos.Phases.{on_new}

-- The settings of a scenario.
abbrev pub with_settings : Bool → Bool → ℕ → Simulation → Simulation
with_settings inheritance aging interval s = record s {
  mutex_inheritance_enabled = inheritance;
  priority_aging_enabled = aging;
  aging_interval = interval;
}

unfoldable pub start_scenario : Bool → Bool → ℕ → Action Simulation (Unit {0})
unfolding create_scheduler
start_scenario inheritance aging interval = do
  without_paging
  reset
  modify (with_settings inheritance aging interval)
  use_scheduler (create_scheduler "priority" (pos 2))

-- The processes of a scenario: of low, medium and high priority.
pub record Crew : Type 0 where
  pub data_logger : ℕ
  pub network : ℕ
  pub alarm : ℕ

abbrev pub members : Crew → List ℕ
members c = c.data_logger ∷ c.network ∷ c.alarm ∷ []

unfoldable pub spawn_crew : ℕ → Action Simulation Crew
unfolding spawn reserve_all
spawn_crew burst = do
  d ← spawn "DataLoggerProcess" (pos 1) (pos 256) burst
  n ← spawn "NetworkSyncProcess" (pos 2) (pos 384) burst
  a ← spawn "AlarmMonitorProcess" (pos 3) (pos 128) burst
  reserve_all (d ∷ n ∷ a ∷ [])
  pure (record { data_logger = d; network = n; alarm = a })

-- The low process holds the sensor's lock, all become ready, and the high one blocks on the lock.
unfoldable pub invert : Crew → Action Simulation Lock
unfolding admit acquire_lock
invert c = do
  held ← acquire_lock c.data_logger none (new_lock "sensor_lock")
  expect held.0
  admit (members c)
  ports ← gets ports_of
  blocked ← acquire_lock c.alarm (some ports) held.1
  expect (not blocked.0)
  pure blocked.1

abbrev pub remaining : Option Pcb → ℕ
remaining none = 0
remaining (some p) = p.remaining_time

abbrev pub remaining_of : ℕ → Simulation → ℕ
remaining_of pid s = remaining (pcb_of pid s)

-- `first_dispatch`
unfoldable pub first_dispatch : String → List Pcb → Option ℕ
first_dispatch exact [] = none
first_dispatch exact (p ∷ ps) =
    if str_eq p.name exact then p.start_time else first_dispatch exact ps

pub record Phase5StressMetrics : Type 0 where
  pub label : String
  pub context_switches : ℕ
  pub sim_clock : ℕ
  pub alarm_first_dispatch_tick : Option ℕ
  pub data_logger_first_dispatch_tick : Option ℕ
  pub network_first_dispatch_tick : Option ℕ
  pub data_logger_remaining_before_release : ℤ
  pub network_remaining_before_release : ℤ

unfoldable pub collect_metrics : String → ℤ → ℤ → Simulation → Phase5StressMetrics
unfolding first_dispatch
collect_metrics label data_logger_remaining network_remaining s =
    let ps = list_processes s.processes in
    record {
      label = label;
      context_switches = s.context_switches;
      sim_clock = s.sim_clock;
      alarm_first_dispatch_tick = first_dispatch "AlarmMonitorProcess" ps;
      data_logger_first_dispatch_tick = first_dispatch "DataLoggerProcess" ps;
      network_first_dispatch_tick = first_dispatch "NetworkSyncProcess" ps;
      data_logger_remaining_before_release = data_logger_remaining;
      network_remaining_before_release = network_remaining;
    }

unfoldable pub run_stress_scenario : Bool → Action Simulation Phase5StressMetrics
unfolding start_scenario spawn_crew invert cpu_ticks release_lock collect_metrics
run_stress_scenario mutex_inheritance = do
  start_scenario mutex_inheritance true 4
  crew ← spawn_crew 24
  sensor ← invert crew
  ports ← gets ports_of
  cpu_ticks 22
  dl_rem ← gets (remaining_of crew.data_logger)
  net_rem ← gets (remaining_of crew.network)
  released ← release_lock crew.data_logger (some ports) sensor
  expect released.0
  cpu_ticks 12
  gets (
      collect_metrics (if mutex_inheritance then "inheritance ON" else "inheritance OFF")
        (pos dl_rem) (pos net_rem))

-- One of the first two parts of phase 5: what the low and the medium process have left.
unfoldable pub inversion_part : Bool → Action Simulation (ℕ × ℕ)
unfolding start_scenario spawn_crew invert cpu_ticks
inversion_part inheritance = do
  start_scenario inheritance false 5
  crew ← spawn_crew 20
  invert crew
  cpu_ticks 8
  low ← gets (remaining_of crew.data_logger)
  medium ← gets (remaining_of crew.network)
  pure (low, medium)

unfoldable pub run_phase5_demo : Action Simulation (Phase5StressMetrics × Phase5StressMetrics)
unfolding inversion_part run_stress_scenario make_simulation
run_phase5_demo = do
  inversion_part false
  inversion_part true
  m_off ← on_new (make_simulation (pos 4096) false) (run_stress_scenario false)
  m_on ← on_new (make_simulation (pos 4096) false) (run_stress_scenario true)
  pure (m_off, m_on)
