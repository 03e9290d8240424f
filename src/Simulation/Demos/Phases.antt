-- ===== src/Simulation/Demos/Phases.antt =====
-- mini_os_simulator/os_core/simulation.py: the demos of phases 0 to 2, and the statistics of
-- phase 1 with each average as a sum and a number.
use smart_device_io_t_operat.Prelude.{nat_key, ℕ, ℤ, pos, String, true, false, none, List, [], ◌∷◌}
use smart_device_io_t_operat.Process.Manager.{terminate, list_processes}
use smart_device_io_t_operat.Process.Scheduler.{SchedulerResult, create_scheduler}
use smart_device_io_t_operat.Concurrency.Locks.{new_lock}
use smart_device_io_t_operat.FileSystem.{create, write}
use smart_device_io_t_operat.Observability.{sum_metrics}
use smart_device_io_t_operat.Simulation.State.{Simulation}
use smart_device_io_t_operat.Simulation.Cpu.{free_memory}
use smart_device_io_t_operat.Simulation.Demos.{
  Answer, Action, ◌>>=◌, ◌>>◌, pure, gets, modify, and_then, codes, spawn, reserve_all, admit,
  partial_ticks, drain, reset, use_scheduler, make_simulation, without_paging, acquire_lock,
  release_lock, on_files,
}

-- `self.processes.terminate(victim)` and `self.memory.free(victim)`
abbrev pub kill : ℕ → Simulation → Simulation
kill victim s = free_memory victim (record s { processes = (terminate victim s.processes).1 })

-- The resource of phase 0, without ports.
unfoldable pub pass_lock : ℕ → ℕ → Action Simulation (Unit {0})
unfolding acquire_lock release_lock
pass_lock p1 p2 = do
  a ← acquire_lock p1 none (new_lock "demo_resource")
  b ← acquire_lock p2 none a.1
  c ← release_lock p1 none b.1
  d ← acquire_lock p2 none c.1
  release_lock p2 none d.1
  pure tt

unfoldable pub run_phase0_demo : Action Simulation (Unit {0})
unfolding spawn reserve_all admit pass_lock partial_ticks
run_phase0_demo = do
  without_paging
  reset
  p1 ← spawn "init" (pos 0) (pos 512) 2
  p2 ← spawn "worker" (pos 1) (pos 1024) 2
  p3 ← spawn "logger" (pos 0) (pos 256) 50
  reserve_all (p1 ∷ p2 ∷ p3 ∷ [])
  admit (p1 ∷ p2 ∷ p3 ∷ [])
  pass_lock p1 p2
  partial_ticks 5
  on_files (create (codes "notes.txt") none)
  on_files (write (codes "notes.txt") (codes "Phase0: modular mini-OS simulator.") none)
  modify (kill p3)
  partial_ticks 10000

unfoldable pub create_phase1_iot_processes : Action Simulation (List ℕ)
unfolding spawn
create_phase1_iot_processes = do
  p1 ← spawn "AlarmProcess" (pos 3) (pos 64) 2
  p2 ← spawn "TemperatureSensorProcess" (pos 2) (pos 128) 3
  p3 ← spawn "CameraProcess" (pos 1) (pos 512) 12
  p4 ← spawn "DataLoggerProcess" (pos 2) (pos 256) 6
  p5 ← spawn "NetworkSyncProcess" (pos 1) (pos 384) 8
  pure (p1 ∷ p2 ∷ p3 ∷ p4 ∷ p5 ∷ [])

unfoldable pub create_phase2_iot_processes : Action Simulation (List ℕ)
unfolding spawn
create_phase2_iot_processes = do
  p1 ← spawn "CameraCaptureService" (pos 2) (pos 256) 10
  p2 ← spawn "AlarmMonitorDaemon" (pos 3) (pos 128) 8
  p3 ← spawn "SensorFusionWorker" (pos 1) (pos 128) 10
  p4 ← spawn "EdgeDataLogger" (pos 1) (pos 128) 6
  p5 ← spawn "NetworkSyncAgent" (pos 2) (pos 128) 6
  pure (p1 ∷ p2 ∷ p3 ∷ p4 ∷ p5 ∷ [])

pub record PolicyRunStats : Type 0 where
  pub policy_label : String
  pub waiting : ℤ
  pub turnaround : ℤ
  pub response : ℤ
  pub done : ℕ
  pub context_switches : ℕ

unfoldable pub collect_policy_stats : String → Simulation → PolicyRunStats
unfolding sum_metrics
collect_policy_stats label s =
    let (w, t, r, n) = sum_metrics (list_processes s.processes) in
    record {
      policy_label = label;
      waiting = w;
      turnaround = t;
      response = r;
      done = n;
      context_switches = s.context_switches;
    }

-- One of the two runs of phase 1, on its new simulation.
unfoldable pub policy_run : SchedulerResult → String → Action Simulation PolicyRunStats
unfolding create_phase1_iot_processes reserve_all admit drain collect_policy_stats
policy_run scheduler label = do
  use_scheduler scheduler
  reset
  procs ← create_phase1_iot_processes
  reserve_all procs
  admit procs
  drain
  gets (collect_policy_stats label)

-- A script on a simulation of its own, which `self` does not see.
abbrev pub on_new : {A : Type 0} → Answer Simulation → Action Simulation A → Action Simulation A
on_new made m s = and_then made (λ t s'. ((m t).0, s')) s

unfoldable pub run_phase1_demo : ℤ → Action Simulation (PolicyRunStats × PolicyRunStats)
unfolding make_simulation policy_run create_scheduler
run_phase1_demo rr_quantum = do
  total ← gets (λ s. pos s.memory.total_physical_memory)
  fifo ←
      on_new (make_simulation total false)
        (policy_run (create_scheduler "fifo" (pos 2)) "FIFO (q=1)")
  rr ← on_new (make_simulation total false) (policy_run (create_scheduler "rr" rr_quantum) "RR")
  pure (fifo, rr)

abbrev pub with_fault_ticks : ℕ → Simulation → Simulation
with_fault_ticks n s = record s { memory = record s.memory { fault_handling_ticks = n } }

-- The run of phase 2, on its new simulation.
unfoldable pub paging_run : Action Simulation (Unit {0})
unfolding create_phase2_iot_processes reserve_all admit drain create_scheduler
paging_run = do
  modify (with_fault_ticks 3)
  use_scheduler (create_scheduler "rr" (pos 2))
  reset
  procs ← create_phase2_iot_processes
  reserve_all procs
  admit procs
  drain

unfoldable pub run_phase2_demo : Action Simulation (Unit {0})
unfolding make_simulation paging_run
run_phase2_demo = on_new (make_simulation (pos 768) true) paging_run
