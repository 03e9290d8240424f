-- ===== src/Simulation/Demos/Final.antt =====
-- mini_os_simulator/os_core/simulation.py, `run_final_demo`, and mini_os_simulator/main.py.
use smart_device_io_t_operat.Prelude.{
  nat_key, ℕ, pos, String, Bool, true, false, not, ◌||◌, none, some, List, [], ◌∷◌, str_eq,
  if◌then◌else◌,
}
use smart_device_io_t_operat.Process.Scheduler.{create_scheduler}
use smart_device_io_t_operat.Concurrency.SyncPorts.{SyncPorts}
use smart_device_io_t_operat.Concurrency.Locks.{new_lock}
use smart_device_io_t_operat.FileSystem.{mkdir, create}
use smart_device_io_t_operat.Simulation.State.{Simulation}
use smart_device_io_t_operat.Simulation.FileIo.{
  file_blocking_append, file_blocking_read, sync_fs_tick,
}
use smart_device_io_t_operat.Simulation.Demos.{
  Answer, Action, ◌>>=◌, ◌>>◌, pure, gets, modify, expect, and_then, codes, spawn, reserve_all,
  admit, cpu_ticks, drain, reset, use_scheduler, make_simulation, ports_of, acquire_lock,
  release_lock, expect_files,
}
use smart_device_io_t_operat.Simulation.Demos.Frames.{
  Desk, on_sim, wait_empty, produce_frame, consume_frame,
}
use smart_device_io_t_operat.Simulation.Demos.Phases.{
  with_fault_ticks, run_phase0_demo, run_phase1_demo, run_phase2_demo,
}
use smart_device_io_t_operat.Simulation.Demos.Sharing.{
  at_desk, finish_third, expect_started, expect_lock_blocked, with_io_ticks, run_phase3_demo,
  run_phase4_demo,
}
use smart_device_io_t_operat.Simulation.Demos.Inversion.{with_settings, run_phase5_demo}

abbrev pub with_paging : Simulation → Simulation
with_paging s = record s { enable_memory_access = true }

-- The settings and the files of the demo.
unfoldable pub prepare : Action Simulation (Unit {0})
unfolding create_scheduler
prepare = do
  modify with_paging
  modify (with_settings true true 4)
  modify (with_io_ticks 2)
  modify (with_fault_ticks 3)
  use_scheduler (create_scheduler "priority" (pos 2))
  reset
  modify sync_fs_tick
  expect_files (mkdir (codes "/logs"))
  expect_files (mkdir (codes "/data"))
  expect_files (create (codes "/logs/temperature.log") (some 0))
  expect_files (create (codes "/data/shared.txt") (some 0))

-- The scenario of the producer and the consumer.
unfoldable pub capture : SyncPorts Simulation → ℕ → ℕ → Action Desk (Unit {0})
unfolding finish_third produce_frame consume_frame cpu_ticks
capture ports cam dl = do
  produce_frame ports cam "capture-A"
  produce_frame ports cam "capture-B"
  third ← wait_empty ports cam
  expect (not third)
  on_sim (cpu_ticks 5)
  consume_frame ports dl
  finish_third ports cam "capture-C"

-- The scenarios of the lock, the shared file and the CPU.
unfoldable pub contend : SyncPorts Simulation → ℕ → ℕ → ℕ → Action Simulation (Unit {0})
unfolding acquire_lock release_lock cpu_ticks drain
contend ports dl net alarm = do
  held ← acquire_lock dl none (new_lock "sensor_lock")
  expect held.0
  blocked ← acquire_lock alarm (some ports) held.1
  expect (not blocked.0)
  expect_started (file_blocking_append dl (codes "/data/shared.txt") (codes "telemetry=1\n") none)
  expect_lock_blocked (file_blocking_read net (codes "/data/shared.txt") none)
  cpu_ticks 45
  released ← release_lock dl (some ports) blocked.1
  expect released.0
  cpu_ticks 30
  drain

unfoldable pub run_final_demo : Action Simulation (Unit {0})
unfolding prepare spawn reserve_all admit capture contend
run_final_demo = do
  prepare
  dl ← spawn "DataLoggerProcess" (pos 1) (pos 256) 24
  net ← spawn "NetworkSyncProcess" (pos 2) (pos 256) 24
  alarm ← spawn "AlarmMonitorProcess" (pos 3) (pos 128) 24
  cam ← spawn "CameraProcess" (pos 2) (pos 256) 16
  reserve_all (dl ∷ net ∷ alarm ∷ cam ∷ [])
  admit (dl ∷ net ∷ alarm ∷ cam ∷ [])
  ports ← gets ports_of
  at_desk "final_iot_buffer" "final_buffer_mutex" (capture ports cam dl)
  contend ports dl net alarm

-- `flag in sys.argv`
abbrev pub given : String → List String → Bool
given flag [] = false
given flag (a ∷ rest) = str_eq a flag || given flag rest

-- The demo that the flags choose.
unfoldable pub choose_demo : List String → Action Simulation (Unit {0})
unfolding run_phase0_demo run_phase1_demo run_phase2_demo run_phase3_demo run_phase4_demo
    run_phase5_demo run_final_demo
choose_demo argv =
    if given "--phase0" argv
    then run_phase0_demo
    else if given "--phase1" argv
    then run_phase1_demo (pos 3) >> pure tt
    else if given "--phase2" argv
    then run_phase2_demo
    else if given "--phase3" argv
    then run_phase3_demo
    else if given "--phase4" argv
    then run_phase4_demo
    else if given "--final" argv || given "--phase6" argv
    then run_final_demo
    else run_phase5_demo >> pure tt

unfoldable pub main : List String → Answer Simulation
unfolding make_simulation choose_demo
main argv =
    let made = make_simulation (pos 4096) false in
    (and_then {S = Unit {0}} made (λ s u. (((choose_demo argv >> gets (λ t. t)) s).0, u)) tt).0
