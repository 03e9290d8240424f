-- ===== src/Simulation/Demos/Sharing.antt =====
-- mini_os_simulator/os_core/simulation.py: the demos of phases 3 and 4, processes that share a
-- buffer and files.
use smart_device_io_t_operat.Prelude.{
  nat_key, ℕ, pos, String, Bool, true, false, not, ◌&&◌, Option, none, some, List, [], ◌∷◌,
  same_codes, ◌||◌,
}
use smart_device_io_t_operat.Process.Scheduler.{create_scheduler}
use smart_device_io_t_operat.Concurrency.SyncPorts.{SyncPorts}
use smart_device_io_t_operat.FileSystem.{mkdir, create, write, list_dir}
use smart_device_io_t_operat.Simulation.State.{Simulation}
use smart_device_io_t_operat.Simulation.FileIo.{
  Started, io_started, lock_blocked, file_blocking_write, file_blocking_append, file_blocking_read,
  sync_fs_tick,
}
use smart_device_io_t_operat.Simulation.Demos.{
  Action, ◌>>=◌, ◌>>◌, pure, gets, modify, expect, codes, spawn, reserve_all, admit, cpu_ticks,
  drain, reset, use_scheduler, without_paging, ports_of, on_files, expect_files,
}
use smart_device_io_t_operat.Simulation.Demos.Frames.{
  Desk, new_desk, on_sim, wait_empty, store_frame, produce_frame, consume_frame,
}

-- A script at a new desk, of which the simulation is kept.
abbrev pub at_desk : {A : Type 0} → String → String → Action Desk A → Action Simulation A
at_desk buffer_name mutex_name m s =
    let r = m (new_desk 2 buffer_name mutex_name s) in (r.0, r.1.sim)

-- The third frame of the camera, after the wait that blocks it has been answered by a signal.
unfoldable pub finish_third : SyncPorts Simulation → ℕ → String → Action Desk (Unit {0})
unfolding wait_empty store_frame
finish_third ports camera tag = do
  woken ← wait_empty ports camera
  expect woken
  store_frame ports camera tag

unfoldable pub exchange_frames : SyncPorts Simulation → ℕ → ℕ → Action Desk (Unit {0})
unfolding finish_third produce_frame consume_frame cpu_ticks drain
exchange_frames ports camera logger = do
  produce_frame ports camera "frame-A"
  produce_frame ports camera "frame-B"
  third ← wait_empty ports camera
  expect (not third)
  on_sim (cpu_ticks 6)
  consume_frame ports logger
  finish_third ports camera "frame-C"
  on_sim (cpu_ticks 4)
  consume_frame ports logger
  consume_frame ports logger
  on_sim drain

unfoldable pub run_phase3_demo : Action Simulation (Unit {0})
unfolding spawn reserve_all admit exchange_frames create_scheduler
run_phase3_demo = do
  without_paging
  reset
  use_scheduler (create_scheduler "rr" (pos 2))
  camera ← spawn "CameraProcess" (pos 2) (pos 256) 14
  logger ← spawn "DataLoggerProcess" (pos 1) (pos 256) 14
  temp ← spawn "TemperatureSensorProcess" (pos 2) (pos 128) 10
  reserve_all (camera ∷ logger ∷ temp ∷ [])
  admit (camera ∷ logger ∷ temp ∷ [])
  ports ← gets ports_of
  at_desk "iot_frame_buffer" "buffer_mutex" (exchange_frames ports camera logger)

-- `assert ... == "io_started"` and `assert ... == "lock_blocked"`
abbrev pub is_started : Started → Bool
is_started io_started = true
is_started _ = false

abbrev pub is_lock_blocked : Started → Bool
is_lock_blocked lock_blocked = true
is_lock_blocked _ = false

abbrev pub expect_started : (Simulation → Started × Simulation) → Action Simulation (Unit {0})
expect_started f s = expect (is_started (f s).0) (f s).1

abbrev pub expect_lock_blocked : (Simulation → Started × Simulation) → Action Simulation (Unit {0})
expect_lock_blocked f s = expect (is_lock_blocked (f s).0) (f s).1

-- `name in listed`
abbrev pub lists : List ℕ → Option (List (List ℕ)) → Bool
lists name none = false
lists name (some []) = false
lists name (some (x ∷ xs)) = same_codes x name || lists name (some xs)

abbrev pub temperature_log : List ℕ
temperature_log = codes "/logs/temperature.log"

abbrev pub camera_log : List ℕ
camera_log = codes "/logs/camera.log"

abbrev pub network_sync : List ℕ
network_sync = codes "/data/network_sync.txt"

-- The directories and files of phase 4.
unfoldable pub make_files : Action Simulation (Unit {0})
make_files = do
  modify sync_fs_tick
  expect_files (mkdir (codes "/logs"))
  expect_files (mkdir (codes "/config"))
  expect_files (mkdir (codes "/data"))
  expect_files (create temperature_log (some 0))
  expect_files (create camera_log (some 0))
  expect_files (create (codes "/config/device.cfg") (some 0))
  expect_files (create network_sync (some 0))
  on_files (write (codes "/config/device.cfg") (codes "device=edge-01\n") (some 0))
  pure tt

-- The traffic of phase 4 between four processes.
unfoldable pub file_traffic : ℕ → ℕ → ℕ → ℕ → Action Simulation (Unit {0})
unfolding cpu_ticks drain
file_traffic temp camera logger net = do
  expect_started (file_blocking_write temp temperature_log (codes "temp=21.5C\n") none)
  cpu_ticks 4
  expect_started (file_blocking_write camera camera_log (codes "frame=jpeg-001\n") none)
  cpu_ticks 2
  expect_started (file_blocking_append logger network_sync (codes "temp=21.5C|cam=jpeg-001\n") none)
  expect_lock_blocked (file_blocking_read net network_sync none)
  cpu_ticks 6
  expect_started (file_blocking_read net network_sync none)
  cpu_ticks 4
  listed ← gets (λ s. list_dir (codes "/logs") s.fs)
  expect (lists (codes "temperature.log") listed && lists (codes "camera.log") listed)
  drain

abbrev pub with_io_ticks : ℕ → Simulation → Simulation
with_io_ticks n s = record s { file_io_ticks = n }

unfoldable pub run_phase4_demo : Action Simulation (Unit {0})
unfolding spawn reserve_all admit make_files file_traffic create_scheduler
run_phase4_demo = do
  without_paging
  reset
  use_scheduler (create_scheduler "rr" (pos 2))
  modify (with_io_ticks 3)
  make_files
  temp ← spawn "TemperatureSensorProcess" (pos 2) (pos 128) 20
  camera ← spawn "CameraProcess" (pos 2) (pos 256) 20
  logger ← spawn "DataLoggerProcess" (pos 1) (pos 256) 20
  net ← spawn "NetworkSyncProcess" (pos 1) (pos 384) 20
  reserve_all (temp ∷ camera ∷ logger ∷ net ∷ [])
  admit (temp ∷ camera ∷ logger ∷ net ∷ [])
  file_traffic temp camera logger net
