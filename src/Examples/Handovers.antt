-- ===== src/Examples/Handovers.antt =====
-- A mutex that passes to the blocked logger, and the last tick of the camera.
use smart_device_io_t_operat.Prelude.{
  nat_key, path_key, ℕ, ◌+◌, ◌≡◌, refl, true, none, some, [], ◌∷◌, Dict, arith,
}
use smart_device_io_t_operat.Prelude.Table
use smart_device_io_t_operat.Process.Pcb.{Pcb, post_init, blocked, terminated, finalize_metrics}
use smart_device_io_t_operat.Concurrency.SyncPorts.{Lock}
use smart_device_io_t_operat.Concurrency.Locks.{release}
use smart_device_io_t_operat.Simulation.State.{Simulation, pcb_of}
use smart_device_io_t_operat.Prelude.Table.{same_codes_iff}
use smart_device_io_t_operat.Concurrency.Semaphore.{CountingSemaphore, wait, signal}
use smart_device_io_t_operat.FileSystem.{Inode, FileSystem, new_file_system, release_exclusive_lock}
use smart_device_io_t_operat.FileSystem.Paths.{normalize_path}
use smart_device_io_t_operat.Simulation.Callbacks.Handoffs.{
  signal-IsRunnable, release_exclusive_lock-IsRunnable,
}
use smart_device_io_t_operat.Examples.Files.{file, inode}
use smart_device_io_t_operat.Simulation.Callbacks.{make_sync_ports, make_fs_ports}
use smart_device_io_t_operat.Simulation.Callbacks.Wakeups.{
  IsRunnable, status_of, release-IsRunnable,
}
use smart_device_io_t_operat.Simulation.Cpu.{execute, work}
use smart_device_io_t_operat.Simulation.Cpu.Finish.{IsFreed, execute_finishes}
use smart_device_io_t_operat.Examples.Processes.{devices, camera}
use smart_device_io_t_operat.Examples.Runs.{simulation}

abbrev pub contended : Lock
contended = record { name = "mutex"; owner = some 1; waiting_queue = 3 ∷ 2 ∷ [] }

logger_blocked : status_of 3 simulation ≡ some (3, blocked)
unfolding devices Table.get Table.put Table.modify post_init
logger_blocked = refl

release-IsRunnable_example :
    let r = release 1 (some (make_sync_ports true)) contended simulation in
    (r.1.owner ≡ some 3) × (r.1.waiting_queue ≡ 2 ∷ []) × IsRunnable 3 r.2
release-IsRunnable_example =
    release-IsRunnable true 1 3 (2 ∷ []) contended simulation refl refl logger_blocked

-- A semaphore and a file on which the logger waits.
abbrev pub awaited : CountingSemaphore
awaited = record { name = "permits"; count = 0; waiting_queue = 3 ∷ 2 ∷ []; pending_grants = [] }

signal-IsRunnable_example :
    let (sem, s) = signal (make_sync_ports true) 1 awaited simulation in
    (sem.waiting_queue ≡ 2 ∷ [])
    × (sem.count ≡ 0)
    × IsRunnable 3 s
    × ((t : Simulation)
        → ((wait (make_sync_ports true) 3 sem t).0 ≡ true)
          × ((wait (make_sync_ports true) 3 sem t).1.count ≡ 0)
          × ((wait (make_sync_ports true) 3 sem t).2 ≡ t))
signal-IsRunnable_example =
    signal-IsRunnable true 1 3 (2 ∷ []) awaited simulation refl logger_blocked

abbrev pub locked : Inode
locked = record inode { lock_owner = some 1; lock_waiters = 3 ∷ 2 ∷ [] }

abbrev pub locked_files : FileSystem
locked_files = record (new_file_system 0) { files = (normalize_path file, locked) ∷ [] }

locked_there : Table.get (normalize_path file) locked_files.files ≡ some locked
unfolding Table.get
locked_there = ground (arith, (same_codes_iff (normalize_path file) (normalize_path file)).1 refl)

release_exclusive_lock-IsRunnable_example :
    let (fs, s) = release_exclusive_lock 1 file (some make_fs_ports) locked_files simulation in
    ((j : Inode) × (Table.get (normalize_path file) fs.files ≡ some j)
      × (j.lock_owner ≡ some 3)
      × (j.lock_waiters ≡ 2 ∷ [])
      × (j.meta.locked_by ≡ some 3)
      × (j.content ≡ locked.content))
    × IsRunnable 3 s
release_exclusive_lock-IsRunnable_example =
    release_exclusive_lock-IsRunnable 1 3 (2 ∷ []) file locked locked_files simulation locked_there
      refl refl logger_blocked

abbrev pub tired : Pcb
tired = record camera { remaining_time = 1 }

-- The camera has one unit of work left, and is alone.
abbrev pub ending : Simulation
ending = record simulation { processes = record { processes = (1, tired) ∷ []; next_pid = 2 } }

tired_there : pcb_of tired.pid ending ≡ some tired
unfolding camera Table.get
tired_there = refl

execute_finishes_example :
    (t : Dict ℕ ℕ) × (pcb_of tired.pid (execute tired ending)
      ≡ some
          (record (finalize_metrics (0 + 1) (work tired)) { state = terminated; page_table = t }))
    × IsFreed tired.pid (execute tired ending)
    × ((execute tired ending).current_pid ≡ none)
execute_finishes_example = execute_finishes tired ending tired_there (omega arith)
