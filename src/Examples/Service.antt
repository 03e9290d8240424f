-- ===== src/Examples/Service.antt =====
-- Devices whose calls, frames and open files are followed over a run.
use smart_device_io_t_operat.Prelude.{
  nat_key, path_key, ◌<◌, ◌≤◌, ◌-◌, ◌≡◌, refl, pos, true, false, some, List, [], ◌∷◌, All, ◌++◌,
  length, arith,
}
use smart_device_io_t_operat.Prelude.Table
use smart_device_io_t_operat.Process.Pcb.{blocked, post_init}
use smart_device_io_t_operat.Process.Scheduler.{round_robin}
use smart_device_io_t_operat.Concurrency.Locks.{new_lock}
use smart_device_io_t_operat.Concurrency.Semaphore.{new_semaphore}
use smart_device_io_t_operat.Memory.{FaultJob, allocate, with_page_size}
use smart_device_io_t_operat.Memory.Frames.{IsFrames}
use smart_device_io_t_operat.FileSystem.{file_exists, delete}
use smart_device_io_t_operat.FileSystem.Paths.{FilePath, normalize_path}
use smart_device_io_t_operat.Simulation.State.{Simulation, FileOp, new_simulation}
use smart_device_io_t_operat.Simulation.Callbacks.{make_sync_ports}
use smart_device_io_t_operat.Simulation.Callbacks.Wakeups.{status_of, IsRunnable}
use smart_device_io_t_operat.Simulation.FileIo.Descriptors.{holders}
use smart_device_io_t_operat.Simulation.FileIo.Descriptors.Runs as FileRuns
use smart_device_io_t_operat.Simulation.FileIo.Descriptors.Runs.{run_counts}
use smart_device_io_t_operat.Simulation.FileIo.Descriptors.Jobs.{AllCounted}
use smart_device_io_t_operat.Simulation.Cpu.{
  run_until_all_terminated, advance_memory, reset_cpu_execution_state,
}
use smart_device_io_t_operat.Simulation.Cpu.PageLoads.{has_job, advance_memory-IsRunnable}
use smart_device_io_t_operat.Simulation.Serving.Ticks.{Served}
use smart_device_io_t_operat.Simulation.Serving.Runs.{Ends}
use smart_device_io_t_operat.Simulation.Serving.Operations.{
  Operation, configured, operate_all, operate_all-Ends,
}
use smart_device_io_t_operat.Simulation.Serving.Calls.{add_process, put_ready}
use smart_device_io_t_operat.Simulation.Demos.Frames.{new_desk}
use smart_device_io_t_operat.Simulation.Demos.Frames.Balance.{IsFree, NoException}
use smart_device_io_t_operat.Simulation.Demos.Frames.Runs as FrameRuns
use smart_device_io_t_operat.Simulation.Demos.Frames.Runs.{
  all_stored, all_fetched, run_stays_in_bounds,
}
use smart_device_io_t_operat.Examples.Processes.{devices, device}
use smart_device_io_t_operat.Examples.Runs.{simulation, path, paged, paged-IsFrames}

-- Two devices, of which the second waits for the first one's lock and is killed.
abbrev operations : List Operation
operations =
    Operation.creates "camera" (device (pos 2) 4)
    ∷ Operation.creates "alarm" (device (pos 5) 2)
    ∷ Operation.readies 1
    ∷ Operation.readies 2
    ∷ Operation.ticks
    ∷ Operation.acquires 2 (record (new_lock "mutex") { owner = some 1 })
    ∷ Operation.ticks
    ∷ Operation.releases 1 (record { name = "mutex"; owner = some 1; waiting_queue = 2 ∷ [] })
    ∷ Operation.waits 1 (new_semaphore "slots" 0)
    ∷ Operation.kills 2
    ∷ []

operate_all-Ends_example :
    let s = operate_all operations (configured (round_robin 2) true true 5 paged true) in
    Served s
    × ((t : Simulation) × (run_until_all_terminated 100000 s ≡ some t) × Served t × Ends 100000 s t)
operate_all-Ends_example = operate_all-Ends (round_robin 2) true true 5 paged true operations 100000

-- Three frames for a buffer of two.
abbrev exchanges : List FrameRuns.Call
exchanges =
    FrameRuns.produces 1 "frame-A"
    ∷ FrameRuns.produces 1 "frame-B"
    ∷ FrameRuns.produces 1 "frame-C"
    ∷ FrameRuns.consumes 2
    ∷ []

run_stays_in_bounds_example :
    let (answers, d) =
      FrameRuns.run (make_sync_ports false) exchanges (new_desk 2 "frames" "mutex" simulation) in
    All NoException answers
    × (all_stored answers ≡ all_fetched answers ++ d.buf.items)
    × (length d.buf.items ≤ 2)
    × IsFree d.mtx
run_stays_in_bounds_example =
    run_stays_in_bounds (make_sync_ports false) exchanges 2 "frames" "mutex" simulation

-- A process that opens a file twice and closes it once.
abbrev file_calls : List FileRuns.Call
file_calls =
    FileRuns.elsewhere (add_process "camera" (device (pos 2) 4))
    ∷ FileRuns.makes_dir (b'/' ∷ b'd' ∷ [])
    ∷ FileRuns.creates path (some 1)
    ∷ FileRuns.refreshes path
    ∷ FileRuns.sets_tick 3
    ∷ FileRuns.opens 1 path "r"
    ∷ FileRuns.opens 1 path "w"
    ∷ FileRuns.closes 1 1
    ∷ FileRuns.deletes path
    ∷ FileRuns.elsewhere (put_ready 1)
    ∷ FileRuns.starts FileOp.append (some (5 ∷ [])) 1 path (some 2)
    ∷ FileRuns.ticks
    ∷ FileRuns.ticks
    ∷ []

run_counts_example :
    let s = FileRuns.run file_calls (new_simulation paged true) in
    AllCounted s
    × ((q : FilePath)
        → 0 < holders (normalize_path q) s.open_by_fd
        → (file_exists q s.fs ≡ true)
          × (delete q s.fs ≡ (false, s.fs))
          × (delete q (reset_cpu_execution_state s).fs ≡ (false, s.fs))
          × (holders (normalize_path q) (reset_cpu_execution_state s).open_by_fd ≡ 0))
run_counts_example = run_counts paged true file_calls

-- The blocked logger, whose first page is due.
abbrev page_due : FaultJob
page_due = record { pid = 3; logical_page = 0; ticks_remaining = 1 }

abbrev loading : Simulation
loading = record simulation { memory = record paged { fault_jobs = page_due ∷ [] } }

loading-IsFrames : IsFrames loading.memory
unfolding allocate with_page_size Table.get
loading-IsFrames =
    let v = paged-IsFrames in
    record { size = v.size; once = v.once; empty_iff = v.empty_iff; loaded = v.loaded }

logger_blocked : status_of 3 loading ≡ some (3, blocked)
unfolding devices Table.get Table.put Table.modify post_init
logger_blocked = refl

frames_there : 0 < loading.memory.total_frames
unfolding allocate with_page_size Table.get
frames_there = omega arith

advance_memory-IsRunnable_example :
    (1 ≤ 1 → IsRunnable 3 (advance_memory loading))
    × (1 < 1 → has_job 3 0 (1 - 1) (advance_memory loading).memory.fault_jobs ≡ true)
advance_memory-IsRunnable_example =
    advance_memory-IsRunnable 3 0 1 loading loading-IsFrames frames_there refl logger_blocked
