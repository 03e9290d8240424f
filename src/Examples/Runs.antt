-- ===== src/Examples/Runs.antt =====
-- A simulation of the three devices, with a file that the camera works on.
use smart_device_io_t_operat.Prelude.{
  ℕ, zero, suc, nat_key, path_key, ◌<◌, ◌≡◌, refl, pos, ◌≤ℤ◌, ltb_ℤ, ◌+ℤ◌, Bool, true, false, none,
  some, [], ◌∷◌, arith, All,
}
use smart_device_io_t_operat.Prelude.Table
use smart_device_io_t_operat.Process.Pcb.{post_init, Pcb, effective_priority}
use smart_device_io_t_operat.Process.Scheduler.{fifo, round_robin}
use smart_device_io_t_operat.Concurrency.SyncPorts.{Lock}
use smart_device_io_t_operat.Concurrency.Locks.{release}
use smart_device_io_t_operat.Memory.{MemoryManager, with_page_size, allocate}
use smart_device_io_t_operat.Memory.Frames.{IsFrames}
use smart_device_io_t_operat.FileSystem.{
  FileSystem, Inode, create, new_file_system, file_exists, try_acquire_exclusive_lock,
}
use smart_device_io_t_operat.FileSystem.Paths.{
  FilePath, normalize_path, parent_dir, rsplit_slash, rstrip, lstrip, to_posix, is_space,
  join_parts, resolve, split_slash, visit,
}
use smart_device_io_t_operat.Simulation.State.{
  Simulation, FileOp, PendingFileIoJob, new_simulation, pcb_of,
}
use smart_device_io_t_operat.Simulation.Callbacks.{recompute_mutex_inheritance, make_sync_ports}
use smart_device_io_t_operat.Simulation.Callbacks.Inheritance.{
  IsCovered, recompute-IsCovered, urgency, release_uncovers,
}
use smart_device_io_t_operat.Simulation.FileIo.{io_started, file_blocking, complete_file_io}
use smart_device_io_t_operat.Simulation.FileIo.Deletion.{
  IsLockedBy, file_blocking_locks, complete_file_io_keeps_file,
}
use smart_device_io_t_operat.Simulation.Cpu.{cpu_step, run_until_all_terminated}
use smart_device_io_t_operat.Simulation.Cpu.Progress.{cpu_step_total}
use smart_device_io_t_operat.Simulation.Cpu.Slicing.{slice, IsSlicing, IsExpired}
use smart_device_io_t_operat.Simulation.Cpu.Slice.{slice_takes_quantum}
use smart_device_io_t_operat.Memory.Initial.{with_page_size-IsFrames, with_page_size-IsAccounted}
use smart_device_io_t_operat.Memory.Accounting.{allocate-IsAccounted}
use smart_device_io_t_operat.Simulation.Isolation.{frame_of}
use smart_device_io_t_operat.Simulation.Isolation.Ticks.{IsIsolated}
use smart_device_io_t_operat.Simulation.Isolation.Runs.{
  NoSharing, run_until_all_terminated-NoSharing,
}
use smart_device_io_t_operat.Process.Scheduler.{pick_next}
use smart_device_io_t_operat.Process.Scheduler.Queue.{IsPick}
use smart_device_io_t_operat.Simulation.Order.{IsOrdered}
use smart_device_io_t_operat.Simulation.Order.Rounds.{run_until_all_terminated-IsPick}
use smart_device_io_t_operat.Examples.Processes.{registry, devices, camera, alarm}

-- The text `/a`.
abbrev pub path : FilePath
path = b'/' ∷ b'a' ∷ []

abbrev pub files : FileSystem
unfolding create normalize_path
files = (create path (some 1) (new_file_system 0)).1

-- A memory with two pages for the camera.
abbrev pub paged : MemoryManager
unfolding allocate
paged = (allocate 1 (pos 300) (with_page_size 1024 256)).1

abbrev pub simulation : Simulation
simulation = record (new_simulation paged true) {
  processes = devices;
  fs = files;
  current_pid = some 1;
  scheduler = record { policy = fifo; ready_queue = 2 ∷ [] };
}

camera_there : pcb_of 1 simulation ≡ some camera
unfolding devices camera Table.get Table.put Table.modify
camera_there = refl

cpu_step_total_example : (r : Bool × Simulation) × (cpu_step simulation ≡ some r)
cpu_step_total_example = cpu_step_total simulation

abbrev pub lock : Lock
lock = record { name = "mutex"; owner = some 1; waiting_queue = 2 ∷ [] }

recompute-IsCovered_example :
    (p' : Pcb) × (pcb_of 1 (recompute_mutex_inheritance lock simulation) ≡ some p')
    × (pos 0 ≤ℤ p'.mutex_inheritance_floor)
    × All (IsCovered simulation p'.mutex_inheritance_floor) (2 ∷ [])
    × All (IsCovered simulation (effective_priority p')) (2 ∷ [])
recompute-IsCovered_example = recompute-IsCovered lock 1 camera simulation refl camera_there

abbrev pub quiet_lock : Lock
quiet_lock = record { name = "other"; owner = some 1; waiting_queue = [] }

-- The camera holds both locks, and the alarm, which is more urgent, waits for the first.
alarm_there : pcb_of 2 simulation ≡ some alarm
unfolding devices alarm Table.get Table.put Table.modify
alarm_there = refl

release_uncovers_example :
    let s₁ = recompute_mutex_inheritance lock simulation in
    let s₂ = (release 1 (some (make_sync_ports true)) quiet_lock s₁).2 in
    ((p₁ : Pcb) × (pcb_of 1 s₁ ≡ some p₁) × (urgency alarm ≤ℤ effective_priority p₁))
    × ((p₂ : Pcb) × (pcb_of 1 s₂ ≡ some p₂)
        × (ltb_ℤ (effective_priority p₂) (urgency alarm) ≡ true))
unfolding camera alarm ◌+ℤ◌
release_uncovers_example =
    release_uncovers 1 2 camera alarm lock quiet_lock simulation refl refl refl refl camera_there
      alarm_there refl refl

-- The camera alone, without paging, with a quantum of two ticks.
abbrev sliced : Simulation
sliced = record simulation {
  enable_memory_access = false;
  scheduler = record { policy = round_robin 2; ready_queue = 2 ∷ [] };
}

more_to_do : 2 < camera.remaining_time
unfolding camera
more_to_do = omega arith

slice_takes_quantum_example :
    ((k : ℕ) → k < 2 → IsSlicing 1 k camera sliced (slice k 1 sliced))
    × IsExpired 1 2 camera sliced (slice 2 1 sliced)
unfolding camera
slice_takes_quantum_example =
    slice_takes_quantum 1 camera sliced camera_there refl refl refl (omega arith) more_to_do

delete_started : (file_blocking FileOp.delete none 1 path (some 1) simulation).0 ≡ io_started
unfolding file_blocking files file_exists try_acquire_exclusive_lock Table.get Table.put create
    parent_dir rsplit_slash normalize_path rstrip lstrip to_posix is_space join_parts resolve
    split_slash visit
delete_started = refl

file_blocking_locks_example :
    IsLockedBy 1
      (normalize_path (normalize_path path))
      (file_blocking FileOp.delete none 1 path (some 1) simulation).1.fs
file_blocking_locks_example =
    file_blocking_locks FileOp.delete none 1 path (some 1) simulation delete_started

-- The same file while the camera has it locked, and the job to delete it.
abbrev pub inode : Inode
inode = record {
  content = [];
  meta = record {
    name = b'a' ∷ [];
    path = path;
    size = 0;
    created_at = 0;
    modified_at = 0;
    owner_pid = none;
    open_count = 0;
    locked_by = some 1;
  };
  lock_owner = some 1;
  lock_waiters = [];
}

abbrev pub deleting : Simulation
deleting = record simulation { fs = record (new_file_system 0) { files = (path, inode) ∷ [] } }

abbrev pub job : PendingFileIoJob
job = record { ticks_remaining = 1; pid = 1; path = path; op = FileOp.delete; payload = none }

file_there : Table.get (normalize_path path) deleting.fs.files ≡ some inode
unfolding Table.get normalize_path rstrip lstrip to_posix is_space join_parts resolve split_slash
    visit
file_there = refl

complete_file_io_keeps_file_example : file_exists path (complete_file_io job deleting).fs ≡ true
complete_file_io_keeps_file_example =
    complete_file_io_keeps_file job deleting inode 1 refl file_there refl

-- The memory is new and no page table has an entry.
no_mapping : (pid page : ℕ) → frame_of pid page simulation ≡ none
unfolding devices Table.get Table.put Table.modify post_init
no_mapping zero page = refl
no_mapping (suc zero) page = refl
no_mapping (suc (suc zero)) page = refl
no_mapping (suc (suc (suc zero))) page = refl
no_mapping (suc (suc (suc (suc pid)))) page = ground arith

pub paged-IsFrames : IsFrames paged
unfolding allocate paged with_page_size Table.get
paged-IsFrames =
    let v = with_page_size-IsFrames 1024 256 in
    record { size = v.size; once = v.once; empty_iff = v.empty_iff; loaded = v.loaded }

simulation-IsIsolated : IsIsolated simulation
unfolding paged
simulation-IsIsolated = record {
  frames = paged-IsFrames;
  accounted =
      allocate-IsAccounted 1 (pos 300) (with_page_size 1024 256)
        (with_page_size-IsAccounted 1024 256);
  mapped = λ pid page frame h. cc (h, no_mapping pid page);
}

run_until_all_terminated-NoSharing_example :
    (t : Simulation) × (run_until_all_terminated 100000 simulation ≡ some t)
    × IsIsolated t
    × NoSharing t
run_until_all_terminated-NoSharing_example =
    run_until_all_terminated-NoSharing 100000 simulation simulation-IsIsolated

simulation-IsOrdered : IsOrdered simulation
simulation-IsOrdered = record { registry = registry; once = (refl, tt) }

run_until_all_terminated-IsPick_example :
    (t : Simulation) × (run_until_all_terminated 100000 simulation ≡ some t)
    × IsOrdered t
    × IsPick t.processes.processes t.scheduler.ready_queue (
      (pick_next t.processes.processes t.scheduler).0,
      (pick_next t.processes.processes t.scheduler).1.ready_queue,
    )
run_until_all_terminated-IsPick_example =
    run_until_all_terminated-IsPick 100000 simulation simulation-IsOrdered
