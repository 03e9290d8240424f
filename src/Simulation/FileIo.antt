-- ===== src/Simulation/FileIo.antt =====
-- mini_os_simulator/os_core/simulation.py: open files, and file operations that block for a
-- number of ticks.
pub mod Deletion
pub mod Invariants
pub mod Descriptors
use smart_device_io_t_operat.Prelude.{
  nat_key, ℕ, ◌+◌, ◌-◌, Dict, String, Bool, true, false, not, ◌&&◌, ◌||◌, Option, none, some, List,
  [], ◌∷◌, ◌++◌, keep, ◌==◌, leb, if◌then◌else◌,
}
use smart_device_io_t_operat.Prelude.Table
use smart_device_io_t_operat.Process.Pcb.{Pcb}
use smart_device_io_t_operat.FileSystem
use smart_device_io_t_operat.FileSystem.{
  FileSystem, set_simulation_tick, file_exists, try_acquire_exclusive_lock, release_exclusive_lock,
  note_open, note_close,
}
use smart_device_io_t_operat.FileSystem.Paths.{FilePath, normalize_path}
use smart_device_io_t_operat.Observability
use smart_device_io_t_operat.Simulation.State.{
  Simulation, OpenFileDescriptor, FileOp, PendingFileIoJob, pcb_of, note, count, update_pcb,
}
use smart_device_io_t_operat.Simulation.Callbacks.{
  sync_block_process, sync_wake_process, make_fs_ports,
}

-- `self.fs.set_simulation_tick(self._sim_clock)`
abbrev pub sync_fs_tick : Simulation → Simulation
sync_fs_tick s = record s { fs = set_simulation_tick s.sim_clock s.fs }

unfoldable pub open_file : ℕ → FilePath → String → Simulation → Option ℕ × Simulation
open_file pid path mode s₀ =
    let s = sync_fs_tick s₀ in
    let p = normalize_path path in
    let fd = s.next_fd in
    let desc : OpenFileDescriptor = record {
      fd = fd;
      pid = pid;
      path = p;
      mode = mode;
      offset = 0;
    } in
    elim (pcb_of pid s) [
      | none ↦ (none, s)
      | some pcb ↦ if not (file_exists p s.fs) then (none, s) else (
        some fd,
        update_pcb pid (λ b. record b { opened_files = b.opened_files ++ (fd, p, mode) ∷ [] })
            (record s {
              next_fd = fd + 1;
              open_by_fd = Table.put fd desc s.open_by_fd;
              fs = note_open p s.fs;
            }),
      )
    ]

unfoldable pub close_file : ℕ → ℕ → Simulation → Bool × Simulation
close_file pid fd s₀ =
    let s = sync_fs_tick s₀ in
    elim (Table.get fd s.open_by_fd) [
      | none ↦ (false, s)
      | some desc ↦ elim (pcb_of pid s) [
        | none ↦ (false, s)
        | some pcb ↦ if not (desc.pid == pid) then (false, s) else (
          true,
          update_pcb pid
              (λ b. record b { opened_files = keep (λ e. not (e.0 == fd)) b.opened_files })
              (record s {
                fs = note_close desc.path s.fs;
                open_by_fd = Table.remove fd s.open_by_fd;
              }),
        )
      ]
    ]

pub data Started : Type 0 where
  io_started lock_blocked missing : Started

abbrev pub or_ticks : Option ℕ → ℕ → ℕ
or_ticks none n = n
or_ticks (some t) n = t

-- The four `file_blocking_…` methods share one body, which differs in `op` and `payload`.
unfoldable pub file_blocking :
    FileOp → Option (List ℕ) → ℕ → FilePath → Option ℕ → Simulation → Started × Simulation
file_blocking op payload pid path io_ticks s₀ =
    let s = sync_fs_tick s₀ in
    let p = normalize_path path in
    let job : PendingFileIoJob = record {
      ticks_remaining = or_ticks io_ticks s.file_io_ticks;
      pid = pid;
      path = p;
      op = op;
      payload = payload;
    } in
    let (granted, fs, s₁) = try_acquire_exclusive_lock pid p (some make_fs_ports) s.fs s in
    let s₂ = record s₁ { fs = fs } in
    if not (file_exists p s.fs) then (missing, s) else if not granted then (lock_blocked, s₂) else (
      io_started,
      sync_block_process pid (
          note Observability.filesystem "IO_QUEUED" (pid ∷ [])
            (record s₂ { pending_file_io = s₂.pending_file_io ++ job ∷ [] })),
    )

abbrev pub file_blocking_write :
    ℕ → FilePath → List ℕ → Option ℕ → Simulation → Started × Simulation
file_blocking_write pid path content = file_blocking FileOp.write (some content) pid path

abbrev pub file_blocking_append :
    ℕ → FilePath → List ℕ → Option ℕ → Simulation → Started × Simulation
file_blocking_append pid path fragment = file_blocking FileOp.append (some fragment) pid path

abbrev pub file_blocking_read : ℕ → FilePath → Option ℕ → Simulation → Started × Simulation
file_blocking_read pid path = file_blocking FileOp.read none pid path

abbrev pub file_blocking_delete : ℕ → FilePath → Option ℕ → Simulation → Started × Simulation
file_blocking_delete pid path = file_blocking FileOp.delete none pid path

-- `job.payload or ""`
abbrev pub text_of : Option (List ℕ) → List ℕ
text_of none = []
text_of (some t) = t

-- The file operation of a job whose time is up.
unfoldable pub perform : FileOp → PendingFileIoJob → FileSystem → FileSystem
perform FileOp.write job fs = (FileSystem.write job.path (text_of job.payload) (some job.pid) fs).1
perform FileOp.append job fs =
    (FileSystem.append job.path (text_of job.payload) (some job.pid) fs).1
perform FileOp.delete job fs = (FileSystem.delete job.path fs).1
perform FileOp.read job fs = fs

-- `_complete_file_io`
unfoldable pub complete_file_io : PendingFileIoJob → Simulation → Simulation
unfolding perform
complete_file_io job s =
    let s₁ =
      note Observability.filesystem "IO_COMPLETE" (job.pid ∷ [])
        (count (λ m. record m { total_file_io_completed = m.total_file_io_completed + 1 }) s) in
    let (fs, s₂) =
      release_exclusive_lock job.pid job.path (some make_fs_ports) (perform job.op job s₁.fs) s₁ in
    sync_wake_process job.pid (record s₂ { fs = fs })

-- The loop of `_advance_file_io_timers`: the jobs still running, and the simulation.
unfoldable pub advance_io_jobs :
    List PendingFileIoJob → Simulation → List PendingFileIoJob × Simulation
unfolding complete_file_io
advance_io_jobs [] s = ([], s)
advance_io_jobs (job ∷ rest) s =
    let done = leb job.ticks_remaining 1 in
    let (still, s') = advance_io_jobs rest (if done then complete_file_io job s else s) in
    if done
    then (still, s')
    else (record job { ticks_remaining = job.ticks_remaining - 1 } ∷ still, s')

unfoldable pub advance_file_io_timers : Simulation → Simulation
unfolding advance_io_jobs
advance_file_io_timers s =
    let (still, s') = advance_io_jobs s.pending_file_io s in record s' { pending_file_io = still }
