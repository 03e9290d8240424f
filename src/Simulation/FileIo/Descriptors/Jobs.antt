-- ===== src/Simulation/FileIo/Descriptors/Jobs.antt =====
-- mini_os_simulator/os_core/simulation.py, `_complete_file_io`: the counts of open descriptors when
-- file jobs end.
use smart_device_io_t_operat.Prelude.{
  nat_key, path_key, ℕ, ◌≡◌, refl, ◌∙◌, inl, inr, some, List, [], ◌∷◌, leb, Option-cases,
  Bool-cases, Dict,
}
use smart_device_io_t_operat.Process.Pcb.{ready}
use smart_device_io_t_operat.Memory.Owner.{CallbacksKeep}
use smart_device_io_t_operat.FileSystem
use smart_device_io_t_operat.FileSystem.{
  file_exists, release_exclusive_lock, set_simulation_tick, try_acquire_exclusive_lock,
  acquire_inode, contend,
}
use smart_device_io_t_operat.Simulation.State.{
  Simulation, OpenFileDescriptor, FileOp, PendingFileIoJob, pcb_of, change_state, enqueue_pid,
}
use smart_device_io_t_operat.Simulation.Callbacks.{
  memory_ports, memory_clear_mapping, memory_install_mapping, memory_on_fifo_eviction,
  make_fs_ports,
}
use smart_device_io_t_operat.Simulation.FileIo.{perform, complete_file_io, advance_io_jobs, text_of}
use smart_device_io_t_operat.Simulation.FileIo.Invariants.{
  WakesKeep, wake_keeps, release_keeps, ready_after_fault_keeps,
}
use smart_device_io_t_operat.Simulation.FileIo.Descriptors.{IsCounted}
use smart_device_io_t_operat.Simulation.FileIo.Descriptors.Kept.{
  KeepsCounts, write-KeepsCounts, delete-KeepsCounts, locking-KeepsCounts,
}

abbrev pub AllCounted : Simulation → Type 0
AllCounted s = IsCounted s.open_by_fd s.next_fd s.fs

pub kept-AllCounted :
    (s : Simulation) (fs : FileSystem.FileSystem)
    → KeepsCounts s.fs fs
    → AllCounted s
    → IsCounted s.open_by_fd s.next_fd fs
kept-AllCounted s fs k v = record {
  distinct = v.distinct;
  below = v.below;
  counted = λ q. k q ∙ v.counted q;
}

-- The processes and the queue have no part in the counts.
pub enqueue_pid-AllCounted :
    (pid : ℕ) (s : Simulation) → AllCounted s → AllCounted (enqueue_pid pid s)
unfolding enqueue_pid
enqueue_pid-AllCounted pid s v = elim (Option-cases (pcb_of pid s)) [
  | inl e ↦ rw (e, enqueue_pid) v
  | inr (p, e) ↦ rw (e, enqueue_pid) v
]

wakes_keep : WakesKeep AllCounted
unfolding change_state
wakes_keep = record {
  requeues = enqueue_pid-AllCounted;
  readies = λ pid p s e v. enqueue_pid-AllCounted pid (change_state pid ready s) v;
}

pub memory_ports_keep : CallbacksKeep memory_ports AllCounted
unfolding memory_clear_mapping memory_install_mapping memory_on_fifo_eviction
memory_ports_keep = record {
  clears = λ pid page s v. v;
  installs = λ pid page frame s v. v;
  readies = ready_after_fault_keeps AllCounted wakes_keep;
  evicts = λ pid page frame s v. v;
}

-- The table of open files, which waking a process keeps.
abbrev pub Opens : Dict ℕ OpenFileDescriptor → ℕ → Simulation → Type 0
Opens ds n s = (s.open_by_fd ≡ ds) × (s.next_fd ≡ n)

pub enqueue_pid-Opens :
    (ds : Dict ℕ OpenFileDescriptor) (n pid : ℕ) (s : Simulation)
    → Opens ds n s
    → Opens ds n (enqueue_pid pid s)
unfolding enqueue_pid
enqueue_pid-Opens ds n pid s v = elim (Option-cases (pcb_of pid s)) [
  | inl e ↦ rw (e, enqueue_pid) v
  | inr (p, e) ↦ rw (e, enqueue_pid) v
]

wakes_keep-Opens : (ds : Dict ℕ OpenFileDescriptor) (n : ℕ) → WakesKeep (Opens ds n)
unfolding change_state
wakes_keep-Opens ds n = record {
  requeues = enqueue_pid-Opens ds n;
  readies = λ pid p s e v. enqueue_pid-Opens ds n pid (change_state pid ready s) v;
}

perform-KeepsCounts :
    (op : FileOp) (job : PendingFileIoJob) (fs : FileSystem.FileSystem)
    → KeepsCounts fs (perform op job fs)
unfolding perform
perform-KeepsCounts FileOp.write job fs =
    (write-KeepsCounts job.path (text_of job.payload) (some job.pid) fs).0
perform-KeepsCounts FileOp.append job fs =
    (write-KeepsCounts job.path (text_of job.payload) (some job.pid) fs).1
perform-KeepsCounts FileOp.delete job fs = delete-KeepsCounts job.path fs
perform-KeepsCounts FileOp.read job fs = λ q. refl

-- A call that changes the files with the ports, and leaves the counts and the table.
pub counted-AllCounted :
    (s t : Simulation) (fs : FileSystem.FileSystem)
    → Opens s.open_by_fd s.next_fd t
    → KeepsCounts s.fs fs
    → AllCounted s
    → AllCounted (record t { fs = fs })
counted-AllCounted s t fs (p, q) k v = rw (p, q) (kept-AllCounted s fs k v)

complete_file_io-AllCounted :
    (job : PendingFileIoJob) (s : Simulation) → AllCounted s → AllCounted (complete_file_io job s)
unfolding complete_file_io
complete_file_io-AllCounted job s v =
    let fs = perform job.op job s.fs in
    let s₁ : Simulation = record s { observer = _ } in
    let (fs', s₂) = release_exclusive_lock job.pid job.path (some make_fs_ports) fs s₁ in
    let opens : Opens s.open_by_fd s.next_fd s₂ =
      release_keeps (Opens s.open_by_fd s.next_fd) (wakes_keep-Opens s.open_by_fd s.next_fd) job.pid
        job.path fs s₁ (refl, refl) in
    let kept : KeepsCounts s.fs fs' = λ q.
      (locking-KeepsCounts make_fs_ports job.pid job.path fs s₁).1 q
      ∙ perform-KeepsCounts job.op job s.fs q in
    wake_keeps AllCounted wakes_keep job.pid (record s₂ { fs = fs' })
      (counted-AllCounted s s₂ fs' opens kept v)

pub advance_io_jobs-AllCounted :
    (jobs : List PendingFileIoJob) (s : Simulation)
    → AllCounted s
    → AllCounted (advance_io_jobs jobs s).1
unfolding advance_io_jobs
advance_io_jobs-AllCounted [] s v = v
advance_io_jobs-AllCounted (job ∷ rest) s v = elim (Bool-cases (leb job.ticks_remaining 1)) [
  | inl e ↦
      rw (e, advance_io_jobs)
        (advance_io_jobs-AllCounted rest (complete_file_io job s)
          (complete_file_io-AllCounted job s v))
  | inr e ↦ rw (e, advance_io_jobs) (advance_io_jobs-AllCounted rest s v)
]
