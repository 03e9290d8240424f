-- ===== src/Simulation/FileIo/Invariants.antt =====
-- mini_os_simulator/os_core/simulation.py: what keeps a property when a process becomes ready
-- keeps it when a process is woken, when its page has been loaded and when file operations end.
use smart_device_io_t_operat.Prelude.{
  nat_key, path_key, ℕ, ◌≡◌, if◌then◌else◌, inl, inr, some, List, [], ◌∷◌, leb, Option-cases,
  Bool-cases,
}
use smart_device_io_t_operat.Prelude.Table
use smart_device_io_t_operat.Process.Pcb.{
  Pcb, ProcessState, new, ready, running, blocked, terminated, same_state,
}
use smart_device_io_t_operat.FileSystem.{FileSystem, release_exclusive_lock, hand_over, owned_by}
use smart_device_io_t_operat.FileSystem.Paths.{FilePath, normalize_path}
use smart_device_io_t_operat.Observability.{Observer}
use smart_device_io_t_operat.Simulation.State.{
  Simulation, PendingFileIoJob, pcb_of, change_state, enqueue_pid,
}
use smart_device_io_t_operat.Simulation.Callbacks.{
  make_fs_ports, sync_wake_process, memory_ready_after_fault,
}
use smart_device_io_t_operat.Simulation.FileIo.{perform, complete_file_io, advance_io_jobs}

-- A process that becomes ready keeps the property.
pub record WakesKeep (P : Simulation → Type 0) : Type 0 where
  pub requeues : (pid : ℕ) (s : Simulation) → P s → P (enqueue_pid pid s)
  pub readies :
      (pid : ℕ) (p : Pcb) (s : Simulation)
      → pcb_of pid s ≡ some p
      → P s
      → P (enqueue_pid pid (change_state pid ready s))

-- And the property does not read the files or the event log.
pub record JobsKeep (P : Simulation → Type 0) : Type 0 where
  pub wakes : WakesKeep P
  pub ignores :
      (o : Observer) (fs : FileSystem) (s : Simulation)
      → P s
      → P (record s { observer = o; fs = fs })

module _ (P : Simulation → Type 0) (k : WakesKeep P) where
  pub ready_after_fault_keeps :
      (pid : ℕ) (s : Simulation) → P s → P (memory_ready_after_fault pid s)
  unfolding memory_ready_after_fault
  ready_after_fault_keeps pid s v = elim (Option-cases (pcb_of pid s)) [
    | inl e ↦ rw (e, memory_ready_after_fault) v
    | inr (p, e) ↦ elim (Bool-cases (same_state p.state blocked)) [
      | inl b ↦ rw (e, memory_ready_after_fault) (rw b (k.readies pid p s e v))
      | inr b ↦ rw (e, memory_ready_after_fault) (rw b v)
    ]
  ]

  pub wake_keeps : (pid : ℕ) (s : Simulation) → P s → P (sync_wake_process pid s)
  unfolding sync_wake_process
  wake_keeps pid s v = elim (Option-cases (pcb_of pid s)) [
    | inl e ↦ rw (e, sync_wake_process) v
    | inr (p, e) ↦ rw (e, sync_wake_process) (by_state p.state (k.readies pid p s e v))
  ]
    where
      by_state :
          (st : ProcessState)
          → P (enqueue_pid pid (change_state pid ready s))
          → P (
              if same_state st terminated
              then s
              else if same_state st blocked
              then enqueue_pid pid (change_state pid ready s)
              else if same_state st ready
              then enqueue_pid pid s
              else s)
      by_state new w = v
      by_state ready w = k.requeues pid s v
      by_state running w = v
      by_state blocked w = w
      by_state terminated w = v

  hand_over_keeps :
      (p : FilePath) (waiters : List ℕ) (fs : FileSystem) (s : Simulation)
      → P s
      → P (hand_over p waiters (some make_fs_ports) fs s).1
  unfolding hand_over make_fs_ports
  hand_over_keeps p [] fs s v = v
  hand_over_keeps p (w ∷ rest) fs s v = wake_keeps w s v

  pub release_keeps :
      (pid : ℕ) (path : FilePath) (fs : FileSystem) (s : Simulation)
      → P s
      → P (release_exclusive_lock pid path (some make_fs_ports) fs s).1
  unfolding release_exclusive_lock
  release_keeps pid path fs s v = elim (Option-cases (Table.get (normalize_path path) fs.files)) [
    | inl e ↦ rw (e, release_exclusive_lock) v
    | inr (i, e) ↦ elim (Bool-cases (owned_by pid i.lock_owner)) [
      | inl o ↦
          rw (e, release_exclusive_lock)
            (rw o (hand_over_keeps (normalize_path path) i.lock_waiters fs s v))
      | inr o ↦ rw (e, release_exclusive_lock) (rw o v)
    ]
  ]

module _ (P : Simulation → Type 0) (k : JobsKeep P) where
  complete_file_io_keeps :
      (job : PendingFileIoJob) (s : Simulation) → P s → P (complete_file_io job s)
  unfolding complete_file_io
  complete_file_io_keeps job s v =
      let r =
        release_keeps P k.wakes job.pid job.path (perform job.op job s.fs) _
          (k.ignores _ s.fs s v) in
      wake_keeps P k.wakes job.pid _ (k.ignores _ _ _ r)

  pub advance_io_jobs_keeps :
      (jobs : List PendingFileIoJob) (s : Simulation) → P s → P (advance_io_jobs jobs s).1
  unfolding advance_io_jobs
  advance_io_jobs_keeps [] s v = v
  advance_io_jobs_keeps (job ∷ rest) s v = elim (Bool-cases (leb job.ticks_remaining 1)) [
    | inl e ↦
        rw (e, advance_io_jobs)
          (advance_io_jobs_keeps rest (complete_file_io job s) (complete_file_io_keeps job s v))
    | inr e ↦ rw (e, advance_io_jobs) (advance_io_jobs_keeps rest s v)
  ]
