-- ===== src/Simulation/FileIo/Deletion.antt =====
-- mini_os_simulator/os_core/simulation.py: the lock of a file operation from its start to its
-- completion, and `file_blocking_delete`.
use smart_device_io_t_operat.Prelude.{
  nat_key, path_key, ℕ, ◌≡◌, refl, sym, ◌∙◌, ap, inl, inr, true, false, Option, none, some, List,
  [], ◌∷◌, ◌==◌, if◌then◌else◌, is_some, map_option, arith, Option-cases, Bool-cases,
}
use smart_device_io_t_operat.Prelude.Table
use smart_device_io_t_operat.Prelude.Table.{get-modify, same_codes_iff}
use smart_device_io_t_operat.Process.Pcb.{ProcessState, ready, blocked}
use smart_device_io_t_operat.FileSystem.{
  FileSystem, FileSystemPorts, Inode, update, set_owner, grant_next, owned_by, file_exists,
  has_file, delete, try_acquire_exclusive_lock, acquire_inode, contend, release_exclusive_lock,
  hand_over,
}
use smart_device_io_t_operat.FileSystem.Tree.{has_file-update}
use smart_device_io_t_operat.FileSystem.Paths.{FilePath, normalize_path}
use smart_device_io_t_operat.Simulation.State.{
  Simulation, FileOp, PendingFileIoJob, pcb_of, enqueue_pid, change_state,
}
use smart_device_io_t_operat.Simulation.Callbacks.{
  make_fs_ports, sync_wake_process, sync_block_process,
}
use smart_device_io_t_operat.Simulation.FileIo.{
  sync_fs_tick, io_started, file_blocking, perform, complete_file_io,
}

-- A file that is locked is there after `delete`.
delete_locked :
    (path : FilePath) (fs : FileSystem) (inode : Inode) (owner : ℕ)
    → Table.get (normalize_path path) fs.files ≡ some inode
    → inode.lock_owner ≡ some owner
    → delete path fs ≡ (false, fs)
unfolding delete
delete_locked path fs inode owner e f = rw (e, delete) (ground (arith, f))

has_file-hand_over :
    {S : Type 0} (p q : FilePath) (waiters : List ℕ) (ports : Option (FileSystemPorts S))
    (fs : FileSystem) (s : S)
    → has_file q (hand_over p waiters ports fs s).0 ≡ has_file q fs
unfolding hand_over
has_file-hand_over p q [] ports fs s = has_file-update p q (set_owner none) fs
has_file-hand_over p q (w ∷ rest) ports fs s = has_file-update p q (grant_next w rest) fs

has_file-release :
    {S : Type 0} (pid : ℕ) (path q : FilePath) (ports : Option (FileSystemPorts S))
    (fs : FileSystem) (s : S)
    → has_file q (release_exclusive_lock pid path ports fs s).0 ≡ has_file q fs
unfolding release_exclusive_lock
has_file-release pid path q ports fs s =
    elim (Option-cases (Table.get (normalize_path path) fs.files)) [
      | inl e ↦ rw (e, release_exclusive_lock) refl
      | inr (i, e) ↦ elim (Bool-cases (owned_by pid i.lock_owner)) [
        | inl o ↦
            rw (e, release_exclusive_lock)
              (rw o (has_file-hand_over (normalize_path path) q i.lock_waiters ports fs s))
        | inr o ↦ rw (e, release_exclusive_lock) (rw o refl)
      ]
    ]

fs-enqueue_pid : (pid : ℕ) (s : Simulation) → (enqueue_pid pid s).fs ≡ s.fs
unfolding enqueue_pid
fs-enqueue_pid pid s = elim (Option-cases (pcb_of pid s)) [
  | inl e ↦ rw (e, enqueue_pid) refl
  | inr (p, e) ↦ rw (e, enqueue_pid) refl
]

pub fs-sync_wake_process : (pid : ℕ) (s : Simulation) → (sync_wake_process pid s).fs ≡ s.fs
unfolding sync_wake_process change_state
fs-sync_wake_process pid s = elim (Option-cases (pcb_of pid s)) [
  | inl e ↦ rw (e, sync_wake_process) refl
  | inr (p, e) ↦
      rw (e, sync_wake_process)
        (ground (arith, fs-enqueue_pid pid (change_state pid ready s), fs-enqueue_pid pid s))
]

performed_keeps_file :
    (op : FileOp) (job : PendingFileIoJob) (fs : FileSystem) (inode : Inode) (owner : ℕ)
    → op ≡ FileOp.delete
    → Table.get (normalize_path job.path) fs.files ≡ some inode
    → inode.lock_owner ≡ some owner
    → has_file (normalize_path job.path) (perform op job fs) ≡ true
unfolding perform
performed_keeps_file FileOp.delete job fs inode owner op e f =
    ap (λ r. has_file (normalize_path job.path) r.1) (delete_locked job.path fs inode owner e f)
    ∙ ap is_some e
performed_keeps_file FileOp.read job fs inode owner op e f = ap is_some e
performed_keeps_file FileOp.write job fs inode owner op e f = cc
performed_keeps_file FileOp.append job fs inode owner op e f = cc

fs-change_state :
    (pid : ℕ) (state : ProcessState) (s : Simulation) → (change_state pid state s).fs ≡ s.fs
unfolding change_state
fs-change_state pid state s = refl

pub fs-sync_block_process : (pid : ℕ) (s : Simulation) → (sync_block_process pid s).fs ≡ s.fs
unfolding sync_block_process
fs-sync_block_process pid s = elim (Option-cases (pcb_of pid s)) [
  | inl e ↦ rw (e, sync_block_process) refl
  | inr (p, e) ↦ rw (e, sync_block_process) (ground (arith, fs-change_state pid blocked s))
]

-- When a delete job is complete and its file is locked, by whomever, the file still exists
-- afterwards.
pub complete_file_io_keeps_file :
    (job : PendingFileIoJob) (s : Simulation) (inode : Inode) (owner : ℕ)
    → job.op ≡ FileOp.delete
    → Table.get (normalize_path job.path) s.fs.files ≡ some inode
    → inode.lock_owner ≡ some owner
    → file_exists job.path (complete_file_io job s).fs ≡ true
unfolding complete_file_io perform file_exists
complete_file_io_keeps_file job s inode owner op e f =
    ap (has_file (normalize_path job.path)) (fs-sync_wake_process job.pid _)
    ∙ has_file-release job.pid job.path (normalize_path job.path) _ _ _
    ∙ performed_keeps_file job.op job s.fs inode owner op e f

get-update :
    (p : FilePath) (f : Inode → Inode) (fs : FileSystem) (i : Inode)
    → Table.get p fs.files ≡ some i
    → Table.get p (update p f fs).files ≡ some (f i)
get-update p f fs i e =
    get-modify p p f fs.files
    ∙ ap (λ b. if b then map_option f (Table.get p fs.files) else Table.get p fs.files)
        ((same_codes_iff p p).1 refl)
    ∙ ap (map_option f) e

-- What an acquisition that is granted leaves behind.
abbrev pub IsLockedBy : ℕ → FilePath → FileSystem → Type 0
IsLockedBy pid p fs =
    (inode : Inode) × (Table.get p fs.files ≡ some inode) × (inode.lock_owner ≡ some pid)

acquire_inode-IsLockedBy :
    {S : Type 0} (owner : Option ℕ) (pid : ℕ) (p : FilePath) (ports : FileSystemPorts S)
    (fs : FileSystem) (s : S) (i : Inode)
    → Table.get p fs.files ≡ some i
    → (acquire_inode pid p owner (some ports) fs s).0 ≡ true
    → IsLockedBy pid p (acquire_inode pid p owner (some ports) fs s).1
unfolding acquire_inode contend
acquire_inode-IsLockedBy none pid p ports fs s i e h =
    (set_owner (some pid) i, get-update p (set_owner (some pid)) fs i e, refl)
acquire_inode-IsLockedBy (some holder) pid p ports fs s i e h = elim (Bool-cases (holder == pid)) [
  | inl o ↦ rw o (set_owner (some pid) i, get-update p (set_owner (some pid)) fs i e, refl)
  | inr o ↦ ground (arith, o)
]

acquire-IsLockedBy :
    {S : Type 0} (pid : ℕ) (path : FilePath) (ports : FileSystemPorts S) (fs : FileSystem) (s : S)
    → (try_acquire_exclusive_lock pid path (some ports) fs s).0 ≡ true
    → IsLockedBy pid (normalize_path path) (try_acquire_exclusive_lock pid path (some ports) fs s).1
unfolding try_acquire_exclusive_lock
acquire-IsLockedBy pid path ports fs s h =
    elim (Option-cases (Table.get (normalize_path path) fs.files)) [
      | inl e ↦ ground (arith, e)
      | inr (i, e) ↦
          rw (e, try_acquire_exclusive_lock)
            (acquire_inode-IsLockedBy i.lock_owner pid (normalize_path path) ports fs s i e
              (sym (simp (e, try_acquire_exclusive_lock) refl) ∙ h))
    ]

-- A blocking file operation that reports that it has started leaves the file locked by its
-- process.
pub file_blocking_locks :
    (op : FileOp) (payload : Option (List ℕ)) (pid : ℕ) (path : FilePath) (ticks : Option ℕ)
    (s : Simulation)
    → (file_blocking op payload pid path ticks s).0 ≡ io_started
    → IsLockedBy pid
        (normalize_path (normalize_path path))
        (file_blocking op payload pid path ticks s).1.fs
unfolding file_blocking file_exists try_acquire_exclusive_lock
file_blocking_locks op payload pid path ticks s h =
    elim (Bool-cases (file_exists (normalize_path path) s.fs)) [
      | inl e ↦
          elim (Bool-cases
            (try_acquire_exclusive_lock pid (normalize_path path) (some make_fs_ports)
              (sync_fs_tick s).fs (sync_fs_tick s)).0) [
                | inl g ↦
                    simp (e, g, file_blocking, fs-sync_block_process)
                      (acquire-IsLockedBy pid (normalize_path path) make_fs_ports
                        (sync_fs_tick s).fs (sync_fs_tick s) g)
                | inr g ↦ ground (arith, e, g, h)
              ]
      | inr e ↦ ground (arith, e, h)
    ]
