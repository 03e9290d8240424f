-- ===== src/Simulation/FileIo/Descriptors/Starts.antt =====
-- mini_os_simulator/os_core/simulation.py, the `file_blocking_…` methods: the counts of open
-- descriptors when a file job starts or its process has to wait.
use smart_device_io_t_operat.Prelude.{
  nat_key, path_key, ℕ, ◌≡◌, refl, inl, inr, Option, none, some, List, ◌==◌, Option-cases,
  Bool-cases, arith, Dict,
}
use smart_device_io_t_operat.Prelude.Table
use smart_device_io_t_operat.FileSystem
use smart_device_io_t_operat.FileSystem.{
  file_exists, set_simulation_tick, try_acquire_exclusive_lock, acquire_inode, contend,
}
use smart_device_io_t_operat.FileSystem.Paths.{FilePath, normalize_path}
use smart_device_io_t_operat.Simulation.State.{
  Simulation, OpenFileDescriptor, FileOp, pcb_of, change_state,
}
use smart_device_io_t_operat.Simulation.Callbacks.{
  make_fs_ports, sync_block_process, obs_on_file_lock_blocked,
}
use smart_device_io_t_operat.Simulation.FileIo.{file_blocking, sync_fs_tick}
use smart_device_io_t_operat.Simulation.FileIo.Descriptors.{IsCounted}
use smart_device_io_t_operat.Simulation.FileIo.Descriptors.Kept.{locking-KeepsCounts}
use smart_device_io_t_operat.Simulation.FileIo.Descriptors.Jobs.{
  AllCounted, Opens, counted-AllCounted,
}

-- Blocking a process changes neither the files nor the table.
block_keeps :
    (P : FileSystem.FileSystem → Dict ℕ OpenFileDescriptor → ℕ → Type 0) (pid : ℕ) (s : Simulation)
    → P s.fs s.open_by_fd s.next_fd
    → let t = sync_block_process pid s in P t.fs t.open_by_fd t.next_fd
unfolding sync_block_process change_state
block_keeps P pid s v = elim (Option-cases (pcb_of pid s)) [
  | inl e ↦ rw (e, sync_block_process) v
  | inr (p, e) ↦ ground (arith, e, v)
]

try_acquire-Opens :
    (ds : Dict ℕ OpenFileDescriptor) (n pid : ℕ) (path : FilePath) (fs : FileSystem.FileSystem)
    (s : Simulation)
    → Opens ds n s
    → Opens ds n (try_acquire_exclusive_lock pid path (some make_fs_ports) fs s).2
unfolding try_acquire_exclusive_lock acquire_inode contend make_fs_ports obs_on_file_lock_blocked
try_acquire-Opens ds n pid path fs s v =
    elim (Option-cases (Table.get (normalize_path path) fs.files)) [
      | inl e ↦ rw (e, try_acquire_exclusive_lock) v
      | inr (i, e) ↦ rw (e, try_acquire_exclusive_lock) (by_owner i.lock_owner)
    ]
  where
    by_owner :
        (owner : Option ℕ)
        → Opens ds n (acquire_inode pid (normalize_path path) owner (some make_fs_ports) fs s).2
    by_owner none = v
    by_owner (some holder) = elim (Bool-cases (holder == pid)) [
      | inl e ↦ rw e v
      | inr e ↦ rw e (block_keeps (λ f ds' n'. (ds' ≡ ds) × (n' ≡ n)) pid s v)
    ]

pub file_blocking-AllCounted :
    (op : FileOp) (payload : Option (List ℕ)) (pid : ℕ) (path : FilePath) (ticks : Option ℕ)
    (s : Simulation)
    → AllCounted s
    → AllCounted (file_blocking op payload pid path ticks s).1
unfolding file_blocking
file_blocking-AllCounted op payload pid path ticks s₀ v₀ =
    let s = sync_fs_tick s₀ in
    let v : AllCounted s = record {
      distinct = v₀.distinct;
      below = v₀.below;
      counted = v₀.counted;
    } in
    let p = normalize_path path in
    let (granted, fs, s₁) = try_acquire_exclusive_lock pid p (some make_fs_ports) s.fs s in
    let opens = try_acquire-Opens s.open_by_fd s.next_fd pid p s.fs s (refl, refl) in
    let v₁ =
      counted-AllCounted s s₁ fs opens (locking-KeepsCounts make_fs_ports pid p s.fs s).0 v in
    elim (Bool-cases (file_exists p s.fs)) [
      | inr e ↦ rw e v
      | inl e ↦ elim (Bool-cases granted) [
        | inr g ↦ simp (e, g) v₁
        | inl g ↦ simp (e, g) (block_keeps (λ f ds n. IsCounted ds n f) pid _ v₁)
      ]
    ]
