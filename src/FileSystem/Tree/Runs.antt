-- ===== src/FileSystem/Tree/Runs.antt =====
-- mini_os_simulator/filesystem/file_system.py: sequences of calls and the tree of directories.
use smart_device_io_t_operat.Prelude.{
  path_key, ℕ, refl, inl, inr, Option, none, some, List, [], ◌∷◌, Option-cases, Bool-cases, ◌==◌,
}
use smart_device_io_t_operat.Prelude.Table
use smart_device_io_t_operat.Prelude.Table.{get-put, get-remove, get-modify, same_codes_iff}
use smart_device_io_t_operat.FileSystem.Paths.{FilePath, normalize_path}
use smart_device_io_t_operat.FileSystem
use smart_device_io_t_operat.FileSystem.{
  Inode, FileSystemPorts, has_dir, has_file, update, new_file_system, set_simulation_tick, mkdir,
  create, write, append, delete, get_metadata, try_acquire_exclusive_lock, release_exclusive_lock,
  acquire_inode, contend, hand_over, owned_by, note_open, note_close, store, refresh_meta,
  set_owner, add_waiter, grant_next,
}
use smart_device_io_t_operat.FileSystem.Tree.{
  IsTree, kept-IsTree, update-IsTree, mkdir-IsTree, create-IsTree, write-IsTree, append-IsTree,
  delete-IsTree, get_metadata-IsTree,
}

module _ {S : Type 0} (ports : Option (FileSystemPorts S)) where
  acquire_inode-IsTree :
      (pid : ℕ) (p : FilePath) (owner : Option ℕ) (ports : Option (FileSystemPorts S))
      (fs : FileSystem.FileSystem) (s : S)
      → IsTree fs
      → IsTree (acquire_inode pid p owner ports fs s).1
  unfolding acquire_inode contend
  acquire_inode-IsTree pid p none ports fs s v = update-IsTree p (set_owner (some pid)) fs v
  acquire_inode-IsTree pid p (some holder) none fs s v = elim (Bool-cases (holder == pid)) [
    | inl e ↦ rw e (update-IsTree p (set_owner (some pid)) fs v)
    | inr e ↦ rw e v
  ]
  acquire_inode-IsTree pid p (some holder) (some f) fs s v = elim (Bool-cases (holder == pid)) [
    | inl e ↦ rw e (update-IsTree p (set_owner (some pid)) fs v)
    | inr e ↦ rw e (update-IsTree p (add_waiter pid) fs v)
  ]

  acquire-IsTree :
      (pid : ℕ) (path : FilePath) (fs : FileSystem.FileSystem) (s : S)
      → IsTree fs
      → IsTree (try_acquire_exclusive_lock pid path ports fs s).1
  unfolding try_acquire_exclusive_lock
  acquire-IsTree pid path fs s v = elim (Option-cases (Table.get (normalize_path path) fs.files)) [
    | inl e ↦ rw (e, try_acquire_exclusive_lock) v
    | inr (i, e) ↦
        rw (e, try_acquire_exclusive_lock)
          (acquire_inode-IsTree pid (normalize_path path) i.lock_owner ports fs s v)
  ]

  hand_over-IsTree :
      (p : FilePath) (waiters : List ℕ) (fs : FileSystem.FileSystem) (s : S)
      → IsTree fs
      → IsTree (hand_over p waiters ports fs s).0
  unfolding hand_over
  hand_over-IsTree p [] fs s v = update-IsTree p (set_owner none) fs v
  hand_over-IsTree p (w ∷ rest) fs s v = update-IsTree p (grant_next w rest) fs v

  release-IsTree :
      (pid : ℕ) (path : FilePath) (fs : FileSystem.FileSystem) (s : S)
      → IsTree fs
      → IsTree (release_exclusive_lock pid path ports fs s).0
  unfolding release_exclusive_lock
  release-IsTree pid path fs s v = elim (Option-cases (Table.get (normalize_path path) fs.files)) [
    | inl e ↦ rw (e, release_exclusive_lock) v
    | inr (i, e) ↦ elim (Bool-cases (owned_by pid i.lock_owner)) [
      | inl o ↦
          rw (e, release_exclusive_lock)
            (rw o (hand_over-IsTree (normalize_path path) i.lock_waiters fs s v))
      | inr o ↦ rw (e, release_exclusive_lock) (rw o v)
    ]
  ]

-- The methods that change the file system.
pub data Call : Type 0 where
  ticks : ℕ → Call
  makes_dir deletes looks_up opens closes : FilePath → Call
  creates : FilePath → Option ℕ → Call
  writes appends : FilePath → List ℕ → Option ℕ → Call
  locks unlocks : ℕ → FilePath → Call

module _ {S : Type 0} (ports : Option (FileSystemPorts S)) where
  unfoldable pub step : Call → FileSystem.FileSystem → S → FileSystem.FileSystem × S
  step (ticks t) fs s = (set_simulation_tick t fs, s)
  step (makes_dir p) fs s = ((mkdir p fs).1, s)
  step (deletes p) fs s = ((delete p fs).1, s)
  step (looks_up p) fs s = ((get_metadata p fs).1, s)
  step (opens p) fs s = (note_open p fs, s)
  step (closes p) fs s = (note_close p fs, s)
  step (creates p pid) fs s = ((create p pid fs).1, s)
  step (writes p text pid) fs s = ((write p text pid fs).1, s)
  step (appends p text pid) fs s = ((append p text pid fs).1, s)
  step (locks pid p) fs s =
      let (granted, fs', s') = try_acquire_exclusive_lock pid p ports fs s in (fs', s')
  step (unlocks pid p) fs s = release_exclusive_lock pid p ports fs s

  unfoldable pub run : List Call → FileSystem.FileSystem → S → FileSystem.FileSystem × S
  run [] fs s = (fs, s)
  run (c ∷ cs) fs s = let (fs', s') = step c fs s in run cs fs' s'

  step-IsTree : (c : Call) (fs : FileSystem.FileSystem) (s : S) → IsTree fs → IsTree (step c fs s).0
  unfolding step note_open note_close
  step-IsTree (ticks t) fs s v = kept-IsTree fs (set_simulation_tick t fs) refl (λ q h. h) v
  step-IsTree (makes_dir p) fs s v = mkdir-IsTree p fs v
  step-IsTree (deletes p) fs s v = delete-IsTree p fs v
  step-IsTree (looks_up p) fs s v = get_metadata-IsTree p fs v
  step-IsTree (opens p) fs s v = update-IsTree (normalize_path p) _ fs v
  step-IsTree (closes p) fs s v = update-IsTree (normalize_path p) _ fs v
  step-IsTree (creates p pid) fs s v = create-IsTree p pid fs v
  step-IsTree (writes p text pid) fs s v = write-IsTree p text pid fs v
  step-IsTree (appends p text pid) fs s v = append-IsTree p text pid fs v
  step-IsTree (locks pid p) fs s v = acquire-IsTree ports pid p fs s v
  step-IsTree (unlocks pid p) fs s v = release-IsTree ports pid p fs s v

  -- Over any calls of the methods that change the file system, with any ports: `/` stays a
  -- directory, every other directory and every file stands in a directory, and no path is both,
  -- if that was so at the start.
  pub run-IsTree :
      (cs : List Call) (fs : FileSystem.FileSystem) (s : S) → IsTree fs → IsTree (run cs fs s).0
  unfolding run
  run-IsTree [] fs s v = v
  run-IsTree (c ∷ cs) fs s v = run-IsTree cs (step c fs s).0 (step c fs s).1 (step-IsTree c fs s v)
