-- ===== src/Simulation/FileIo/Descriptors/Runs.antt =====
-- mini_os_simulator/os_core/simulation.py and mini_os_simulator/filesystem/file_system.py: the counts
-- of open descriptors over any calls.
use smart_device_io_t_operat.Prelude.{
  nat_key, path_key, ℕ, ◌<◌, ◌≡◌, refl, inl, inr, Bool, true, false, Option, none, some, String,
  List, [], ◌∷◌, ◌==◌, ltb, arith, Option-cases, Bool-cases,
}
use smart_device_io_t_operat.Prelude.Table
use smart_device_io_t_operat.Prelude.Table.{get-modify, get-put, get-remove, same_codes_iff}
use smart_device_io_t_operat.FileSystem
use smart_device_io_t_operat.FileSystem.{
  Inode, FileSystemPorts, update, file_exists, has_file, has_dir, create, delete, write, append,
  store, touch_meta_size, try_acquire_exclusive_lock, acquire_inode, contend,
  release_exclusive_lock, hand_over, owned_by, set_owner, add_waiter, grant_next,
}
use smart_device_io_t_operat.FileSystem.{mkdir, get_metadata, set_simulation_tick}
use smart_device_io_t_operat.FileSystem.Paths.{FilePath, normalize_path}
use smart_device_io_t_operat.Memory.{MemoryManager}
use smart_device_io_t_operat.Simulation.State.{new_simulation, Simulation, pcb_of}
use smart_device_io_t_operat.Simulation.Callbacks.{make_fs_ports}
use smart_device_io_t_operat.Simulation.Cpu.{reset_cpu_execution_state}
use smart_device_io_t_operat.Simulation.FileIo.{open_file, close_file, sync_fs_tick}
use smart_device_io_t_operat.Simulation.FileIo.Descriptors.{
  opened, holders, opened-IsCounted, closed-IsCounted,
}
use smart_device_io_t_operat.Simulation.State.{FileOp}
use smart_device_io_t_operat.Simulation.Cpu.{cpu_step}
use smart_device_io_t_operat.Simulation.Cpu.Invariants.{cpu_step_keeps}
use smart_device_io_t_operat.Simulation.FileIo.{file_blocking}
use smart_device_io_t_operat.Simulation.FileIo.Descriptors.Jobs.{AllCounted, kept-AllCounted}
use smart_device_io_t_operat.Simulation.FileIo.Descriptors.Ticks.{parts_keep}
use smart_device_io_t_operat.Simulation.FileIo.Descriptors.Starts.{file_blocking-AllCounted}
use smart_device_io_t_operat.Simulation.FileIo.Descriptors.Kept.{
  mkdir-KeepsCounts, get_metadata-KeepsCounts, write-KeepsCounts, create-KeepsCounts,
  delete-KeepsCounts, locking-KeepsCounts,
}

-- A call of `open_file` or `close_file`, of a method of the file system other than `note_open` and
-- `note_close`, which those two call, or of one that starts a file job, a tick, or anything that
-- changes other parts of the simulation.
pub data Call : Type 0 where
  opens : ℕ → FilePath → String → Call
  closes : ℕ → ℕ → Call
  creates : FilePath → Option ℕ → Call
  makes_dir deletes refreshes : FilePath → Call
  sets_tick : ℕ → Call
  writes appends : FilePath → List ℕ → Option ℕ → Call
  locks unlocks : ℕ → FilePath → Call
  starts : FileOp → Option (List ℕ) → ℕ → FilePath → Option ℕ → Call
  ticks : Call
  elsewhere : (Simulation → Simulation) → Call

abbrev pub apart_from_files : Simulation → Simulation → Simulation
apart_from_files s t = record t { fs = s.fs; open_by_fd = s.open_by_fd; next_fd = s.next_fd }

abbrev pub after_step : Option (Bool × Simulation) → Simulation → Simulation
after_step none s = s
after_step (some (answer, t)) s = t

pub step : Call → Simulation → Simulation
step (opens pid path mode) s = (open_file pid path mode s).1
step (closes pid fd) s = (close_file pid fd s).1
step (creates path pid) s = record s { fs = (create path pid s.fs).1 }
step (makes_dir path) s = record s { fs = (mkdir path s.fs).1 }
step (refreshes path) s = record s { fs = (get_metadata path s.fs).1 }
step (sets_tick tick) s = record s { fs = set_simulation_tick tick s.fs }
step (deletes path) s = record s { fs = (delete path s.fs).1 }
step (writes path text pid) s = record s { fs = (write path text pid s.fs).1 }
step (appends path text pid) s = record s { fs = (append path text pid s.fs).1 }
step (locks pid path) s =
    apart_from_files
      (record s { fs = (try_acquire_exclusive_lock pid path (some make_fs_ports) s.fs s).1 })
      (try_acquire_exclusive_lock pid path (some make_fs_ports) s.fs s).2
step (unlocks pid path) s =
    apart_from_files
      (record s { fs = (release_exclusive_lock pid path (some make_fs_ports) s.fs s).0 })
      (release_exclusive_lock pid path (some make_fs_ports) s.fs s).1
step (starts op payload pid path io_ticks) s = (file_blocking op payload pid path io_ticks s).1
step ticks s = after_step (cpu_step s) s
step (elsewhere f) s = apart_from_files s (f s)

pub run : List Call → Simulation → Simulation
run [] s = s
run (c ∷ cs) s = run cs (step c s)

open_file-AllCounted :
    (pid : ℕ) (path : FilePath) (mode : String) (s : Simulation)
    → AllCounted s
    → AllCounted (open_file pid path mode s).1
unfolding open_file file_exists
open_file-AllCounted pid path mode s v =
    let t = sync_fs_tick s in
    let w : AllCounted t = record { distinct = v.distinct; below = v.below; counted = v.counted } in
    elim (Option-cases (pcb_of pid s)) [
      | inl e ↦ rw (e, open_file) w
      | inr (p, e) ↦ elim (Bool-cases (has_file (normalize_path (normalize_path path)) t.fs)) [
        | inr g ↦ rw (e, open_file) (rw g w)
        | inl g ↦ rw (e, open_file) (rw g (opened-IsCounted _ s.open_by_fd s.next_fd t.fs g w))
      ]
    ]

close_file-AllCounted :
    (pid fd : ℕ) (s : Simulation) → AllCounted s → AllCounted (close_file pid fd s).1
unfolding close_file
close_file-AllCounted pid fd s v =
    let t = sync_fs_tick s in
    let w : AllCounted t = record { distinct = v.distinct; below = v.below; counted = v.counted } in
    elim (Option-cases (Table.get fd s.open_by_fd)) [
      | inl e ↦ rw (e, close_file) w
      | inr (d, e) ↦ elim (Option-cases (pcb_of pid s)) [
        | inl g ↦ rw (e, close_file) (rw (g, close_file) w)
        | inr (p, g) ↦ elim (Bool-cases (d.pid == pid)) [
          | inr h ↦ rw (e, close_file) (rw (g, close_file) (rw h w))
          | inl h ↦
              rw (e, close_file)
                (rw (g, close_file) (rw h (closed-IsCounted fd d s.open_by_fd s.next_fd t.fs e w)))
        ]
      ]
    ]

step-AllCounted : (c : Call) (s : Simulation) → AllCounted s → AllCounted (step c s)
unfolding step
step-AllCounted (opens pid path mode) s v = open_file-AllCounted pid path mode s v
step-AllCounted (closes pid fd) s v = close_file-AllCounted pid fd s v
step-AllCounted (creates path pid) s v = kept-AllCounted s _ (create-KeepsCounts path pid s.fs) v
step-AllCounted (makes_dir path) s v = kept-AllCounted s _ (mkdir-KeepsCounts path s.fs) v
step-AllCounted (refreshes path) s v = kept-AllCounted s _ (get_metadata-KeepsCounts path s.fs) v
step-AllCounted (sets_tick tick) s v =
    kept-AllCounted s (set_simulation_tick tick s.fs) (λ q. refl) v
step-AllCounted (deletes path) s v = kept-AllCounted s _ (delete-KeepsCounts path s.fs) v
step-AllCounted (writes path text pid) s v =
    kept-AllCounted s _ (write-KeepsCounts path text pid s.fs).0 v
step-AllCounted (appends path text pid) s v =
    kept-AllCounted s _ (write-KeepsCounts path text pid s.fs).1 v
step-AllCounted (locks pid path) s v =
    kept-AllCounted s _ (locking-KeepsCounts make_fs_ports pid path s.fs s).0 v
step-AllCounted (unlocks pid path) s v =
    kept-AllCounted s _ (locking-KeepsCounts make_fs_ports pid path s.fs s).1 v
step-AllCounted (starts op payload pid path io_ticks) s v =
    file_blocking-AllCounted op payload pid path io_ticks s v
step-AllCounted ticks s v = elim (Option-cases (cpu_step s)) [
  | inl e ↦ rw e v
  | inr (r, e) ↦ rw e (cpu_step_keeps AllCounted parts_keep s r v e)
]
step-AllCounted (elsewhere f) s v = v

run-AllCounted : (cs : List Call) (s : Simulation) → AllCounted s → AllCounted (run cs s)
unfolding run
run-AllCounted [] s v = v
run-AllCounted (c ∷ cs) s v = run-AllCounted cs (step c s) (step-AllCounted c s v)

new-AllCounted :
    (memory : MemoryManager) (paging : Bool) → AllCounted (new_simulation memory paging)
unfolding holders Table.get
new-AllCounted memory paging = record { distinct = tt; below = λ fd m. cc; counted = λ q. refl }

-- A counted file is there and cannot be deleted.
delete-refused :
    (path : FilePath) (fs : FileSystem.FileSystem)
    → 0 < opened (normalize_path path) fs
    → (file_exists path fs ≡ true) × (delete path fs ≡ (false, fs))
unfolding file_exists delete
delete-refused path fs h = elim (Option-cases (Table.get (normalize_path path) fs.files)) [
  | inl e ↦ absurd (ground (arith, e, h))
  | inr (i, e) ↦
      let many : ltb 0 i.meta.open_count ≡ true = ground (arith, e, h) in
      (ground (arith, e), rw (e, delete) (rw many refl))
]

-- From a new simulation, after any ticks, any calls of `open_file`, `close_file`, the methods
-- that start a file job and the methods of the file system other than `note_open` and
-- `note_close`, which `open_file` and `close_file` call, between any changes of the simulation's
-- parts other than its files and its open file table: descriptors are different and below the
-- next one, and the open count of every file is the number of its open descriptors; a path with
-- a descriptor has a file, which `delete` refuses to delete; and after
-- `_reset_cpu_execution_state` it is still refused, though no descriptor is left.
pub run_counts :
    (memory : MemoryManager) (paging : Bool) (cs : List Call)
    → let s = run cs (new_simulation memory paging) in
      AllCounted s
      × ((path : FilePath)
          → 0 < holders (normalize_path path) s.open_by_fd
          → (file_exists path s.fs ≡ true)
            × (delete path s.fs ≡ (false, s.fs))
            × (delete path (reset_cpu_execution_state s).fs ≡ (false, s.fs))
            × (holders (normalize_path path) (reset_cpu_execution_state s).open_by_fd ≡ 0))
unfolding reset_cpu_execution_state holders
run_counts memory paging cs =
    let s = run cs (new_simulation memory paging) in
    let v = run-AllCounted cs (new_simulation memory paging) (new-AllCounted memory paging) in
    (
      v,
      λ path h.
          let (there, refused) =
            delete-refused path s.fs (omega (arith, v.counted (normalize_path path), h)) in
          (there, refused, refused, refl),
    )
