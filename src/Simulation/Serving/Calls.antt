-- ===== src/Simulation/Serving/Calls.antt =====
-- mini_os_simulator/os_core/simulation.py: every process that can run is queued or has the CPU,
-- after calls that create, admit and kill processes or use files.
use smart_device_io_t_operat.Prelude.{
  nat_key, path_key, ℕ, ◌≡◌, refl, inl, inr, Bool, true, false, Option, none, some, String, List,
  ◌==◌, map_option, if◌then◌else◌, arith, Option-cases, Bool-cases,
}
use smart_device_io_t_operat.Prelude.Table
use smart_device_io_t_operat.Prelude.Table.{get-put, get-modify}
use smart_device_io_t_operat.Process.Pcb.{Pcb, ProcessState, new, ready, terminated, post_init}
use smart_device_io_t_operat.Process.Manager
use smart_device_io_t_operat.Process.Manager.{Spec, create_process, terminate, fresh_pcb}
use smart_device_io_t_operat.Process.Manager.Registry.{
  create_process-IsRegistry, terminate-IsRegistry,
}
use smart_device_io_t_operat.Memory.Owner.{free_keeps}
use smart_device_io_t_operat.FileSystem
use smart_device_io_t_operat.FileSystem.{
  FileSystem, try_acquire_exclusive_lock, acquire_inode, file_exists,
}
use smart_device_io_t_operat.FileSystem.Paths.{FilePath, normalize_path}
use smart_device_io_t_operat.Simulation.State.{
  Simulation, FileOp, pcb_of, update_pcb, change_state, enqueue_pid,
}
use smart_device_io_t_operat.Simulation.State.Blocks.{state_of}
use smart_device_io_t_operat.Simulation.Callbacks.{
  make_fs_ports, sync_block_process, obs_on_file_lock_blocked, memory_ports,
}
use smart_device_io_t_operat.Simulation.FileIo.{open_file, close_file, file_blocking, sync_fs_tick}
use smart_device_io_t_operat.Simulation.Cpu.{free_memory}
use smart_device_io_t_operat.Simulation.Demos.Phases.{kill}
use smart_device_io_t_operat.Simulation.Serving.{
  Placed, IsServed, update_pcb-IsServed, ready-IsServed, enqueue_pid-IsServed, memory_ports_keep,
}
use smart_device_io_t_operat.Simulation.Serving.Ticks.{
  Served, IsServed-Served, alike-IsServed, enqueue_pid-current, HasOnCpu, current_ports,
}
use smart_device_io_t_operat.Simulation.Serving.Blocking.{alike-Served, block-Served}

-- `processes.create_process`
abbrev pub add_process : String → Spec → Simulation → Simulation
add_process name spec s = record s { processes = (create_process name spec s.processes).1 }

add_process-state_of :
    (name : String) (spec : Spec) (k : ℕ) (s : Simulation)
    → state_of k (add_process name spec s)
      ≡ (if s.processes.next_pid == k then some new else state_of k s)
unfolding create_process post_init
add_process-state_of name spec k s = ground (
  arith,
  get-put s.processes.next_pid k (fresh_pcb s.processes.next_pid name spec) s.processes.processes,
)

pub add_process-Served :
    (name : String) (spec : Spec) (s : Simulation) → Served s → Served (add_process name spec s)
add_process-Served name spec s v = record {
  ordered = record {
    registry = create_process-IsRegistry name spec s.processes v.ordered.registry;
    once = v.ordered.once;
  };
  placed = λ k. rw (add_process-state_of name spec k s) (by_test k (s.processes.next_pid == k));
}
  where
    by_test :
        (k : ℕ) (b : Bool)
        → Placed k (if b then some new else state_of k s) s.scheduler.ready_queue s.current_pid
    by_test k true = tt
    by_test k false = v.placed k

-- `processes.change_state(pid, READY)` and `scheduler.enqueue`, for a pid that has a block.
abbrev pub put_ready : ℕ → Simulation → Simulation
put_ready pid s = enqueue_pid pid (change_state pid ready s)

pub put_ready-Served : (pid : ℕ) (s : Simulation) → Served s → Served (put_ready pid s)
unfolding change_state Manager.change_state
put_ready-Served pid s v = elim (Option-cases (pcb_of pid s)) [
  | inr (p, e) ↦
      let cur = s.current_pid in
      IsServed-Served cur (put_ready pid s) (enqueue_pid-current pid (change_state pid ready s))
        (ready-IsServed cur cur pid p s e (λ k h c. c) v)
  | inl e ↦
      let s₁ = change_state pid ready s in
      let w : IsServed s.current_pid s₁ = rw (e, Manager.change_state) v in
      IsServed-Served s.current_pid (put_ready pid s) (enqueue_pid-current pid s₁)
        (enqueue_pid-IsServed s.current_pid pid s₁ w)
]

terminate-state_of :
    (pid k : ℕ) (s : Simulation)
    → state_of k (record s { processes = (terminate pid s.processes).1 })
      ≡ (if pid == k then map_option (λ _. terminated) (state_of k s) else state_of k s)
unfolding terminate
terminate-state_of pid k s = elim (Option-cases (pcb_of pid s)) [
  | inl e ↦ rw (e, terminate) (ground (arith, e))
  | inr (p, e) ↦
      rw (e, terminate)
        (ground
          (arith, e, get-modify pid k (λ b. record b { state = terminated }) s.processes.processes))
]

terminate-Served :
    (pid : ℕ) (s : Simulation)
    → Served s
    → Served (record s { processes = (terminate pid s.processes).1 })
terminate-Served pid s v = record {
  ordered = record {
    registry = terminate-IsRegistry pid s.processes v.ordered.registry;
    once = v.ordered.once;
  };
  placed = λ k. rw (terminate-state_of pid k s) (by_test k (pid == k) (state_of k s) (v.placed k));
}
  where
    by_test :
        (k : ℕ) (b : Bool) (o : Option ProcessState)
        → Placed k o s.scheduler.ready_queue s.current_pid
        → Placed k
            (if b then map_option (λ _. terminated) o else o)
            s.scheduler.ready_queue
            s.current_pid
    by_test k true none p = tt
    by_test k true (some st) p = tt
    by_test k false o p = p

free_memory-Served : (pid : ℕ) (s : Simulation) → Served s → Served (free_memory pid s)
unfolding free_memory
free_memory-Served pid s v =
    let w =
      free_keeps memory_ports (IsServed s.current_pid) (memory_ports_keep s.current_pid) pid
        s.memory s v in
    let on =
      free_keeps memory_ports (HasOnCpu s.current_pid) (current_ports s.current_pid) pid s.memory s
        refl in
    IsServed-Served s.current_pid (free_memory pid s) on
      (alike-IsServed s.current_pid _ (free_memory pid s) refl refl w)

pub kill-Served : (pid : ℕ) (s : Simulation) → Served s → Served (kill pid s)
kill-Served pid s v = free_memory-Served pid _ (terminate-Served pid s v)

-- Files.
acquire_inode-Served :
    (pid : ℕ) (p : FilePath) (o : Option ℕ) (fs : FileSystem) (s : Simulation)
    → Served s
    → Served (acquire_inode pid p o (some make_fs_ports) fs s).2
unfolding acquire_inode FileSystem.contend make_fs_ports obs_on_file_lock_blocked
acquire_inode-Served pid p none fs s v = v
acquire_inode-Served pid p (some holder) fs s v = elim (Bool-cases (holder == pid)) [
  | inl h ↦ rw h v
  | inr h ↦
      let s₁ = sync_block_process pid s in
      rw h (alike-Served s₁ _ refl refl refl (block-Served pid s v))
]

try_acquire-Served :
    (pid : ℕ) (path : FilePath) (fs : FileSystem) (s : Simulation)
    → Served s
    → Served (try_acquire_exclusive_lock pid path (some make_fs_ports) fs s).2
unfolding try_acquire_exclusive_lock
try_acquire-Served pid path fs s v =
    elim (Option-cases (Table.get (normalize_path path) fs.files)) [
      | inl e ↦ rw (e, try_acquire_exclusive_lock) v
      | inr (i, e) ↦ rw (e, try_acquire_exclusive_lock) (by_owner i.lock_owner)
    ]
  where
    by_owner :
        (o : Option ℕ)
        → Served (acquire_inode pid (normalize_path path) o (some make_fs_ports) fs s).2
    by_owner o = acquire_inode-Served pid (normalize_path path) o fs s v

pub file_blocking-Served :
    (op : FileOp) (payload : Option (List ℕ)) (pid : ℕ) (path : FilePath) (ticks : Option ℕ)
    (s : Simulation)
    → Served s
    → Served (file_blocking op payload pid path ticks s).1
unfolding file_blocking
file_blocking-Served op payload pid path ticks s₀ v₀ =
    let s = sync_fs_tick s₀ in
    let v : Served s = alike-Served s₀ s refl refl refl v₀ in
    let p = normalize_path path in
    let (granted, fs, s₁) = try_acquire_exclusive_lock pid p (some make_fs_ports) s.fs s in
    let v₁ = try_acquire-Served pid p s.fs s v in
    elim (Bool-cases (file_exists p s.fs)) [
      | inr e ↦ rw e v
      | inl e ↦ elim (Bool-cases granted) [
        | inr g ↦ simp (e, g) (alike-Served s₁ _ refl refl refl v₁)
        | inl g ↦ simp (e, g) (block-Served pid _ (alike-Served s₁ _ refl refl refl v₁))
      ]
    ]

opened_files-Served :
    (pid : ℕ) (f : Pcb → List (ℕ × FilePath × String)) (s : Simulation)
    → Served s
    → Served (update_pcb pid (λ b. record b { opened_files = f b }) s)
opened_files-Served pid f s v =
    update_pcb-IsServed s.current_pid pid (λ b. record b { opened_files = f b }) s (λ p. refl)
      (λ p. refl) v

pub open_file-Served :
    (pid : ℕ) (path : FilePath) (mode : String) (s : Simulation)
    → Served s
    → Served (open_file pid path mode s).1
unfolding open_file
open_file-Served pid path mode s₀ v₀ =
    let s = sync_fs_tick s₀ in
    let v : Served s = alike-Served s₀ s refl refl refl v₀ in
    elim (Option-cases (pcb_of pid s)) [
      | inl e ↦ rw (e, open_file) v
      | inr (p, e) ↦ elim (Bool-cases (file_exists (normalize_path path) s.fs)) [
        | inr g ↦ rw (e, open_file) (rw g v)
        | inl g ↦
            rw (e, open_file)
              (rw g (opened_files-Served pid _ _ (alike-Served s _ refl refl refl v)))
      ]
    ]

pub close_file-Served : (pid fd : ℕ) (s : Simulation) → Served s → Served (close_file pid fd s).1
unfolding close_file
close_file-Served pid fd s₀ v₀ =
    let s = sync_fs_tick s₀ in
    let v : Served s = alike-Served s₀ s refl refl refl v₀ in
    elim (Option-cases (Table.get fd s.open_by_fd)) [
      | inl e ↦ rw (e, close_file) v
      | inr (desc, e) ↦ elim (Option-cases (pcb_of pid s)) [
        | inl g ↦ rw (e, close_file) (rw (g, close_file) v)
        | inr (p, g) ↦ elim (Bool-cases (desc.pid == pid)) [
          | inr h ↦ rw (e, close_file) (rw (g, close_file) (rw h v))
          | inl h ↦
              rw (e, close_file)
                (rw (g, close_file)
                  (rw h (opened_files-Served pid _ _ (alike-Served s _ refl refl refl v))))
        ]
      ]
    ]
