-- ===== src/Simulation/Serving.antt =====
-- mini_os_simulator/os_core/simulation.py: every process that can run is queued or has the CPU,
-- under the callbacks.
pub mod Ticks
pub mod Rounds
pub mod Runs
pub mod Blocking
pub mod Ports
pub mod Calls
pub mod Operations
use smart_device_io_t_operat.Prelude.{
  nat_key, path_key, ℕ, ==_iff, ◌≡◌, ◌≢◌, refl, sym, ◌∙◌, inl, inr, Bool, true, false, ◌||◌, Option,
  none, some, List, [], ◌∷◌, ◌==◌, leb, mem, mem-append, ap, if◌then◌else◌, arith, Option-cases,
  Bool-cases, map_option,
}
use smart_device_io_t_operat.Prelude.Table
use smart_device_io_t_operat.Process.Pcb.{
  Pcb, ProcessState, new, ready, running, blocked, terminated, same_state,
}
use smart_device_io_t_operat.Process.Scheduler.{Scheduler, enqueue}
use smart_device_io_t_operat.Memory.Owner.{CallbacksKeep}
use smart_device_io_t_operat.FileSystem.{FileSystem, release_exclusive_lock, hand_over, owned_by}
use smart_device_io_t_operat.FileSystem.Paths.{FilePath, normalize_path}
use smart_device_io_t_operat.Simulation.State.{
  Simulation, PendingFileIoJob, pcb_of, update_pcb, change_state, enqueue_pid,
}
use smart_device_io_t_operat.Simulation.State.Blocks.{
  state_of, state_of-update_pcb, state_of-change_state, pcb_of-change_state,
}
use smart_device_io_t_operat.Simulation.Callbacks.Wakeups.{enqueue_pid-IsRunnable}
use smart_device_io_t_operat.Simulation.Cpu.Tick.{processes-enqueue_pid, scheduler-change_state}
use smart_device_io_t_operat.Simulation.Callbacks.{
  memory_ports, memory_clear_mapping, memory_install_mapping, memory_ready_after_fault,
  memory_on_fifo_eviction, make_fs_ports, sync_wake_process, is_current,
}
use smart_device_io_t_operat.Simulation.FileIo.Invariants.{JobsKeep, ready_after_fault_keeps}
use smart_device_io_t_operat.Simulation.Order.{
  IsOrdered, update_pcb-IsOrdered, change_state-IsOrdered, enqueue_pid-IsOrdered,
}

-- Where a process in a state may be, with the queue and the process on the CPU.
abbrev pub Placed : ℕ → Option ProcessState → List ℕ → Option ℕ → Type 0
Placed k (some ready) queue cur = (mem k queue || is_current k cur) ≡ true
Placed k (some running) queue cur = is_current k cur ≡ true
Placed k (some _) queue cur = Unit {0}
Placed k none queue cur = Unit {0}

-- A READY process is queued or has the CPU, and a RUNNING one has it, where `cur` has the CPU.
pub record IsServed (cur : Option ℕ) (s : Simulation) : Type 0 where
  pub ordered : IsOrdered s
  pub placed : (k : ℕ) → Placed k (state_of k s) s.scheduler.ready_queue cur

-- Nobody loses a place when the queue keeps its pids.
Placed-weaken :
    (k : ℕ) (st : Option ProcessState) (q q' : List ℕ) (cur cur' : Option ℕ)
    → (mem k q ≡ true → mem k q' ≡ true)
    → (is_current k cur ≡ true → is_current k cur' ≡ true)
    → Placed k st q cur
    → Placed k st q' cur'
Placed-weaken k none q q' cur cur' f g h = tt
Placed-weaken k (some new) q q' cur cur' f g h = tt
Placed-weaken k (some ready) q q' cur cur' f g h = ground arith
Placed-weaken k (some running) q q' cur cur' f g h = g h
Placed-weaken k (some blocked) q q' cur cur' f g h = tt
Placed-weaken k (some terminated) q q' cur cur' f g h = tt

-- What keeps the states and the queue keeps the service.
pub kept-IsServed :
    (cur : Option ℕ) (s s' : Simulation)
    → IsOrdered s'
    → ((k : ℕ) → state_of k s' ≡ state_of k s)
    → s'.scheduler ≡ s.scheduler
    → IsServed cur s
    → IsServed cur s'
kept-IsServed cur s s' o states queue v = record {
  ordered = o;
  placed = λ k. rw (states k, queue) (v.placed k);
}

pub update_pcb-IsServed :
    (cur : Option ℕ) (pid : ℕ) (f : Pcb → Pcb) (s : Simulation)
    → ((p : Pcb) → (f p).pid ≡ p.pid)
    → ((p : Pcb) → (f p).state ≡ p.state)
    → IsServed cur s
    → IsServed cur (update_pcb pid f s)
update_pcb-IsServed cur pid f s own same v =
    kept-IsServed cur s (update_pcb pid f s) (update_pcb-IsOrdered pid f s own v.ordered)
      (λ k. state_of-update_pcb pid k f s same) refl v

-- A process that changes to a state for which it has its place, and leaves the CPU or not.
pub change_state-IsServed :
    (cur cur' : Option ℕ) (pid : ℕ) (st : ProcessState) (s : Simulation)
    → Placed pid (some st) s.scheduler.ready_queue cur'
    → ((k : ℕ) → (pid == k) ≡ false → is_current k cur ≡ true → is_current k cur' ≡ true)
    → IsServed cur s
    → IsServed cur' (change_state pid st s)
change_state-IsServed cur cur' pid st s free leaves v = record {
  ordered = change_state-IsOrdered pid st s v.ordered;
  placed = λ k.
      rw (state_of-change_state pid k st s, scheduler-change_state pid st s)
        (elim (Bool-cases (pid == k)) [
          | inl h ↦ rw h (rw (← (==_iff pid k).0 h) (changed (state_of pid s)))
          | inr h ↦ rw h (
              Placed-weaken k (state_of k s) s.scheduler.ready_queue s.scheduler.ready_queue cur
                cur' (λ m. m) (leaves k h) (v.placed k))
        ]);
}
  where
    changed :
        (o : Option ProcessState) → Placed pid (map_option (λ _. st) o) s.scheduler.ready_queue cur'
    changed none = tt
    changed (some old) = free

pub enqueue_pid-mem :
    (pid k : ℕ) (s : Simulation)
    → mem k s.scheduler.ready_queue ≡ true
    → mem k (enqueue_pid pid s).scheduler.ready_queue ≡ true
unfolding enqueue_pid enqueue
enqueue_pid-mem pid k s h = elim (Option-cases (pcb_of pid s)) [
  | inl e ↦ rw (e, enqueue_pid) h
  | inr (p, e) ↦
      rw (e, enqueue_pid) (ground (arith, mem-append k s.scheduler.ready_queue (p.pid ∷ [])))
]

state_of-enqueue_pid : (pid k : ℕ) (s : Simulation) → state_of k (enqueue_pid pid s) ≡ state_of k s
state_of-enqueue_pid pid k s =
    ap (λ m. map_option (λ p. p.state) (Table.get k m.processes)) (processes-enqueue_pid pid s)

pub enqueue_pid-IsServed :
    (cur : Option ℕ) (pid : ℕ) (s : Simulation) → IsServed cur s → IsServed cur (enqueue_pid pid s)
enqueue_pid-IsServed cur pid s v = record {
  ordered = enqueue_pid-IsOrdered pid s v.ordered;
  placed = λ k. rw (state_of-enqueue_pid pid k s) (
      Placed-weaken k (state_of k s) s.scheduler.ready_queue
        (enqueue_pid pid s).scheduler.ready_queue cur cur (enqueue_pid-mem pid k s) (λ c. c)
        (v.placed k));
}

-- A process that becomes READY is queued, and leaves the CPU or not.
pub ready-IsServed :
    (cur cur' : Option ℕ) (pid : ℕ) (p : Pcb) (s : Simulation)
    → pcb_of pid s ≡ some p
    → ((k : ℕ) → (pid == k) ≡ false → is_current k cur ≡ true → is_current k cur' ≡ true)
    → IsServed cur s
    → IsServed cur' (enqueue_pid pid (change_state pid ready s))
ready-IsServed cur cur' pid p s e leaves v =
    let s₁ = change_state pid ready s in
    let q = (enqueue_pid pid s₁).scheduler.ready_queue in
    let own = v.ordered.registry.own_pid pid p e in
    let queued : mem pid q ≡ true =
      (enqueue_pid-IsRunnable pid s₁ (record p { state = ready })
        (pcb_of-change_state pid ready s p e) own refl).queued in
    let at_self : state_of pid s₁ ≡ some ready =
      ap (map_option (λ b. b.state)) (pcb_of-change_state pid ready s p e) in
    record {
      ordered = enqueue_pid-IsOrdered pid s₁ (change_state-IsOrdered pid ready s v.ordered);
      placed = λ k. rw (state_of-enqueue_pid pid k s₁) (elim (Bool-cases (pid == k)) [
        | inl h ↦ rw (← (==_iff pid k).0 h) (rw at_self (ground (arith, queued)))
        | inr h ↦ rw (state_of-change_state pid k ready s) (
            rw h (
              Placed-weaken k (state_of k s) s.scheduler.ready_queue q cur cur'
                (λ m. enqueue_pid-mem pid k s₁ (rw (scheduler-change_state pid ready s) m))
                (leaves k h) (v.placed k)))
      ]);
    }

-- What becomes READY is queued, and the rest keeps its place.
pub jobs_keep : (cur : Option ℕ) → JobsKeep (IsServed cur)
jobs_keep cur = record {
  wakes = record {
    requeues = enqueue_pid-IsServed cur;
    readies = λ pid p s e v. ready-IsServed cur cur pid p s e (λ k h c. c) v;
  };
  ignores = λ o fs s v.
      kept-IsServed cur s (record s { observer = o; fs = fs })
        (record { registry = v.ordered.registry; once = v.ordered.once }) (λ k. refl) refl v;
}

-- The callbacks of the memory.
pub memory_ports_keep : (cur : Option ℕ) → CallbacksKeep memory_ports (IsServed cur)
unfolding memory_clear_mapping memory_install_mapping memory_on_fifo_eviction
memory_ports_keep cur = record {
  clears = λ pid page s v.
      update_pcb-IsServed cur pid (λ p. record p { page_table = Table.remove page p.page_table }) s
        (λ p. refl) (λ p. refl) v;
  installs = λ pid page frame s v.
      update_pcb-IsServed cur pid (λ p. record p { page_table = Table.put page frame p.page_table })
        s (λ p. refl) (λ p. refl) v;
  readies = ready_after_fault_keeps (IsServed cur) (jobs_keep cur).wakes;
  evicts = λ pid page frame s v. (jobs_keep cur).ignores _ s.fs s v;
}
