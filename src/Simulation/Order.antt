-- ===== src/Simulation/Order.antt =====
-- mini_os_simulator/os_core/simulation.py: the process table and the ready queue under the
-- callbacks.
pub mod Rounds
use smart_device_io_t_operat.Prelude.{
  nat_key, path_key, ℕ, ◌+◌, pos, ◌≡◌, refl, inl, inr, Bool, true, false, ◌||◌, not, Option, none,
  some, List, [], ◌∷◌, ◌==◌, leb, Distinct, if◌then◌else◌, arith, Dict, Option-cases, Bool-cases,
}
use smart_device_io_t_operat.Prelude.Table
use smart_device_io_t_operat.Process.Pcb.{
  Pcb, ProcessState, new, ready, running, blocked, terminated, same_state,
}
use smart_device_io_t_operat.Process.Manager.{ProcessManager}
use smart_device_io_t_operat.Process.Manager.Registry.{
  IsRegistry, update-IsRegistry, change_state-IsRegistry,
}
use smart_device_io_t_operat.Process.Scheduler.{candidate}
use smart_device_io_t_operat.Process.Scheduler.Queue.{enqueue-Distinct}
use smart_device_io_t_operat.Process.Scheduler.Staging.{OwnPid}
use smart_device_io_t_operat.Memory.Owner.{CallbacksKeep}
use smart_device_io_t_operat.FileSystem.{FileSystem, release_exclusive_lock, hand_over, owned_by}
use smart_device_io_t_operat.FileSystem.Paths.{FilePath, normalize_path}
use smart_device_io_t_operat.Simulation.State.{
  Simulation, PendingFileIoJob, pcb_of, update_pcb, change_state, enqueue_pid,
}
use smart_device_io_t_operat.Simulation.Callbacks.{
  memory_ports, memory_clear_mapping, memory_install_mapping, memory_ready_after_fault,
  memory_on_fifo_eviction, make_fs_ports, sync_wake_process,
}
use smart_device_io_t_operat.Simulation.FileIo.Invariants.{JobsKeep, ready_after_fault_keeps}
use smart_device_io_t_operat.Simulation.FileIo.{perform, complete_file_io, advance_io_jobs}
use smart_device_io_t_operat.Simulation.Cpu.{age, age_all}

-- Each block stands under its own pid, below the next pid, and the ready queue has no duplicates.
pub record IsOrdered (s : Simulation) : Type 0 where
  pub registry : IsRegistry s.processes
  pub once : Distinct s.scheduler.ready_queue

pub IsRegistry-OwnPid : (m : ProcessManager) → IsRegistry m → OwnPid m.processes
unfolding candidate
IsRegistry-OwnPid m v k p h = elim (Option-cases (Table.get k m.processes)) [
  | inl e ↦ ground (arith, e)
  | inr (q, e) ↦ ground (arith, e, v.own_pid k q)
]

pub update_pcb-IsOrdered :
    (pid : ℕ) (f : Pcb → Pcb) (s : Simulation)
    → ((p : Pcb) → (f p).pid ≡ p.pid)
    → IsOrdered s
    → IsOrdered (update_pcb pid f s)
update_pcb-IsOrdered pid f s same v = record {
  registry = update-IsRegistry pid f s.processes same v.registry;
  once = v.once;
}

pub change_state-IsOrdered :
    (pid : ℕ) (state : ProcessState) (s : Simulation)
    → IsOrdered s
    → IsOrdered (change_state pid state s)
unfolding change_state
change_state-IsOrdered pid state s v = record {
  registry = change_state-IsRegistry _ pid state s.processes s.observer v.registry;
  once = v.once;
}

pub enqueue_pid-IsOrdered : (pid : ℕ) (s : Simulation) → IsOrdered s → IsOrdered (enqueue_pid pid s)
unfolding enqueue_pid
enqueue_pid-IsOrdered pid s v = elim (Option-cases (pcb_of pid s)) [
  | inl e ↦ rw (e, enqueue_pid) v
  | inr (p, e) ↦
      rw (e, enqueue_pid)
        (record { registry = v.registry; once = enqueue-Distinct p s.scheduler v.once })
]

pub ready-IsOrdered :
    (pid : ℕ) (s : Simulation)
    → IsOrdered s
    → IsOrdered (enqueue_pid pid (change_state pid ready s))
ready-IsOrdered pid s v =
    enqueue_pid-IsOrdered pid (change_state pid ready s) (change_state-IsOrdered pid ready s v)

pub jobs_keep : JobsKeep IsOrdered
jobs_keep = record {
  wakes = record {
    requeues = enqueue_pid-IsOrdered;
    readies = λ pid p s e v. ready-IsOrdered pid s v;
  };
  ignores = λ o fs s v. record { registry = v.registry; once = v.once };
}

-- The callbacks of the memory keep the order.
pub memory_ports_keep : CallbacksKeep memory_ports IsOrdered
unfolding memory_clear_mapping memory_install_mapping memory_on_fifo_eviction
memory_ports_keep = record {
  clears = λ pid page s v.
      update_pcb-IsOrdered pid (λ p. record p { page_table = Table.remove page p.page_table }) s
        (λ p. refl) v;
  installs = λ pid page frame s v.
      update_pcb-IsOrdered pid (λ p. record p { page_table = Table.put page frame p.page_table }) s
        (λ p. refl) v;
  readies = ready_after_fault_keeps IsOrdered jobs_keep.wakes;
  evicts = λ pid page frame s v. record { registry = v.registry; once = v.once };
}
