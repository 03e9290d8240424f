-- ===== src/Simulation/State.antt =====
-- mini_os_simulator/os_core/simulation.py: the state of a `Simulation` and the access to its parts.
-- The current control block is named by its pid, as the table never drops one.
pub mod Blocks
use smart_device_io_t_operat.Prelude.{
  nat_key, ℕ, Dict, String, Bool, true, false, Option, none, some, List, [],
}
use smart_device_io_t_operat.Prelude.Table
use smart_device_io_t_operat.Process.Pcb.{ProcessState, Pcb}
use smart_device_io_t_operat.Process.Manager
use smart_device_io_t_operat.Process.Manager.{ProcessManager}
use smart_device_io_t_operat.Process.Scheduler
use smart_device_io_t_operat.Process.Scheduler.{Scheduler, fifo, with_policy}
use smart_device_io_t_operat.Memory.{MemoryManager}
use smart_device_io_t_operat.FileSystem.{FileSystem, new_file_system}
use smart_device_io_t_operat.FileSystem.Paths.{FilePath}
use smart_device_io_t_operat.Observability.{
  Observer, EventCategory, SystemMetricsDashboard, new_observer, obs_record, count_metric,
  on_process_state_change,
}

pub record OpenFileDescriptor : Type 0 where
  pub fd : ℕ
  pub pid : ℕ
  pub path : FilePath
  pub mode : String
  pub offset : ℕ

-- The field `op` of a job.
pub data FileOp : Type 0 where
  write append read delete : FileOp

pub record PendingFileIoJob : Type 0 where
  pub ticks_remaining : ℕ
  pub pid : ℕ
  pub path : FilePath
  pub op : FileOp
  pub payload : Option (List ℕ)

pub record Simulation : Type 0 where
  pub processes : ProcessManager
  pub scheduler : Scheduler
  pub memory : MemoryManager
  pub fs : FileSystem
  pub enable_memory_access : Bool
  pub sim_clock : ℕ
  pub current_pid : Option ℕ
  pub ticks_in_slice : ℕ
  pub cs_prev_pid : Option ℕ
  pub context_switches : ℕ
  pub next_fd : ℕ
  pub open_by_fd : Dict ℕ OpenFileDescriptor
  pub pending_file_io : List PendingFileIoJob
  pub file_io_ticks : ℕ
  pub priority_aging_enabled : Bool
  pub aging_interval : ℕ
  pub mutex_inheritance_enabled : Bool
  pub observer : Observer

-- `Simulation.__init__`, given the memory manager that it makes.
abbrev pub new_simulation : MemoryManager → Bool → Simulation
new_simulation memory enable_memory_access = record {
  processes = Manager.empty;
  scheduler = with_policy fifo;
  memory = memory;
  fs = new_file_system 0;
  enable_memory_access = enable_memory_access;
  sim_clock = 0;
  current_pid = none;
  ticks_in_slice = 0;
  cs_prev_pid = none;
  context_switches = 0;
  next_fd = 1;
  open_by_fd = [];
  pending_file_io = [];
  file_io_ticks = 3;
  priority_aging_enabled = true;
  aging_interval = 5;
  mutex_inheritance_enabled = false;
  observer = new_observer;
}

abbrev pub pcb_of : ℕ → Simulation → Option Pcb
pcb_of pid s = Table.get pid s.processes.processes

-- `self._obs_record`, at the clock.
abbrev pub note : EventCategory → String → List ℕ → Simulation → Simulation
note category event_type pids s = record s {
  observer = obs_record s.sim_clock category event_type pids s.observer;
}

abbrev pub count : (SystemMetricsDashboard → SystemMetricsDashboard) → Simulation → Simulation
count f s = record s { observer = count_metric f s.observer }

-- `self.processes.change_state`, with the hook that `__init__` installs.
unfoldable pub change_state : ℕ → ProcessState → Simulation → Simulation
change_state pid new_state s =
    let (found, m, o) =
      Manager.change_state (some (on_process_state_change s.sim_clock)) pid new_state s.processes
        s.observer in
    record s { processes = m; observer = o }

-- Assignments to the control block of `pid`.
abbrev pub update_pcb : ℕ → (Pcb → Pcb) → Simulation → Simulation
update_pcb pid f s = record s { processes = Manager.update pid f s.processes }

abbrev pub enqueue_if : Option Pcb → Simulation → Simulation
enqueue_if none s = s
enqueue_if (some pcb) s = record s { scheduler = Scheduler.enqueue pcb s.scheduler }

-- `self.scheduler.enqueue` of the block of `pid` as it is now.
unfoldable pub enqueue_pid : ℕ → Simulation → Simulation
enqueue_pid pid s = enqueue_if (pcb_of pid s) s

-- The CPU is given up: no current process, no slice.
abbrev pub leave_cpu : Simulation → Simulation
leave_cpu s = record s { current_pid = none; ticks_in_slice = 0 }

abbrev pub leave_cpu_blocked : Simulation → Simulation
leave_cpu_blocked s = record s { current_pid = none; ticks_in_slice = 0; cs_prev_pid = none }
