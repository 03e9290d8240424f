-- ===== src/Simulation/Serving/Operations.antt =====
-- mini_os_simulator/os_core/simulation.py: any sequence of the operations of a simulation, with
-- locks and semaphores in any state.
use smart_device_io_t_operat.Prelude.{
  nat_key, path_key, ℕ, ℤ, ◌≡◌, refl, inl, inr, Bool, true, false, Option, none, some, String, List,
  [], ◌∷◌,
}
use smart_device_io_t_operat.Prelude.Table
use smart_device_io_t_operat.Prelude.Table.{get-put, get-modify}
use smart_device_io_t_operat.Process.Manager.{Spec}
use smart_device_io_t_operat.Process.Manager.Registry.{empty-IsRegistry}
use smart_device_io_t_operat.Concurrency.SyncPorts.{Lock}
use smart_device_io_t_operat.Concurrency.Locks.{acquire, release}
use smart_device_io_t_operat.Concurrency.Semaphore.{CountingSemaphore, wait, signal}
use smart_device_io_t_operat.Memory.{MemoryManager, allocate}
use smart_device_io_t_operat.Process.Scheduler.{Policy, with_policy}
use smart_device_io_t_operat.FileSystem.Paths.{FilePath}
use smart_device_io_t_operat.Simulation.State.{new_simulation, Simulation, FileOp}
use smart_device_io_t_operat.Simulation.FileIo.{open_file, close_file, file_blocking}
use smart_device_io_t_operat.Simulation.Cpu.{cpu_step, run_until_all_terminated}
use smart_device_io_t_operat.Simulation.Demos.{ports_of}
use smart_device_io_t_operat.Simulation.Demos.Phases.{kill}
use smart_device_io_t_operat.Simulation.Cpu.Invariants.{cpu_step_keeps}
use smart_device_io_t_operat.Simulation.Cpu.Progress.{step_cases}
use smart_device_io_t_operat.Simulation.Serving.Ticks.{Served}
use smart_device_io_t_operat.Simulation.Serving.Runs.{
  parts_keep, Ends, run_until_all_terminated-Ends,
}
use smart_device_io_t_operat.Simulation.Serving.Blocking.{alike-Served}
use smart_device_io_t_operat.Simulation.Serving.Ports.{
  acquire-Served, release-Served, wait-Served, signal-Served,
}
use smart_device_io_t_operat.Simulation.Serving.Calls.{
  add_process, put_ready, add_process-Served, put_ready-Served, kill-Served, file_blocking-Served,
  open_file-Served, close_file-Served,
}

-- A tick, a call from outside with the simulation's ports, or a change of anything but the processes,
-- the scheduler and the process on the CPU, such as the files, the settings and the clock. A lock or
-- a semaphore comes as it is at the call. `_reset_cpu_execution_state` and a new scheduler are not
-- among them: they can leave a READY process in no queue.
pub data Operation : Type 0 where
  ticks : Operation
  creates : String → Spec → Operation
  readies kills : ℕ → Operation
  acquires releases : ℕ → Lock → Operation
  waits signals : ℕ → CountingSemaphore → Operation
  reserves : ℕ → ℤ → Operation
  starts : FileOp → Option (List ℕ) → ℕ → FilePath → Option ℕ → Operation
  opens : ℕ → FilePath → String → Operation
  closes : ℕ → ℕ → Operation
  changes_others : (Simulation → Simulation) → Operation

-- The simulation after the tick; `cpu_step` always answers.
abbrev after_tick : Simulation → Option (Bool × Simulation) → Simulation
after_tick s none = s
after_tick s (some r) = r.1

pub operate : Operation → Simulation → Simulation
operate ticks s = after_tick s (cpu_step s)
operate (creates name spec) s = add_process name spec s
operate (readies pid) s = put_ready pid s
operate (kills pid) s = kill pid s
operate (acquires pid lock) s = (acquire pid (some (ports_of s)) lock s).2
operate (releases pid lock) s = (release pid (some (ports_of s)) lock s).2
operate (waits pid sem) s = (wait (ports_of s) pid sem s).2
operate (signals pid sem) s = (signal (ports_of s) pid sem s).1
operate (reserves pid amount) s = record s { memory = (allocate pid amount s.memory).1 }
operate (starts op payload pid path io_ticks) s = (file_blocking op payload pid path io_ticks s).1
operate (opens pid path mode) s = (open_file pid path mode s).1
operate (closes pid fd) s = (close_file pid fd s).1
operate (changes_others f) s = record (f s) {
  processes = s.processes;
  scheduler = s.scheduler;
  current_pid = s.current_pid;
}

pub operate_all : List Operation → Simulation → Simulation
operate_all [] s = s
operate_all (o ∷ os) s = operate_all os (operate o s)

after_tick-Served : (s : Simulation) → Served s → Served (after_tick s (cpu_step s))
after_tick-Served s v = elim (step_cases s) [
  | inl (t, e) ↦ rw e (cpu_step_keeps Served parts_keep s (true, t) v e)
  | inr (t, e) ↦ rw e (cpu_step_keeps Served parts_keep s (false, t) v e)
]

operate-Served : (o : Operation) (s : Simulation) → Served s → Served (operate o s)
unfolding operate
operate-Served ticks s v = after_tick-Served s v
operate-Served (creates name spec) s v = add_process-Served name spec s v
operate-Served (readies pid) s v = put_ready-Served pid s v
operate-Served (kills pid) s v = kill-Served pid s v
operate-Served (acquires pid lock) s v = acquire-Served s.mutex_inheritance_enabled pid lock s v
operate-Served (releases pid lock) s v = release-Served s.mutex_inheritance_enabled pid lock s v
operate-Served (waits pid sem) s v = wait-Served s.mutex_inheritance_enabled pid sem s v
operate-Served (signals pid sem) s v = signal-Served s.mutex_inheritance_enabled pid sem s v
operate-Served (reserves pid amount) s v = alike-Served s _ refl refl refl v
operate-Served (starts op payload pid path io_ticks) s v =
    file_blocking-Served op payload pid path io_ticks s v
operate-Served (opens pid path mode) s v = open_file-Served pid path mode s v
operate-Served (closes pid fd) s v = close_file-Served pid fd s v
operate-Served (changes_others f) s v = alike-Served s _ refl refl refl v

-- Such operations keep every process that can run queued or on the CPU.
operate_all-Served : (os : List Operation) (s : Simulation) → Served s → Served (operate_all os s)
unfolding operate_all
operate_all-Served [] s v = v
operate_all-Served (o ∷ os) s v = operate_all-Served os (operate o s) (operate-Served o s v)

-- A new simulation with a scheduler and the settings of priorities.
abbrev pub configured : Policy → Bool → Bool → ℕ → MemoryManager → Bool → Simulation
configured policy inheritance aging interval memory paging = record (new_simulation memory paging) {
  scheduler = with_policy policy;
  mutex_inheritance_enabled = inheritance;
  priority_aging_enabled = aging;
  aging_interval = interval;
}

pub configured-Served :
    (policy : Policy) (inheritance aging : Bool) (interval : ℕ) (memory : MemoryManager)
    (paging : Bool)
    → Served (configured policy inheritance aging interval memory paging)
unfolding Table.get
configured-Served policy inheritance aging interval memory paging = record {
  ordered = record { registry = empty-IsRegistry; once = tt };
  placed = λ k. tt;
}

-- From a new simulation with any policy, settings and memory, after any sequence of ticks,
-- creations of processes, moves to READY, terminations with their memory freed, calls of locks
-- and semaphores with the simulation's ports, reservations, starts of file jobs, opens, closes,
-- and changes of anything but the processes, the scheduler and the process on the CPU, so
-- without a `_reset_cpu_execution_state` or a new scheduler in between: every READY process is
-- queued or has the CPU, and a RUNNING one has it; and then the loop that runs until every
-- process has terminated, for any bound on its steps, returns a state in which that is still so,
-- and either all have terminated, or no process is READY or RUNNING and no page fault or file
-- job is pending, or the bound's ticks have all made progress.
pub operate_all-Ends :
    (policy : Policy) (inheritance aging : Bool) (interval : ℕ) (memory : MemoryManager)
    (paging : Bool) (os : List Operation) (n : ℕ)
    → let s = operate_all os (configured policy inheritance aging interval memory paging) in
      Served s
      × ((t : Simulation) × (run_until_all_terminated n s ≡ some t) × Served t × Ends n s t)
operate_all-Ends policy inheritance aging interval memory paging os n =
    let v =
      operate_all-Served os _ (configured-Served policy inheritance aging interval memory paging) in
    (v, run_until_all_terminated-Ends n _ v)
