-- ===== src/Simulation/Demos.antt =====
-- mini_os_simulator/os_core/simulation.py: the demos, as scripts that call the operations of a
-- simulation. A script stops at the first `assert` that fails or exception that is raised, and what
-- it changed before that stays changed. Texts and paths are lists of code points.
pub mod Frames
pub mod Phases
pub mod Sharing
pub mod Inversion
pub mod Final
use Prim.Native.Char.{code}
use smart_device_io_t_operat.Prelude.{
  nat_key, path_key, ℕ, ◌+◌, ℤ, pos, String, Bool, true, false, not, Option, none, some, List, [],
  ◌∷◌, if◌then◌else◌,
}
use smart_device_io_t_operat.Prelude.Table
use smart_device_io_t_operat.Process.Pcb.{Pcb, ready}
use smart_device_io_t_operat.Process.Manager.{Spec, create_process}
use smart_device_io_t_operat.Process.Scheduler.{
  SchedulerResult, made, bad_quantum, unknown_policy, create_scheduler,
}
use smart_device_io_t_operat.Memory
use smart_device_io_t_operat.Memory.{MemoryResult, negative_memory, bad_page_size, init, allocate}
use smart_device_io_t_operat.Concurrency.SyncPorts.{Lock, SyncPorts}
use smart_device_io_t_operat.Concurrency.Locks.{acquire, release}
use smart_device_io_t_operat.Concurrency.SharedBuffer.{BufferError}
use smart_device_io_t_operat.FileSystem.{FileSystem}
use smart_device_io_t_operat.Simulation.State.{
  Simulation, new_simulation, pcb_of, change_state, enqueue_pid,
}
use smart_device_io_t_operat.Simulation.Callbacks.{make_sync_ports}
use smart_device_io_t_operat.Simulation.Cpu.{
  phase_cpu_ticks, run_ticks, run_until_all_terminated, reset_cpu_execution_state,
}

-- How a script ends. `no_tick` stands for a loop that does not return, which does not occur.
pub data Answer (A : Type 0) : Type 0 where
  ok : A → Answer A
  assertion_error value_error no_tick : Answer A
  runtime_error : BufferError → Answer A

abbrev pub Action : Type 0 → Type 0 → Type 0
Action S A = S → Answer A × S

abbrev pub and_then : {S A B : Type 0} → Answer A → (A → Action S B) → Action S B
and_then (ok a) f s = f a s
and_then assertion_error f s = (assertion_error, s)
and_then value_error f s = (value_error, s)
and_then no_tick f s = (no_tick, s)
and_then (runtime_error e) f s = (runtime_error e, s)

infixl 5 ◌>>=◌ ◌>>◌
abbrev pub ◌>>=◌ : {S A B : Type 0} → Action S A → (A → Action S B) → Action S B
◌>>=◌ m f s = and_then (m s).0 f (m s).1

abbrev pub ◌>>◌ : {S A B : Type 0} → Action S A → Action S B → Action S B
m >> k = m >>= λ _. k

abbrev pub pure : {S A : Type 0} → A → Action S A
pure a s = (ok a, s)

abbrev pub gets : {S A : Type 0} → (S → A) → Action S A
gets f s = (ok (f s), s)

abbrev pub modify : {S : Type 0} → (S → S) → Action S (Unit {0})
modify f s = (ok tt, f s)

-- `assert`
abbrev pub expect : {S : Type 0} → Bool → Action S (Unit {0})
expect true s = (ok tt, s)
expect false s = (assertion_error, s)

abbrev pub for_each : {S A : Type 0} → (A → Action S (Unit {0})) → List A → Action S (Unit {0})
for_each f [] = pure tt
for_each f (x ∷ xs) = f x >> for_each f xs

abbrev pub codes : String → List ℕ
codes String.[] = []
codes (String.◌∷◌ c s) = code c ∷ codes s

-- The arguments of `create_process` in the demos, at a clock.
abbrev pub workload : ℤ → ℤ → ℕ → ℕ → Spec
workload priority memory burst clock = record {
  priority = priority;
  memory_required = memory;
  cpu_burst_time = burst;
  arrival_time = clock;
  opened_files = [];
}

unfoldable pub spawn : String → ℤ → ℤ → ℕ → Action Simulation ℕ
spawn name priority memory burst s =
    let (pcb, m) = create_process name (workload priority memory burst s.sim_clock) s.processes in
    (ok pcb.pid, record s { processes = m })

abbrev pub memory_of : Option Pcb → ℤ
memory_of none = pos 0
memory_of (some p) = p.memory_required

-- `self.memory.allocate(p.pid, p.memory_required)`; a refusal is only printed.
unfoldable pub reserve : ℕ → Action Simulation (Unit {0})
reserve pid =
    modify (λ s. record s { memory = (allocate pid (memory_of (pcb_of pid s)) s.memory).1 })

unfoldable pub make_ready : ℕ → Action Simulation (Unit {0})
make_ready pid = modify (λ s. enqueue_pid pid (change_state pid ready s))

-- The loops over the processes that follow their creation.
unfoldable pub reserve_all : List ℕ → Action Simulation (Unit {0})
reserve_all = for_each reserve

unfoldable pub admit : List ℕ → Action Simulation (Unit {0})
admit = for_each make_ready

abbrev pub after_loop : Option Simulation → Action Simulation (Unit {0})
after_loop none s = (no_tick, s)
after_loop (some t) s = (ok tt, t)

unfoldable pub partial_ticks : ℕ → Action Simulation (Unit {0})
partial_ticks n s = after_loop (run_ticks n s) s

unfoldable pub cpu_ticks : ℕ → Action Simulation (Unit {0})
cpu_ticks n s = after_loop (phase_cpu_ticks n s) s

unfoldable pub drain : Action Simulation (Unit {0})
drain s = after_loop (run_until_all_terminated 100000 s) s

abbrev pub reset : Action Simulation (Unit {0})
reset = modify reset_cpu_execution_state

abbrev pub use_scheduler : SchedulerResult → Action Simulation (Unit {0})
use_scheduler (made sch) s = (ok tt, record s { scheduler = sch })
use_scheduler bad_quantum s = (value_error, s)
use_scheduler unknown_policy s = (value_error, s)

-- `Simulation(total_memory, enable_memory_access)`
abbrev pub with_memory : Bool → MemoryResult → Answer Simulation
with_memory access (Memory.made m) = ok (new_simulation m access)
with_memory access negative_memory = value_error
with_memory access bad_page_size = value_error

unfoldable pub make_simulation : ℤ → Bool → Answer Simulation
make_simulation total_memory access = with_memory access (init total_memory none)

-- The CPU starts afresh, with its settings.
abbrev pub without_paging : Action Simulation (Unit {0})
without_paging = modify (λ s. record s { enable_memory_access = false })

-- `self._make_sync_ports()`, as the settings are now.
abbrev pub ports_of : Simulation → SyncPorts Simulation
ports_of s = make_sync_ports s.mutex_inheritance_enabled

-- Operations on a lock that a script holds in a variable.
unfoldable pub acquire_lock :
    ℕ → Option (SyncPorts Simulation) → Lock → Action Simulation (Bool × Lock)
acquire_lock pid ports lock s = let (b, lock', s') = acquire pid ports lock s in (ok (b, lock'), s')

unfoldable pub release_lock :
    ℕ → Option (SyncPorts Simulation) → Lock → Action Simulation (Bool × Lock)
release_lock pid ports lock s = let (b, lock', s') = release pid ports lock s in (ok (b, lock'), s')

-- A method of the file system.
abbrev pub on_files : (FileSystem → Bool × FileSystem) → Action Simulation Bool
on_files f s = (ok (f s.fs).0, record s { fs = (f s.fs).1 })

abbrev pub expect_files : (FileSystem → Bool × FileSystem) → Action Simulation (Unit {0})
expect_files f = on_files f >>= expect
