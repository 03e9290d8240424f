-- ===== src/Lib.antt =====
-- A verification library for the smart-device operating-system simulator, a Python program under
-- mini_os_simulator/. One object, `Simulation`, owns a process table, a scheduler, a paged
-- memory, a file system and an event log, and a tick of it is a call of `_cpu_step`. The other
-- parts do not know the simulation: they call back through records of functions ("ports"), which
-- the simulation fills. Each part is modelled by a record for its state and a function for each
-- method, over any state `S` that its ports act on; the simulation instantiates `S` with its own
-- record.
--
-- Prelude: Python's dict as an association list in insertion order (Table), lists measured by
--   native numbers (Lists), signed integers (Int) and Boolean tests (Tests).
-- Process/Pcb: mini_os_simulator/process/pcb.py, `PCB` and its metrics.
-- Process/Manager: mini_os_simulator/process/process_manager.py, `create_process`,
--   `change_state`, `terminate`; below it Registry, on any sequence of those calls.
-- Process/Scheduler: mini_os_simulator/process/scheduler.py, the ready queue, its three policies
--   and `create_scheduler`; below it Staging (the pids of the priority loop), Queue (what a pick
--   takes and keeps) and Priority (the order).
-- Memory: mini_os_simulator/memory/memory_manager.py, all of it but the printing, with the
--   address translation in Memory/Translate; below it Accounting (bytes), Frames (free list and
--   frame table), Eviction, Initial (a new manager), Address, Owner (what the callbacks keep),
--   Bookkeeping (what loads leave alone), Jobs and Runs (any calls).
-- Concurrency/SyncPorts, Locks, Semaphore, SharedBuffer: mini_os_simulator/concurrency/*.py;
--   below them Locks/Line, a specification of the mutex by one line of pids, Semaphore/Permits, a
--   conservation law, and SharedBuffer/Fifo.
-- FileSystem, FileSystem/Paths: mini_os_simulator/filesystem/file_system.py and
--   mini_os_simulator/filesystem/file_system_ports.py. A text is a list of code points; the inode
--   of a path is the entry of the dict. Below it Tree, Contents and FileLock, on sequences of
--   calls of the methods, and Names and Listing, on `list_dir`.
-- Observability: mini_os_simulator/os_core/observability.py and the event methods of
--   `Simulation`; below it Timeline.
-- Simulation/State: the fields of mini_os_simulator/os_core/simulation.py's `Simulation`.
--   Simulation/Callbacks: the functions that fill the ports (`_sync_block_process`,
--   `_recompute_mutex_inheritance`, ...); below it Inheritance, Wakeups (a mutex) and
--   Handoffs (a permit, a file's lock). Simulation/FileIo: open files and the
--   `file_blocking_...` methods; below it Deletion. Simulation/Cpu: aging, `_cpu_step` and the
--   loops that repeat it; below it Progress, Loops (their rounds), Tick,
--   Slicing and Slice (the ticks of a quantum), Finish and Invariants (from the parts of a tick
--   to whole runs). Simulation/Isolation: frames and page tables together, over whole runs.
--   Simulation/Order: the process table and the ready queue, over whole runs.
--   Simulation/Serving: where a process that can run is, over operations of programs that neither
--   reset the CPU nor replace the scheduler, and over whole runs; below it Ticks and Rounds (a
--   tick), Runs (the loop), Blocking, Ports, Calls and Operations. Simulation/Work: work and
--   bursts against the clock; below it Callbacks, Ticks, Arrivals and Runs.
--   Simulation/FileIo/Invariants: what wake-ups and ends of file jobs keep;
--   Simulation/FileIo/Descriptors: open counts, below it Kept (methods of the file system), Jobs
--   (their ends), Ticks, Starts (file jobs) and Runs. Simulation/Cpu/Awaits and PageLoads: the wait
--   for a page.
-- Simulation/Demos: the scripts `run_phase0_demo` to `run_final_demo` and
--   mini_os_simulator/main.py. A script is an action: a function from the state to an answer and
--   a state, where the answer is a value, a failed `assert` or an exception, which end the script
--   and leave the state. Phases has phases 0 to 2, Sharing 3 and 4, Inversion 5, Final the last
--   and `main`; Frames has the producer and the consumer over a desk of the shared objects, and
--   below it Balance and Runs, on any interleaving of their calls. A desk is made with the
--   capacity of its buffer, which the scripts give as 2.
-- Examples: concrete processes, memories, locks and simulations, with runs of the code on them.
--
-- Python's shared control block is one entry of the process table: the current process is named
-- by its pid, and an assignment to its fields is an update of that entry. A method that raises
-- returns a case for each exception. Ticks, pids, bursts, frames and a semaphore's initial count
-- are natural numbers; priorities, floors, requested bytes, addresses and derived metrics are
-- integers. Averages are kept as sums and a count.
--
-- The `while True` loop of `_cpu_step` is recursion on fuel, the length of the ready queue and
-- two more: a round that does not end the tick empties the CPU or takes a process out of the
-- queue. The loops over `range(n)` are recursion on `n`.
--
-- Not modelled: what is only printed (mini_os_simulator/os_core/logger.py, the `format_...` and
-- `print_...` functions, the tables that the demos print, the texts of events and log lines), and
-- `presentation_mode`, which nothing reads. A script's `print` is left out, and
-- its statistics are its answer.
pub mod Prelude
pub mod Process
pub mod Memory
pub mod Concurrency
pub mod FileSystem
pub mod Observability
pub mod Simulation
pub mod Examples
