-- ===== src/Simulation/Cpu.antt =====
-- mini_os_simulator/os_core/simulation.py: aging, the CPU step and the loops that repeat it.
-- The `while True` of `_cpu_step` takes fuel; `none` means that it ran out.
pub mod Progress
pub mod Loops
pub mod Slicing
pub mod Slice
pub mod Tick
pub mod Finish
pub mod Invariants
pub mod Awaits
pub mod PageLoads
use smart_device_io_t_operat.Prelude.{
  nat_key, ℕ, zero, suc, ◌+◌, ◌-◌, ◌%◌, pos, Dict, String, Bool, true, false, not, ◌&&◌, ◌||◌,
  Option, none, some, List, [], ◌∷◌, ◌++◌, keep, length, ◌==◌, ltb, leb, if◌then◌else◌,
}
use smart_device_io_t_operat.Prelude.Table
use smart_device_io_t_operat.Process.Pcb.{
  ProcessState, ready, running, blocked, terminated, same_state, Pcb, on_first_cpu_dispatch,
  finalize_metrics,
}
use smart_device_io_t_operat.Process.Manager.{list_processes}
use smart_device_io_t_operat.Process.Scheduler
use smart_device_io_t_operat.Process.Scheduler.{Scheduler, Policy, round_robin}
use smart_device_io_t_operat.Memory
use smart_device_io_t_operat.Memory.{
  MemoryAccessResult, AccessKind, logical_page_count_for, begin_fault_resolution,
  advance_fault_timers,
}
use smart_device_io_t_operat.Memory.Translate.{try_access, deterministic_logical_address}
use smart_device_io_t_operat.FileSystem.{set_simulation_tick}
use smart_device_io_t_operat.Observability
use smart_device_io_t_operat.Observability.{increment, obs_reset}
use smart_device_io_t_operat.Simulation.State.{
  Simulation, pcb_of, note, count, change_state, update_pcb, enqueue_pid, leave_cpu,
  leave_cpu_blocked,
}
use smart_device_io_t_operat.Simulation.Callbacks.{memory_ports}
use smart_device_io_t_operat.Simulation.FileIo.{advance_file_io_timers}

-- `isinstance(self.scheduler, PriorityScheduler)`
abbrev pub is_priority : Policy → Bool
is_priority Scheduler.priority = true
is_priority _ = false

-- One process in the loop of `_maybe_apply_aging`.
unfoldable pub age : Pcb → Simulation → Simulation
age pcb s =
    if same_state pcb.state ready
    then note Observability.priority "AGING" (pcb.pid ∷ []) (
        count (λ m. record m { total_aging_events = m.total_aging_events + 1 })
          (update_pcb pcb.pid (λ p. record p { aging_bonus = p.aging_bonus + 1 }) s))
    else s

unfoldable pub age_all : List Pcb → Simulation → Simulation
unfolding age
age_all [] s = s
age_all (p ∷ ps) s = age_all ps (age p s)

abbrev pub aging_due : Simulation → Bool
aging_due s =
    s.priority_aging_enabled
    && is_priority s.scheduler.policy
    && leb 1 s.aging_interval
    && not (s.sim_clock == 0)
    && s.sim_clock % s.aging_interval == 0

unfoldable pub maybe_apply_aging : Simulation → Simulation
unfolding age_all
maybe_apply_aging s = if aging_due s then age_all (list_processes s.processes) s else s

abbrev pub advance_sim_clock : Simulation → Simulation
advance_sim_clock s = record s { sim_clock = s.sim_clock + 1 }

-- `self.memory.advance_fault_timers()`, whose callbacks do not touch the manager.
unfoldable pub advance_memory : Simulation → Simulation
advance_memory s =
    let (m, s') = advance_fault_timers memory_ports s.memory s in record s' { memory = m }

-- `self.memory.free(pid)`
unfoldable pub free_memory : ℕ → Simulation → Simulation
free_memory pid s =
    let (had, m, s') = Memory.free memory_ports pid s.memory s in record s' { memory = m }

-- `_effective_quantum`
abbrev pub quantum_of : Policy → ℕ
quantum_of (round_robin quantum) = quantum
quantum_of _ = 1

abbrev pub is_previous : ℕ → Option ℕ → Bool
is_previous pid none = false
is_previous pid (some prev) = prev == pid

unfoldable pub note_context_switch_if_needed : ℕ → Simulation → Simulation
note_context_switch_if_needed pid s =
    let s₁ =
      (if is_previous pid s.cs_prev_pid
        then s
        else note Observability.scheduler "CONTEXT_SWITCH" (pid ∷ []) (
            count (λ m. record m { total_context_switches = m.total_context_switches + 1 })
              (record s { context_switches = s.context_switches + 1 }))) in
    record s₁ { cs_prev_pid = some pid }

-- The part of `_cpu_step` before the loop.
unfoldable pub start_tick : Simulation → Simulation
start_tick s₀ =
    let s = advance_file_io_timers (advance_memory (maybe_apply_aging s₀)) in
    record s { fs = set_simulation_tick s.sim_clock s.fs }

abbrev pub work_pending : Simulation → Bool
work_pending s = ltb 0 (length s.memory.fault_jobs) || ltb 0 (length s.pending_file_io)

-- The head of the loop: nobody can run, or the process that has the CPU.
pub data Selection : Type 0 where
  idle : Bool → Simulation → Selection
  selected : ℕ → Simulation → Selection

abbrev pub dispatch : Option Pcb → Simulation → Selection
dispatch none s = if work_pending s then idle true (advance_sim_clock s) else idle false s
dispatch (some pcb) s = selected pcb.pid (
    note Observability.scheduler "DISPATCH" (pcb.pid ∷ []) (
      count (λ m. record m { total_scheduler_dispatches = m.total_scheduler_dispatches + 1 })
        (record s { current_pid = some pcb.pid; ticks_in_slice = 0 })))

unfoldable pub select : Simulation → Selection
select s = elim s.current_pid [
  | none ↦
      let (chosen, scheduler) = Scheduler.pick_next s.processes.processes s.scheduler in
      dispatch chosen (record s { scheduler = scheduler })
  | some pid ↦ selected pid s
]

-- `if self._ticks_in_slice == 0`
unfoldable pub begin_slice : ℕ → Simulation → Simulation
begin_slice pid s =
    if s.ticks_in_slice == 0
    then change_state pid running
        (update_pcb pid (on_first_cpu_dispatch s.sim_clock) (note_context_switch_if_needed pid s))
    else s

abbrev pub is_fault : AccessKind → Bool
is_fault Memory.fault = true
is_fault Memory.hit = false

-- The access of the tick, where memory access is simulated and the process has pages.
unfoldable pub access : Pcb → Simulation → Option MemoryAccessResult
access pcb s =
    let pages = logical_page_count_for pcb.pid s.memory in
    let address = deterministic_logical_address pcb.pid s.sim_clock s.memory.page_size pages in
    if s.enable_memory_access && ltb 0 pages
    then some (try_access pcb.pid (pos address) pcb.page_table s.memory)
    else none

-- The page that the tick faults on, if any.
abbrev pub faulting_page : Option MemoryAccessResult → Option ℕ
faulting_page none = none
faulting_page (some r) = if is_fault r.kind then some r.logical_page else none

unfoldable pub page_fault : ℕ → ℕ → Simulation → Simulation
page_fault pid page s =
    let s₁ = change_state pid blocked (
      note Observability.memory "PAGE_FAULT" (pid ∷ []) (
        count
          (λ m. record m {
            total_page_faults = m.total_page_faults + 1;
            page_faults_by_pid = increment pid m.page_faults_by_pid;
          })
          s)) in
    leave_cpu_blocked (record s₁ { memory = begin_fault_resolution pid page s₁.memory })

abbrev pub work : Pcb → Pcb
work p =
    if ltb 0 p.remaining_time
    then record p { remaining_time = p.remaining_time - 1; program_counter = p.program_counter + 1 }
    else p

unfoldable pub finish : ℕ → Simulation → Simulation
finish pid s = leave_cpu_blocked (
    free_memory pid (change_state pid terminated (update_pcb pid (finalize_metrics s.sim_clock) s)))

unfoldable pub expire : ℕ → Simulation → Simulation
expire pid s = leave_cpu (enqueue_pid pid (change_state pid ready s))

-- The end of a tick, with the time that the process still needs.
unfoldable pub end_tick : ℕ → ℕ → Simulation → Simulation
unfolding finish expire
end_tick pid rem s =
    if rem == 0
    then finish pid s
    else if leb (quantum_of s.scheduler.policy) s.ticks_in_slice
    then expire pid s
    else s

unfoldable pub execute : Pcb → Simulation → Simulation
unfolding end_tick
execute pcb s = end_tick pcb.pid (work pcb).remaining_time (
    advance_sim_clock
      (record (update_pcb pcb.pid work s) { ticks_in_slice = s.ticks_in_slice + 1 }))

-- The body of the loop for the process on the CPU: a tick is over, or the loop goes round.
pub data Outcome : Type 0 where
  ticked again : Simulation → Outcome

abbrev pub after_access : Pcb → Option ℕ → Simulation → Outcome
after_access pcb none s = ticked (execute pcb s)
after_access pcb (some page) s = again (page_fault pcb.pid page s)

-- The block of the current process is in the table, so the case `none` does not arise.
unfoldable pub run_current : ℕ → Simulation → Outcome
unfolding begin_slice access execute page_fault
run_current pid s₀ =
    let s = begin_slice pid s₀ in
    elim (pcb_of pid s) [
      | none ↦ ticked s
      | some pcb ↦ after_access pcb (faulting_page (access pcb s)) s
    ]

unfoldable pub cpu_loop : ℕ → Simulation → Option (Bool × Simulation)
cpu_loop zero s = none
cpu_loop (suc fuel) s = elim (select s) [
  | idle answer s' ↦ some (answer, s')
  | selected pid s' ↦ elim (run_current pid s') [
    | ticked s'' ↦ some (true, s'')
    | again s'' ↦ cpu_loop fuel s''
  ]
]

-- A round that does not end the tick empties the CPU or takes a process out of the queue.
abbrev pub fuel_for : Simulation → ℕ
fuel_for s = length s.scheduler.ready_queue + 2

unfoldable pub cpu_step : Simulation → Option (Bool × Simulation)
unfolding start_tick
cpu_step s = let s₁ = start_tick s in cpu_loop (fuel_for s₁) s₁

-- `_run_fifo_partial_ticks` and, at 10000, `_run_fifo_until_idle`.
unfoldable pub run_ticks : ℕ → Simulation → Option Simulation
run_ticks zero s = some s
run_ticks (suc n) s = elim (cpu_step s) [
  | none ↦ none
  | some (false, s') ↦ some s'
  | some (true, s') ↦ run_ticks n s'
]

-- `_phase3_cpu_ticks`, `_phase4_cpu_ticks` and `_phase5_cpu_ticks`
unfoldable pub phase_cpu_ticks : ℕ → Simulation → Option Simulation
phase_cpu_ticks zero s = some s
phase_cpu_ticks (suc n) s = elim (cpu_step s) [
  | none ↦ none
  | some (true, s') ↦ phase_cpu_ticks n s'
  | some (false, s') ↦ let rest = phase_cpu_ticks n s' in if work_pending s' then rest else some s'
]

abbrev pub all_terminated : List Pcb → Bool
all_terminated [] = true
all_terminated (p ∷ ps) = same_state p.state terminated && all_terminated ps

-- `_run_until_all_terminated`, at 100000.
unfoldable pub run_until_all_terminated : ℕ → Simulation → Option Simulation
run_until_all_terminated zero s = some s
run_until_all_terminated (suc n) s = elim (all_terminated (list_processes s.processes)) [
  | true ↦ some s
  | false ↦ elim (cpu_step s) [
    | none ↦ none
    | some (true, s') ↦ run_until_all_terminated n s'
    | some (false, s') ↦ some s'
  ]
]

unfoldable pub reset_cpu_execution_state : Simulation → Simulation
reset_cpu_execution_state s = record s {
  sim_clock = 0;
  current_pid = none;
  ticks_in_slice = 0;
  cs_prev_pid = none;
  context_switches = 0;
  pending_file_io = [];
  open_by_fd = [];
  next_fd = 1;
  observer = obs_reset s.observer;
}
