-- ===== src/Simulation/FileIo/Descriptors/Ticks.antt =====
-- mini_os_simulator/os_core/simulation.py, `_cpu_step`: the counts of open descriptors over whole
-- ticks, the file jobs that end in them included.
use smart_device_io_t_operat.Prelude.{
  nat_key, path_key, ℕ, ◌+◌, inl, inr, Option, none, some, List, [], ◌∷◌, ◌==◌, leb, Option-cases,
  Bool-cases, arith,
}
use smart_device_io_t_operat.Process.Pcb.{Pcb, ready, same_state}
use smart_device_io_t_operat.Process.Manager.{list_processes}
use smart_device_io_t_operat.Process.Scheduler.{pick_next}
use smart_device_io_t_operat.Memory.Owner.{free_keeps, advance_fault_timers_keeps}
use smart_device_io_t_operat.Simulation.State.{Simulation, pcb_of, update_pcb, change_state}
use smart_device_io_t_operat.Simulation.Callbacks.{memory_ports}
use smart_device_io_t_operat.Simulation.FileIo.{advance_file_io_timers}
use smart_device_io_t_operat.Simulation.Cpu.Invariants.{Afterwards, Chosen, PartsKeep}
use smart_device_io_t_operat.Simulation.Cpu.{
  age, age_all, maybe_apply_aging, aging_due, advance_memory, free_memory, start_tick, select,
  begin_slice, page_fault, execute, end_tick, finish, expire, work, run_current, after_access,
  faulting_page, access, dispatch, note_context_switch_if_needed, work_pending, quantum_of,
  advance_sim_clock,
}
use smart_device_io_t_operat.Simulation.FileIo.Descriptors.Jobs.{
  AllCounted, enqueue_pid-AllCounted, memory_ports_keep, advance_io_jobs-AllCounted,
}

age_all-AllCounted : (ps : List Pcb) (s : Simulation) → AllCounted s → AllCounted (age_all ps s)
unfolding age_all age
age_all-AllCounted [] s v = v
age_all-AllCounted (p ∷ ps) s v = elim (Bool-cases (same_state p.state ready)) [
  | inl e ↦ rw (e, age_all) (age_all-AllCounted ps _ v)
  | inr e ↦ rw (e, age_all) (age_all-AllCounted ps s v)
]

-- The parts of a tick.
start_tick-AllCounted : (s : Simulation) → AllCounted s → AllCounted (start_tick s)
unfolding start_tick advance_file_io_timers maybe_apply_aging advance_memory
start_tick-AllCounted s v =
    let s₀ = maybe_apply_aging s in
    let v₀ : AllCounted s₀ = elim (Bool-cases (aging_due s)) [
      | inl e ↦ rw e (age_all-AllCounted (list_processes s.processes) s v)
      | inr e ↦ rw e v
    ] in
    let v₁ = advance_fault_timers_keeps memory_ports AllCounted memory_ports_keep s₀.memory s₀ v₀ in
    let s₁ = advance_memory s₀ in
    let v₂ = advance_io_jobs-AllCounted s₁.pending_file_io s₁ v₁ in
    record { distinct = v₂.distinct; below = v₂.below; counted = v₂.counted }

select-AllCounted : (s : Simulation) → AllCounted s → Chosen AllCounted (select s)
unfolding select
select-AllCounted s v = elim (Option-cases s.current_pid) [
  | inr (pid, e) ↦ rw (e, select) v
  | inl e ↦
      let (chosen, scheduler) = pick_next s.processes.processes s.scheduler in
      rw (e, select) (dispatched chosen (record s { scheduler = scheduler }) v)
]
  where
    dispatched :
        (chosen : Option Pcb) (t : Simulation)
        → AllCounted t
        → Chosen AllCounted (dispatch chosen t)
    dispatched none t w = elim (Bool-cases (work_pending t)) [ inl e ↦ rw e w | inr e ↦ rw e w ]
    dispatched (some p) t w = w

begin_slice-AllCounted : (pid : ℕ) (s : Simulation) → AllCounted s → AllCounted (begin_slice pid s)
unfolding begin_slice note_context_switch_if_needed change_state
begin_slice-AllCounted pid s v = ground (arith, v)

execute-AllCounted : (p : Pcb) (s : Simulation) → AllCounted s → AllCounted (execute p s)
unfolding execute end_tick finish expire free_memory change_state
execute-AllCounted p s v =
    let s₁ =
      advance_sim_clock
        (record (update_pcb p.pid work s) { ticks_in_slice = s.ticks_in_slice + 1 }) in
    elim (Bool-cases ((work p).remaining_time == 0)) [
      | inl e ↦
          rw (e, end_tick)
            (free_keeps memory_ports AllCounted memory_ports_keep p.pid s₁.memory _ v)
      | inr e ↦ elim (Bool-cases (leb (quantum_of s.scheduler.policy) (s.ticks_in_slice + 1))) [
        | inl f ↦
            rw (e, end_tick) (rw f (enqueue_pid-AllCounted p.pid (change_state p.pid ready s₁) v))
        | inr f ↦ rw (e, end_tick) (rw f v)
      ]
    ]

run_current-AllCounted :
    (pid : ℕ) (s : Simulation) → AllCounted s → Afterwards AllCounted (run_current pid s)
unfolding run_current page_fault change_state
run_current-AllCounted pid s v =
    let t = begin_slice pid s in
    let w = begin_slice-AllCounted pid s v in
    elim (Option-cases (pcb_of pid t)) [
      | inl e ↦ rw (e, run_current) w
      | inr (p, e) ↦ rw (e, run_current) (after p (faulting_page (access p t)) t w)
    ]
  where
    after :
        (p : Pcb) (page : Option ℕ) (t : Simulation)
        → AllCounted t
        → Afterwards AllCounted (after_access p page t)
    after p none t w = execute-AllCounted p t w
    after p (some page) t w = w

pub parts_keep : PartsKeep AllCounted
parts_keep = record {
  starts = start_tick-AllCounted;
  selects = select-AllCounted;
  runs = λ pid s v _. run_current-AllCounted pid s v;
}
