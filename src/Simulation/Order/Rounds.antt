-- ===== src/Simulation/Order/Rounds.antt =====
-- mini_os_simulator/os_core/simulation.py, `_cpu_step`: the process table and the ready queue
-- over whole ticks.

use smart_device_io_t_operat.Prelude.{
  nat_key, ℕ, ◌+◌, ◌≡◌, refl, inl, inr, Option, none, some, List, [], ◌∷◌, ◌==◌, leb, arith,
  Option-cases, Bool-cases,
}
use smart_device_io_t_operat.Process.Pcb.{
  Pcb, ready, running, blocked, terminated, same_state, on_first_cpu_dispatch, finalize_metrics,
}
use smart_device_io_t_operat.Process.Manager.{list_processes}
use smart_device_io_t_operat.Process.Scheduler.{pick_next}
use smart_device_io_t_operat.Process.Scheduler.Queue.{IsPick, pick_next-IsPick}
use smart_device_io_t_operat.Memory.Owner.{free_keeps, advance_fault_timers_keeps}
use smart_device_io_t_operat.Simulation.Cpu.Invariants.{
  Afterwards, Chosen, PartsKeep, run_until_all_terminated_keeps,
}
use smart_device_io_t_operat.Simulation.State.{Simulation, pcb_of, update_pcb, change_state}
use smart_device_io_t_operat.Simulation.Callbacks.{memory_ports}
use smart_device_io_t_operat.Simulation.FileIo.{advance_file_io_timers}
use smart_device_io_t_operat.Simulation.FileIo.Invariants.{advance_io_jobs_keeps}
use smart_device_io_t_operat.Simulation.Cpu.{
  age, age_all, maybe_apply_aging, aging_due, advance_memory, free_memory, start_tick, select,
  begin_slice, page_fault, execute, end_tick, finish, expire, work, run_current, after_access,
  faulting_page, access, dispatch, note_context_switch_if_needed, run_until_all_terminated,
  work_pending, quantum_of, advance_sim_clock,
}
use smart_device_io_t_operat.Simulation.Order.{
  IsOrdered, IsRegistry-OwnPid, update_pcb-IsOrdered, change_state-IsOrdered, enqueue_pid-IsOrdered,
  memory_ports_keep, jobs_keep,
}

age_all-IsOrdered : (ps : List Pcb) (s : Simulation) → IsOrdered s → IsOrdered (age_all ps s)
unfolding age_all age
age_all-IsOrdered [] s v = v
age_all-IsOrdered (p ∷ ps) s v = age_all-IsOrdered ps (age p s) here
  where
    here : IsOrdered (age p s)
    here = elim (Bool-cases (same_state p.state ready)) [
      | inl e ↦
          let w =
            update_pcb-IsOrdered p.pid (λ b. record b { aging_bonus = b.aging_bonus + 1 }) s
              (λ b. refl) v in
          rw e (record { registry = w.registry; once = w.once })
      | inr e ↦ rw e v
    ]

start_tick-IsOrdered : (s : Simulation) → IsOrdered s → IsOrdered (start_tick s)
unfolding start_tick advance_file_io_timers maybe_apply_aging advance_memory
start_tick-IsOrdered s v =
    let s₀ = maybe_apply_aging s in
    let v₀ : IsOrdered s₀ = elim (Bool-cases (aging_due s)) [
      | inl e ↦ rw e (age_all-IsOrdered (list_processes s.processes) s v)
      | inr e ↦ rw e v
    ] in
    let v₁ = advance_fault_timers_keeps memory_ports IsOrdered memory_ports_keep s₀.memory s₀ v₀ in
    let s₁ = advance_memory s₀ in
    let v₂ =
      advance_io_jobs_keeps IsOrdered jobs_keep s₁.pending_file_io s₁
        (record { registry = v₁.registry; once = v₁.once }) in
    record { registry = v₂.registry; once = v₂.once }

pub dispatched_pid : (clock : ℕ) (p : Pcb) → (on_first_cpu_dispatch clock p).pid ≡ p.pid
unfolding on_first_cpu_dispatch
dispatched_pid clock p = ground arith

kept-IsOrdered :
    (s s' : Simulation)
    → s'.processes ≡ s.processes
    → s'.scheduler ≡ s.scheduler
    → IsOrdered s
    → IsOrdered s'
kept-IsOrdered s s' p q v = record { registry = rw p v.registry; once = rw q v.once }

note_context_switch-IsOrdered :
    (pid : ℕ) (s : Simulation) → IsOrdered s → IsOrdered (note_context_switch_if_needed pid s)
unfolding note_context_switch_if_needed
note_context_switch-IsOrdered pid s v =
    kept-IsOrdered s (note_context_switch_if_needed pid s) (ground arith) (ground arith) v

begin_slice-IsOrdered : (pid : ℕ) (s : Simulation) → IsOrdered s → IsOrdered (begin_slice pid s)
unfolding begin_slice
begin_slice-IsOrdered pid s v = elim (Bool-cases (s.ticks_in_slice == 0)) [
  | inr e ↦ rw e v
  | inl e ↦
      let s₁ = note_context_switch_if_needed pid s in
      rw e (
        change_state-IsOrdered pid running (update_pcb pid (on_first_cpu_dispatch s.sim_clock) s₁) (
          update_pcb-IsOrdered pid (on_first_cpu_dispatch s.sim_clock) s₁
            (dispatched_pid s.sim_clock) (note_context_switch-IsOrdered pid s v)))
]

page_fault-IsOrdered :
    (pid page : ℕ) (s : Simulation) → IsOrdered s → IsOrdered (page_fault pid page s)
unfolding page_fault
page_fault-IsOrdered pid page s v =
    let w =
      change_state-IsOrdered pid blocked (record s { observer = _ })
        (record { registry = v.registry; once = v.once }) in
    record { registry = w.registry; once = w.once }

finish-IsOrdered : (pid : ℕ) (s : Simulation) → IsOrdered s → IsOrdered (finish pid s)
unfolding finish free_memory finalize_metrics
finish-IsOrdered pid s v =
    let s₁ = update_pcb pid (finalize_metrics s.sim_clock) s in
    let w₁ = update_pcb-IsOrdered pid (finalize_metrics s.sim_clock) s (λ p. refl) v in
    let s₂ = change_state pid terminated s₁ in
    let w₂ = change_state-IsOrdered pid terminated s₁ w₁ in
    let w₃ = free_keeps memory_ports IsOrdered memory_ports_keep pid s₂.memory s₂ w₂ in
    record { registry = w₃.registry; once = w₃.once }

expire-IsOrdered : (pid : ℕ) (s : Simulation) → IsOrdered s → IsOrdered (expire pid s)
unfolding expire
expire-IsOrdered pid s v =
    let w =
      enqueue_pid-IsOrdered pid (change_state pid ready s) (change_state-IsOrdered pid ready s v) in
    record { registry = w.registry; once = w.once }

execute-IsOrdered : (p : Pcb) (s : Simulation) → IsOrdered s → IsOrdered (execute p s)
unfolding execute end_tick
execute-IsOrdered p s v =
    let s₁ =
      advance_sim_clock
        (record (update_pcb p.pid work s) { ticks_in_slice = s.ticks_in_slice + 1 }) in
    let u = update_pcb-IsOrdered p.pid work s (λ b. ground arith) v in
    let w : IsOrdered s₁ = record { registry = u.registry; once = u.once } in
    elim (Bool-cases ((work p).remaining_time == 0)) [
      | inl e ↦ rw (e, end_tick) (finish-IsOrdered p.pid s₁ w)
      | inr e ↦ elim (Bool-cases (leb (quantum_of s.scheduler.policy) (s.ticks_in_slice + 1))) [
        | inl f ↦ rw (e, end_tick) (rw f (expire-IsOrdered p.pid s₁ w))
        | inr f ↦ rw (e, end_tick) (rw f w)
      ]
    ]

-- The rounds of the loop.
after_access-IsOrdered :
    (p : Pcb) (page : Option ℕ) (s : Simulation)
    → IsOrdered s
    → Afterwards IsOrdered (after_access p page s)
after_access-IsOrdered p none s v = execute-IsOrdered p s v
after_access-IsOrdered p (some page) s v = page_fault-IsOrdered p.pid page s v

run_current-IsOrdered :
    (pid : ℕ) (s : Simulation) → IsOrdered s → Afterwards IsOrdered (run_current pid s)
unfolding run_current
run_current-IsOrdered pid s v =
    let t = begin_slice pid s in
    let w = begin_slice-IsOrdered pid s v in
    elim (Option-cases (pcb_of pid t)) [
      | inl e ↦ rw (e, run_current) w
      | inr (p, e) ↦ rw (e, run_current) (after_access-IsOrdered p (faulting_page (access p t)) t w)
    ]

dispatch-IsOrdered :
    (chosen : Option Pcb) (s : Simulation) → IsOrdered s → Chosen IsOrdered (dispatch chosen s)
dispatch-IsOrdered none s v = elim (Bool-cases (work_pending s)) [
  | inl e ↦ rw e (record { registry = v.registry; once = v.once })
  | inr e ↦ rw e v
]
dispatch-IsOrdered (some p) s v = record { registry = v.registry; once = v.once }

-- The choice that a pick makes in such a state.
pub scheduled-IsPick :
    (s : Simulation)
    → IsOrdered s
    → IsPick s.processes.processes s.scheduler.ready_queue (
      (pick_next s.processes.processes s.scheduler).0,
      (pick_next s.processes.processes s.scheduler).1.ready_queue,
    )
scheduled-IsPick s v =
    pick_next-IsPick s.processes.processes (IsRegistry-OwnPid s.processes v.registry) s.scheduler
      v.once

select-IsOrdered : (s : Simulation) → IsOrdered s → Chosen IsOrdered (select s)
unfolding select
select-IsOrdered s v = elim (Option-cases s.current_pid) [
  | inr (pid, e) ↦ rw (e, select) v
  | inl e ↦
      let (chosen, scheduler) = pick_next s.processes.processes s.scheduler in
      let after = scheduled-IsPick s v in
      rw (e, select)
        (dispatch-IsOrdered chosen (record s { scheduler = scheduler })
          (record { registry = v.registry; once = after.distinct }))
]

pub parts_keep : PartsKeep IsOrdered
parts_keep = record {
  starts = start_tick-IsOrdered;
  selects = select-IsOrdered;
  runs = λ pid s v _. run_current-IsOrdered pid s v;
}

-- The loop that runs the simulation until every process has terminated, for any bound on its
-- steps, from a state in which each block stands under its own pid below the next pid and the
-- ready queue has no duplicates, returns a state in which that is still so; the next `pick_next`
-- there answers none only when no queued process can run, and else takes one that can out of the
-- queue and keeps the others that can.
pub run_until_all_terminated-IsPick :
    (n : ℕ) (s : Simulation)
    → IsOrdered s
    → (t : Simulation) × (run_until_all_terminated n s ≡ some t)
      × IsOrdered t
      × IsPick t.processes.processes t.scheduler.ready_queue (
        (pick_next t.processes.processes t.scheduler).0,
        (pick_next t.processes.processes t.scheduler).1.ready_queue,
      )
run_until_all_terminated-IsPick n s v =
    let (t, e, w) = run_until_all_terminated_keeps IsOrdered parts_keep n s v in
    (t, e, w, scheduled-IsPick t w)
