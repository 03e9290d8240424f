-- ===== src/Simulation/Cpu/Progress.antt =====
-- mini_os_simulator/os_core/simulation.py: the rounds of the loop of `_cpu_step`.
use smart_device_io_t_operat.Prelude.{
  nat_key, ℕ, zero, suc, ◌+◌, ◌≤◌, ◌<◌, ◌≡◌, refl, ◌∙◌, ◌⊎◌, inl, inr, Bool, true, false, Option,
  none, some, length, if◌then◌else◌, arith, Option-cases,
}
use smart_device_io_t_operat.Process.Pcb.{Pcb}
use smart_device_io_t_operat.Process.Scheduler.{pick_next, pick_by}
use smart_device_io_t_operat.Process.Scheduler.Queue.{length-pick_by}
use smart_device_io_t_operat.Simulation.State.{Simulation, pcb_of, change_state}
use smart_device_io_t_operat.Simulation.Cpu.{
  Selection, idle, selected, Outcome, ticked, again, select, run_current, begin_slice,
  note_context_switch_if_needed, page_fault, access, after_access, faulting_page, cpu_loop,
  cpu_step, fuel_for, start_tick,
}

abbrev occupied : Option ℕ → ℕ
occupied none = 0
occupied (some pid) = 1

-- Rounds that may go by without ending the tick.
abbrev measure : Simulation → ℕ
measure s = length s.scheduler.ready_queue + occupied s.current_pid

abbrev Shorter : ℕ → Selection → Type 0
Shorter n (idle answer s) = Unit {0}
Shorter n (selected pid s) = length s.scheduler.ready_queue < n

idle-Shorter :
    (b : Bool) (n : ℕ) (s t : Simulation) → Shorter n (if b then idle true s else idle false t)
idle-Shorter true n s t = tt
idle-Shorter false n s t = tt

select-Shorter : (s : Simulation) → Shorter (measure s) (select s)
unfolding select pick_next
select-Shorter s = elim (Option-cases s.current_pid) [
  | inr (pid, e) ↦ rw (e, select) (ground (arith, e))
  | inl e ↦
      let short = length-pick_by s.scheduler.policy s.processes.processes s.scheduler.ready_queue in
      elim (Option-cases
        (pick_by s.scheduler.policy s.processes.processes s.scheduler.ready_queue).0) [
          | inl f ↦ rw (e, select) (rw f (idle-Shorter _ _ _ _))
          | inr (p, f) ↦ rw (e, select) (rw f (omega (arith, short p f)))
        ]
]

-- A round that goes on leaves the CPU empty and the queue as it was.
abbrev Leaves : Simulation → Outcome → Type 0
Leaves s (ticked s') = Unit {0}
Leaves s (again s') = (s'.scheduler.ready_queue ≡ s.scheduler.ready_queue) × (s'.current_pid ≡ none)

begin_slice-queue :
    (pid : ℕ) (s : Simulation) → (begin_slice pid s).scheduler.ready_queue ≡ s.scheduler.ready_queue
unfolding begin_slice change_state note_context_switch_if_needed
begin_slice-queue pid s = ground arith

page_fault-queue :
    (pid page : ℕ) (s : Simulation)
    → ((page_fault pid page s).scheduler.ready_queue ≡ s.scheduler.ready_queue)
      × ((page_fault pid page s).current_pid ≡ none)
unfolding page_fault change_state
page_fault-queue pid page s = (refl, refl)

after_access-Leaves :
    (pcb : Pcb) (page : Option ℕ) (s : Simulation) → Leaves s (after_access pcb page s)
after_access-Leaves pcb none s = tt
after_access-Leaves pcb (some page) s = page_fault-queue pcb.pid page s

queue-Leaves :
    (s t : Simulation) (o : Outcome)
    → t.scheduler.ready_queue ≡ s.scheduler.ready_queue
    → Leaves t o
    → Leaves s o
queue-Leaves s t (ticked s') e l = tt
queue-Leaves s t (again s') e (q, c) = (q ∙ e, c)

run_current-Leaves : (pid : ℕ) (s : Simulation) → Leaves s (run_current pid s)
unfolding run_current
run_current-Leaves pid s = elim (Option-cases (pcb_of pid (begin_slice pid s))) [
  | inl e ↦ rw (e, run_current) tt
  | inr (pcb, e) ↦
      rw (e, run_current)
        (let t = begin_slice pid s in
          queue-Leaves s t (after_access pcb (faulting_page (access pcb t)) t)
            (begin_slice-queue pid s) (after_access-Leaves pcb (faulting_page (access pcb t)) t))
]

pub Selection-cases :
    (x : Selection)
    → ((answer : Bool) × (s : Simulation) × (x ≡ idle answer s))
      ⊎ ((pid : ℕ) × (s : Simulation) × (x ≡ selected pid s))
Selection-cases (idle answer s) = inl (answer, s, refl)
Selection-cases (selected pid s) = inr (pid, s, refl)

pub Outcome-cases :
    (x : Outcome) → ((s : Simulation) × (x ≡ ticked s)) ⊎ ((s : Simulation) × (x ≡ again s))
Outcome-cases (ticked s) = inl (s, refl)
Outcome-cases (again s) = inr (s, refl)

-- With fuel above the measure the loop answers.
cpu_loop_total :
    (fuel : ℕ) (s : Simulation)
    → measure s < fuel
    → (r : Bool × Simulation) × (cpu_loop fuel s ≡ some r)
unfolding cpu_loop
cpu_loop_total zero s h = elim h [ ]
cpu_loop_total (suc fuel) s h = elim (Selection-cases (select s)) [
  | inl (answer, s', e) ↦ ((answer, s'), rw (e, cpu_loop) refl)
  | inr (pid, s', e) ↦
      let short : length s'.scheduler.ready_queue < measure s = rw e at (select-Shorter s) in
      elim (Outcome-cases (run_current pid s')) [
        | inl (t, f) ↦ ((true, t), rw (e, cpu_loop) (rw f refl))
        | inr (t, f) ↦
            let left : Leaves s' (again t) = rw f at (run_current-Leaves pid s') in
            let (r, g) = cpu_loop_total fuel t (ground (arith, left.0, left.1, short)) in
            (r, rw (e, cpu_loop) (rw f g))
      ]
]

occupied-le : (o : Option ℕ) → occupied o ≤ 1
occupied-le none = omega arith
occupied-le (some pid) = omega arith

-- `_cpu_step` returns from every state: its loop ends the tick within two rounds more than the
-- ready queue is long.
pub cpu_step_total : (s : Simulation) → (r : Bool × Simulation) × (cpu_step s ≡ some r)
unfolding cpu_step
cpu_step_total s =
    cpu_loop_total (fuel_for (start_tick s)) (start_tick s)
      (omega (arith, occupied-le (start_tick s).current_pid))

pub step_cases :
    (s : Simulation)
    → ((s' : Simulation) × (cpu_step s ≡ some (true, s')))
      ⊎ ((s' : Simulation) × (cpu_step s ≡ some (false, s')))
step_cases s = cases (cpu_step_total s)
  where
    cases :
        (r : Bool × Simulation) × (cpu_step s ≡ some r)
        → ((s' : Simulation) × (cpu_step s ≡ some (true, s')))
          ⊎ ((s' : Simulation) × (cpu_step s ≡ some (false, s')))
    cases ((true, s'), e) = inl (s', e)
    cases ((false, s'), e) = inr (s', e)
