-- ===== src/Simulation/Cpu/Slicing.antt =====
-- mini_os_simulator/os_core/simulation.py, `_cpu_step`: the state of a process in its slice, and what
-- its dispatch keeps of it.
use smart_device_io_t_operat.Prelude.{
  nat_key, ℕ, zero, suc, ◌+◌, ◌≡◌, refl, ◌∙◌, ap, inl, inr, false, none, some, ◌==◌, arith,
  Bool-cases,
}
use smart_device_io_t_operat.Prelude.Table
use smart_device_io_t_operat.Process.Pcb.{Pcb, ProcessState, ready, running, on_first_cpu_dispatch}
use smart_device_io_t_operat.Simulation.State.{Simulation, pcb_of, update_pcb, change_state}
use smart_device_io_t_operat.Simulation.State.Blocks.{pcb_of-update_pcb, pcb_of-change_state}
use smart_device_io_t_operat.Simulation.Cpu.{
  Outcome, ticked, again, run_current, begin_slice, note_context_switch_if_needed, is_previous,
}
use smart_device_io_t_operat.Simulation.Cpu.Tick.{queued_once}

abbrev pub after : Outcome → Simulation
after (ticked s) = s
after (again s) = s

-- So many rounds of the loop with the process on the CPU.
unfoldable pub slice : ℕ → ℕ → Simulation → Simulation
slice zero pid s = s
slice (suc k) pid s = after (run_current pid (slice k pid s))

-- The block of `pid` in `t` has done `k` units more than `p`.
pub record HasDone (pid k : ℕ) (p : Pcb) (t : Simulation) : Type 0 where
  pub block : Pcb
  pub there : pcb_of pid t ≡ some block
  pub own_pid : block.pid ≡ pid
  pub left : block.remaining_time + k ≡ p.remaining_time
  pub counter : block.program_counter ≡ p.program_counter + k

-- `t` has the settings and the queue of `s`, and the process is still on the CPU.
pub record IsSlicing (pid k : ℕ) (p : Pcb) (s t : Simulation) : Type 0 where
  pub done : HasDone pid k p t
  pub in_slice : t.ticks_in_slice ≡ k
  pub no_paging : t.enable_memory_access ≡ false
  pub scheduler : t.scheduler ≡ s.scheduler
  pub current : t.current_pid ≡ s.current_pid
  pub clock : t.sim_clock ≡ s.sim_clock + k

-- The process is READY, at the end of the queue, and off the CPU.
pub record IsExpired (pid k : ℕ) (p : Pcb) (s t : Simulation) : Type 0 where
  pub done : HasDone pid k p t
  pub is_ready : done.block.state ≡ ready
  pub queue : t.scheduler.ready_queue ≡ queued_once pid s.scheduler.ready_queue
  pub off : t.current_pid ≡ none

-- What differs from `t` only in parts that have nothing to do with the slice.
alike-IsSlicing :
    (pid k : ℕ) (p : Pcb) (s t u : Simulation)
    → u.ticks_in_slice ≡ t.ticks_in_slice
    → u.enable_memory_access ≡ t.enable_memory_access
    → u.scheduler ≡ t.scheduler
    → u.current_pid ≡ t.current_pid
    → u.sim_clock ≡ t.sim_clock
    → HasDone pid k p u
    → IsSlicing pid k p s t
    → IsSlicing pid k p s u
alike-IsSlicing pid k p s t u ticks paging scheduler current clock d v = record {
  done = d;
  in_slice = ticks ∙ v.in_slice;
  no_paging = paging ∙ v.no_paging;
  scheduler = scheduler ∙ v.scheduler;
  current = current ∙ v.current;
  clock = clock ∙ v.clock;
}

-- `u` has the processes of `t`.
same-HasDone :
    (pid k : ℕ) (p : Pcb) (t u : Simulation)
    → u.processes ≡ t.processes
    → HasDone pid k p t
    → HasDone pid k p u
same-HasDone pid k p t u e d = record {
  block = d.block;
  there = ap (λ m. Table.get pid m.processes) e ∙ d.there;
  own_pid = d.own_pid;
  left = d.left;
  counter = d.counter;
}

note_context_switch-IsSlicing :
    (pid k : ℕ) (p : Pcb) (s t : Simulation)
    → IsSlicing pid k p s t
    → IsSlicing pid k p s (note_context_switch_if_needed pid t)
unfolding note_context_switch_if_needed
note_context_switch-IsSlicing pid k p s t v = elim (Bool-cases (is_previous pid t.cs_prev_pid)) [
  | inl e ↦ rw e (
      alike-IsSlicing pid k p s t _ refl refl refl refl refl (same-HasDone pid k p t _ refl v.done)
        v)
  | inr e ↦ rw e (
      alike-IsSlicing pid k p s t _ refl refl refl refl refl (same-HasDone pid k p t _ refl v.done)
        v)
]

-- An assignment to fields of the block that have no part in the work.
update_pcb-IsSlicing :
    (pid k : ℕ) (p : Pcb) (s t : Simulation) (f : Pcb → Pcb)
    → ((b : Pcb)
        → ((f b).pid ≡ b.pid)
          × ((f b).remaining_time ≡ b.remaining_time)
          × ((f b).program_counter ≡ b.program_counter))
    → IsSlicing pid k p s t
    → IsSlicing pid k p s (update_pcb pid f t)
update_pcb-IsSlicing pid k p s t f same v =
    let b = v.done.block in
    let (own, left, counter) = same b in
    alike-IsSlicing pid k p s t _ refl refl refl refl refl
      (record {
        block = f b;
        there = pcb_of-update_pcb pid f t b v.done.there;
        own_pid = own ∙ v.done.own_pid;
        left = omega (arith, left, v.done.left);
        counter = counter ∙ v.done.counter;
      })
      v

change_state-IsSlicing :
    (pid k : ℕ) (p : Pcb) (s t : Simulation) (st : ProcessState)
    → IsSlicing pid k p s t
    → IsSlicing pid k p s (change_state pid st t)
unfolding change_state
change_state-IsSlicing pid k p s t st v =
    let b = v.done.block in
    alike-IsSlicing pid k p s t _ refl refl refl refl refl
      (record {
        block = record b { state = st };
        there = pcb_of-change_state pid st t b v.done.there;
        own_pid = v.done.own_pid;
        left = v.done.left;
        counter = v.done.counter;
      })
      v

pub begin_slice-IsSlicing :
    (pid k : ℕ) (p : Pcb) (s t : Simulation)
    → IsSlicing pid k p s t
    → IsSlicing pid k p s (begin_slice pid t)
unfolding begin_slice on_first_cpu_dispatch
begin_slice-IsSlicing pid k p s t v = elim (Bool-cases (t.ticks_in_slice == 0)) [
  | inr e ↦ rw e v
  | inl e ↦
      let t₁ = note_context_switch_if_needed pid t in
      let f = on_first_cpu_dispatch t.sim_clock in
      rw e (
        change_state-IsSlicing pid k p s (update_pcb pid f t₁) running (
          update_pcb-IsSlicing pid k p s t₁ f (λ b. (ground arith, ground arith, ground arith))
            (note_context_switch-IsSlicing pid k p s t v)))
]
