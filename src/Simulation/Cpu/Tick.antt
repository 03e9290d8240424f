-- ===== src/Simulation/Cpu/Tick.antt =====
-- mini_os_simulator/os_core/simulation.py, the end of `_cpu_step`: the process, the CPU and the
-- ready queue.
use smart_device_io_t_operat.Prelude.{
  nat_key, ℕ, ◌+◌, ◌≤◌, ◌<◌, ◌≡◌, refl, ◌∙◌, ap, inl, inr, true, false, none, some, List, [], ◌∷◌,
  ◌++◌, mem, ◌==◌, leb, if◌then◌else◌, arith, Option-cases,
}
use smart_device_io_t_operat.Prelude.Table
use smart_device_io_t_operat.Prelude.Table.{get-modify}
use smart_device_io_t_operat.Process.Pcb.{ProcessState, ready, Pcb}
use smart_device_io_t_operat.Process.Scheduler.{enqueue}
use smart_device_io_t_operat.Simulation.State.{
  Simulation, pcb_of, update_pcb, change_state, enqueue_pid,
}
use smart_device_io_t_operat.Simulation.State.Blocks.{pcb_of-update_pcb, pcb_of-change_state}
use smart_device_io_t_operat.Simulation.Cpu.{
  execute, end_tick, expire, work, quantum_of, advance_sim_clock,
}

pub scheduler-change_state :
    (pid : ℕ) (state : ProcessState) (s : Simulation)
    → (change_state pid state s).scheduler ≡ s.scheduler
unfolding change_state
scheduler-change_state pid state s = refl

-- The queue with a process that was made ready at its end.
abbrev pub queued_once : ℕ → List ℕ → List ℕ
queued_once pid queue = if mem pid queue then queue else queue ++ pid ∷ []

pub processes-enqueue_pid : (pid : ℕ) (s : Simulation) → (enqueue_pid pid s).processes ≡ s.processes
unfolding enqueue_pid
processes-enqueue_pid pid s = elim (Option-cases (pcb_of pid s)) [
  | inl e ↦ rw (e, enqueue_pid) refl
  | inr (p, e) ↦ rw (e, enqueue_pid) refl
]

enqueue_pid-ready_queue :
    (pid : ℕ) (s : Simulation) (p : Pcb)
    → pcb_of pid s ≡ some p
    → p.pid ≡ pid
    → p.state ≡ ready
    → (enqueue_pid pid s).scheduler.ready_queue ≡ queued_once pid s.scheduler.ready_queue
unfolding enqueue_pid enqueue
enqueue_pid-ready_queue pid s p e own st = simp (e, enqueue_pid) (ground (arith, own, st))

-- `expire`: the process is ready, at the end of the queue, and off the CPU.
expire_lem :
    (pid : ℕ) (s : Simulation) (p : Pcb)
    → pcb_of pid s ≡ some p
    → p.pid ≡ pid
    → (pcb_of pid (expire pid s) ≡ some (record p { state = ready }))
      × ((expire pid s).scheduler.ready_queue ≡ queued_once pid s.scheduler.ready_queue)
      × ((expire pid s).current_pid ≡ none)
unfolding expire
expire_lem pid s p e own =
    let after = pcb_of-change_state pid ready s p e in
    (
      ap (λ m. Table.get pid m.processes) (processes-enqueue_pid pid (change_state pid ready s))
          ∙ after,
      enqueue_pid-ready_queue pid (change_state pid ready s) (record p { state = ready }) after own
            refl
          ∙ ap (λ sch. queued_once pid sch.ready_queue) (scheduler-change_state pid ready s),
      refl,
    )

-- A tick that executes the process of a block with more than one unit of work left, at the end
-- of its quantum, leaves it with one unit done, in the state READY whatever its state was, at
-- the end of the ready queue unless it is queued already, and off the CPU.
pub execute_expires :
    (p : Pcb) (s : Simulation)
    → pcb_of p.pid s ≡ some p
    → 1 < p.remaining_time
    → quantum_of s.scheduler.policy ≤ s.ticks_in_slice + 1
    → (pcb_of p.pid (execute p s) ≡ some (record (work p) { state = ready }))
      × ((execute p s).scheduler.ready_queue ≡ queued_once p.pid s.scheduler.ready_queue)
      × ((execute p s).current_pid ≡ none)
unfolding execute end_tick
execute_expires p s e more q =
    let s' =
      advance_sim_clock
        (record (update_pcb p.pid work s) { ticks_in_slice = s.ticks_in_slice + 1 }) in
    let after = expire_lem p.pid s' (work p) (pcb_of-update_pcb p.pid work s p e) (ground arith) in
    let left : ((work p).remaining_time == 0) ≡ false = ground (arith, more) in
    let over : leb (quantum_of s.scheduler.policy) (s.ticks_in_slice + 1) ≡ true =
      ground (arith, q) in
    rw (left, end_tick) (rw over after)
