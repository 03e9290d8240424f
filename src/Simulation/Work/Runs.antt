-- ===== src/Simulation/Work/Runs.antt =====
-- mini_os_simulator/os_core/simulation.py: the work that a simulation does from its start, with
-- processes that arrive between ticks.
use smart_device_io_t_operat.Prelude.{
  nat_key, ℕ, ◌+◌, ◌≤◌, ◌≡◌, refl, subst, inl, inr, Bool, true, some, List, [], ◌∷◌, All, Dict,
  arith, Option-cases,
}
use smart_device_io_t_operat.Prelude.Table
use smart_device_io_t_operat.Process.Pcb.{Pcb, ready}
use smart_device_io_t_operat.Process.Manager.{list_processes}
use smart_device_io_t_operat.Process.Manager.Registry.{create_process-IsRegistry}
use smart_device_io_t_operat.Process.Scheduler.{Policy}
use smart_device_io_t_operat.Memory.{MemoryManager}
use smart_device_io_t_operat.Simulation.State.{Simulation, change_state}
use smart_device_io_t_operat.Simulation.Cpu.{cpu_step, run_until_all_terminated, all_terminated}
use smart_device_io_t_operat.Simulation.Cpu.Invariants.{
  cpu_step_keeps, run_until_all_terminated_keeps,
}
use smart_device_io_t_operat.Simulation.Order.{IsOrdered, ready-IsOrdered}
use smart_device_io_t_operat.Simulation.Order.Rounds as Rounds
use smart_device_io_t_operat.Simulation.Serving.Calls.{put_ready}
use smart_device_io_t_operat.Simulation.Serving.Operations.{configured, configured-Served}
use smart_device_io_t_operat.Simulation.Work.{IsWorked, total_work, total_burst}
use smart_device_io_t_operat.Simulation.Work.Ticks as Ticks
use smart_device_io_t_operat.Simulation.Work.Callbacks.{
  Paced, change_state-Paced, enqueue_pid-Paced,
}
use smart_device_io_t_operat.Simulation.Work.Arrivals.{
  Event, arrives, readies, ticks, elsewhere, after_step, step, run, burst_of, bursts,
  add_process-Paced,
}

record IsFed (burst : ℕ) (s : Simulation) : Type 0 where
  ordered : IsOrdered s
  paced : Paced burst s

IsFed-same : (a b : ℕ) (s : Simulation) → a ≡ b → IsFed a s → IsFed b s
IsFed-same a b s e v = subst (λ n. IsFed n s) e v

step-IsFed :
    (e : Event) (burst : ℕ) (s : Simulation) → IsFed burst s → IsFed (burst + burst_of e) (step e s)
unfolding step change_state
step-IsFed (arrives name spec) burst s v = record {
  ordered = record {
    registry = create_process-IsRegistry name spec s.processes v.ordered.registry;
    once = v.ordered.once;
  };
  paced = add_process-Paced burst name spec s v.ordered.registry v.paced;
}
step-IsFed (readies pid) burst s v =
    IsFed-same burst (burst + 0) (put_ready pid s) (omega arith) (record {
      ordered = ready-IsOrdered pid s v.ordered;
      paced =
          enqueue_pid-Paced burst pid (change_state pid ready s)
            (change_state-Paced burst pid ready s refl v.paced);
    })
step-IsFed ticks burst s v =
    IsFed-same burst (burst + 0) (after_step (cpu_step s) s) (omega arith)
      (elim (Option-cases (cpu_step s)) [
        | inl e ↦ rw e v
        | inr (r, e) ↦ rw e (record {
          ordered = cpu_step_keeps IsOrdered Rounds.parts_keep s r v.ordered e;
          paced = cpu_step_keeps (Paced burst) (Ticks.parts_keep burst) s r v.paced e;
        })
      ])
step-IsFed (elsewhere f) burst s v =
    IsFed-same burst (burst + 0) (step (elsewhere f) s) (omega arith) (record {
      ordered = record { registry = v.ordered.registry; once = v.ordered.once };
      paced = v.paced;
    })

run-IsFed :
    (es : List Event) (burst : ℕ) (s : Simulation)
    → IsFed burst s
    → IsFed (burst + bursts es) (run es s)
unfolding run bursts
run-IsFed [] burst s v = IsFed-same burst (burst + 0) s (omega arith) v
run-IsFed (e ∷ es) burst s v =
    let w = run-IsFed es (burst + burst_of e) (step e s) (step-IsFed e burst s v) in
    IsFed-same (burst + burst_of e + bursts es) (burst + (burst_of e + bursts es)) _ (omega arith) w

-- Processes that have all terminated have done all their work.
work_done :
    (d : Dict ℕ Pcb)
    → All IsWorked d
    → all_terminated (Table.values d) ≡ true
    → (total_work d ≡ total_burst d) × All (λ p. p.remaining_time ≡ 0) (Table.values d)
unfolding total_work total_burst
work_done [] all h = (refl, tt)
work_done ((k, p) ∷ d) all h =
    let (same, rest) = work_done d all.1 (ground (arith, h)) in
    let over : p.remaining_time ≡ 0 = all.0.finished (ground (arith, h)) in
    (omega (arith, same, over, all.0.adds_up), (over, rest))

-- From a new simulation with any policy, settings and memory, after any arrivals of processes,
-- moves to READY, ticks and changes of other parts: the loop that runs until every process has
-- terminated, for any bound on its steps, returns a state in which each process's work done and
-- left make up its burst, the bursts are those that arrived, a terminated process has none left,
-- and at most one unit of work has been done for each tick of the clock; so when all have
-- terminated, all work is done and the clock is at least the sum of the bursts.
pub run_until_all_terminated-Paced :
    (policy : Policy) (inheritance aging : Bool) (interval : ℕ) (memory : MemoryManager)
    (paging : Bool) (es : List Event) (n : ℕ)
    → let s = run es (configured policy inheritance aging interval memory paging) in
      (t : Simulation) × (run_until_all_terminated n s ≡ some t)
      × Paced (bursts es) t
      × (all_terminated (list_processes t.processes) ≡ true
          → (bursts es ≤ t.sim_clock)
            × All (λ p. p.remaining_time ≡ 0) (list_processes t.processes))
unfolding total_work total_burst
run_until_all_terminated-Paced policy inheritance aging interval memory paging es n =
    let s₀ = configured policy inheritance aging interval memory paging in
    let s = run es s₀ in
    let v : IsFed (bursts es) s = IsFed-same (0 + bursts es) (bursts es) s (omega arith) (
      run-IsFed es 0 s₀ (record {
        ordered = (configured-Served policy inheritance aging interval memory paging).ordered;
        paced = record { once = tt; worked = tt; asked = refl; pace = omega arith };
      })) in
    let (t, e, w) =
      run_until_all_terminated_keeps (Paced (bursts es)) (Ticks.parts_keep (bursts es)) n s
        v.paced in
    (
      t,
      e,
      w,
      λ h.
          let (same, over) = work_done t.processes.processes w.worked h in
          (omega (arith, same, w.asked, w.pace), over),
    )
