-- ===== src/Simulation/Serving/Runs.antt =====
-- mini_os_simulator/os_core/simulation.py: every process that can run is queued or has the CPU,
-- over whole runs, and where a run stands still.
use smart_device_io_t_operat.Prelude.{
  nat_key, ℕ, zero, suc, ◌⊎◌, ◌≡◌, refl, sym, ◌∙◌, subst, ◌≢◌, inl, inr, true, false, Option, none,
  some, List, ◌==◌, mem, arith, Option-cases, Bool-cases,
}
use smart_device_io_t_operat.Process.Pcb.{
  Pcb, ProcessState, new, ready, running, blocked, terminated,
}
use smart_device_io_t_operat.Process.Manager.{list_processes}
use smart_device_io_t_operat.Process.Scheduler.{Scheduler, pick_next, candidate}
use smart_device_io_t_operat.Process.Scheduler.Queue.{IsPick}
use smart_device_io_t_operat.Simulation.Cpu.Invariants.{
  Chosen, PartsKeep, cpu_step_keeps, cpu_step-idle,
}
use smart_device_io_t_operat.Simulation.Cpu.Progress.{step_cases}
use smart_device_io_t_operat.Simulation.State.{Simulation, pcb_of}
use smart_device_io_t_operat.Simulation.State.Blocks.{state_of}
use smart_device_io_t_operat.Simulation.Cpu.{
  idle, selected, start_tick, select, dispatch, run_until_all_terminated, all_terminated,
  work_pending, advance_sim_clock, cpu_step,
}
use smart_device_io_t_operat.Simulation.Order.{IsOrdered}
use smart_device_io_t_operat.Simulation.Order.Rounds.{scheduled-IsPick}
use smart_device_io_t_operat.Simulation.Serving.{Placed, IsServed}
use smart_device_io_t_operat.Simulation.Serving.Ticks.{
  Served, IsServed-Served, alike-IsServed, start_tick-current, start_tick-IsServed,
}
use smart_device_io_t_operat.Simulation.Serving.Rounds.{run_current-IsServed}

-- No process is READY or RUNNING.
abbrev pub NoneCanRun : Simulation → Type 0
NoneCanRun s = (k : ℕ) → (state_of k s ≢ some ready) × (state_of k s ≢ some running)

-- A pick when nobody has the CPU.
module _ (s : Simulation) (v : IsServed none s) (q : List ℕ) (chosen : Option Pcb)
    (pick : IsPick s.processes.processes s.scheduler.ready_queue (chosen, q)) where
  ready-candidate :
      (k : ℕ)
      → state_of k s ≡ some ready
      → (b : Pcb) × (candidate s.processes.processes k ≡ some b)
        × (mem k s.scheduler.ready_queue ≡ true)
  unfolding candidate
  ready-candidate k h = elim (Option-cases (pcb_of k s)) [
    | inl e ↦ ground (arith, e, h)
    | inr (b, e) ↦ (b, ground (arith, e, h), ground (arith, h, v.placed k))
  ]

  pick-NoneCanRun : chosen ≡ none → NoneCanRun s
  pick-NoneCanRun e k = (
    λ h. let (b, c, m) = ready-candidate k h in ground (arith, pick.none_left e k m, c),
    λ h. ground (arith, h, v.placed k),
  )

  pick-Placed : (p : Pcb) → chosen ≡ some p → (k : ℕ) → Placed k (state_of k s) q (some p.pid)
  pick-Placed p e k = by_state (state_of k s) refl
    where
      by_state : (o : Option ProcessState) → state_of k s ≡ o → Placed k o q (some p.pid)
      by_state none h = tt
      by_state (some new) h = tt
      by_state (some ready) h =
          let (b, c, m) = ready-candidate k h in
          elim (Bool-cases (p.pid == k)) [
            | inl same ↦ ground (arith, same)
            | inr apart ↦ ground (arith, apart, pick.others_stay p b k e m c)
          ]
      by_state (some running) h = ground (arith, h, v.placed k)
      by_state (some blocked) h = tt
      by_state (some terminated) h = tt

  dispatch-IsServed :
      (sch : Scheduler)
      → sch.ready_queue ≡ q
      → s.current_pid ≡ none
      → Chosen Served (dispatch chosen (record s { scheduler = sch }))
  dispatch-IsServed sch e off = by_choice chosen refl
    where
      ordered : IsOrdered (record s { scheduler = sch })
      ordered = record { registry = v.ordered.registry; once = rw e pick.distinct }

      idle_placed : chosen ≡ none → (k : ℕ) → Placed k (state_of k s) sch.ready_queue s.current_pid
      idle_placed c k = nowhere (state_of k s) (pick-NoneCanRun c k).0 (pick-NoneCanRun c k).1
        where
          nowhere :
              (o : Option ProcessState)
              → o ≢ some ready
              → o ≢ some running
              → Placed k o sch.ready_queue s.current_pid
          nowhere none h r = tt
          nowhere (some new) h r = tt
          nowhere (some ready) h r = absurd (h refl)
          nowhere (some running) h r = absurd (r refl)
          nowhere (some blocked) h r = tt
          nowhere (some terminated) h r = tt

      by_choice :
          (c : Option Pcb) → chosen ≡ c → Chosen Served (dispatch c (record s { scheduler = sch }))
      by_choice none c = elim (Bool-cases (work_pending s)) [
        | inl w ↦ rw w (
            alike-IsServed s.current_pid (record s { scheduler = sch }) _ refl refl
              (record { ordered = ordered; placed = idle_placed c }))
        | inr w ↦ rw w (record { ordered = ordered; placed = idle_placed c })
      ]
      by_choice (some p) c =
          alike-IsServed (some p.pid) (record s { scheduler = sch }) _ refl refl
            (record { ordered = ordered; placed = λ k. rw e (pick-Placed p c k) })

select-IsServed : (s : Simulation) → Served s → Chosen Served (select s)
unfolding select
select-IsServed s v = elim (Option-cases s.current_pid) [
  | inr (pid, e) ↦ rw (e, select) v
  | inl e ↦
      let (chosen, scheduler) = pick_next s.processes.processes s.scheduler in
      let w : IsServed none s = subst (λ c. IsServed c s) e v in
      rw (e, select)
        (dispatch-IsServed s w scheduler.ready_queue chosen (scheduled-IsPick s v.ordered) scheduler
          refl e)
]

pub parts_keep : PartsKeep Served
parts_keep = record {
  starts = λ s v.
      IsServed-Served s.current_pid (start_tick s) (start_tick-current s)
        (start_tick-IsServed s.current_pid s v);
  selects = select-IsServed;
  runs = run_current-IsServed;
}

-- The simulation stands still: nobody can run, and no page fault or file operation is under way.
pub record StandsStill (s : Simulation) : Type 0 where
  pub none_can_run : NoneCanRun s
  pub nothing_pending : work_pending s ≡ false

dispatch-StandsStill :
    (chosen : Option Pcb) (s t : Simulation)
    → (chosen ≡ none → NoneCanRun s)
    → dispatch chosen s ≡ idle false t
    → StandsStill t
dispatch-StandsStill none s t still e = elim (Bool-cases (work_pending s)) [
  | inl w ↦ absurd (differ (rw w at e))
  | inr w ↦
      let same : s ≡ t = same_idle (rw w at e) in
      rw (← same) (record { none_can_run = still refl; nothing_pending = w })
]
  where
    differ : idle true (advance_sim_clock s) ≢ idle false t
    differ h = cc

    same_idle : idle false s ≡ idle false t → s ≡ t
    same_idle h = cc
dispatch-StandsStill (some p) s t still e = cc

select-StandsStill : (s t : Simulation) → Served s → select s ≡ idle false t → StandsStill t
unfolding select
select-StandsStill s t v h = elim (Option-cases s.current_pid) [
  | inr (pid, e) ↦
      let chosen : select s ≡ selected pid s = simp (e, select) refl in
      absurd (differ pid (sym chosen ∙ h))
  | inl e ↦
      let (chosen, scheduler) = pick_next s.processes.processes s.scheduler in
      let w : IsServed none s = subst (λ c. IsServed c s) e v in
      let picked : select s ≡ dispatch chosen (record s { scheduler = scheduler }) =
        simp (e, select) refl in
      dispatch-StandsStill chosen (record s { scheduler = scheduler }) t
        (pick-NoneCanRun s w scheduler.ready_queue chosen (scheduled-IsPick s v.ordered))
        (sym picked ∙ h)
]
  where
    differ : (pid : ℕ) → selected pid s ≢ idle false t
    differ pid h = cc

-- A number of ticks, each of which answers True.
abbrev pub Ticks : ℕ → Simulation → Simulation → Type 0
Ticks zero s t = s ≡ t
Ticks (suc n) s t = (s' : Simulation) × (cpu_step s ≡ some (true, s')) × Ticks n s' t

-- The ways in which the run ends.
abbrev pub Ends : ℕ → Simulation → Simulation → Type 0
Ends n s t = (all_terminated (list_processes t.processes) ≡ true) ⊎ StandsStill t ⊎ Ticks n s t

Ends-suc :
    (n : ℕ) (s s' t : Simulation) → cpu_step s ≡ some (true, s') → Ends n s' t → Ends (suc n) s t
Ends-suc n s s' t e (inl h) = inl h
Ends-suc n s s' t e (inr (inl h)) = inr (inl h)
Ends-suc n s s' t e (inr (inr h)) = inr (inr (s', e, h))

-- The loop from a state in which everyone who can run is served.
pub run_until_all_terminated-Ends :
    (n : ℕ) (s : Simulation)
    → Served s
    → (t : Simulation) × (run_until_all_terminated n s ≡ some t) × Served t × Ends n s t
unfolding run_until_all_terminated
run_until_all_terminated-Ends zero s v = (s, refl, v, inr (inr refl))
run_until_all_terminated-Ends (suc n) s v =
    elim (Bool-cases (all_terminated (list_processes s.processes))) [
      | inl d ↦ (s, rw (d, run_until_all_terminated) refl, v, inl d)
      | inr d ↦ elim (step_cases s) [
        | inl (s', e) ↦
            let (t, f, w, h) =
              run_until_all_terminated-Ends n s'
                (cpu_step_keeps Served parts_keep s (true, s') v e) in
            (t, rw (d, run_until_all_terminated) (rw e f), w, Ends-suc n s s' t e h)
        | inr (s', e) ↦
            let (u, w, chosen) = cpu_step-idle Served parts_keep s s' v e in
            (
              s',
              rw (d, run_until_all_terminated) (rw e refl),
              cpu_step_keeps Served parts_keep s (false, s') v e,
              inr (inl (select-StandsStill u s' w chosen)),
            )
      ]
    ]
